-- ===== src/Cli/Clone.antt =====
-- `cmd_clone` of src/hdfmonkey.c.
pub mod Copies
pub mod Volumes
pub mod Command
pub mod Back
use hdfmonkey.Base.{
  ℕ, zero, suc, ◌+◌, ◌-◌, ◌*◌, ◌%◌, List, false, none, some, ltb, if◌then◌else◌, get_elem?, text, ℤ,
  is_negative, minus_one, word_modulus, fault, out_of_fuel, pure, ◌>>=◌, ◌>>◌,
}
use hdfmonkey.Posix.{Posix, CString}
use hdfmonkey.Volume.{Volume, bytes_per_sector, sector_count}
use hdfmonkey.Volume.Dispatch.{volume_read, volume_write}
use hdfmonkey.Machine.{lift}
use hdfmonkey.FatFs.{FatFs}
use hdfmonkey.Libc.{Libc}
use hdfmonkey.Cli.Support.{MainCmd, success, complain, close_volume, open_image, create_image}

abbrev pub clone_buffer_size : ℕ
clone_buffer_size = 1048576

abbrev pub chunk_size : ℕ → ℕ
chunk_size left = if ltb clone_buffer_size left then clone_buffer_size else left

module _ {P : Posix} (T : Libc P) (F : FatFs P) where
  abbrev pub finish : Volume → Volume → ℤ → MainCmd T F ℤ
  finish source_vol destination_vol status = do
    close_volume T F source_vol
    close_volume T F destination_vol
    pure status

  -- A round moves a byte at least, so `total_size + 1` rounds are enough.
  unfoldable pub clone_loop :
      (fuel : ℕ) → Volume → Volume → (position total_size : ℕ) → MainCmd T F ℤ
  clone_loop zero source_vol destination_vol position total_size = λ m. out_of_fuel
  clone_loop (suc fuel) source_vol destination_vol position total_size =
      if ltb position total_size
      then (do
        let transfer_size = chunk_size (total_size - position)
        (r, buffer) ← lift (volume_read P source_vol position transfer_size)
        if is_negative r then finish source_vol destination_vol minus_one else (do
          r' ← lift (volume_write P destination_vol position buffer)
          if is_negative r'
              then finish source_vol destination_vol minus_one
              else clone_loop fuel source_vol destination_vol (position + transfer_size)
                  total_size))
      else finish source_vol destination_vol success

  -- A partition's sector count was never set.
  abbrev count_of : Volume → (ℕ → MainCmd T F ℤ) → MainCmd T F ℤ
  count_of vol next = elim (sector_count vol) [ none ↦ λ m. fault | some n ↦ next n ]

  unfoldable pub clone_volume : Volume → CString → MainCmd T F ℤ
  clone_volume source_vol destination_filename = count_of source_vol λ n. do
    r ← create_image T F destination_filename n
    elim r [
      | none ↦ do close_volume T F source_vol; pure minus_one
      | some destination_vol ↦
          let total_size = bytes_per_sector source_vol * n % word_modulus in
          clone_loop (suc total_size) source_vol destination_vol 0 total_size
    ]

  unfoldable pub cmd_clone : List CString → MainCmd T F ℤ
  cmd_clone argv = elim (get_elem? argv 2) [
    | none ↦ complain T F (text "No source image filename supplied")
    | some source_filename ↦ elim (get_elem? argv 3) [
      | none ↦ complain T F (text "No destination image filename supplied")
      | some destination_filename ↦ do
        r ← open_image T F source_filename false false
        elim r [
          | none ↦ pure minus_one
          | some source_vol ↦ clone_volume source_vol destination_filename
        ]
    ]
  ]
