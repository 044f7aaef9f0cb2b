-- ===== src/Diskio.antt =====
-- src/diskio.c: the sector interface that the FAT driver calls. A transfer's size is an `unsigned
-- int`, and its position an `off_t`, of 64 bits.
pub mod Sectors
pub mod RoundTrip
pub mod ReadOnly
use hdfmonkey.Base.{
  ℕ, zero, suc, ◌*◌, ◌%◌, ◌^◌, List, Option, none, some, ltb, ◌==◌, if◌then◌else◌, length, set,
  take, [], ◌∷◌, ok, ℤ, pos, to_word, word_modulus, fault, Cmd, pure, ◌>>=◌, ◌>>◌,
}
use hdfmonkey.Integers.{width, uint, word}
use hdfmonkey.Posix.{Posix}
use hdfmonkey.Volume.{Volume, bytes_per_sector, sector_count}
use hdfmonkey.Volume.Dispatch.{volume_read, volume_write}
use hdfmonkey.Machine.{Machine, lift}

-- The control codes of `disk_ioctl`.
abbrev pub ctrl_sync : ℕ
ctrl_sync = 0

abbrev pub get_sector_count : ℕ
get_sector_count = 1

abbrev pub get_sector_size : ℕ
get_sector_size = 2

abbrev pub get_block_size : ℕ
get_block_size = 3

pub data DResult : Type 0 where
  res_ok res_error res_wrprt res_notrdy res_parerr : DResult

abbrev pub drive : List (Option Volume) → ℕ → Option Volume
drive [] i = none
drive (v ∷ vs) zero = v
drive (v ∷ vs) (suc i) = drive vs i

module _ (P : Posix) (F : Type 0) where
  abbrev pub DiskCmd : Type 0 → Type 0
  DiskCmd = Cmd (Machine P.World F)

  -- A store outside the array is undefined.
  unfoldable pub disk_map : (drive_number : ℕ) → Volume → DiskCmd ℤ
  disk_map drive_number vol m =
      if ltb drive_number (length m.drives)
      then ok (pos 0) (record m { drives = set m.drives drive_number (some vol) })
      else fault

  unfoldable pub disk_initialize : (drv : ℕ) → DiskCmd ℕ
  disk_initialize drv = pure 0

  unfoldable pub disk_status : (drv : ℕ) → DiskCmd ℕ
  disk_status drv = pure 0

  -- The volume of a drive; NULL is followed.
  abbrev container : ℕ → DiskCmd Volume
  container drv m = elim (drive m.drives drv) [ none ↦ fault | some v ↦ ok v m ]

  -- `count` is a `BYTE` times an `unsigned int`.
  abbrev transfer_size : Volume → ℕ → ℕ
  transfer_size vol count = count * bytes_per_sector vol % 2 ^ width uint

  abbrev transfer_position : Volume → ℕ → ℕ
  transfer_position vol sector = sector * bytes_per_sector vol % word_modulus

  abbrev verdict : ℤ → ℕ → DResult
  verdict result size_requested = if to_word result == size_requested then res_ok else res_parerr

  unfoldable pub disk_read : (drv sector count : ℕ) → DiskCmd (DResult × List ℕ)
  unfolding volume_read to_word
  disk_read drv sector count = do
    vol ← container drv
    (result, buff) ←
        lift (volume_read P vol (transfer_position vol sector) (transfer_size vol count))
    pure (verdict result (transfer_size vol count), buff)

  -- `buff` is the caller's buffer, of which `count` sectors are written.
  unfoldable pub disk_write : (drv : ℕ) → List ℕ → (sector count : ℕ) → DiskCmd DResult
  unfolding volume_write to_word
  disk_write drv buff sector count = do
    vol ← container drv
    result ←
        lift
          (volume_write P vol (transfer_position vol sector) (take (transfer_size vol count) buff))
    pure (verdict result (transfer_size vol count))

  -- A partition's sector count was never set.
  abbrev stored : Option ℕ → DiskCmd (DResult × Option ℕ)
  stored none = λ m. fault
  stored (some n) = pure (res_ok, some n)

  -- The result, and what is stored through `buff`.
  unfoldable pub disk_ioctl : (drv ctrl : ℕ) → DiskCmd (DResult × Option ℕ)
  disk_ioctl drv ctrl =
      if ctrl == ctrl_sync
      then pure (res_ok, none)
      else if ctrl == get_sector_size
      then (do vol ← container drv; pure (res_ok, some (bytes_per_sector vol % 2 ^ width word)))
      else if ctrl == get_sector_count
      then (do vol ← container drv; stored (sector_count vol))
      else if ctrl == get_block_size
      then pure (res_ok, some 1)
      else pure (res_parerr, none)
