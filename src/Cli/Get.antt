-- ===== src/Cli/Get.antt =====
-- `cmd_get` of src/hdfmonkey.c.
pub mod Delivers
use hdfmonkey.Base.{
  ℕ, zero, suc, List, true, false, none, some, ◌==◌, if◌then◌else◌, get_elem?, length, text, ℤ,
  minus_one, out_of_fuel, pure, ◌>>=◌, ◌>>◌, call,
}
use hdfmonkey.Posix.{Posix, CString}
use hdfmonkey.FatFs.{FatFs, read_existing}
use hdfmonkey.Libc.{Libc, Stream, stdout, opened}
use hdfmonkey.Cli.Support.{
  MainCmd, success, complain, fat_failure, fat_perror, open_image, is_ok, on_world, in_the_world,
}

abbrev pub buffer_size : ℕ
buffer_size = 2048

module _ {P : Posix} (T : Libc P) (F : FatFs P) where
  -- The stream is closed unless it is the standard output.
  abbrev close_stream : Stream → MainCmd T F (Unit {0})
  close_stream stdout = pure tt
  close_stream (opened n) = in_the_world T F (T.fclose (opened n))

  -- `call` for its effect; the result is not looked at.
  abbrev pub close_file : F.File → MainCmd T F (Unit {0})
  close_file file = do r ← call (F.f_close file); pure tt

  -- A full buffer asks for another round; a file of `n` bytes takes `n / 2048 + 1`.
  unfoldable pub get_loop : (fuel : ℕ) → F.File → Stream → MainCmd T F ℤ
  get_loop zero input_file output_stream = λ m. out_of_fuel
  get_loop (suc fuel) input_file output_stream = do
    (result, buffer, file) ← call (F.f_read input_file buffer_size)
    if is_ok result
        then (do
          in_the_world T F (T.fwrite output_stream buffer)
          if length buffer == buffer_size
              then get_loop fuel file output_stream
              else (do close_file file; close_stream output_stream; pure success))
        else (do fat_perror T F (text "Error reading file") result; close_file file; pure minus_one)

  unfoldable pub get_file : (fuel : ℕ) → CString → CString → Stream → MainCmd T F ℤ
  get_file fuel image_filename source_filename output_stream = do
    r ← open_image T F image_filename true false
    elim r [
      | none ↦ pure minus_one
      | some vol ↦ do
        (result, input_file) ← call (F.f_open source_filename read_existing)
        if is_ok result
            then get_loop fuel input_file output_stream
            else fat_failure T F (text "Error opening file") result
    ]

  unfoldable pub cmd_get : (fuel : ℕ) → List CString → MainCmd T F ℤ
  cmd_get fuel argv = elim (get_elem? argv 2) [
    | none ↦ complain T F (text "No image filename supplied")
    | some image_filename ↦ elim (get_elem? argv 3) [
      | none ↦ complain T F (text "No source filename supplied")
      | some source_filename ↦ elim (get_elem? argv 4) [
        | none ↦ get_file fuel image_filename source_filename stdout
        | some output ↦ do
          r ← on_world T F (T.fopen_write output)
          elim r [
            | none ↦ do
              in_the_world T F (P.perror (text "Could not open file for writing"))
              pure minus_one
            | some output_stream ↦ get_file fuel image_filename source_filename output_stream
          ]
      ]
    ]
  ]
