-- ===== src/Cli/Put.antt =====
-- `put_file` and `cmd_put` of src/hdfmonkey.c. Fuel bounds the depth of the directories and the
-- rounds of each loop.
pub mod Loop
pub mod Stores
pub mod Trees
pub mod Entries
pub mod Whole
pub mod Command
use hdfmonkey.Base.{
  ℕ, zero, suc, ◌-◌, List, [], ◌∷◌, true, ◌||◌, none, some, ltb, ◌==◌, if◌then◌else◌, get_elem?,
  fault, set, length, take, drop, text, same_bytes, ℤ, pos, negsuc, minus_one, is_negative,
  out_of_fuel, pure, ◌>>=◌, ◌>>◌, call, ok,
}
use hdfmonkey.Posix.{Posix, CString}
use hdfmonkey.FatFs.{FatFs, write_always}
use hdfmonkey.Libc.{Libc, Stream}
use hdfmonkey.Cli.Names.{concat_filename, strip_trailing_slash}
use hdfmonkey.Cli.Support.{
  MainCmd, success, complain, fat_failure, fat_perror, open_image, is_ok, on_world, in_the_world,
  fat_path_is_dir, is_directory,
}
use hdfmonkey.Cli.Get.{buffer_size, close_file}

module _ {P : Posix} (T : Libc P) (F : FatFs P) where
  abbrev failure : CString → MainCmd T F ℤ
  failure message = do in_the_world T F (P.perror message); pure minus_one

  abbrev close_both : Stream → F.File → MainCmd T F ℤ
  close_both input_file output_file = do
    in_the_world T F (T.fclose input_file)
    close_file T F output_file
    pure success

  abbrev write_failed : F.File → MainCmd T F ℤ
  write_failed output_file = do close_file T F output_file; pure minus_one

  unfoldable pub put_loop : (fuel : ℕ) → Stream → F.File → MainCmd T F ℤ
  put_loop zero input_file output_file = λ m. out_of_fuel
  put_loop (suc fuel) input_file output_file = do
    buffer ← on_world T F (T.fread input_file buffer_size)
    m ← λ m. ok m m
    if T.ferror input_file m.world
        then failure (text "Error reading file")
        else if length buffer == 0
        then close_both input_file output_file
        else (do
          (result, bytes_written, file) ← call (F.f_write output_file buffer)
          if is_ok result
              then (if length buffer == buffer_size
                  then put_loop fuel input_file file
                  else close_both input_file file)
              else (do fat_perror T F (text "Error writing file") result; write_failed file))

  -- The second half of `put_file`: a regular file.
  unfoldable pub put_regular : (fuel : ℕ) → CString → CString → MainCmd T F ℤ
  put_regular fuel source_filename dest_filename = do
    r ← on_world T F (T.fopen_read source_filename)
    elim r [
      | none ↦ failure (text "Could not open file for reading")
      | some input_file ↦ do
        (result, output_file) ← call (F.f_open dest_filename write_always)
        if is_ok result
            then put_loop fuel input_file output_file
            else fat_failure T F (text "Error opening file for writing") result
    ]

  -- The directory on the image: there already (or the test failed), or made.
  unfoldable pub ensure_directory : CString → MainCmd T F ℤ
  ensure_directory dest_filename = do
    there ← fat_path_is_dir T F dest_filename
    elim there [
      | pos zero ↦ do
        result ← call (F.f_mkdir dest_filename)
        if is_ok result
            then pure success
            else fat_failure T F (text "Directory creation failed") result
      | _ ↦ pure success
    ]

  unfoldable mutual
    pub put_file : (fuel : ℕ) → CString → CString → MainCmd T F ℤ
    put_file zero source_filename dest_filename = λ m. out_of_fuel
    put_file (suc fuel) source_filename dest_filename = do
      directory ← is_directory T F source_filename
      if directory
          then (do
            made ← ensure_directory dest_filename
            if is_negative made then pure minus_one else (do
              r ← on_world T F (T.opendir source_filename)
              elim r [
                | none ↦ failure (text "Error opening directory")
                | some dir ↦ put_entries fuel dir source_filename dest_filename
              ]))
          else put_regular fuel source_filename dest_filename

    -- The loop over `readdir`; what `put_file` returns for a child is not looked at.
    pub put_entries : (fuel dir : ℕ) → CString → CString → MainCmd T F ℤ
    put_entries zero dir source_filename dest_filename = λ m. out_of_fuel
    put_entries (suc fuel) dir source_filename dest_filename = do
      entry ← on_world T F (T.readdir dir)
      elim entry [
        | none ↦ do in_the_world T F (T.closedir dir); pure success
        | some d_name ↦
            if same_bytes d_name (text ".") || same_bytes d_name (text "..")
            then put_entries fuel dir source_filename dest_filename
            else (do
              status ←
                  put_file fuel (concat_filename source_filename d_name)
                    (concat_filename dest_filename d_name)
              put_entries fuel dir source_filename dest_filename)
      ]

  -- The sources of `put` one after the other into a directory, whatever `put_file` returns;
  -- `basename` may change its argument before `put_file` reads it.
  unfoldable pub put_all : (fuel : ℕ) → CString → List CString → MainCmd T F ℤ
  put_all fuel dest_path [] = pure success
  put_all fuel dest_path (source ∷ sources) = do
    let (name, left) = T.basename source
    status ← put_file fuel left (concat_filename dest_path name)
    put_all fuel dest_path sources

  -- `argv[i]`; at argc there is NULL, which is followed, and nothing behind it.
  abbrev pub with_argument : List CString → ℕ → (CString → MainCmd T F ℤ) → MainCmd T F ℤ
  with_argument argv i next = elim (get_elem? argv i) [ none ↦ λ m. fault | some a ↦ next a ]

  unfoldable pub put_sources : (fuel argc : ℕ) → List CString → MainCmd T F ℤ
  put_sources fuel argc argv = with_argument argv (argc - 1) λ last_path. do
    let dest_path = strip_trailing_slash last_path
    let stripped = set argv (argc - 1) dest_path
    copying_to_dir ← fat_path_is_dir T F dest_path
    elim copying_to_dir [
      | negsuc n ↦ pure minus_one
      | pos zero ↦
          if ltb 5 argc
          then complain T F
              (text "Destination must be an existing directory when copying multiple files")
          else with_argument stripped 3 λ source_filename. (do
            status ← put_file fuel source_filename dest_path
            pure (if is_negative status then minus_one else success))
      | pos (suc n) ↦ put_all fuel dest_path (take (argc - 1 - 3) (drop 3 argv))
    ]

  unfoldable pub cmd_put : (fuel : ℕ) → List CString → MainCmd T F ℤ
  cmd_put fuel argv =
      let argc = length argv in
      if ltb argc 4
      then complain T F
          (text "Usage: hdfmonkey put <image_file> <source_files> <destination_file_or_dir>")
      else with_argument argv 2 λ image_filename. (do
        r ← open_image T F image_filename true true
        elim r [ none ↦ pure minus_one | some vol ↦ put_sources fuel argc argv ])
