-- ===== src/Cli/Put/Trees.antt =====
-- The trees of the host that `put_file` of src/hdfmonkey.c goes through, and its rounds over them.
use mathlib.Core.Path.{fun_ext}
use Prim.Native.Nat.{bit_and}
use hdfmonkey.Base.{
  ℕ, suc, ◌+◌, ◌/◌, ◌≡◌, refl, List, [], ◌∷◌, ◌++◌, Bool, true, false, ◌||◌, Option, none, some,
  ◌==◌, length, text, same_bytes, ℤ, ok, arith, if◌then◌else◌,
}
use hdfmonkey.Posix.{Posix, CString, update_file}
use hdfmonkey.Machine.{Machine}
use hdfmonkey.FatFs.{FatFs, fr_ok, fr_no_path}
use hdfmonkey.Libc.{Libc}
use hdfmonkey.Files.{FileView, is_entry_name}
use hdfmonkey.Files.Host.{HostView, with_stream}
use hdfmonkey.Cli.Names.{concat_filename}
use hdfmonkey.Cli.Support.{success, is_ok, is_directory, fat_path_is_dir}
use hdfmonkey.Cli.Put.{put_file, put_entries, ensure_directory}

-- What a directory of the host holds, name by name; a skipped one is "." or "..".
pub data HostTree : Type 0 where
  nothing : HostTree
  skipped : CString → HostTree → HostTree
  regular : CString → List ℕ → HostTree → HostTree
  folder : CString → HostTree → HostTree → HostTree

unfoldable pub names : HostTree → List CString
names nothing = []
names (skipped name t) = name ∷ names t
names (regular name bytes t) = name ∷ names t
names (folder name inner t) = name ∷ names t

-- Rounds that are enough: some for each name, and one for each buffer.
unfoldable pub rounds : HostTree → ℕ
rounds nothing = 1
rounds (skipped name t) = 1 + rounds t
rounds (regular name bytes t) = 3 + length bytes / 2048 + rounds t
rounds (folder name inner t) = 2 + rounds inner + rounds t

abbrev pub is_dots : CString → Bool
is_dots name = same_bytes name (text ".") || same_bytes name (text "..")

module _ {P : Posix} {T : Libc P} (H : HostView T) where
  -- The tree is what the directory of this path holds.
  unfoldable pub Lies : H.Content → CString → HostTree → Type 0
  Lies c path nothing = Unit
  Lies c path (skipped name t) = (is_dots name ≡ true) × Lies c path t
  Lies c path (regular name bytes t) =
      (is_dots name ≡ false)
      × (is_entry_name name ≡ true)
      × (H.bytes_of c (concat_filename path name) ≡ some bytes)
      × Lies c path t
  Lies c path (folder name inner t) =
      (is_dots name ≡ false)
      × (is_entry_name name ≡ true)
      × (H.names_of c (concat_filename path name) ≡ some (names inner))
      × Lies c (concat_filename path name) inner
      × Lies c path t

module _ {P : Posix} {T : Libc P} {F : FatFs P} (V : FileView T F) where
  -- The files of the tree, put below a path of the image.
  unfoldable pub stored :
      CString → HostTree → (CString → Option (List ℕ)) → CString → Option (List ℕ)
  stored path nothing files = files
  stored path (skipped name t) files = stored path t files
  stored path (regular name bytes t) files =
      stored path t (update_file files (V.name_of (concat_filename path name)) bytes)
  stored path (folder name inner t) files =
      stored path t (stored (concat_filename path name) inner files)

  -- The names that they and their directories have there.
  unfoldable pub names_stored : CString → HostTree → List CString
  names_stored path nothing = []
  names_stored path (skipped name t) = names_stored path t
  names_stored path (regular name bytes t) =
      V.name_of (concat_filename path name) ∷ names_stored path t
  names_stored path (folder name inner t) =
      V.name_of (concat_filename path name)
      ∷ (names_stored (concat_filename path name) inner ++ names_stored path t)

module _ {P : Posix} (T : Libc P) where
  pub with_stream_twice :
      (f : ℕ → Option (List CString)) (d : ℕ) (a b : Option (List CString))
      → with_stream T (with_stream T f d a) d b ≡ with_stream T f d b
  with_stream_twice f d a b = fun_ext λ j. ground arith

  pub with_stream_self :
      (f : ℕ → Option (List CString)) (d : ℕ) (a : Option (List CString))
      → f d ≡ a
      → with_stream T f d a ≡ f
  with_stream_self f d a e = fun_ext λ j. ground arith

  pub with_stream_at :
      (f : ℕ → Option (List CString)) (d : ℕ) (a : Option (List CString))
      → with_stream T f d a d ≡ a
  with_stream_at f d a = ground arith

module _ {P : Posix} (T : Libc P) (F : FatFs P) where
  pub entries_end :
      (fuel dir : ℕ) (source dest : CString) (m : Machine P.World F.State)
      → (T.readdir dir m.world).0 ≡ none
      → put_entries T F (suc fuel) dir source dest m
        ≡ ok success (record m { world = T.closedir dir (T.readdir dir m.world).1 })
  unfolding put_entries
  entries_end fuel dir source dest m e = rw e refl

  pub entries_skip :
      (fuel dir : ℕ) (source dest name : CString) (m : Machine P.World F.State)
      → (T.readdir dir m.world).0 ≡ some name
      → is_dots name ≡ true
      → put_entries T F (suc fuel) dir source dest m
        ≡ put_entries T F fuel dir source dest (record m { world = (T.readdir dir m.world).1 })
  unfolding put_entries
  entries_skip fuel dir source dest name m e dots = rw (e, dots) refl

  pub entries_next :
      (fuel dir : ℕ) (source dest name : CString) (status : ℤ) (m m2 : Machine P.World F.State)
      → (T.readdir dir m.world).0 ≡ some name
      → is_dots name ≡ false
      → put_file T F fuel
          (concat_filename source name)
          (concat_filename dest name)
          (record m { world = (T.readdir dir m.world).1 })
        ≡ ok status m2
      → put_entries T F (suc fuel) dir source dest m ≡ put_entries T F fuel dir source dest m2
  unfolding put_entries
  entries_next fuel dir source dest name status m m2 e plain run = rw (e, plain, run) refl

  pub directory_run :
      (source : CString) (mode : ℕ) (plain : Bool) (m : Machine P.World F.State)
      → (T.stat_mode source m.world).0 ≡ some mode
      → (bit_and mode 0x4000 == 0) ≡ plain
      → is_directory T F source m
        ≡ ok (if plain then false else true) (record m { world = (T.stat_mode source m.world).1 })
  unfolding is_directory
  directory_run source mode true m e k = ground arith
  directory_run source mode false m e k = ground arith

  -- The directory on the image is made.
  pub ensure_run :
      (dest : CString) (m : Machine P.World F.State)
      → let (r, m1) = F.f_opendir dest m in
        r.0 ≡ fr_no_path
        → (F.f_mkdir dest m1).0 ≡ fr_ok
        → ensure_directory T F dest m ≡ ok success (F.f_mkdir dest m1).1
  unfolding ensure_directory fat_path_is_dir is_ok
  ensure_run dest m e made = rw (e, made) refl

  pub folder_run :
      (fuel dir : ℕ) (source dest : CString) (m m1 m2 : Machine P.World F.State)
      → is_directory T F source m ≡ ok true m1
      → ensure_directory T F dest m1 ≡ ok success m2
      → (T.opendir source m2.world).0 ≡ some dir
      → put_file T F (suc fuel) source dest m
        ≡ put_entries T F fuel dir source dest (record m2 { world = (T.opendir source m2.world).1 })
  unfolding put_file
  folder_run fuel dir source dest m m1 m2 d made opened = rw (d, made, opened) refl
