-- ===== src/Files/Memory/Orderly.antt =====
-- The directories of the driver in memory behave as documented.
use mathlib.Core.Path.{fun_ext}
use hdfmonkey.Base.{
  ℕ, ◌≡◌, refl, sym, ap, ◌∙◌, List, [], ◌∷◌, ◌++◌, Bool, true, false, Option, none, some, ◌==◌,
  if◌then◌else◌, same_bytes, same_bytes→eq, same_bytes_self, arith, Bool-cases, inl, inr,
}
use hdfmonkey.Posix.{CString}
use hdfmonkey.Posix.Memory.Disk.{close}
use hdfmonkey.Libc.{stdout}
use hdfmonkey.FatFs.{FileInfo, read_existing, write_always}
use hdfmonkey.Files.Trees.{
  Still-Grown, TreeView, IsOrderly, Prints, Grown, Still, add, MakesDir, OpensDir,
}
use hdfmonkey.Files.Memory.{
  FileObject, with_file, mark, close_object, streams, fat_files, file_view, Memory, fold_case,
  drive_of, taken, is_some, bytes_at, at-put, stream_path,
}
use hdfmonkey.Cli.Names.{concat_filename}

drive_of-fold_case : (p : CString) → drive_of (fold_case p) ≡ drive_of p
unfolding drive_of fold_case
drive_of-fold_case [] = refl
drive_of-fold_case (c ∷ []) = refl
drive_of-fold_case (c ∷ d ∷ s) = ground arith

drive_of-concat : (p name : CString) → drive_of (concat_filename p name) ≡ drive_of p
unfolding drive_of concat_filename
drive_of-concat [] [] = refl
drive_of-concat [] (c ∷ name) = refl
drive_of-concat (c ∷ []) name = ground arith
drive_of-concat (c ∷ d ∷ s) name = refl

-- What of a map lies on one drive.
abbrev pub part : {A : Type 0} → ℕ → (CString → Option A) → CString → Option A
part k f p = if drive_of p == k then f p else none

part_other :
    {A : Type 0} (j : ℕ) (f : CString → Option A) (path : CString) (a : A)
    → (j == drive_of path) ≡ false
    → part j (λ p. if same_bytes p path then some a else f p) ≡ part j f
part_other j f path a apart = fun_ext λ p. elim (Bool-cases (same_bytes p path)) [
  | inl same ↦ let e = same_bytes→eq p path same in rw e (ground arith)
  | inr other ↦ rw other
]

part_own :
    {A : Type 0} (f : CString → Option A) (path : CString)
    → part (drive_of path) f (fold_case path) ≡ f (fold_case path)
part_own f path = rw (drive_of-fold_case path) (ground arith)

-- What lies on one drive.
pub record Part : Type 0 where
  pub files : CString → Option (List ℕ)
  pub dirs : CString → Option (List FileInfo)

module _ (chunk : ℕ) where
  abbrev pub tree_view : TreeView (streams chunk) (fat_files chunk)
  tree_view = record {
    Content = Part;
    on_drive = λ m k. record { files = part k m.fat.files; dirs = part k m.fat.dirs };
    drive_of = drive_of;
    files_on = λ c. c.files;
    listing = λ c. c.dirs;
    coming = λ c d. d.rest;
    drive_read = λ d. d.drive;
    taken = λ m. taken m.fat;
    is_dir = λ m p. is_some (m.fat.dirs p);
  }

  -- Whether files are open makes no difference.
  still :
      (m : Memory) (opened : CString → Bool)
      → Still
          (streams chunk)
          (fat_files chunk)
          (file_view chunk)
          tree_view
          m
          (record m { fat = record m.fat { opened = opened } })
  still m opened = record { drives = refl; files = refl; taken = refl; written = refl; dirs = refl }

  abbrev Grows : ℕ → List CString → Memory → Memory → Type 0
  Grows = Grown (streams chunk) (fat_files chunk) (file_view chunk) tree_view

  others_kept :
      (m : Memory) (path : CString) (bytes : List ℕ) (j : ℕ)
      → (j == drive_of path) ≡ false
      → tree_view.on_drive (with_file m path bytes) j ≡ tree_view.on_drive m j
  others_kept m path bytes j apart =
      ap (λ t. record { files = t; dirs = part j m.fat.dirs })
        (part_other j m.fat.files path bytes apart)

  file_grown :
      (m : Memory) (path : CString) (bytes : List ℕ)
      → Grows (drive_of path) (path ∷ []) m (mark path true (with_file m path bytes))
  unfolding add
  file_grown m path bytes = record {
    others = others_kept m path bytes;
    taken = fun_ext λ q. ground arith;
    dirs = λ p d. d;
  }

  file_rewritten :
      (m : Memory) (path : CString) (bytes content : List ℕ)
      → m.fat.files path ≡ some content
      → Grows (drive_of path) [] m (mark path false (with_file m path bytes))
  unfolding add
  file_rewritten m path bytes content there = record {
    others = others_kept m path bytes;
    taken = fun_ext λ q. elim (Bool-cases (same_bytes q path)) [
      | inl same ↦ rw (same, same_bytes→eq q path same, there) refl
      | inr other ↦ rw other
    ];
    dirs = λ p d. d;
  }

  abbrev with_dir : Memory → CString → Memory
  with_dir m path = record m {
    fat = record m.fat { dirs = λ p. if same_bytes p path then some [] else m.fat.dirs p };
  }

  dir_grown : (m : Memory) (path : CString) → Grows (drive_of path) (path ∷ []) m (with_dir m path)
  unfolding add
  dir_grown m path = record {
    others = λ j apart.
        ap (λ t. record { files = part j m.fat.files; dirs = t })
          (part_other j m.fat.dirs path [] apart);
    taken = fun_ext λ q. ground arith;
    dirs = λ p d. ground arith;
  }

  makes_dir :
      (path : CString) (m : Memory)
      → taken m.fat (fold_case path) ≡ false
      → MakesDir (streams chunk) (fat_files chunk) (file_view chunk) tree_view path m
  unfolding same_bytes
  makes_dir path m free = record {
    result = rw free;
    files = rw free;
    there = rw (free, same_bytes_self (fold_case path));
    grown = rw free (rw (← (drive_of-fold_case path)) (dir_grown m (fold_case path)));
  }

  opens_dir :
      (path : CString) (entries : List FileInfo) (m : Memory)
      → m.fat.dirs (fold_case path) ≡ some entries
      → OpensDir (streams chunk) (fat_files chunk) (file_view chunk) tree_view path entries m
  opens_dir path entries m there = record {
    result = rw there;
    drive = rw there;
    coming = rw there;
    still = rw there (still m _);
  }

  close_read :
      (f : FileObject) (m : Memory)
      → m.fat.opened f.path ≡ true
      → f.mode ≡ read_existing
      → Still
          (streams chunk)
          (fat_files chunk)
          (file_view chunk)
          tree_view
          m
          (close_object f (m.fat.opened f.path) f.mode m)
  close_read f m live reads = rw (live, reads) (still m _)

  close_written :
      (f : FileObject) (content : List ℕ) (m : Memory)
      → m.fat.opened f.path ≡ true
      → f.mode ≡ write_always
      → m.fat.files f.path ≡ some content
      → Grows (drive_of f.path) [] m (close_object f (m.fat.opened f.path) f.mode m)
  close_written f content m live writes there =
      rw (live, writes) (file_rewritten m f.path f.pending content there)

  pub fat_files-IsOrderly : IsOrderly (streams chunk) (fat_files chunk) (file_view chunk) tree_view
  unfolding add
  fat_files-IsOrderly = record {
    drive_of-name_of = drive_of-fold_case;
    drive_of-concat = drive_of-concat;
    files_there = λ p m. ground arith;
    admits = λ d name m legal there free. refl;
    f_read = λ f n m live reads. still m m.fat.opened;
    f_open = λ path bytes m there. rw there (still m _);
    f_write = λ f bytes m live writes.
        Still-Grown (streams chunk) (fat_files chunk) (file_view chunk) tree_view (drive_of f.path)
          m m (still m m.fat.opened);
    f_create = λ path m free. rw (← (drive_of-fold_case path)) (file_grown m (fold_case path) []);
    f_close_read = λ f m live reads. close_read f m live reads;
    f_close_written = λ f content m live writes there. close_written f content m live writes there;
    f_mkdir = λ d name m legal there free. makes_dir (concat_filename d name) m free;
    f_opendir =
        λ path entries m there. opens_dir path entries m (sym (part_own m.fat.dirs path) ∙ there);
    f_readdir = λ d e entries m there. record {
      result = rw there;
      entry = rw there;
      drive = rw there;
      coming = rw there;
      still = still m m.fat.opened;
    };
    f_readdir_end =
        λ d m there. record { result = rw there; no_name = rw there; still = still m m.fat.opened };
  }

  pub streams-Prints : Prints (streams chunk) (fat_files chunk) (file_view chunk) tree_view
  unfolding close
  streams-Prints = record {
    print_written =
        λ s w. at-put w (stream_path stdout) (bytes_at w.files (stream_path stdout) ++ s);
    print_drives = λ s m. refl;
    close_written = λ fd w. refl;
  }
