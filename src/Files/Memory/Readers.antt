-- ===== src/Files/Memory/Readers.antt =====
-- The host in memory behaves as documented.
use hdfmonkey.Base.{ℕ, ◌≡◌, refl, List, ◌∷◌, true, false, Option, none, some, ltb, ◌||◌, arith}
use hdfmonkey.Posix.{CString}
use hdfmonkey.Posix.Memory.Disk.{Disk}
use hdfmonkey.Posix.Memory.Host.{shown, listed, mode_of, reader_at}
use hdfmonkey.FatFs.{FileInfo, fr_ok, fr_no_path}
use hdfmonkey.Files.Trees.{Still}
use hdfmonkey.Files.Host.{IsHosted}
use hdfmonkey.Files.Memory.{
  streams, fat_files, file_view, Memory, fold_case, is_some, open_listing, drive_of,
}
use hdfmonkey.Cli.Names.{concat_filename}
use hdfmonkey.Files.Memory.Orderly.{tree_view}
use hdfmonkey.Files.Memory.Host.{host_view, still, turned_open, turned_read, turned_close, calm}

module _ (chunk : ℕ) where
  below :
      (w : Disk) (d : ℕ) (names : List CString) → reader_at w d ≡ some names → ltb d w.next ≡ true
  below w d names e = ground arith

  listed_dir :
      (file : Option (List ℕ)) (folder : Option (List CString)) (names : List CString)
      → listed file folder ≡ some names
      → mode_of file folder ≡ some 0x4000
  listed_dir none folder names e = rw e refl
  listed_dir (some bytes) folder names e = ground arith

  free_listing :
      (files : Option (List ℕ)) (dirs : Option (List FileInfo)) (d : ℕ) (m : Memory)
      → (is_some files || is_some dirs) ≡ false
      → ((open_listing d dirs m).0.0 ≡ fr_no_path)
        × Still
            (streams chunk)
            (fat_files chunk)
            (file_view chunk)
            (tree_view chunk)
            m
            (open_listing d dirs m).1
  free_listing none none d m e = (refl, still chunk m)
  free_listing none (some entries) d m e = ground arith
  free_listing (some bytes) none d m e = ground arith
  free_listing (some bytes) (some entries) d m e = ground arith

  there_listing :
      (dirs : Option (List FileInfo)) (d : ℕ) (m : Memory)
      → is_some dirs ≡ true
      → ((open_listing d dirs m).0.0 ≡ fr_ok)
        × Still
            (streams chunk)
            (fat_files chunk)
            (file_view chunk)
            (tree_view chunk)
            m
            (open_listing d dirs m).1
  there_listing none d m e = ground arith
  there_listing (some entries) d m e = (refl, still chunk m)

  pub memory-IsHosted :
      IsHosted
        (streams chunk)
        (fat_files chunk)
        (file_view chunk)
        (tree_view chunk)
        (host_view chunk)
  memory-IsHosted = record {
    host_there = λ p w. refl;
    stat_file = λ p bytes w e. record { mode = 0x8000; result = rw e refl; kind = refl };
    stat_dir = λ p names w e. record {
      mode = 0x4000;
      result = listed_dir (shown w.files p) (w.folders p) names e;
      kind = refl;
    };
    opendir = λ p names w e. record {
      stream = w.next;
      result = rw e refl;
      fresh = ground arith;
      turned = rw e (turned_open chunk names w);
    };
    readdir = λ d name names w e. record {
      result = rw e refl;
      turned = rw e (turned_read chunk d names w (below w d (name ∷ names) e));
    };
    readdir_end = λ d w e. record { result = rw e refl; calm = rw e (calm chunk w) };
    closedir = λ d w. turned_close chunk d w;
    f_opendir_there = λ p m e. there_listing (m.fat.dirs (fold_case p)) (drive_of p) m e;
    f_opendir_free = λ d name m legal there e.
        let p = concat_filename d name in
        free_listing (m.fat.files (fold_case p)) (m.fat.dirs (fold_case p)) (drive_of p) m e;
  }
