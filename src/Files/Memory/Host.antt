-- ===== src/Files/Memory/Host.antt =====
-- The host in memory: streams and the driver leave alone what they have nothing to do with.
use mathlib.Core.Path.{fun_ext}
use hdfmonkey.Base.{
  ℕ, ◌≡◌, refl, ap, List, [], ◌∷◌, true, false, Option, none, some, ltb, drop, ◌==◌, if◌then◌else◌,
  same_bytes, same_bytes→eq, arith, Bool-cases, inl, inr,
}
use hdfmonkey.Posix.{CString, update_file}
use hdfmonkey.Posix.Memory.Disk.{Disk}
use hdfmonkey.Posix.Memory.Host.{
  shown, is_hidden, listed, open_reader, reader_at, read_name, close_reader,
}
use hdfmonkey.FatFs.{OpenMode, read_existing, write_always, FileInfo}
use hdfmonkey.Libc.{Stream, stdout, opened}
use hdfmonkey.Files.Trees.{Still}
use hdfmonkey.Files.Host.{HostView, Calm, Turned, KeepsImages, KeepsHost}
use hdfmonkey.Files.Memory.{
  streams, fat_files, file_view, start_reading, Memory, fold_case, stream_path, read_path, bytes_at,
  open_object, open_found, close_world, open_listing, drive_of,
}
use hdfmonkey.Files.Memory.Orderly.{tree_view}

-- What lies on the host beside the streams.
pub record Hosted : Type 0 where
  pub files : CString → Option (List ℕ)
  pub folders : CString → Option (List CString)

read-hidden : (s : Stream) → is_hidden (read_path s) ≡ true
read-hidden stdout = refl
read-hidden (opened n) = ground arith

read-apart : (s r : Stream) → same_bytes (stream_path s) (read_path r) ≡ false
unfolding same_bytes
read-apart stdout stdout = refl
read-apart stdout (opened n) = ground arith
read-apart (opened n) stdout = ground arith
read-apart (opened n) (opened k) = ground arith

shown-put :
    (files : CString → Option (List ℕ)) (path : CString) (bytes : List ℕ)
    → is_hidden path ≡ true
    → shown (update_file files path bytes) ≡ shown files
shown-put files path bytes hidden = fun_ext λ p. elim (Bool-cases (same_bytes p path)) [
  | inl same ↦ let e = same_bytes→eq p path same in rw (e, hidden) refl
  | inr other ↦ rw other refl
]

module _ (chunk : ℕ) where
  abbrev pub host_view : HostView (streams chunk)
  host_view = record {
    Content = Hosted;
    on_host = λ w. record { files = shown w.files; folders = w.folders };
    bytes_of = λ c p. c.files p;
    names_of = λ c p. listed (c.files p) (c.folders p);
    coming = reader_at;
  }

  pub still :
      (m : Memory) → Still (streams chunk) (fat_files chunk) (file_view chunk) (tree_view chunk) m m
  still m = record { drives = refl; files = refl; taken = refl; written = refl; dirs = refl }

  pub calm : (w : Disk) → Calm (streams chunk) host_view w w
  calm w = record { host = refl; coming = refl }

  abbrev Turns : ℕ → Option (List CString) → Disk → Disk → Type 0
  Turns = Turned (streams chunk) host_view

  pub turned_open :
      (names : List CString) (w : Disk) → Turns w.next (some names) w (open_reader (some names) w).1
  turned_open names w = record { host = refl; coming = fun_ext λ j. ground arith }

  pub turned_read :
      (d : ℕ) (names : List CString) (w : Disk)
      → ltb d w.next ≡ true
      → Turns d
          (some names)
          w
          (record w { readers = λ j. if j == d then some names else w.readers j })
  turned_read d names w below = record { host = refl; coming = fun_ext λ j. ground arith }

  pub turned_close : (d : ℕ) (w : Disk) → Turns d none w (close_reader d w)
  turned_close d w = record { host = refl; coming = fun_ext λ j. ground arith }

  abbrev ahead_of : Disk → Stream → List ℕ → Disk
  ahead_of w s bytes = record w { files = update_file w.files (read_path s) bytes }

  quiet :
      (w : Disk) (s : Stream) (bytes : List ℕ)
      → Calm (streams chunk) host_view w (ahead_of w s bytes)
  quiet w s bytes = record {
    host =
        ap (λ f. record { files = f; folders = w.folders })
          (shown-put w.files (read_path s) bytes (read-hidden s));
    coming = refl;
  }

  ahead-Still :
      (m : Memory) (s : Stream) (bytes : List ℕ)
      → Still
          (streams chunk)
          (fat_files chunk)
          (file_view chunk)
          (tree_view chunk)
          m
          (record m { world = ahead_of m.world s bytes })
  ahead-Still m s bytes = record {
    drives = refl;
    files = refl;
    taken = refl;
    written = fun_ext λ r. rw (bytes_at, read-apart r s) refl;
    dirs = refl;
  }

  world-Still :
      (m : Memory) (w : Disk)
      → w.files ≡ m.world.files
      → Still
          (streams chunk)
          (fat_files chunk)
          (file_view chunk)
          (tree_view chunk)
          m
          (record m { world = w })
  world-Still m w e = record {
    drives = refl;
    files = refl;
    taken = refl;
    written = ap (λ f s. bytes_at f (stream_path s)) e;
    dirs = refl;
  }

  open_reader_files :
      (found : Option (List CString)) (w : Disk) → (open_reader found w).1.files ≡ w.files
  open_reader_files none w = refl
  open_reader_files (some names) w = refl

  read_name_files :
      (d : ℕ) (coming : Option (List CString)) (w : Disk) → (read_name d coming w).1.files ≡ w.files
  read_name_files d none w = refl
  read_name_files d (some []) w = refl
  read_name_files d (some (name ∷ names)) w = refl

  start_reading-Still :
      (found : Option (List ℕ)) (m : Memory)
      → Still
          (streams chunk)
          (fat_files chunk)
          (file_view chunk)
          (tree_view chunk)
          m
          (record m { world = (start_reading found m.world).1 })
  start_reading-Still none m = still m
  start_reading-Still (some bytes) m = ahead-Still m (opened 1) bytes

  start_reading-Calm :
      (found : Option (List ℕ)) (w : Disk)
      → Calm (streams chunk) host_view w (start_reading found w).1
  start_reading-Calm none w = calm w
  start_reading-Calm (some bytes) w = quiet w (opened 1) bytes

  pub memory-KeepsImages :
      KeepsImages (streams chunk) (fat_files chunk) (file_view chunk) (tree_view chunk) host_view
  memory-KeepsImages = record {
    fopen_read = λ path m. start_reading-Still (m.world.files path) m;
    fread = λ s n m. ahead-Still m s (drop n (bytes_at m.world.files (read_path s)));
    fclose = λ s m. still m;
    stat_mode = λ path m. still m;
    opendir = λ path m.
        let found = listed (shown m.world.files path) (m.world.folders path) in
        world-Still m (open_reader found m.world).1 (open_reader_files found m.world);
    readdir = λ d m.
        let coming = reader_at m.world d in
        world-Still m (read_name d coming m.world).1 (read_name_files d coming m.world);
    closedir = λ d m. world-Still m (close_reader d m.world) refl;
  }

  found_world :
      (path : CString) (found : Option (List ℕ)) (m : Memory)
      → (open_found path found m).1.world ≡ m.world
  found_world path none m = refl
  found_world path (some bytes) m = refl

  open_world :
      (path : CString) (mode : OpenMode) (m : Memory) → (open_object path mode m).1.world ≡ m.world
  open_world path read_existing m = found_world path (m.fat.files path) m
  open_world path write_always m = refl

  opendir_world :
      (d : ℕ) (found : Option (List FileInfo)) (m : Memory)
      → (open_listing d found m).1.world ≡ m.world
  opendir_world d none m = refl
  opendir_world d (some entries) m = refl

  world-Calm : (w w' : Disk) → w' ≡ w → Calm (streams chunk) host_view w w'
  world-Calm w w' e = record { host = ap host_view.on_host e; coming = ap host_view.coming e }

  pub memory-KeepsHost :
      KeepsHost (streams chunk) (fat_files chunk) (file_view chunk) (tree_view chunk) host_view
  memory-KeepsHost = record {
    f_open = λ path mode m. world-Calm m.world _ (open_world (fold_case path) mode m);
    f_write = λ f bytes m. calm m.world;
    f_close = λ f m. world-Calm m.world _ (close_world f (m.fat.opened f.path) f.mode m);
    f_mkdir = λ path m. world-Calm m.world _ (ground arith);
    f_opendir = λ path m.
        world-Calm m.world _ (opendir_world (drive_of path) (m.fat.dirs (fold_case path)) m);
    fopen_read = λ path w. start_reading-Calm (w.files path) w;
    fread = λ s n w. quiet w s (drop n (bytes_at w.files (read_path s)));
    fclose = λ s w. calm w;
    stat_mode = λ path w. calm w;
  }
