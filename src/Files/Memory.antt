-- ===== src/Files/Memory.antt =====
-- A C library and a driver in memory, on the disk of Posix/Memory, that behave as documented.
pub mod Orderly
pub mod Host
pub mod Readers
use hdfmonkey.Base.{
  ℕ, ◌+◌, ◌-◌, ◌*◌, ◌≡◌, refl, ap, List, [], ◌∷◌, ◌++◌, Bool, true, false, ◌||◌, Option, none, some,
  ltb, ◌==◌, ◌&&◌, if◌then◌else◌, arith, length, take, drop, text, same_bytes, same_bytes_self,
  same_bytes→eq, Bool-cases, inl, inr,
}
use hdfmonkey.Posix.{CString, update_file}
use hdfmonkey.Posix.Memory.Disk.{Disk, memory}
use hdfmonkey.Posix.Memory.Host.{
  shown, listed, mode_of, open_reader, reader_at, read_name, close_reader, base_name,
}
use hdfmonkey.Machine.{Machine}
use hdfmonkey.FatFs.{
  fr_exist, fr_invalid_object, FileInfo, FatFs, OpenMode, read_existing, write_always, FResult,
  fr_ok, fr_no_file, fr_no_path,
}
use hdfmonkey.Libc.{Libc, Stream, stdout, opened}
use hdfmonkey.Files.{FileView, Kept, Unstreamed, IsSound}

-- The bytes of a stream lie under a name that no path can be: one character above 255. Of each kind
-- one stream is open at a time.
abbrev pub stream_path : Stream → CString
stream_path stdout = 256 ∷ []
stream_path (opened n) = (257 + n) ∷ []

-- The same for what is still to be read from a stream.
abbrev pub read_path : Stream → CString
read_path stdout = 256 ∷ 0 ∷ []
read_path (opened n) = (257 + n) ∷ 0 ∷ []

abbrev pub bytes_at : (CString → Option (List ℕ)) → CString → List ℕ
bytes_at files path = elim (files path) [ none ↦ [] | some bytes ↦ bytes ]

abbrev put_at : Disk → CString → List ℕ → Disk
put_at w path bytes = record w { files = update_file w.files path bytes }

abbrev pub start_reading : Option (List ℕ) → Disk → Option Stream × Disk
start_reading none w = (none, w)
start_reading (some bytes) w = (some (opened 1), put_at w (read_path (opened 1)) bytes)

abbrev pub streams : (chunk : ℕ) → Libc (memory chunk)
streams chunk = record {
  print =
      λ message w. put_at w (stream_path stdout) (bytes_at w.files (stream_path stdout) ++ message);
  show_long = λ n. [];
  stat_mode = λ path w. (mode_of (shown w.files path) (w.folders path), w);
  basename = λ path. (base_name path, path);
  Double = ℕ;
  strtod = λ s. (length s, drop (length s - 1) s);
  sectors_of = λ x scale. x * scale;
  fopen_write = λ path w. (some (opened 0), put_at w (stream_path (opened 0)) []);
  fopen_read = λ path w. start_reading (w.files path) w;
  fread = λ s n w. (
    take n (bytes_at w.files (read_path s)),
    put_at w (read_path s) (drop n (bytes_at w.files (read_path s))),
  );
  ferror = λ s w. false;
  fwrite = λ s bytes w. put_at w (stream_path s) (bytes_at w.files (stream_path s) ++ bytes);
  fclose = λ s w. w;
  opendir = λ path w. open_reader (listed (shown w.files path) (w.folders path)) w;
  readdir = λ d w. read_name d (reader_at w d) w;
  closedir = close_reader;
}

-- An object holds the bytes that it has still to deliver, or those that have been written through it.
pub record FileObject : Type 0 where
  pub path : CString
  pub mode : OpenMode
  pub ahead : List ℕ
  pub pending : List ℕ

-- Small letters and capitals name the same file.
unfoldable pub fold_case : CString → CString
fold_case [] = []
fold_case (c ∷ s) = (if ltb c 97 || ltb 122 c then c else (c - 32)) ∷ fold_case s

-- The regular files, the entries of the directories, and whether a file is open.
pub record Volumes : Type 0 where
  pub files : CString → Option (List ℕ)
  pub dirs : CString → Option (List FileInfo)
  pub opened : CString → Bool

pub record DirObject : Type 0 where
  pub drive : ℕ
  pub rest : List FileInfo

-- The drive 1 where a path begins with it, or else the drive 0.
unfoldable pub drive_of : CString → ℕ
drive_of [] = 0
drive_of (c ∷ []) = 0
drive_of (c ∷ colon ∷ s) = if c == 49 && colon == 58 then 1 else 0

abbrev pub is_some : {A : Type 0} → Option A → Bool
is_some none = false
is_some (some a) = true

abbrev pub taken : Volumes → CString → Bool
taken v path = is_some (v.files path) || is_some (v.dirs path)

abbrev pub Memory : Type 0
Memory = Machine Disk Volumes

abbrev pub mark : CString → Bool → Memory → Memory
mark path b m = record m {
  fat = record m.fat { opened = λ p. if same_bytes p path then b else m.fat.opened p };
}

abbrev pub open_found : CString → Option (List ℕ) → Memory → (FResult × FileObject) × Memory
open_found path none m =
    ((fr_no_file, record { path = path; mode = read_existing; ahead = []; pending = [] }), m)
open_found path (some bytes) m = (
  (fr_ok, record { path = path; mode = read_existing; ahead = bytes; pending = [] }),
  mark path true m,
)

abbrev pub with_file : Memory → CString → List ℕ → Memory
with_file m path bytes = record m {
  fat = record m.fat { files = update_file m.fat.files path bytes };
}

abbrev pub open_object : CString → OpenMode → Memory → (FResult × FileObject) × Memory
open_object path read_existing m = open_found path (m.fat.files path) m
open_object path write_always m = (
  (fr_ok, record { path = path; mode = write_always; ahead = []; pending = [] }),
  mark path true (with_file m path []),
)

-- A file object that is not open, or not open for this, is refused.
abbrev pub read_object : FileObject → ℕ → Bool → OpenMode → (FResult × List ℕ × FileObject)
read_object f n true read_existing = (fr_ok, take n f.ahead, record f { ahead = drop n f.ahead })
read_object f n live mode = (fr_invalid_object, [], f)

abbrev pub write_object : FileObject → List ℕ → Bool → OpenMode → (FResult × ℕ × FileObject)
write_object f bytes true write_always =
    (fr_ok, length bytes, record f { pending = f.pending ++ bytes })
write_object f bytes live mode = (fr_invalid_object, 0, f)

abbrev pub close_object : FileObject → Bool → OpenMode → Memory → Memory
close_object f true write_always m = mark f.path false (with_file m f.path f.pending)
close_object f live mode m = mark f.path false m

abbrev no_entry : FileInfo
no_entry = record { fsize = 0; fattrib = 0; fname = []; lfname = [] }

abbrev pub open_listing : ℕ → Option (List FileInfo) → Memory → (FResult × DirObject) × Memory
open_listing drive none m = ((fr_no_path, record { drive = drive; rest = [] }), m)
open_listing drive (some entries) m = ((fr_ok, record { drive = drive; rest = entries }), m)

abbrev read_entry : ℕ → List FileInfo → FResult × FileInfo × DirObject
read_entry drive [] = (fr_ok, no_entry, record { drive = drive; rest = [] })
read_entry drive (e ∷ rest) = (fr_ok, e, record { drive = drive; rest = rest })

abbrev make_directory : CString → Memory → FResult × Memory
make_directory path m = if taken m.fat path then (fr_exist, m) else (
  fr_ok,
  record m {
    fat = record m.fat { dirs = λ p. if same_bytes p path then some [] else m.fat.dirs p };
  },
)

abbrev pub fat_files : (chunk : ℕ) → FatFs (memory chunk)
fat_files chunk = record {
  State = Volumes;
  File = FileObject;
  Dir = DirObject;
  f_mount = λ d m. (fr_ok, m);
  f_mkfs = λ d label fmt m. (
    fr_ok,
    record m {
      fat = record {
        opened = m.fat.opened;
        files = λ p. if drive_of p == d then none else m.fat.files p;
        dirs = λ p.
            if drive_of p == d then (if length p == 2 then some [] else none) else m.fat.dirs p;
      };
    },
  );
  f_open = λ path mode m. open_object (fold_case path) mode m;
  f_read = λ file n m.
      (let (r, bytes, f) = read_object file n (m.fat.opened file.path) file.mode in
        ((r, bytes, f), m));
  f_write = λ file bytes m.
      (let (r, n, f) = write_object file bytes (m.fat.opened file.path) file.mode in
        ((r, n, f), m));
  f_close = λ file m. (fr_ok, close_object file (m.fat.opened file.path) file.mode m);
  f_opendir = λ path m. open_listing (drive_of path) (m.fat.dirs (fold_case path)) m;
  f_readdir = λ dir m. (read_entry dir.drive dir.rest, m);
  f_mkdir = λ path m. make_directory (fold_case path) m;
  f_unlink = λ path m. (fr_ok, m);
}

pub at-put :
    (w : Disk) (path : CString) (bytes : List ℕ) → bytes_at (put_at w path bytes).files path ≡ bytes
at-put w path bytes = rw (bytes_at, same_bytes_self path)

shown_there :
    (files : CString → Option (List ℕ)) (path : CString) (bytes : List ℕ)
    → shown files path ≡ some bytes
    → files path ≡ some bytes
shown_there files path bytes e = ground arith

pub close_world :
    (f : FileObject) (live : Bool) (mode : OpenMode) (m : Memory)
    → (close_object f live mode m).world ≡ m.world
close_world f true write_always m = refl
close_world f true read_existing m = refl
close_world f false mode m = refl

-- Closing one file leaves the others open.
close_opened :
    (f g : FileObject) (m : Memory)
    → same_bytes f.path g.path ≡ false
    → m.fat.opened g.path ≡ true
    → (live : Bool) (mode : OpenMode) → (close_object f live mode m).fat.opened g.path ≡ true
close_opened f g m apart e live mode = elim (Bool-cases (same_bytes g.path f.path)) [
  | inl same ↦
      let again : same_bytes f.path g.path ≡ true =
        rw (same_bytes→eq g.path f.path same) (same_bytes_self f.path) in
      absurd (ground (arith, apart, again))
  | inr other ↦ by_mode live mode other
]
  where
    by_mode :
        (live : Bool) (mode : OpenMode)
        → same_bytes g.path f.path ≡ false
        → (close_object f live mode m).fat.opened g.path ≡ true
    by_mode true write_always other = rw other e
    by_mode true read_existing other = rw other e
    by_mode false mode other = rw other e

module _ (chunk : ℕ) where
  abbrev pub file_view : FileView (streams chunk) (fat_files chunk)
  file_view = record {
    name_of = fold_case;
    files = λ m. m.fat.files;
    path_of = λ f. f.path;
    mode_of = λ f. f.mode;
    is_open = λ m f. m.fat.opened f.path;
    ahead = λ m f. f.ahead;
    pending = λ m f. f.pending;
    admits = λ m path. true;
    written = λ w s. bytes_at w.files (stream_path s);
    unread = λ w s. bytes_at w.files (read_path s);
    host = λ w. shown w.files;
  }

  unchanged : (m : Memory) → Kept (streams chunk) (fat_files chunk) file_view m m
  unchanged m = record { files = refl; ahead = refl; pending = refl; open_kept = λ g e. e }

  marked :
      (m : Memory) (path : CString)
      → Kept (streams chunk) (fat_files chunk) file_view m (mark path true m)
  marked m path = record {
    files = refl;
    ahead = refl;
    pending = refl;
    open_kept = λ g e. ground arith;
  }

  -- What a change of the host alone leaves.
  on_world :
      (m : Memory) (w : Disk)
      → Kept (streams chunk) (fat_files chunk) file_view m (record m { world = w })
  on_world m w = record { files = refl; ahead = refl; pending = refl; open_kept = λ g e. e }

  quiet :
      (m : Memory) (fat : Volumes)
      → Unstreamed (streams chunk) (fat_files chunk) file_view m (record m { fat = fat })
  quiet m fat = record { written = refl; unread = refl }

  quiet_world :
      (m m' : Memory)
      → m'.world ≡ m.world
      → Unstreamed (streams chunk) (fat_files chunk) file_view m m'
  quiet_world m m' e = record { written = ap file_view.written e; unread = ap file_view.unread e }

  pub fat_files-IsSound : IsSound (streams chunk) (fat_files chunk) file_view
  unfolding same_bytes
  fat_files-IsSound = record {
    f_read = λ f n m live reads. record {
      result = rw (live, reads) refl;
      bytes = rw (live, reads) refl;
      path = rw (live, reads) refl;
      mode = rw (live, reads) refl;
      still_open = rw (live, reads) live;
      ahead = rw (live, reads) refl;
      kept = unchanged m;
      streams = quiet m m.fat;
    };
    f_write = λ f bytes m live writes. record {
      result = rw (live, writes) refl;
      path = rw (live, writes) refl;
      mode = rw (live, writes) refl;
      still_open = rw (live, writes) live;
      pending = rw (live, writes) refl;
      kept = unchanged m;
      streams = quiet m m.fat;
    };
    f_open = λ path bytes m there. record {
      result = rw there refl;
      path_is = rw there refl;
      mode = rw there refl;
      now_open = rw (there, same_bytes_self (fold_case path)) refl;
      ahead = rw there refl;
      kept = rw there (marked m (fold_case path));
      streams = rw there (quiet m _);
    };
    f_create = λ path m free. record {
      result = refl;
      path_is = refl;
      mode = refl;
      now_open = rw (same_bytes_self (fold_case path)) refl;
      pending = refl;
      files = refl;
      others = λ g apart. refl;
      open_kept = λ g e. ground arith;
      streams = quiet m _;
    };
    f_close_read = λ f m live reads. record {
      files_after = rw (live, reads) refl;
      others_open = λ g apart e. close_opened f g m apart e (m.fat.opened f.path) f.mode;
      others_pending = λ g apart. refl;
      streams = quiet_world m _ (close_world f (m.fat.opened f.path) f.mode m);
    };
    f_close_written = λ f m live writes. record {
      files_after = rw (live, writes) refl;
      others_open = λ g apart e. close_opened f g m apart e (m.fat.opened f.path) f.mode;
      others_pending = λ g apart. refl;
      streams = quiet_world m _ (close_world f (m.fat.opened f.path) f.mode m);
    };
    fwrite_kept = λ s bytes m. on_world m _;
    fwrite_written =
        λ s bytes w. at-put w (stream_path s) (bytes_at w.files (stream_path s) ++ bytes);
    fclose_kept = λ s m. on_world m _;
    fclose_streams = λ s m. quiet m m.fat;
    fopen_read = λ path bytes m there.
        let e = shown_there m.world.files path bytes there in
        record { stream = opened 1; result = rw e; unread = rw e; files = refl; admits = refl };
    fread_bytes = λ s n w. refl;
    fread_unread = λ s n w. at-put w (read_path s) (drop n (bytes_at w.files (read_path s)));
    fread_kept = λ s n m. on_world m _;
    ferror = λ s w. refl;
  }
