-- ===== src/Files.antt =====
-- What the commands of src/hdfmonkey.c rely on when they move the contents of files: the documented
-- behaviour of the driver's files and of the streams of the C library.
pub mod Memory
pub mod Trees
pub mod Host
use hdfmonkey.Base.{
  ℕ, ◌≡◌, List, [], ◌∷◌, ◌++◌, ◌==◌, ◌||◌, ◌&&◌, not, ltb, leb, none, Bool, true, false, Option,
  some, length, take, drop, same_bytes,
}
use hdfmonkey.Posix.{Posix, CString, update_file}
use hdfmonkey.Machine.{Machine}
use hdfmonkey.FatFs.{FatFs, fr_ok, OpenMode, read_existing, write_always}
use hdfmonkey.Libc.{Libc, Stream}

-- An ASCII character that a name on a FAT volume can have.
unfoldable pub is_name_character : ℕ → Bool
is_name_character c =
    leb 32 c
    && ltb c 127
    && not (
        c == 34
        || c == 42
        || c == 47
        || c == 58
        || c == 60
        || c == 62
        || c == 63
        || c == 92
        || c == 124)

unfoldable pub all_characters : CString → Bool
all_characters [] = true
all_characters (c ∷ s) = is_name_character c && all_characters s

-- The last character is there, and neither a dot nor a space.
unfoldable pub is_ended : CString → Bool
is_ended [] = false
is_ended (c ∷ []) = not (c == 46 || c == 32)
is_ended (c ∷ d ∷ s) = is_ended (d ∷ s)

-- A name of one file or directory on a FAT volume, and no path of several.
unfoldable pub is_entry_name : CString → Bool
is_entry_name s = leb (length s) 255 && all_characters s && is_ended s

module _ {P : Posix} (T : Libc P) (F : FatFs P) where
  -- What there is to see. A file object is a value that holds its position.
  pub record FileView : Type 0 where
    -- the one spelling of a path under which its file is found, since the driver folds letters
    pub name_of : CString → CString
    -- the regular files on the mounted volumes
    pub files : Machine P.World F.State → CString → Option (List ℕ)
    -- the file that a file object stands for
    pub path_of : F.File → CString
    pub mode_of : F.File → OpenMode
    -- the driver accepts the file object: it is open, and its volume still mounted and in use
    pub is_open : Machine P.World F.State → F.File → Bool
    -- the bytes from a file object's position on
    pub ahead : Machine P.World F.State → F.File → List ℕ
    -- what has been written through a file object; the file gets it when the object is closed
    pub pending : Machine P.World F.State → F.File → List ℕ
    -- a file of this path can be made: its directory is there, and no directory has its name
    pub admits : Machine P.World F.State → CString → Bool
    -- the bytes that have been written to a stream, and those that are to come from it
    pub written : P.World → Stream → List ℕ
    pub unread : P.World → Stream → List ℕ
    -- the files that `fopen` finds
    pub host : P.World → CString → Option (List ℕ)

  module _ (V : FileView) where
    -- From one state to another no file has changed, and file objects are as they were.
    pub record Kept (m m' : Machine P.World F.State) : Type 0 where
      pub files : V.files m' ≡ V.files m
      pub ahead : V.ahead m' ≡ V.ahead m
      pub pending : V.pending m' ≡ V.pending m
      pub open_kept : (g : F.File) → V.is_open m g ≡ true → V.is_open m' g ≡ true

    -- No stream has changed.
    pub record Unstreamed (m m' : Machine P.World F.State) : Type 0 where
      pub written : V.written m'.world ≡ V.written m.world
      pub unread : V.unread m'.world ≡ V.unread m.world

    pub record ReadsFile (f : F.File) (n : ℕ) (m : Machine P.World F.State) : Type 0 where
      pub result : (F.f_read f n m).0.0 ≡ fr_ok
      pub bytes : (F.f_read f n m).0.1 ≡ take n (V.ahead m f)
      pub path : V.path_of (F.f_read f n m).0.2 ≡ V.path_of f
      pub mode : V.mode_of (F.f_read f n m).0.2 ≡ V.mode_of f
      pub still_open : V.is_open (F.f_read f n m).1 (F.f_read f n m).0.2 ≡ true
      pub ahead : V.ahead m (F.f_read f n m).0.2 ≡ drop n (V.ahead m f)
      pub kept : Kept m (F.f_read f n m).1
      pub streams : Unstreamed m (F.f_read f n m).1

    -- A write is pending until the file is closed.
    pub record WritesFile (f : F.File) (bytes : List ℕ) (m : Machine P.World F.State) : Type 0 where
      pub result : (F.f_write f bytes m).0.0 ≡ fr_ok
      pub path : V.path_of (F.f_write f bytes m).0.2 ≡ V.path_of f
      pub mode : V.mode_of (F.f_write f bytes m).0.2 ≡ V.mode_of f
      pub still_open : V.is_open (F.f_write f bytes m).1 (F.f_write f bytes m).0.2 ≡ true
      pub pending : V.pending m (F.f_write f bytes m).0.2 ≡ V.pending m f ++ bytes
      pub kept : Kept m (F.f_write f bytes m).1
      pub streams : Unstreamed m (F.f_write f bytes m).1

    pub record OpensFile (path : CString) (bytes : List ℕ) (m : Machine P.World F.State)
        : Type 0 where
      pub result : (F.f_open path read_existing m).0.0 ≡ fr_ok
      pub path_is : V.path_of (F.f_open path read_existing m).0.1 ≡ V.name_of path
      pub mode : V.mode_of (F.f_open path read_existing m).0.1 ≡ read_existing
      pub now_open :
          V.is_open (F.f_open path read_existing m).1 (F.f_open path read_existing m).0.1 ≡ true
      pub ahead : V.ahead m (F.f_open path read_existing m).0.1 ≡ bytes
      pub kept : Kept m (F.f_open path read_existing m).1
      pub streams : Unstreamed m (F.f_open path read_existing m).1

    -- The file is empty as long as nothing is closed, and other objects are as they were.
    pub record MakesFile (path : CString) (m : Machine P.World F.State) : Type 0 where
      pub result : (F.f_open path write_always m).0.0 ≡ fr_ok
      pub path_is : V.path_of (F.f_open path write_always m).0.1 ≡ V.name_of path
      pub mode : V.mode_of (F.f_open path write_always m).0.1 ≡ write_always
      pub now_open :
          V.is_open (F.f_open path write_always m).1 (F.f_open path write_always m).0.1 ≡ true
      pub pending :
          V.pending (F.f_open path write_always m).1 (F.f_open path write_always m).0.1 ≡ []
      pub files :
          V.files (F.f_open path write_always m).1 ≡ update_file (V.files m) (V.name_of path) []
      pub others :
          (g : F.File)
          → same_bytes (V.path_of g) (V.name_of path) ≡ false
          → V.ahead (F.f_open path write_always m).1 g ≡ V.ahead m g
      pub open_kept :
          (g : F.File) → V.is_open m g ≡ true → V.is_open (F.f_open path write_always m).1 g ≡ true
      pub streams : Unstreamed m (F.f_open path write_always m).1

    -- After a close, the objects of other files are as they were.
    pub record Closes (f : F.File) (files : CString → Option (List ℕ)) (m : Machine P.World F.State)
        : Type 0 where
      pub files_after : V.files (F.f_close f m).1 ≡ files
      pub others_open :
          (g : F.File)
          → same_bytes (V.path_of f) (V.path_of g) ≡ false
          → V.is_open m g ≡ true
          → V.is_open (F.f_close f m).1 g ≡ true
      pub others_pending :
          (g : F.File)
          → same_bytes (V.path_of f) (V.path_of g) ≡ false
          → V.pending (F.f_close f m).1 g ≡ V.pending m g
      pub streams : Unstreamed m (F.f_close f m).1

    pub record OpensStream (path : CString) (bytes : List ℕ) (m : Machine P.World F.State)
        : Type 0 where
      pub stream : Stream
      pub result : (T.fopen_read path m.world).0 ≡ some stream
      pub unread : V.unread (T.fopen_read path m.world).1 stream ≡ bytes
      pub files : V.files (record m { world = (T.fopen_read path m.world).1 }) ≡ V.files m
      pub admits : V.admits (record m { world = (T.fopen_read path m.world).1 }) ≡ V.admits m

    -- The documented behaviour, on sound volumes that have room left and a host without failures.
    pub record IsSound : Type 0 where
      pub f_read :
          (f : F.File) (n : ℕ) (m : Machine P.World F.State)
          → V.is_open m f ≡ true
          → V.mode_of f ≡ read_existing
          → ReadsFile f n m
      pub f_write :
          (f : F.File) (bytes : List ℕ) (m : Machine P.World F.State)
          → V.is_open m f ≡ true
          → V.mode_of f ≡ write_always
          → WritesFile f bytes m
      pub f_open :
          (path : CString) (bytes : List ℕ) (m : Machine P.World F.State)
          → V.files m (V.name_of path) ≡ some bytes
          → OpensFile path bytes m
      pub f_create :
          (path : CString) (m : Machine P.World F.State) → V.admits m path ≡ true → MakesFile path m
      pub f_close_read :
          (f : F.File) (m : Machine P.World F.State)
          → V.is_open m f ≡ true
          → V.mode_of f ≡ read_existing
          → Closes f (V.files m) m
      pub f_close_written :
          (f : F.File) (m : Machine P.World F.State)
          → V.is_open m f ≡ true
          → V.mode_of f ≡ write_always
          → Closes f (update_file (V.files m) (V.path_of f) (V.pending m f)) m
      pub fwrite_kept :
          (s : Stream) (bytes : List ℕ) (m : Machine P.World F.State)
          → Kept m (record m { world = T.fwrite s bytes m.world })
      pub fwrite_written :
          (s : Stream) (bytes : List ℕ) (w : P.World)
          → V.written (T.fwrite s bytes w) s ≡ V.written w s ++ bytes
      pub fclose_kept :
          (s : Stream) (m : Machine P.World F.State)
          → Kept m (record m { world = T.fclose s m.world })
      pub fclose_streams :
          (s : Stream) (m : Machine P.World F.State)
          → Unstreamed m (record m { world = T.fclose s m.world })
      pub fopen_read :
          (path : CString) (bytes : List ℕ) (m : Machine P.World F.State)
          → V.host m.world path ≡ some bytes
          → OpensStream path bytes m
      pub fread_bytes :
          (s : Stream) (n : ℕ) (w : P.World) → (T.fread s n w).0 ≡ take n (V.unread w s)
      pub fread_unread :
          (s : Stream) (n : ℕ) (w : P.World) → V.unread (T.fread s n w).1 s ≡ drop n (V.unread w s)
      pub fread_kept :
          (s : Stream) (n : ℕ) (m : Machine P.World F.State)
          → Kept m (record m { world = (T.fread s n m.world).1 })
      pub ferror : (s : Stream) (w : P.World) → T.ferror s w ≡ false
