-- ===== src/Posix.antt =====
-- The system calls that src/image_file.c makes, as a parameter of the model: an unknown world and
-- one operation for each call. What the code relies on is `IsHealthy`: the documented behaviour of
-- regular files on a disk with neither failures nor a lack of space. Transfers may be short.
pub mod Memory
pub mod Views
use hdfmonkey.Base.{
  ℕ, zero, suc, ◌+◌, ◌≤◌, ◌<◌, ◌≡◌, Bool, true, false, Option, none, some, List, [], ◌∷◌, ◌==◌,
  if◌then◌else◌, length, take, same_bytes,
}
use hdfmonkey.Base.Slices.{slice, splice}

-- `char *`, without the terminating NUL.
abbrev pub CString : Type 0
CString = List ℕ

-- O_RDONLY; O_RDWR; O_RDWR | O_CREAT | O_TRUNC.
pub data Access : Type 0 where
  read_only read_write create_truncate : Access

-- `none` stands for the result -1.
pub record Posix : Type 1 where
  pub World : Type 0
  pub open_file : CString → Access → World → Option ℕ × World
  -- the size of an open file
  pub fstat : ℕ → World → Option ℕ × World
  -- `lseek(fd, position, SEEK_SET)`
  pub lseek : ℕ → ℕ → World → Option ℕ × World
  -- the bytes that were read; none of them at the end of the file
  pub read : ℕ → ℕ → World → Option (List ℕ) × World
  -- how many bytes were written
  pub write : ℕ → List ℕ → World → Option ℕ × World
  pub ftruncate : ℕ → ℕ → World → Bool × World
  pub close : ℕ → World → World
  -- a message on the error stream
  pub perror : CString → World → World

-- An open file description.
pub record Descriptor : Type 0 where
  pub path : CString
  pub offset : ℕ
  pub writeable : Bool

abbrev pub update : (ℕ → Option Descriptor) → ℕ → Option Descriptor → ℕ → Option Descriptor
update fds fd d j = if j == fd then d else fds j

abbrev pub update_file : (CString → Option (List ℕ)) → CString → List ℕ → CString → Option (List ℕ)
update_file files path bytes p = if same_bytes p path then some bytes else files p

-- `bytes` cut or filled up with zeros.
unfoldable pub resize : ℕ → List ℕ → List ℕ
resize zero bytes = []
resize (suc n) [] = 0 ∷ resize n []
resize (suc n) (b ∷ bytes) = b ∷ resize n bytes

-- What there is to see in a world: the bytes of each file, and what each descriptor stands for.
pub record View (P : Posix) : Type 0 where
  pub files : P.World → CString → Option (List ℕ)
  pub fds : P.World → ℕ → Option Descriptor

module _ (P : Posix) (V : View P) where
  pub record ReadOnce (w : P.World) (fd count : ℕ) (d : Descriptor) (bytes : List ℕ) (moved : ℕ)
      : Type 0 where
    pub within : moved ≤ count
    pub in_file : d.offset + moved ≤ length bytes
    pub progress : 0 < count → d.offset < length bytes → 0 < moved
    pub result : (P.read fd count w).0 ≡ some (slice d.offset moved bytes)
    pub files_same : V.files (P.read fd count w).1 ≡ V.files w
    pub fds_moved :
        V.fds (P.read fd count w).1
        ≡ update (V.fds w) fd (some (record d { offset = d.offset + moved }))

  pub record WriteOnce (w : P.World) (fd : ℕ) (bs : List ℕ) (d : Descriptor) (bytes : List ℕ)
      (moved : ℕ) : Type 0 where
    pub within : moved ≤ length bs
    pub progress : 0 < length bs → 0 < moved
    pub result : (P.write fd bs w).0 ≡ some moved
    pub files_written :
        V.files (P.write fd bs w).1
        ≡ update_file (V.files w) d.path (splice d.offset (take moved bs) bytes)
    pub fds_moved :
        V.fds (P.write fd bs w).1
        ≡ update (V.fds w) fd (some (record d { offset = d.offset + moved }))

  pub record Opened (w : P.World) (path : CString) (a : Access) (writeable : Bool)
      (files : CString → Option (List ℕ)) (fd : ℕ) : Type 0 where
    pub result : (P.open_file path a w).0 ≡ some fd
    pub fresh : V.fds w fd ≡ none
    pub files_after : V.files (P.open_file path a w).1 ≡ files
    pub fds_after :
        V.fds (P.open_file path a w).1
        ≡ update (V.fds w) fd (some (record { path = path; offset = 0; writeable = writeable }))

  pub record Same (w w' : P.World) : Type 0 where
    pub files : V.files w' ≡ V.files w
    pub fds : V.fds w' ≡ V.fds w

  pub record IsHealthy : Type 0 where
    pub read_once :
        (w : P.World) (fd count : ℕ) (d : Descriptor) (bytes : List ℕ)
        → V.fds w fd ≡ some d
        → V.files w d.path ≡ some bytes
        → d.offset ≤ length bytes
        → (moved : ℕ) × ReadOnce w fd count d bytes moved
    -- a write that stays within the file
    pub write_once :
        (w : P.World) (fd : ℕ) (bs : List ℕ) (d : Descriptor) (bytes : List ℕ)
        → V.fds w fd ≡ some d
        → d.writeable ≡ true
        → V.files w d.path ≡ some bytes
        → d.offset + length bs ≤ length bytes
        → (moved : ℕ) × WriteOnce w fd bs d bytes moved
    pub lseek_result :
        (w : P.World) (fd p : ℕ) (d : Descriptor)
        → V.fds w fd ≡ some d
        → (P.lseek fd p w).0 ≡ some p
    pub lseek_files :
        (w : P.World) (fd p : ℕ) (d : Descriptor)
        → V.fds w fd ≡ some d
        → V.files (P.lseek fd p w).1 ≡ V.files w
    pub lseek_fds :
        (w : P.World) (fd p : ℕ) (d : Descriptor)
        → V.fds w fd ≡ some d
        → V.fds (P.lseek fd p w).1 ≡ update (V.fds w) fd (some (record d { offset = p }))
    pub fstat_result :
        (w : P.World) (fd : ℕ) (d : Descriptor) (bytes : List ℕ)
        → V.fds w fd ≡ some d
        → V.files w d.path ≡ some bytes
        → (P.fstat fd w).0 ≡ some (length bytes)
    pub fstat_same : (w : P.World) (fd : ℕ) → Same w (P.fstat fd w).1
    pub ftruncate_result :
        (w : P.World) (fd n : ℕ) (d : Descriptor) (bytes : List ℕ)
        → V.fds w fd ≡ some d
        → d.writeable ≡ true
        → V.files w d.path ≡ some bytes
        → (P.ftruncate fd n w).0 ≡ true
    pub ftruncate_files :
        (w : P.World) (fd n : ℕ) (d : Descriptor) (bytes : List ℕ)
        → V.fds w fd ≡ some d
        → d.writeable ≡ true
        → V.files w d.path ≡ some bytes
        → V.files (P.ftruncate fd n w).1 ≡ update_file (V.files w) d.path (resize n bytes)
    pub ftruncate_fds : (w : P.World) (fd n : ℕ) → V.fds (P.ftruncate fd n w).1 ≡ V.fds w
    pub close_files : (w : P.World) (fd : ℕ) → V.files (P.close fd w) ≡ V.files w
    pub close_fds : (w : P.World) (fd : ℕ) → V.fds (P.close fd w) ≡ update (V.fds w) fd none
    pub perror_same : (w : P.World) (message : CString) → Same w (P.perror message w)
    pub open_existing :
        (w : P.World) (path : CString) (a : Access) (writeable : Bool) (bytes : List ℕ)
        → V.files w path ≡ some bytes
        → (a ≡ (if writeable then read_write else read_only))
        → (fd : ℕ) × Opened w path a writeable (V.files w) fd
    pub open_created :
        (w : P.World) (path : CString)
        → (fd : ℕ) × Opened w path create_truncate true (update_file (V.files w) path []) fd

  -- The first bytes of a regular file come in one piece: such a read is not cut short.
  pub record IsPrompt : Type 0 where
    pub read_whole :
        (w : P.World) (fd count : ℕ) (d : Descriptor) (bytes : List ℕ)
        → count ≤ 11
        → V.fds w fd ≡ some d
        → V.files w d.path ≡ some bytes
        → d.offset + count ≤ length bytes
        → ReadOnce w fd count d bytes count

module _ (P : Posix) (V : View P) where
  -- A write to a descriptor that is not open for writing fails.
  pub record IsGuarded : Type 0 where
    pub refused :
        (w : P.World) (fd : ℕ) (bs : List ℕ) (d : Descriptor)
        → V.fds w fd ≡ some d
        → d.writeable ≡ false
        → (P.write fd bs w).0 ≡ none
    pub refused_same :
        (w : P.World) (fd : ℕ) (bs : List ℕ) (d : Descriptor)
        → V.fds w fd ≡ some d
        → d.writeable ≡ false
        → Same P V w (P.write fd bs w).1

-- No transfer moves more than it was asked to, and a write that does not fail moves a byte, if there
-- is one to move.
pub record Progresses (P : Posix) : Type 0 where
  pub read_within :
      (w : P.World) (fd count : ℕ) (bytes : List ℕ)
      → (P.read fd count w).0 ≡ some bytes
      → length bytes ≤ count
  pub write_within :
      (w : P.World) (fd : ℕ) (bytes : List ℕ) (moved : ℕ)
      → (P.write fd bytes w).0 ≡ some moved
      → moved ≤ length bytes
  pub write_moves :
      (w : P.World) (fd : ℕ) (bytes : List ℕ) (moved : ℕ)
      → (P.write fd bytes w).0 ≡ some moved
      → 0 < length bytes
      → 0 < moved
