-- ===== src/Posix/Memory/Disk.antt =====
-- The operations of a disk in memory. A transfer moves `suc chunk` bytes at most.
use Prim.Native.Nat.{min}
use hdfmonkey.Base.{
  ℕ, zero, suc, ◌+◌, ◌-◌, Bool, true, false, Option, none, some, List, [], ◌∷◌, ◌++◌, leb,
  if◌then◌else◌, length, set, take,
}
use hdfmonkey.Base.Slices.{slice, splice}
use hdfmonkey.Posix.{
  Posix, View, CString, Access, read_only, read_write, create_truncate, Descriptor, update_file,
  resize,
}
use hdfmonkey.Posix.Views.{advance}

abbrev pub Table : Type 0
Table = List (Option Descriptor)

abbrev pub at : Table → ℕ → Option Descriptor
at [] i = none
at (d ∷ t) zero = d
at (d ∷ t) (suc i) = at t i

pub record Disk : Type 0 where
  pub files : CString → Option (List ℕ)
  pub table : Table
  pub errors : List CString
  -- the names in each directory
  pub folders : CString → Option (List CString)
  -- what each directory stream has still to deliver; the streams from `next` on were never open
  pub readers : ℕ → Option (List CString)
  pub next : ℕ

abbrev pub open_new : CString → Bool → (CString → Option (List ℕ)) → Disk → Option ℕ × Disk
open_new path writeable files w = (
  some (length w.table),
  record w {
    files = files;
    table = w.table ++ (some (record { path = path; offset = 0; writeable = writeable }) ∷ []);
  },
)

abbrev pub open_old : CString → Bool → Disk → Option ℕ × Disk
open_old path writeable w = elim (w.files path) [
  | none ↦ (none, w)
  | some _ ↦ open_new path writeable w.files w
]

unfoldable pub open_file : CString → Access → Disk → Option ℕ × Disk
open_file path read_only w = open_old path false w
open_file path read_write w = open_old path true w
open_file path create_truncate w = open_new path true (update_file w.files path []) w

-- What an operation on an open file does, given its descriptor and its bytes.
abbrev pub with_file : {A : Type 0} → ℕ → A → Disk → (Descriptor → List ℕ → A × Disk) → A × Disk
with_file fd failure w k = elim (at w.table fd) [
  | none ↦ (failure, w)
  | some d ↦ elim (w.files d.path) [ none ↦ (failure, w) | some bytes ↦ k d bytes ]
]

unfoldable pub fstat : ℕ → Disk → Option ℕ × Disk
fstat fd w = with_file fd none w λ d bytes. (some (length bytes), w)

abbrev pub move : Disk → ℕ → Descriptor → ℕ → Disk
move w fd d n = record w { table = set w.table fd (some (advance d n)) }

unfoldable pub lseek : ℕ → ℕ → Disk → Option ℕ × Disk
lseek fd p w = elim (at w.table fd) [ none ↦ (none, w) | some d ↦ (some p, move w fd d p) ]

abbrev pub readable : ℕ → ℕ → ℕ → List ℕ → ℕ
readable chunk count offset bytes = min (min count (suc chunk)) (length bytes - offset)

unfoldable pub read : ℕ → ℕ → ℕ → Disk → Option (List ℕ) × Disk
unfolding slice
read chunk fd count w = with_file fd none w λ d bytes.
    let n = readable chunk count d.offset bytes in
    (some (slice d.offset n bytes), move w fd d (d.offset + n))

-- A write past the end makes the file longer.
unfoldable pub overwrite : ℕ → List ℕ → List ℕ → List ℕ
unfolding splice resize
overwrite p bs bytes =
    if leb (p + length bs) (length bytes)
    then splice p bs bytes
    else splice p bs (resize (p + length bs) bytes)

unfoldable pub write : ℕ → ℕ → List ℕ → Disk → Option ℕ × Disk
unfolding overwrite
write chunk fd bs w = with_file fd none w λ d bytes.
    let n = min (length bs) (suc chunk) in
    if d.writeable
    then (
      some n,
      record (move w fd d (d.offset + n)) {
        files = update_file w.files d.path (overwrite d.offset (take n bs) bytes);
      },
    )
    else (none, w)

unfoldable pub ftruncate : ℕ → ℕ → Disk → Bool × Disk
unfolding resize
ftruncate fd n w = with_file fd false w λ d bytes.
    if d.writeable
    then (true, record w { files = update_file w.files d.path (resize n bytes) })
    else (false, w)

unfoldable pub close : ℕ → Disk → Disk
close fd w = record w { table = set w.table fd none }

abbrev pub memory : ℕ → Posix
memory chunk = record {
  World = Disk;
  open_file = open_file;
  fstat = fstat;
  lseek = lseek;
  read = read chunk;
  write = write chunk;
  ftruncate = ftruncate;
  close = close;
  perror = λ message w. record w { errors = w.errors ++ (message ∷ []) };
}

abbrev pub memory_view : (chunk : ℕ) → View (memory chunk)
memory_view chunk = record { files = λ w. w.files; fds = λ w. at w.table }
