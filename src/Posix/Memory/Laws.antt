-- ===== src/Posix/Memory/Laws.antt =====
-- The disk in memory is healthy.
use mathlib.Core.Path.{fun_ext, subst}
use Prim.Native.Nat.{min}
use hdfmonkey.Base.{
  ℕ, zero, suc, ◌+◌, ◌≤◌, ◌≡◌, refl, ap, ◌∙◌, Bool, true, false, Option, none, some, List, [], ◌∷◌,
  ◌++◌, if◌then◌else◌, length, set, take, arith, length-take, le→leb,
}
use hdfmonkey.Base.Slices.{slice, splice}
use hdfmonkey.Posix.{
  Posix, View, CString, Access, read_only, read_write, create_truncate, Descriptor, update,
  update_file, resize, IsHealthy, IsPrompt, ReadOnce, WriteOnce, Opened,
}
use hdfmonkey.Posix.Memory.Disk.{
  Table, at, Disk, open_new, open_old, move, with_file, open_file, fstat, lseek, readable, read,
  write, ftruncate, close, memory, memory_view,
}

at-set :
    (t : Table) (fd : ℕ) (e : Option Descriptor) (x : Descriptor) (j : ℕ)
    → at t fd ≡ some x
    → at (set t fd e) j ≡ update (at t) fd e j
at-set [] fd e x j h = cc
at-set (y ∷ t) zero e x zero h = refl
at-set (y ∷ t) zero e x (suc j) h = ground arith
at-set (y ∷ t) (suc fd) e x zero h = ground arith
at-set (y ∷ t) (suc fd) e x (suc j) h = ground (arith, at-set t fd e x j h)

at-set-none : (t : Table) (fd j : ℕ) → at (set t fd none) j ≡ update (at t) fd none j
at-set-none [] fd j = ground arith
at-set-none (y ∷ t) zero zero = refl
at-set-none (y ∷ t) zero (suc j) = ground arith
at-set-none (y ∷ t) (suc fd) zero = ground arith
at-set-none (y ∷ t) (suc fd) (suc j) = ground (arith, at-set-none t fd j)

at-append :
    (t : Table) (x : Option Descriptor) (j : ℕ)
    → at (t ++ (x ∷ [])) j ≡ update (at t) (length t) x j
at-append [] x zero = refl
at-append [] x (suc j) = ground arith
at-append (y ∷ t) x zero = ground arith
at-append (y ∷ t) x (suc j) = ground (arith, at-append t x j)

at-length : (t : Table) → at t (length t) ≡ none
at-length [] = refl
at-length (y ∷ t) = at-length t

-- An operation on an open file goes on with its descriptor and its bytes.
with_file_eq :
    {A : Type 0} (fd : ℕ) (failure : A) (w : Disk) (k : Descriptor → List ℕ → A × Disk)
    (d : Descriptor) (bytes : List ℕ)
    → at w.table fd ≡ some d
    → w.files d.path ≡ some bytes
    → with_file fd failure w k ≡ k d bytes
with_file_eq fd failure w k d bytes o e = ground arith

old_eq :
    (path : CString) (writeable : Bool) (w : Disk) (bytes : List ℕ)
    → w.files path ≡ some bytes
    → open_old path writeable w ≡ open_new path writeable w.files w
old_eq path writeable w bytes e = ground arith

module _ (chunk : ℕ) where
  abbrev P : Posix
  P = memory chunk

  abbrev V : View P
  V = memory_view chunk

  read_once :
      (w : Disk) (fd count : ℕ) (d : Descriptor) (bytes : List ℕ)
      → at w.table fd ≡ some d
      → w.files d.path ≡ some bytes
      → d.offset ≤ length bytes
      → ReadOnce P V w fd count d bytes (readable chunk count d.offset bytes)
  unfolding read
  read_once w fd count d bytes o e i =
      let n = readable chunk count d.offset bytes in
      let run : read chunk fd count w
          ≡ (some (slice d.offset n bytes), move w fd d (d.offset + n)) =
        with_file_eq fd _ w _ d bytes o e in
      record {
        within = omega arith;
        in_file = omega arith;
        progress = omega arith;
        result = ap (λ t. t.0) run;
        files_same = ap (λ t. t.1.files) run;
        fds_moved = ap (λ t. at t.1.table) run ∙ fun_ext λ j. at-set w.table fd _ d j o;
      }

  write_eq :
      (w : Disk) (fd : ℕ) (bs : List ℕ) (d : Descriptor) (bytes : List ℕ)
      → at w.table fd ≡ some d
      → d.writeable ≡ true
      → w.files d.path ≡ some bytes
      → d.offset + length bs ≤ length bytes
      → let n = min (length bs) (suc chunk) in
        write chunk fd bs w ≡ (
          some n,
          record (move w fd d (d.offset + n)) {
            files = update_file w.files d.path (splice d.offset (take n bs) bytes);
          },
        )
  unfolding write
  write_eq w fd bs d bytes o u e i =
      let n = min (length bs) (suc chunk) in
      with_file_eq fd _ w _ d bytes o e
      ∙ rw (
        u,
        le→leb (d.offset + length (take n bs)) (length bytes)
            (omega (arith, length-take n bs (omega arith))),
      )

  write_once :
      (w : Disk) (fd : ℕ) (bs : List ℕ) (d : Descriptor) (bytes : List ℕ)
      → at w.table fd ≡ some d
      → d.writeable ≡ true
      → w.files d.path ≡ some bytes
      → d.offset + length bs ≤ length bytes
      → WriteOnce P V w fd bs d bytes (min (length bs) (suc chunk))
  write_once w fd bs d bytes o u e i =
      let run = write_eq w fd bs d bytes o u e i in
      record {
        within = omega arith;
        progress = omega arith;
        result = ap (λ t. t.0) run;
        files_written = ap (λ t. t.1.files) run;
        fds_moved = ap (λ t. at t.1.table) run ∙ fun_ext λ j. at-set w.table fd _ d j o;
      }

  lseek_eq :
      (w : Disk) (fd p : ℕ) (d : Descriptor)
      → at w.table fd ≡ some d
      → lseek fd p w ≡ (some p, move w fd d p)
  unfolding lseek
  lseek_eq w fd p d o = ground arith

  ftruncate_eq :
      (w : Disk) (fd n : ℕ) (d : Descriptor) (bytes : List ℕ)
      → at w.table fd ≡ some d
      → d.writeable ≡ true
      → w.files d.path ≡ some bytes
      → ftruncate fd n w ≡ (true, record w { files = update_file w.files d.path (resize n bytes) })
  unfolding ftruncate
  ftruncate_eq w fd n d bytes o u e = with_file_eq fd _ w _ d bytes o e ∙ rw u

  fstat_eq :
      (w : Disk) (fd : ℕ) (d : Descriptor) (bytes : List ℕ)
      → at w.table fd ≡ some d
      → w.files d.path ≡ some bytes
      → fstat fd w ≡ (some (length bytes), w)
  unfolding fstat
  fstat_eq w fd d bytes o e = with_file_eq fd _ w _ d bytes o e

  fstat_world : (w : Disk) (fd : ℕ) → (fstat fd w).1 ≡ w
  unfolding fstat
  fstat_world w fd = ground arith

  ftruncate_table : (w : Disk) (fd n : ℕ) → (ftruncate fd n w).1.table ≡ w.table
  unfolding ftruncate
  ftruncate_table w fd n = ground arith

  opened :
      (w : Disk) (path : CString) (a : Access) (b : Bool) (files : CString → Option (List ℕ))
      → open_file path a w ≡ open_new path b files w
      → Opened P V w path a b files (length w.table)
  opened w path a b files e = record {
    result = ap (λ t. t.0) e;
    fresh = at-length w.table;
    files_after = ap (λ t. t.1.files) e;
    fds_after = ap (λ t. at t.1.table) e ∙ fun_ext λ j. at-append w.table _ j;
  }

  open_existing :
      (w : Disk) (path : CString) (a : Access) (writeable : Bool) (bytes : List ℕ)
      → w.files path ≡ some bytes
      → a ≡ (if writeable then read_write else read_only)
      → (fd : ℕ) × Opened P V w path a writeable w.files fd
  unfolding open_file
  open_existing w path read_only true bytes e h = cc
  open_existing w path read_write false bytes e h = cc
  open_existing w path create_truncate true bytes e h = cc
  open_existing w path create_truncate false bytes e h = cc
  open_existing w path read_only false bytes e h =
      (length w.table, opened w path read_only false w.files (old_eq path false w bytes e))
  open_existing w path read_write true bytes e h =
      (length w.table, opened w path read_write true w.files (old_eq path true w bytes e))

  created :
      (w : Disk) (path : CString)
      → open_file path create_truncate w ≡ open_new path true (update_file w.files path []) w
  unfolding open_file
  created w path = refl

  -- The disk in memory meets what the code relies on.
  pub memory-IsHealthy : IsHealthy P V
  unfolding close
  memory-IsHealthy = record {
    read_once = λ w fd count d bytes o e i. (_, read_once w fd count d bytes o e i);
    write_once = λ w fd bs d bytes o u e i. (_, write_once w fd bs d bytes o u e i);
    lseek_result = λ w fd p d o. ap (λ t. t.0) (lseek_eq w fd p d o);
    lseek_files = λ w fd p d o. ap (λ t. t.1.files) (lseek_eq w fd p d o);
    lseek_fds = λ w fd p d o.
        ap (λ t. at t.1.table) (lseek_eq w fd p d o) ∙ fun_ext λ j. at-set w.table fd _ d j o;
    fstat_result = λ w fd d bytes o e. ap (λ t. t.0) (fstat_eq w fd d bytes o e);
    fstat_same = λ w fd. record {
      files = ap (λ t. t.files) (fstat_world w fd);
      fds = ap (λ t. at t.table) (fstat_world w fd);
    };
    ftruncate_result = λ w fd n d bytes o u e. ap (λ t. t.0) (ftruncate_eq w fd n d bytes o u e);
    ftruncate_files =
        λ w fd n d bytes o u e. ap (λ t. t.1.files) (ftruncate_eq w fd n d bytes o u e);
    ftruncate_fds = λ w fd n. ap at (ftruncate_table w fd n);
    close_files = λ w fd. refl;
    close_fds = λ w fd. fun_ext λ j. at-set-none w.table fd j;
    perror_same = λ w m. record { files = refl; fds = refl };
    open_existing = open_existing;
    open_created =
        λ w path. (length w.table, opened w path create_truncate true _ (created w path));
  }

-- A disk that moves at least 11 bytes at once is prompt.
pub memory-IsPrompt : (chunk : ℕ) → 10 ≤ chunk → IsPrompt (memory chunk) (memory_view chunk)
memory-IsPrompt chunk h = record {
  read_whole = λ w fd count d bytes c o e i.
      let all : readable chunk count d.offset bytes ≡ count = omega arith in
      subst (λ n. ReadOnce (memory chunk) (memory_view chunk) w fd count d bytes n) all
        (read_once chunk w fd count d bytes o e (omega arith));
}
