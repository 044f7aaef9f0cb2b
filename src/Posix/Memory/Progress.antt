-- ===== src/Posix/Memory/Progress.antt =====
-- The disk in memory moves what it was asked to at most, and something if there is anything.
use hdfmonkey.Base.{ℕ, zero, suc, ◌≤◌, ◌<◌, ◌≡◌, List, some, length, arith, [], ◌∷◌}
use hdfmonkey.Base.Slices.{slice}
use hdfmonkey.Posix.{Progresses}
use hdfmonkey.Posix.Memory.Disk.{Disk, read, write, memory}

length-slice-le : (p n : ℕ) (xs : List ℕ) → length (slice p n xs) ≤ n
unfolding slice
length-slice-le zero zero xs = omega arith
length-slice-le zero (suc n) [] = omega arith
length-slice-le zero (suc n) (x ∷ xs) = omega (arith, length-slice-le zero n xs)
length-slice-le (suc p) n [] = omega arith
length-slice-le (suc p) n (x ∷ xs) = length-slice-le p n xs

module _ (chunk : ℕ) where
  read_within :
      (w : Disk) (fd count : ℕ) (bytes : List ℕ)
      → (read chunk fd count w).0 ≡ some bytes
      → length bytes ≤ count
  unfolding read
  read_within w fd count bytes e = grind (arith, length-slice-le)

  write_within :
      (w : Disk) (fd : ℕ) (bytes : List ℕ) (moved : ℕ)
      → (write chunk fd bytes w).0 ≡ some moved
      → moved ≤ length bytes
  unfolding write
  write_within w fd bytes moved e = ground arith

  write_moves :
      (w : Disk) (fd : ℕ) (bytes : List ℕ) (moved : ℕ)
      → (write chunk fd bytes w).0 ≡ some moved
      → 0 < length bytes
      → 0 < moved
  unfolding write
  write_moves w fd bytes moved e some_bytes = ground arith

  pub memory-Progresses : Progresses (memory chunk)
  memory-Progresses = record {
    read_within = read_within;
    write_within = write_within;
    write_moves = write_moves;
  }
