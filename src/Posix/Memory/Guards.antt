-- ===== src/Posix/Memory/Guards.antt =====
-- The disk in memory refuses writes to descriptors that are not open for writing.
use hdfmonkey.Base.{ℕ, ◌≡◌, refl, List, none, some, false, arith}
use hdfmonkey.Posix.{IsGuarded, Descriptor}
use hdfmonkey.Posix.Memory.Disk.{Disk, at, write, memory, memory_view}

module _ (chunk : ℕ) where
  refuses :
      (w : Disk) (fd : ℕ) (bs : List ℕ) (d : Descriptor)
      → at w.table fd ≡ some d
      → d.writeable ≡ false
      → write chunk fd bs w ≡ (none, w)
  unfolding write
  refuses w fd bs d e closed = ground arith

  pub memory-IsGuarded : IsGuarded (memory chunk) (memory_view chunk)
  memory-IsGuarded = record {
    refused = λ w fd bs d e closed. rw (refuses w fd bs d e closed) refl;
    refused_same =
        λ w fd bs d e closed. rw (refuses w fd bs d e closed) (record { files = refl; fds = refl });
  }
