-- ===== src/ImageFile/Io/Writes.antt =====
-- What `image_file_write` of src/image_file.c leaves in the file.
use native.Mathlib.Nat.{add-zero, zero-add}
use hdfmonkey.Base.{
  ℕ, zero, suc, ◌+◌, ◌-◌, ◌^◌, ◌≤◌, ◌<◌, ◌≡◌, refl, sym, ap, ◌∙◌, List, [], ◌∷◌, some, false, true,
  ◌==◌, length, take, drop, ℤ, pos, negsuc, to_int, sub_word, ok, arith, to_int_small, to_int_large,
  is_negative, ◌%◌, sub_word_small, length-drop,
}
use hdfmonkey.Base.Slices.{splice, splice_parts, splice-nil, length-splice}
use hdfmonkey.Posix.{Posix, View, IsHealthy, WriteOnce, Descriptor, update, update_file}
use hdfmonkey.Posix.Views.{
  advance, update_self, update-update, lookup-update, Returns, Returns-eq, file-update,
  update_file-update_file, update_file_self,
}
use hdfmonkey.ImageFile.Io.{write_loop, image_file_write}

module _ (P : Posix) where
  -- A round of the loop that writes `n` bytes.
  write_round :
      (fuel fd count done n : ℕ) (bs : List ℕ) (w : P.World)
      → (count == 0) ≡ false
      → (P.write fd bs w).0 ≡ some n
      → to_int n ≡ pos n
      → write_loop P (suc fuel) fd bs count done w
        ≡ write_loop P fuel fd (drop n bs) (sub_word count n) (done + n) (P.write fd bs w).1
  unfolding write_loop
  write_round fuel fd count done n bs w c r t = rw (c, r, t)

  empty_write :
      (fuel fd done : ℕ) (bs : List ℕ) (w : P.World)
      → write_loop P (suc fuel) fd bs 0 done w ≡ ok (pos (done + 0)) w
  unfolding write_loop
  empty_write fuel fd done bs w = rw add-zero

module _ (P : Posix) (V : View P) where
  -- The loop has come to its end: `bs` stands in the file at the descriptor's offset.
  abbrev LoopReturns :
      (fuel fd done : ℕ) (bs : List ℕ) (w : P.World) (d : Descriptor) (bytes : List ℕ) (count : ℕ)
      → Type 0
  LoopReturns fuel fd done bs w d bytes count =
      Returns P V (write_loop P fuel fd bs count done w) (pos (done + count))
        (update_file (V.files w) d.path (splice d.offset bs bytes))
        (update (V.fds w) fd (some (advance d (d.offset + count))))

  write_step :
      (fuel fd done count : ℕ) (bs : List ℕ) (w : P.World) (d : Descriptor) (bytes : List ℕ) (n : ℕ)
      → 0 < count
      → count ≡ length bs
      → count < 2 ^ 31
      → WriteOnce P V w fd bs d bytes n
      → LoopReturns fuel fd
          (done + n)
          (drop n bs)
          (P.write fd bs w).1
          (advance d (d.offset + n))
          (splice d.offset (take n bs) bytes)
          (count - n)
      → LoopReturns (suc fuel) fd done bs w d bytes count
  write_step fuel fd done count bs w d bytes n some_left e b once rest =
      let sub : sub_word count n ≡ count - n =
        sub_word_small count n (omega (arith, once.within)) (omega arith) in
      let total : done + n + (count - n) ≡ done + count = omega (arith, once.within) in
      let moved : d.offset + n + (count - n) ≡ d.offset + count = omega (arith, once.within) in
      Returns-eq P V
        (write_round P fuel fd count done n bs w (ground arith) once.result
            (to_int_small n (omega (arith, once.within)))
          ∙ rw sub)
        (ap pos total)
        (rw (once.files_written, splice_parts d.offset n bs bytes once.within)
          (update_file-update_file (V.files w) d.path _ _))
        (rw (once.fds_moved, moved) (update-update (V.fds w) fd _ _)) rest

  module _ (H : IsHealthy P V) where
    write_loop-Returns :
        (fuel fd done count : ℕ) (bs : List ℕ) (w : P.World) (d : Descriptor) (bytes : List ℕ)
        → count < fuel
        → count ≡ length bs
        → count < 2 ^ 31
        → V.fds w fd ≡ some d
        → d.writeable ≡ true
        → V.files w d.path ≡ some bytes
        → d.offset + count ≤ length bytes
        → LoopReturns fuel fd done bs w d bytes count
    write_loop-Returns zero fd done count bs w d bytes f l b o u e i = absurd (omega arith)
    write_loop-Returns (suc fuel) fd done zero [] w d bytes f l b o u e i = record {
      after = w;
      result = empty_write P fuel fd done [] w;
      files_after = sym (rw splice-nil (update_file_self (V.files w) d.path bytes e));
      fds_after = update_self (V.fds w) fd d _ o (omega arith);
    }
    write_loop-Returns (suc fuel) fd done zero (x ∷ bs) w d bytes f l b o u e i =
        absurd (omega arith)
    write_loop-Returns (suc fuel) fd done (suc c) bs w d bytes f l b o u e i =
        let (n, once) = H.write_once w fd bs d bytes o u e (omega arith) in
        write_step fuel fd done (suc c) bs w d bytes n (omega arith) l b once (
          write_loop-Returns fuel fd (done + n) (suc c - n) (drop n bs) (P.write fd bs w).1
            (advance d (d.offset + n)) (splice d.offset (take n bs) bytes)
            (omega (arith, once.progress)) (omega (arith, length-drop n bs)) (omega arith)
            (rw once.fds_moved (lookup-update (V.fds w) fd _)) u
            (rw once.files_written (file-update (V.files w) d.path _))
            (omega (arith, once.within, length-splice d.offset (take n bs) bytes)))

    module _ (w : P.World) (fd data_offset position : ℕ) (bs : List ℕ) (d : Descriptor)
        (opened : V.fds w fd ≡ some d) where
      image_file_write_sought :
          position + data_offset < 2 ^ 31
          → image_file_write P fd data_offset position bs w
            ≡ write_loop P
                (suc (length bs))
                fd
                bs
                (length bs)
                0
                (P.lseek fd (position + data_offset) w).1
      unfolding image_file_write
      image_file_write_sought b =
          rw (H.lseek_result w fd (position + data_offset) d opened, to_int_small _ b)

      -- On a healthy disk a write inside an open writeable file, at a file offset and of a size below
      -- 2 ^ 31, returns the number of its bytes and leaves exactly them in that range of the file,
      -- in however many pieces they go: all other bytes, all other files, and all descriptors but
      -- this one's offset are as before.
      pub image_file_write-Returns :
          (bytes : List ℕ)
          → d.writeable ≡ true
          → V.files w d.path ≡ some bytes
          → position + data_offset < 2 ^ 31
          → length bs < 2 ^ 31
          → position + data_offset + length bs ≤ length bytes
          → Returns P V
              (image_file_write P fd data_offset position bs w)
              (pos (length bs))
              (update_file (V.files w) d.path (splice (position + data_offset) bs bytes))
              (update (V.fds w) fd (some (advance d (position + data_offset + length bs))))
      image_file_write-Returns bytes u e b b' i =
          let p = position + data_offset in
          let files = H.lseek_files w fd p d opened in
          let fds = H.lseek_fds w fd p d opened in
          Returns-eq P V (image_file_write_sought b) (rw zero-add) (rw files)
            (rw fds (update-update (V.fds w) fd _ _))
            (write_loop-Returns (suc (length bs)) fd 0 (length bs) bs (P.lseek fd p w).1
              (advance d p) bytes (omega arith) refl b' (rw fds (lookup-update (V.fds w) fd _)) u
              (rw files e) i)

      image_file_write_negative :
          (r : ℤ)
          → to_int (position + data_offset) ≡ r
          → is_negative r ≡ true
          → image_file_write P fd data_offset position bs w
            ≡ ok r (P.lseek fd (position + data_offset) w).1
      unfolding image_file_write
      image_file_write_negative (pos n) e h = cc
      image_file_write_negative (negsuc n) e h =
          rw (H.lseek_result w fd (position + data_offset) d opened, e)

      -- Where bit 31 of the file offset is set, a write returns a negative number and leaves every
      -- file as it was, also inside the file.
      pub image_file_write_beyond :
          2 ^ 31 ≤ (position + data_offset) % 2 ^ 32
          → (after : P.World) × (image_file_write P fd data_offset position bs w
              ≡ ok (to_int (position + data_offset)) after)
            × (is_negative (to_int (position + data_offset)) ≡ true)
            × (V.files after ≡ V.files w)
      image_file_write_beyond b = (
        (P.lseek fd (position + data_offset) w).1,
        image_file_write_negative _ refl (to_int_large _ b),
        to_int_large _ b,
        H.lseek_files w fd _ d opened,
      )
