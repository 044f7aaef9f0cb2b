-- ===== src/ImageFile/Io/Reads.antt =====
-- What `image_file_read` of src/image_file.c delivers.
use native.Mathlib.Nat.{add-zero, zero-add}
use mathlib.Core.List.{append-nil, append_assoc}
use hdfmonkey.Base.{
  ℕ, zero, suc, ◌+◌, ◌-◌, ◌^◌, ◌≤◌, ◌<◌, ◌≡◌, refl, sym, ap, ◌∙◌, List, [], ◌++◌, some, false, true,
  ◌==◌, length, ℤ, pos, negsuc, to_int, sub_word, ok, arith, to_int_small, to_int_large,
  is_negative, ◌%◌, sub_word_small,
}
use hdfmonkey.Base.Slices.{slice, slice_split, slice-zero, length-slice}
use hdfmonkey.Posix.{Posix, View, IsHealthy, ReadOnce, Descriptor, update}
use hdfmonkey.Posix.Views.{advance, update_self, update-update, lookup-update, Returns, Returns-eq}
use hdfmonkey.ImageFile.Io.{read_loop, image_file_read}

module _ (P : Posix) where
  -- A round of the loop that is delivered `suc m` bytes.
  read_round :
      (fuel fd count done m : ℕ) (buf bs : List ℕ) (w : P.World)
      → (count == 0) ≡ false
      → (P.read fd count w).0 ≡ some bs
      → to_int (length bs) ≡ pos (suc m)
      → read_loop P (suc fuel) fd count done buf w
        ≡ read_loop P fuel fd
            (sub_word count (suc m))
            (done + suc m)
            (buf ++ bs)
            (P.read fd count w).1
  unfolding read_loop
  read_round fuel fd count done m buf bs w c r t = rw (c, r, t)

  empty_read :
      (fuel fd done : ℕ) (buf : List ℕ) (w : P.World) (rest : List ℕ)
      → rest ≡ []
      → read_loop P (suc fuel) fd 0 done buf w ≡ ok (pos (done + 0), buf ++ rest) w
  unfolding read_loop
  empty_read fuel fd done buf w rest e = rw (e, append-nil, add-zero)

module _ (P : Posix) (V : View P) where
  -- The loop has come to its end: `count` more bytes follow those in the buffer.
  abbrev LoopReturns :
      (fuel fd count done : ℕ) (buf : List ℕ) (w : P.World) (d : Descriptor) (bytes : List ℕ)
      → P.World
      → Type 0
  LoopReturns fuel fd count done buf w d bytes w0 =
      Returns P V (read_loop P fuel fd count done buf w)
        (pos (done + count), buf ++ slice d.offset count bytes) (V.files w0)
        (update (V.fds w0) fd (some (advance d (d.offset + count))))

  read_step :
      (fuel fd c done : ℕ) (buf : List ℕ) (w : P.World) (d : Descriptor) (bytes : List ℕ) (n : ℕ)
      → (suc c) < 2 ^ 31
      → d.offset + suc c ≤ length bytes
      → ReadOnce P V w fd (suc c) d bytes n
      → LoopReturns fuel fd
          (suc c - n)
          (done + n)
          (buf ++ slice d.offset n bytes)
          (P.read fd (suc c) w).1
          (advance d (d.offset + n))
          bytes
          (P.read fd (suc c) w).1
      → LoopReturns (suc fuel) fd (suc c) done buf w d bytes w
  read_step fuel fd c done buf w d bytes zero b i once rest = absurd (omega (arith, once.progress))
  read_step fuel fd c done buf w d bytes (suc m) b i once rest =
      let len : length (slice d.offset (suc m) bytes) ≡ suc m =
        length-slice d.offset (suc m) bytes once.in_file in
      let sub : sub_word (suc c) (suc m) ≡ suc c - suc m =
        sub_word_small (suc c) (suc m) once.within (omega arith) in
      let count : done + suc m + (suc c - suc m) ≡ done + suc c = omega (arith, once.within) in
      let joined : (buf ++ slice d.offset (suc m) bytes)
            ++ slice (d.offset + suc m) (suc c - suc m) bytes
          ≡ buf ++ slice d.offset (suc c) bytes =
        append_assoc buf _ _
        ∙ ap (λ t. buf ++ t)
            (sym (
              slice_split d.offset (suc m) (suc c - suc m) (suc c) (d.offset + suc m) bytes
                (omega (arith, once.within)) refl)) in
      let moved : d.offset + suc m + (suc c - suc m) ≡ d.offset + suc c =
        omega (arith, once.within) in
      Returns-eq P V
        (read_round P fuel fd (suc c) done m buf (slice d.offset (suc m) bytes) w (ground arith)
            once.result (rw len (to_int_small (suc m) (omega (arith, once.within))))
          ∙ rw sub)
        (rw (count, joined)) once.files_same
        (rw (once.fds_moved, moved) (update-update (V.fds w) fd _ _)) rest

  module _ (H : IsHealthy P V) where
    read_loop-Returns :
        (fuel fd count done : ℕ) (buf : List ℕ) (w : P.World) (d : Descriptor) (bytes : List ℕ)
        → count < fuel
        → count < 2 ^ 31
        → V.fds w fd ≡ some d
        → V.files w d.path ≡ some bytes
        → d.offset + count ≤ length bytes
        → LoopReturns fuel fd count done buf w d bytes w
    read_loop-Returns zero fd count done buf w d bytes f b o e i = absurd (omega arith)
    read_loop-Returns (suc fuel) fd zero done buf w d bytes f b o e i = record {
      after = w;
      result = empty_read P fuel fd done buf w (slice d.offset 0 bytes) (slice-zero d.offset bytes);
      files_after = refl;
      fds_after = update_self (V.fds w) fd d _ o (omega arith);
    }
    read_loop-Returns (suc fuel) fd (suc c) done buf w d bytes f b o e i =
        let (n, once) = H.read_once w fd (suc c) d bytes o e (omega arith) in
        read_step fuel fd c done buf w d bytes n b i once (
          read_loop-Returns fuel fd (suc c - n) (done + n) (buf ++ slice d.offset n bytes)
            (P.read fd (suc c) w).1 (advance d (d.offset + n)) bytes (omega (arith, once.progress))
            (omega arith) (rw once.fds_moved (lookup-update (V.fds w) fd _)) (rw once.files_same e)
            (omega (arith, once.within)))

    module _ (w : P.World) (fd data_offset position count : ℕ) (d : Descriptor)
        (opened : V.fds w fd ≡ some d) where
      image_file_read_sought :
          position + data_offset < 2 ^ 31
          → image_file_read P fd data_offset position count w
            ≡ read_loop P (suc count) fd count 0 [] (P.lseek fd (position + data_offset) w).1
      unfolding image_file_read
      image_file_read_sought b =
          rw (H.lseek_result w fd (position + data_offset) d opened, to_int_small _ b)

      -- On a healthy disk a read of `count` bytes inside an open file, at a file offset and of a
      -- size below 2 ^ 31, returns `count` and exactly the bytes of that range, in however many
      -- pieces they come; the files are as before, and only this descriptor's offset has moved.
      pub image_file_read-Returns :
          (bytes : List ℕ)
          → V.files w d.path ≡ some bytes
          → position + data_offset < 2 ^ 31
          → count < 2 ^ 31
          → position + data_offset + count ≤ length bytes
          → Returns P V
              (image_file_read P fd data_offset position count w)
              (pos count, slice (position + data_offset) count bytes)
              (V.files w)
              (update (V.fds w) fd (some (advance d (position + data_offset + count))))
      image_file_read-Returns bytes e b b' i =
          let p = position + data_offset in
          let files = H.lseek_files w fd p d opened in
          let fds = H.lseek_fds w fd p d opened in
          Returns-eq P V (image_file_read_sought b) (rw zero-add) files
            (rw fds (update-update (V.fds w) fd _ _))
            (read_loop-Returns (suc count) fd count 0 [] (P.lseek fd p w).1 (advance d p) bytes
              (omega arith) b' (rw fds (lookup-update (V.fds w) fd _)) (rw files e) i)

      image_file_read_negative :
          (r : ℤ)
          → to_int (position + data_offset) ≡ r
          → is_negative r ≡ true
          → image_file_read P fd data_offset position count w
            ≡ ok (r, []) (P.lseek fd (position + data_offset) w).1
      unfolding image_file_read
      image_file_read_negative (pos n) e h = cc
      image_file_read_negative (negsuc n) e h =
          rw (H.lseek_result w fd (position + data_offset) d opened, e)

      -- Where bit 31 of the file offset is set, a read returns a negative number and delivers
      -- nothing, also inside the file; every file stays as it was.
      pub image_file_read_beyond :
          2 ^ 31 ≤ (position + data_offset) % 2 ^ 32
          → (after : P.World) × (image_file_read P fd data_offset position count w
              ≡ ok (to_int (position + data_offset), []) after)
            × (is_negative (to_int (position + data_offset)) ≡ true)
            × (V.files after ≡ V.files w)
      image_file_read_beyond b = (
        (P.lseek fd (position + data_offset) w).1,
        image_file_read_negative _ refl (to_int_large _ b),
        to_int_large _ b,
        H.lseek_files w fd _ d opened,
      )
