-- ===== src/ImageFile/Ends.antt =====
-- The loops of src/image_file.c end by themselves, whatever fails, on system calls that do not move
-- more than asked for and never write nothing.
use hdfmonkey.Base.{
  ℕ, zero, suc, ◌+◌, ◌-◌, ◌≤◌, ◌<◌, ◌^◌, ◌≡◌, refl, ap, ◌∙◌, ◌⊎◌, inl, inr, List, [], ◌++◌, Bool,
  true, length, length-append, drop, length-drop, ℤ, pos, leb, ltb, ◌==◌, to_int, to_int_small,
  sub_word, sub_word_small, arith, Option-cases, Bool-cases,
}
use hdfmonkey.Base.Safety.{ℤ-cases}
use hdfmonkey.Base.Ends.{ends, whatever}
use hdfmonkey.Posix.{Posix, CString, Progresses}
use hdfmonkey.Volume.{Volume, image_file, partition}
use hdfmonkey.Volume.Dispatch.{
  volume_read, volume_write, volume_close, partition_read, partition_write,
}
use hdfmonkey.ImageFile.Io.{
  read_loop, image_file_read, write_loop, image_file_write, image_file_close,
}
use hdfmonkey.ImageFile.Header.{hdf_header_size, header_bytes, header_bytes-Describes}
use hdfmonkey.ImageFile.Images.{
  raw_image_open, raw_image_create, hdf_image_open, header_loop, hdf_write_header, hdf_image_create,
  image_file_is_hdf,
}

ℕ-cases : (n : ℕ) → (n ≡ 0) ⊎ ((k : ℕ) × (n ≡ suc k))
ℕ-cases zero = inl refl
ℕ-cases (suc n) = inr (n, refl)

module _ (P : Posix) (G : Progresses P) where
  -- The buffer has so many bytes at most.
  abbrev pub fits : ℕ → ℤ × List ℕ → Bool
  fits size (r, buf) = leb (length buf) size

  read_loop_ends :
      (fuel fd count done : ℕ) (buf : List ℕ) (size : ℕ) (w : P.World)
      → count < fuel
      → count < 2 ^ 31
      → length buf + count ≤ size
      → ends (fits size) (read_loop P fuel fd count done buf w) ≡ true
  unfolding read_loop
  read_loop_ends zero fd count done buf size w enough low room = absurd (omega arith)
  read_loop_ends (suc fuel) fd count done buf size w enough low room =
      elim (Bool-cases (count == 0)) [
        | inl nothing ↦ rw nothing (ground arith)
        | inr more ↦ elim (Option-cases (P.read fd count w).0) [
          | inl e ↦ ground arith
          | inr (bs, e) ↦ elim (ℕ-cases (length bs)) [
            | inl nothing ↦
                let t : to_int (length bs) ≡ pos 0 =
                  ap to_int nothing ∙ to_int_small 0 (omega arith) in
                rw (more, e, t) (ground arith)
            | inr (n, l) ↦
                let most = G.read_within w fd count bs e in
                let t : to_int (length bs) ≡ pos (suc n) =
                  ap to_int l ∙ to_int_small (suc n) (omega arith) in
                let left : sub_word count (suc n) ≡ count - suc n =
                  sub_word_small count (suc n) (omega arith) (omega arith) in
                rw (more, e, t, left)
                  (read_loop_ends fuel fd (count - suc n) (done + suc n) (buf ++ bs) size
                    (P.read fd count w).1 (omega arith) (omega arith)
                    (omega (arith, length-append buf bs)))
          ]
        ]
      ]

  write_loop_ends :
      (fuel fd : ℕ) (bytes : List ℕ) (count done : ℕ) (w : P.World)
      → count ≡ length bytes
      → count < fuel
      → count < 2 ^ 31
      → ends whatever (write_loop P fuel fd bytes count done w) ≡ true
  unfolding write_loop
  write_loop_ends zero fd bytes count done w size enough low = absurd (omega arith)
  write_loop_ends (suc fuel) fd bytes count done w size enough low =
      elim (Bool-cases (count == 0)) [
        | inl nothing ↦ ground arith
        | inr more ↦ elim (Option-cases (P.write fd bytes w).0) [
          | inl e ↦ ground arith
          | inr (n, e) ↦
              let most = G.write_within w fd bytes n e in
              let least = G.write_moves w fd bytes n e (ground arith) in
              let t : to_int n ≡ pos n = to_int_small n (omega arith) in
              let left : sub_word count n ≡ count - n =
                sub_word_small count n (omega arith) (omega arith) in
              rw (more, e, t, left)
                (write_loop_ends fuel fd (drop n bytes) (count - n) (done + n)
                  (P.write fd bytes w).1 (omega (arith, length-drop n bytes)) (omega arith)
                  (omega arith))
        ]
      ]

  header_loop_ends :
      (fuel fd written : ℕ) (rest : List ℕ) (w : P.World)
      → written + length rest ≡ hdf_header_size
      → length rest < fuel
      → ends whatever (header_loop P fuel fd written rest w) ≡ true
  unfolding header_loop
  header_loop_ends zero fd written rest w size enough = absurd (omega arith)
  header_loop_ends (suc fuel) fd written rest w size enough =
      elim (Bool-cases (ltb written hdf_header_size)) [
        | inr over ↦ ground arith
        | inl more ↦ elim (Option-cases (P.write fd rest w).0) [
          | inl e ↦ ground arith
          | inr (n, e) ↦
              let most = G.write_within w fd rest n e in
              let least = G.write_moves w fd rest n e (ground arith) in
              let t : to_int n ≡ pos n = to_int_small n (omega arith) in
              rw (more, e, t)
                (header_loop_ends fuel fd (written + n) (drop n rest) (P.write fd rest w).1
                  (omega (arith, length-drop n rest)) (omega (arith, length-drop n rest)))
        ]
      ]

  pub volume_read_ends :
      (v : Volume) (position count : ℕ) (w : P.World)
      → count < 2 ^ 31
      → ends (fits count) (volume_read P v position count w) ≡ true
  unfolding volume_read image_file_read partition_read
  volume_read_ends (image_file fd data_offset b n) position count w low =
      let (r, w1) = P.lseek fd (position + data_offset) w in
      elim (Option-cases r) [
        | inl e ↦ ground arith
        | inr (p, e) ↦ elim (ℤ-cases (to_int p)) [
          | inl (k, t) ↦
              rw (e, t)
                (read_loop_ends (suc count) fd count 0 [] count w1 (omega arith) low (omega arith))
          | inr (k, t) ↦ ground arith
        ]
      ]
  volume_read_ends (partition parent data_offset b) position count w low =
      volume_read_ends parent (position + data_offset) count w low

  pub volume_write_ends :
      (v : Volume) (position : ℕ) (bytes : List ℕ) (w : P.World)
      → length bytes < 2 ^ 31
      → ends whatever (volume_write P v position bytes w) ≡ true
  unfolding volume_write image_file_write partition_write
  volume_write_ends (image_file fd data_offset b n) position bytes w low =
      let (r, w1) = P.lseek fd (position + data_offset) w in
      elim (Option-cases r) [
        | inl e ↦ ground arith
        | inr (p, e) ↦ elim (ℤ-cases (to_int p)) [
          | inl (k, t) ↦
              rw (e, t)
                (write_loop_ends (suc (length bytes)) fd bytes (length bytes) 0 w1 refl
                  (omega arith) low)
          | inr (k, t) ↦ ground arith
        ]
      ]
  volume_write_ends (partition parent data_offset b) position bytes w low =
      volume_write_ends parent (position + data_offset) bytes w low

  hdf_write_header_ends :
      (fd n : ℕ) (w : P.World) → ends whatever (hdf_write_header P fd n w) ≡ true
  unfolding hdf_write_header
  hdf_write_header_ends fd n w =
      let size = (header_bytes-Describes n).size in
      header_loop_ends (suc hdf_header_size) fd 0 (header_bytes n) w (omega (arith, size))
        (omega (arith, size))

  pub hdf_image_create_ends :
      (path : CString) (n : ℕ) (w : P.World) → ends whatever (hdf_image_create P path n w) ≡ true
  unfolding hdf_image_create
  hdf_image_create_ends path n w = grind (arith, hdf_write_header_ends)

module _ (P : Posix) where
  pub volume_close_ends : (v : Volume) (w : P.World) → ends whatever (volume_close P v w) ≡ true
  unfolding volume_close image_file_close
  volume_close_ends (image_file fd data_offset b n) w = refl
  volume_close_ends (partition parent data_offset b) w = refl

  pub raw_image_open_ends :
      (path : CString) (b : Bool) (w : P.World) → ends whatever (raw_image_open P path b w) ≡ true
  unfolding raw_image_open
  raw_image_open_ends path b w = ground arith

  pub hdf_image_open_ends :
      (path : CString) (b : Bool) (w : P.World) → ends whatever (hdf_image_open P path b w) ≡ true
  unfolding hdf_image_open
  hdf_image_open_ends path b w = ground arith

  pub raw_image_create_ends :
      (path : CString) (n : ℕ) (w : P.World) → ends whatever (raw_image_create P path n w) ≡ true
  unfolding raw_image_create
  raw_image_create_ends path n w = ground arith

  pub image_file_is_hdf_ends :
      (path : CString) (w : P.World) → ends whatever (image_file_is_hdf P path w) ≡ true
  unfolding image_file_is_hdf
  image_file_is_hdf_ends path w = ground arith
