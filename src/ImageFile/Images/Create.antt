-- ===== src/ImageFile/Images/Create.antt =====
-- What `raw_image_create` and `hdf_image_create` of src/image_file.c leave on the disk.
use hdfmonkey.Base.{
  ℕ, zero, suc, ◌+◌, ◌*◌, ◌^◌, ◌≤◌, ◌<◌, ◌≡◌, refl, sym, ap, ◌∙◌, List, [], ◌∷◌, ◌++◌, some, false,
  true, ltb, length, take, drop, replicate, pos, to_int, ok, arith, word_modulus, none, ◌%◌,
  to_int_small, length-drop, length-replicate,
}
use hdfmonkey.Base.Slices.{splice, splice_parts, splice-nil, length-splice, splice-append}
use hdfmonkey.Posix.{
  Posix, View, IsHealthy, CString, WriteOnce, Descriptor, update, update_file, resize,
  create_truncate,
}
use hdfmonkey.Posix.Views.{
  advance, update_self, update-update, lookup-update, Returns, Returns-eq, file-update,
  update_file-update_file, update_file_self,
}
use hdfmonkey.Volume.{image_file}
use hdfmonkey.ImageFile.Header.{header_bytes, hdf_header_size, header_bytes-Describes}
use hdfmonkey.ImageFile.Images.{hdf_write_header, header_loop, hdf_image_create, raw_image_create}

module _ (P : Posix) where
  header_round :
      (fuel fd written n : ℕ) (rest : List ℕ) (w : P.World)
      → ltb written hdf_header_size ≡ true
      → (P.write fd rest w).0 ≡ some n
      → to_int n ≡ pos n
      → header_loop P (suc fuel) fd written rest w
        ≡ header_loop P fuel fd (written + n) (drop n rest) (P.write fd rest w).1
  unfolding header_loop
  header_round fuel fd written n rest w c r t = rw (c, r, t)

  header_written :
      (fuel fd written : ℕ) (rest : List ℕ) (w : P.World)
      → ltb written hdf_header_size ≡ false
      → header_loop P (suc fuel) fd written rest w ≡ ok (pos 0) w
  unfolding header_loop
  header_written fuel fd written rest w e = rw e

module _ (P : Posix) (V : View P) where
  abbrev HeaderReturns :
      (fuel fd written : ℕ) (rest : List ℕ) (w : P.World) (d : Descriptor) (bytes : List ℕ) → Type 0
  HeaderReturns fuel fd written rest w d bytes =
      Returns P V (header_loop P fuel fd written rest w) (pos 0)
        (update_file (V.files w) d.path (splice d.offset rest bytes))
        (update (V.fds w) fd (some (advance d (d.offset + length rest))))

  header_step :
      (fuel fd written : ℕ) (rest : List ℕ) (w : P.World) (d : Descriptor) (bytes : List ℕ) (n : ℕ)
      → 0 < length rest
      → written + length rest ≡ hdf_header_size
      → WriteOnce P V w fd rest d bytes n
      → HeaderReturns fuel fd
          (written + n)
          (drop n rest)
          (P.write fd rest w).1
          (advance d (d.offset + n))
          (splice d.offset (take n rest) bytes)
      → HeaderReturns (suc fuel) fd written rest w d bytes
  header_step fuel fd written rest w d bytes n some_left e once later =
      let moved : d.offset + n + length (drop n rest) ≡ d.offset + length rest =
        omega (arith, once.within, length-drop n rest) in
      Returns-eq P V
        (header_round P fuel fd written n rest w (ground arith) once.result
          (to_int_small n (omega (arith, once.within))))
        refl
        (rw (once.files_written, splice_parts d.offset n rest bytes once.within)
          (update_file-update_file (V.files w) d.path _ _))
        (rw (once.fds_moved, moved) (update-update (V.fds w) fd _ _)) later

  module _ (H : IsHealthy P V) where
    header_loop-Returns :
        (fuel fd written : ℕ) (rest : List ℕ) (w : P.World) (d : Descriptor) (bytes : List ℕ)
        → length rest < fuel
        → written + length rest ≡ hdf_header_size
        → V.fds w fd ≡ some d
        → d.writeable ≡ true
        → V.files w d.path ≡ some bytes
        → d.offset + length rest ≤ length bytes
        → HeaderReturns fuel fd written rest w d bytes
    header_loop-Returns zero fd written rest w d bytes f l o u e i = absurd (omega arith)
    header_loop-Returns (suc fuel) fd written [] w d bytes f l o u e i = record {
      after = w;
      result = header_written P fuel fd written [] w (ground arith);
      files_after = sym (rw splice-nil (update_file_self (V.files w) d.path bytes e));
      fds_after = update_self (V.fds w) fd d _ o (omega arith);
    }
    header_loop-Returns (suc fuel) fd written (x ∷ xs) w d bytes f l o u e i =
        let rest = x ∷ xs in
        let (n, once) = H.write_once w fd rest d bytes o u e i in
        header_step fuel fd written rest w d bytes n (omega arith) l once (
          header_loop-Returns fuel fd (written + n) (drop n rest) (P.write fd rest w).1
            (advance d (d.offset + n)) (splice d.offset (take n rest) bytes)
            (omega (arith, once.progress, once.within, length-drop n rest))
            (omega (arith, length-drop n rest, once.within))
            (rw once.fds_moved (lookup-update (V.fds w) fd _)) u
            (rw once.files_written (file-update (V.files w) d.path _))
            (omega
              (arith, once.within, length-drop n rest, length-splice d.offset (take n rest) bytes)))

resize-nil : (n : ℕ) → resize n [] ≡ replicate n 0
unfolding resize
resize-nil zero = refl
resize-nil (suc n) = ap (λ t. 0 ∷ t) (resize-nil n)

replicate_add : (n m k : ℕ) → k ≡ n + m → replicate {A = ℕ} k 0 ≡ replicate n 0 ++ replicate m 0
replicate_add zero m k e = let e' : k ≡ m = omega arith in rw e'
replicate_add (suc n) m zero e = absurd (omega arith)
replicate_add (suc n) m (suc k) e = ap (λ t. 0 ∷ t) (replicate_add n m k (omega arith))

-- The bytes of a fresh HDF image: its header and the sectors, all zero.
abbrev pub hdf_bytes : ℕ → List ℕ
hdf_bytes sector_count = header_bytes sector_count ++ replicate (sector_count * 512) 0

fresh_hdf :
    (n : ℕ) → splice 0 (header_bytes n) (resize (n * 512 + hdf_header_size) []) ≡ hdf_bytes n
fresh_hdf n =
    rw
      (
        resize-nil,
        replicate_add hdf_header_size (n * 512) (n * 512 + hdf_header_size) (omega arith),
      )
      (splice-append (header_bytes n) (replicate hdf_header_size 0) (replicate (n * 512) 0)
        (omega (arith, (header_bytes-Describes n).size)))

module _ (P : Posix) (V : View P) (path : CString) (w : P.World) where
  abbrev fresh_descriptor : ℕ → Descriptor
  fresh_descriptor offset = record { path = path; offset = offset; writeable = true }

  abbrev sized_world : (fd size : ℕ) → P.World
  sized_world fd size = (P.ftruncate fd size (P.open_file path create_truncate w).1).1

  -- The file has been created on `fd` and brought to its size.
  record Sized (size fd : ℕ) : Type 0 where
    opened : (P.open_file path create_truncate w).0 ≡ some fd
    fresh : V.fds w fd ≡ none
    truncated : (P.ftruncate fd size (P.open_file path create_truncate w).1).0 ≡ true
    files_after : V.files (sized_world fd size) ≡ update_file (V.files w) path (resize size [])
    fds_after : V.fds (sized_world fd size) ≡ update (V.fds w) fd (some (fresh_descriptor 0))

  sized : IsHealthy P V → (size : ℕ) → (fd : ℕ) × Sized size fd
  sized H size =
      let (fd, x) = H.open_created w path in
      let w1 = (P.open_file path create_truncate w).1 in
      let d = fresh_descriptor 0 in
      let o : V.fds w1 fd ≡ some d = rw x.fds_after (lookup-update (V.fds w) fd _) in
      let e : V.files w1 path ≡ some [] = rw x.files_after (file-update (V.files w) path _) in
      (
        fd,
        record {
          opened = x.result;
          fresh = x.fresh;
          truncated = H.ftruncate_result w1 fd size d [] o refl e;
          files_after =
              H.ftruncate_files w1 fd size d [] o refl e
              ∙ rw x.files_after (update_file-update_file (V.files w) path _ _);
          fds_after = H.ftruncate_fds w1 fd size ∙ x.fds_after;
        },
      )

  raw_create_run :
      (n fd : ℕ)
      → Sized (n * 512 % word_modulus) fd
      → raw_image_create P path n w
        ≡ ok (some (image_file fd 0 512 n)) (sized_world fd (n * 512 % word_modulus))
  unfolding raw_image_create
  raw_create_run n fd s = rw (s.opened, s.truncated)

  -- On a healthy disk, for an image whose size in bytes is below 2 ^ 63, `raw_image_create` makes or
  -- replaces the file: it then holds `sector_count` sectors of zeros. The volume is open for writing
  -- on a fresh descriptor, and no other file has changed.
  pub raw_image_create-Returns :
      (n : ℕ)
      → IsHealthy P V
      → n * 512 < 2 ^ 63
      → (fd : ℕ) × (V.fds w fd ≡ none)
        × Returns P V
            (raw_image_create P path n w)
            (some (image_file fd 0 512 n))
            (update_file (V.files w) path (replicate (n * 512) 0))
            (update (V.fds w) fd (some (fresh_descriptor 0)))
  raw_image_create-Returns n H b =
      let (fd, s) = sized H (n * 512 % word_modulus) in
      let small : n * 512 % word_modulus ≡ n * 512 = omega arith in
      (
        fd,
        s.fresh,
        record {
          after = sized_world fd (n * 512 % word_modulus);
          result = raw_create_run n fd s;
          files_after = s.files_after ∙ rw (small, resize-nil);
          fds_after = s.fds_after;
        },
      )

  hdf_create_run :
      (n fd size : ℕ) (after : P.World)
      → (n * 512 + hdf_header_size) % word_modulus ≡ size
      → Sized size fd
      → header_loop P (suc hdf_header_size) fd 0 (header_bytes n) (sized_world fd size)
        ≡ ok (pos 0) after
      → hdf_image_create P path n w ≡ ok (some (image_file fd hdf_header_size 512 n)) after
  unfolding hdf_image_create hdf_write_header
  hdf_create_run n fd size after e s c = rw (s.opened, e, s.truncated, c)

  -- The header goes over the zeros of a file that has its size.
  hdf_header-Returns :
      (n fd : ℕ)
      → IsHealthy P V
      → Sized (n * 512 + hdf_header_size) fd
      → HeaderReturns P V
          (suc hdf_header_size)
          fd
          0
          (header_bytes n)
          (sized_world fd (n * 512 + hdf_header_size))
          (fresh_descriptor 0)
          (resize (n * 512 + hdf_header_size) [])
  hdf_header-Returns n fd H s =
      let size = n * 512 + hdf_header_size in
      let len : length (header_bytes n) ≡ hdf_header_size = (header_bytes-Describes n).size in
      let zeros : length (resize size []) ≡ size = rw resize-nil (length-replicate size 0) in
      header_loop-Returns P V H (suc hdf_header_size) fd 0 (header_bytes n) (sized_world fd size)
        (fresh_descriptor 0) (resize size []) (omega arith) (omega arith)
        (rw s.fds_after (lookup-update (V.fds w) fd _)) refl
        (rw s.files_after (file-update (V.files w) path _)) (omega arith)

  -- On a healthy disk, for an image whose size in bytes is below 2 ^ 63, `hdf_image_create` makes or
  -- replaces the file: it then holds the header and `sector_count` sectors of zeros. The volume is
  -- open for writing on a fresh descriptor, its data begins behind the header, and no other file
  -- has changed.
  pub hdf_image_create-Returns :
      (n : ℕ)
      → IsHealthy P V
      → n * 512 + 0x0216 < 2 ^ 63
      → (fd : ℕ) × (V.fds w fd ≡ none)
        × Returns P V
            (hdf_image_create P path n w)
            (some (image_file fd 0x0216 512 n))
            (update_file (V.files w) path (hdf_bytes n))
            (update (V.fds w) fd (some (fresh_descriptor 0x0216)))
  hdf_image_create-Returns n H b =
      let size = n * 512 + hdf_header_size in
      let (fd, s) = sized H size in
      let x = hdf_header-Returns n fd H s in
      let len : 0 + length (header_bytes n) ≡ hdf_header_size =
        omega (arith, (header_bytes-Describes n).size) in
      (
        fd,
        s.fresh,
        record {
          after = x.after;
          result = hdf_create_run n fd size x.after (omega arith) s x.result;
          files_after =
              x.files_after
              ∙ rw (s.files_after, fresh_hdf) (update_file-update_file (V.files w) path _ _);
          fds_after = x.fds_after ∙ rw (s.fds_after, len) (update-update (V.fds w) fd _ _);
        },
      )
