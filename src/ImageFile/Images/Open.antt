-- ===== src/ImageFile/Images/Open.antt =====
-- What `image_file_is_hdf`, `raw_image_open` and `hdf_image_open` of src/image_file.c find in a file.
use mathlib.Core.Path.{fun_ext}
use hdfmonkey.Base.{
  ℕ, ◌+◌, ◌/◌, ◌≤◌, ◌<◌, ◌≡◌, refl, sym, ap, ◌∙◌, List, Option, some, none, false, true, leb,
  length, take_all, ok, arith, same_bytes, same_bytes→eq, Bool, Bool-cases, inl, inr, ◌==◌,
  if◌then◌else◌, leb→le, leb_false→lt,
}
use hdfmonkey.Base.Slices.{slice, length-slice}
use hdfmonkey.Posix.{
  Posix, View, IsHealthy, IsPrompt, CString, ReadOnce, Opened, Descriptor, update, Access,
  read_only, read_write,
}
use hdfmonkey.Posix.Views.{update-update, lookup-update, Returns}
use hdfmonkey.Volume.{image_file}
use hdfmonkey.ImageFile.Header.{hdf_signature}
use hdfmonkey.ImageFile.Images.{image_file_is_hdf, hdf_volume, raw_image_open, hdf_image_open}

update_closed :
    (fds : ℕ → Option Descriptor) (fd : ℕ) (a b : Option Descriptor)
    → fds fd ≡ none
    → update (update (update fds fd a) fd b) fd none ≡ fds
update_closed fds fd a b h = fun_ext λ j. ground arith

-- The signature is not the beginning of a list that is shorter.
signature_long : (xs : List ℕ) → (length xs == 7) ≡ false → same_bytes hdf_signature xs ≡ false
signature_long xs h = elim (Bool-cases (same_bytes hdf_signature xs)) [
  | inl same ↦
      let e = same_bytes→eq hdf_signature xs same in
      let l : length xs ≡ 7 = ap length (sym e) in absurd (ground arith)
  | inr differ ↦ differ
]

verdict_self :
    (xs : List ℕ)
    → (if length xs == 7 then same_bytes hdf_signature xs else false) ≡ same_bytes hdf_signature xs
verdict_self xs = elim (Bool-cases (length xs == 7)) [
  | inl whole ↦ rw whole
  | inr short ↦ rw (short, signature_long xs short)
]

slice_all_of : (n : ℕ) (xs : List ℕ) → length xs ≤ n → slice 0 n xs ≡ xs
unfolding slice
slice_all_of n xs h = take_all n xs h

module _ (P : Posix) (V : View P) (H : IsHealthy P V) (path : CString) (w : P.World)
    (bytes : List ℕ) (present : V.files w path ≡ some bytes) where
  abbrev opened_descriptor : Bool → ℕ → Descriptor
  opened_descriptor b offset = record { path = path; offset = offset; writeable = b }

  abbrev access : Bool → Access
  access b = if b then read_write else read_only

  raw_open_run :
      (b : Bool) (fd size : ℕ)
      → (P.open_file path (access b) w).0 ≡ some fd
      → (P.fstat fd (P.open_file path (access b) w).1).0 ≡ some size
      → raw_image_open P path b w
        ≡ ok
            (some (image_file fd 0 512 (size / 512)))
            (P.fstat fd (P.open_file path (access b) w).1).1
  unfolding raw_image_open
  raw_open_run true fd size o s = rw (o, s)
  raw_open_run false fd size o s = rw (o, s)

  -- On a healthy disk `raw_image_open` of an existing file, for reading or for writing, returns a
  -- volume from its first byte on with as many whole sectors of 512 bytes as the file has, on a
  -- fresh descriptor with the access asked for; no file changes.
  pub raw_image_open-Returns :
      (b : Bool)
      → (fd : ℕ) × (V.fds w fd ≡ none)
        × Returns P V
            (raw_image_open P path b w)
            (some (image_file fd 0 512 (length bytes / 512)))
            (V.files w)
            (update (V.fds w) fd (some (opened_descriptor b 0)))
  raw_image_open-Returns b =
      let (fd, x) = H.open_existing w path (access b) b bytes present refl in
      let w1 = (P.open_file path (access b) w).1 in
      let same = H.fstat_same w1 fd in
      (
        fd,
        x.fresh,
        record {
          after = (P.fstat fd w1).1;
          result = raw_open_run b fd (length bytes) x.result (
              H.fstat_result w1 fd (opened_descriptor b 0) bytes
                (rw x.fds_after (lookup-update (V.fds w) fd _)) (rw x.files_after present));
          files_after = same.files ∙ x.files_after;
          fds_after = same.fds ∙ x.fds_after;
        },
      )

  hdf_open_run :
      (b : Bool) (fd size : ℕ) (header : List ℕ)
      → let w1 = (P.open_file path (access b) w).1 in
        (P.open_file path (access b) w).0 ≡ some fd
        → (P.fstat fd w1).0 ≡ some size
        → (P.read fd 11 (P.fstat fd w1).1).0 ≡ some header
        → (length header == 11) ≡ true
        → hdf_image_open P path b w
          ≡ ok (some (hdf_volume fd size header)) (P.read fd 11 (P.fstat fd w1).1).1
  unfolding hdf_image_open
  hdf_open_run true fd size header o s r l = rw (o, s, r, l)
  hdf_open_run false fd size header o s r l = rw (o, s, r, l)

  -- On a healthy and prompt disk `hdf_image_open` of an existing file of at least 11 bytes returns
  -- the volume that its first 11 bytes describe, on a fresh descriptor with the access asked for; no
  -- file changes.
  pub hdf_image_open-Returns :
      (b : Bool)
      → IsPrompt P V
      → 11 ≤ length bytes
      → (fd : ℕ) × (V.fds w fd ≡ none)
        × Returns P V
            (hdf_image_open P path b w)
            (some (hdf_volume fd (length bytes) (slice 0 11 bytes)))
            (V.files w)
            (update (V.fds w) fd (some (opened_descriptor b 11)))
  hdf_image_open-Returns b prompt long =
      let (fd, x) = H.open_existing w path (access b) b bytes present refl in
      let w1 = (P.open_file path (access b) w).1 in
      let w2 = (P.fstat fd w1).1 in
      let d = opened_descriptor b 0 in
      let same = H.fstat_same w1 fd in
      let o1 : V.fds w1 fd ≡ some d = rw x.fds_after (lookup-update (V.fds w) fd _) in
      let e1 : V.files w1 path ≡ some bytes = rw x.files_after present in
      let once =
        prompt.read_whole w2 fd 11 d bytes (omega arith) (rw same.fds o1) (rw same.files e1) long in
      (
        fd,
        x.fresh,
        record {
          after = (P.read fd 11 w2).1;
          result =
              hdf_open_run b fd (length bytes) (slice 0 11 bytes) x.result
                (H.fstat_result w1 fd d bytes o1 e1) once.result
                (rw (length-slice 0 11 bytes long));
          files_after = once.files_same ∙ same.files ∙ x.files_after;
          fds_after = once.fds_moved ∙ rw (same.fds, x.fds_after) (update-update (V.fds w) fd _ _);
        },
      )

  abbrev closed_world : ℕ → P.World
  closed_world fd = P.close fd (P.read fd 7 (P.open_file path read_only w).1).1

  is_hdf_run :
      (fd : ℕ) (actual : List ℕ)
      → (P.open_file path read_only w).0 ≡ some fd
      → (P.read fd 7 (P.open_file path read_only w).1).0 ≡ some actual
      → image_file_is_hdf P path w
        ≡ ok
            (if length actual == 7 then same_bytes hdf_signature actual else false)
            (closed_world fd)
  unfolding image_file_is_hdf
  is_hdf_run fd actual o r = rw (o, r) (ground arith)

  -- Either the seven bytes come whole, or there are fewer of them in the file.
  is_hdf_verdict :
      (moved : ℕ)
      → moved ≤ 7
      → 0 + moved ≤ length bytes
      → (7 ≤ length bytes → moved ≡ 7)
      → (if length (slice 0 moved bytes) == 7
          then same_bytes hdf_signature (slice 0 moved bytes)
          else false)
        ≡ same_bytes hdf_signature (slice 0 7 bytes)
  is_hdf_verdict moved within inside whole = elim (Bool-cases (leb 7 (length bytes))) [
    | inl long ↦
        let m : moved ≡ 7 = whole (leb→le _ _ long) in
        rw (m, length-slice 0 7 bytes (leb→le _ _ long))
    | inr short ↦
        let few : length bytes < 7 = leb_false→lt _ _ short in
        let n : length (slice 0 moved bytes) ≡ moved = length-slice 0 moved bytes inside in
        let moved_no : same_bytes hdf_signature (slice 0 moved bytes) ≡ false =
          signature_long _ (ground arith) in
        rw (verdict_self, moved_no, slice_all_of 7 bytes (omega arith))
          (sym (signature_long bytes (ground arith)))
  ]

  reading :
      (fd : ℕ)
      → IsPrompt P V
      → Opened P V w path read_only false (V.files w) fd
      → (moved : ℕ) × ReadOnce P V
          (P.open_file path read_only w).1
          fd
          7
          (opened_descriptor false 0)
          bytes
          moved
        × (7 ≤ length bytes → moved ≡ 7)
  reading fd prompt x =
      let w1 = (P.open_file path read_only w).1 in
      let d = opened_descriptor false 0 in
      let o1 : V.fds w1 fd ≡ some d = rw x.fds_after (lookup-update (V.fds w) fd _) in
      let e1 : V.files w1 path ≡ some bytes = rw x.files_after present in
      elim (Bool-cases (leb 7 (length bytes))) [
        | inl long ↦
            (7, prompt.read_whole w1 fd 7 d bytes (omega arith) o1 e1 (leb→le _ _ long), λ h. refl)
        | inr short ↦
            let (moved, once) = H.read_once w1 fd 7 d bytes o1 e1 (omega arith) in
            (moved, once, λ h. absurd (omega (arith, leb_false→lt 7 (length bytes) short)))
      ]

  -- On a healthy and prompt disk `image_file_is_hdf` of an existing file tells exactly whether it
  -- begins with the seven bytes of the signature, also when the file is shorter; it leaves every file
  -- as it was, and no descriptor open.
  pub image_file_is_hdf-Returns :
      IsPrompt P V
      → Returns P V
          (image_file_is_hdf P path w)
          (same_bytes hdf_signature (slice 0 7 bytes))
          (V.files w)
          (V.fds w)
  image_file_is_hdf-Returns prompt =
      let (fd, x) = H.open_existing w path read_only false bytes present refl in
      let (moved, once, whole) = reading fd prompt x in
      record {
        after = closed_world fd;
        result =
            is_hdf_run fd (slice 0 moved bytes) x.result once.result
            ∙ ap (λ t. ok t (closed_world fd))
                (is_hdf_verdict moved once.within once.in_file whole);
        files_after = H.close_files _ fd ∙ once.files_same ∙ x.files_after;
        fds_after =
            H.close_fds _ fd
            ∙ rw (once.fds_moved, x.fds_after) (update_closed (V.fds w) fd _ _ x.fresh);
      }
