-- ===== src/ImageFile/Images/RoundTrip.antt =====
-- An image that `hdf_image_create` of src/image_file.c makes is opened again.
use hdfmonkey.Base.{
  ℕ, ◌+◌, ◌*◌, ◌^◌, ◌≤◌, ◌<◌, ◌≡◌, refl, sym, ap, ◌∙◌, List, ◌++◌, some, none, true, length,
  replicate, ok, arith, length-replicate, length-append, take, take-take, same_bytes_self, Bool,
}
use hdfmonkey.Base.Slices.{slice, slice-append_front}
use hdfmonkey.Posix.{Posix, View, IsHealthy, IsPrompt, CString, update}
use hdfmonkey.Posix.Views.{Returns, Returns-eq}
use hdfmonkey.Volume.{image_file}
use hdfmonkey.ImageFile.Header.{
  header_bytes, hdf_header_size, header_bytes-Describes, hdf_signature, hdf_preamble,
}
use hdfmonkey.ImageFile.Images.{image_file_is_hdf, hdf_volume, hdf_image_open}
use hdfmonkey.ImageFile.Images.Create.{hdf_bytes}
use hdfmonkey.Posix.Views.{file-update}
use hdfmonkey.ImageFile.Images.{hdf_image_create}
use hdfmonkey.ImageFile.Images.Create.{hdf_image_create-Returns}
use hdfmonkey.ImageFile.Images.Open.{image_file_is_hdf-Returns, hdf_image_open-Returns}

module _ (n : ℕ) (content : List ℕ) where
  pub length-image :
      length content ≡ n * 512 → length (header_bytes n ++ content) ≡ hdf_header_size + n * 512
  length-image whole =
      length-append (header_bytes n) content ∙ rw ((header_bytes-Describes n).size, whole)

  slice-image : (k : ℕ) → k ≤ 11 → slice 0 k (header_bytes n ++ content) ≡ take k hdf_preamble
  unfolding slice
  slice-image k h =
      let size : length (header_bytes n) ≡ hdf_header_size = (header_bytes-Describes n).size in
      slice-append_front k (header_bytes n) content (omega arith)
      ∙ sym (take-take k 11 (header_bytes n) h)
      ∙ ap (λ t. take k t) (header_bytes-Describes n).preamble

-- What the header of a fresh image says.
hdf_volume_preamble :
    (fd n : ℕ)
    → hdf_volume fd (hdf_header_size + n * 512) hdf_preamble ≡ image_file fd hdf_header_size 512 n
unfolding hdf_volume
hdf_volume_preamble fd n = ground arith

-- In every world where a file holds the header for `n` sectors and these behind it, on a healthy and
-- prompt disk, the file is recognised as an HDF image, and `hdf_image_open` returns the volume of
-- these sectors: data offset 0x216, 512 bytes a sector, `n` sectors.
pub hdf_round_trip :
    (P : Posix) (V : View P)
    → IsHealthy P V
    → IsPrompt P V
    → (path : CString) (w : P.World) (n : ℕ) (content : List ℕ) (b : Bool)
    → length content ≡ n * 512
    → V.files w path ≡ some (header_bytes n ++ content)
    → Returns P V (image_file_is_hdf P path w) true (V.files w) (V.fds w)
      × ((fd : ℕ) × (V.fds w fd ≡ none)
          × Returns P V
              (hdf_image_open P path b w)
              (some (image_file fd 0x0216 512 n))
              (V.files w)
              (update (V.fds w) fd (some (record { path = path; offset = 11; writeable = b }))))
hdf_round_trip P V H prompt path w n content b whole present =
    let bytes = header_bytes n ++ content in
    let size = length-image n content whole in
    let (fd, fresh, x) = hdf_image_open-Returns P V H path w bytes present b prompt (omega arith) in
    (
      Returns-eq P V refl
          (rw (slice-image n content 7 (omega arith)) (same_bytes_self hdf_signature)) refl refl
          (image_file_is_hdf-Returns P V H path w bytes present prompt),
      (
        fd,
        fresh,
        Returns-eq P V refl
            (rw (slice-image n content 11 (omega arith), size) (ap some (hdf_volume_preamble fd n)))
            refl refl x,
      ),
    )

-- On a healthy and prompt disk, for an image whose size in bytes is below 2 ^ 63, `hdf_image_create`
-- succeeds; in the world that it leaves the file is recognised as an HDF image, and opening it, for
-- reading or for writing, returns the same volume on another descriptor.
pub hdf_image_open-hdf_image_create :
    (P : Posix) (V : View P)
    → IsHealthy P V
    → IsPrompt P V
    → (path : CString) (w : P.World) (n : ℕ) (b : Bool) → n * 512 + 0x0216 < 2 ^ 63
    → (fd : ℕ) × (w' : P.World) × (hdf_image_create P path n w
        ≡ ok (some (image_file fd 0x0216 512 n)) w')
      × Returns P V (image_file_is_hdf P path w') true (V.files w') (V.fds w')
      × ((fd' : ℕ) × (V.fds w' fd' ≡ none)
          × Returns P V
              (hdf_image_open P path b w')
              (some (image_file fd' 0x0216 512 n))
              (V.files w')
              (update (V.fds w') fd' (some (record { path = path; offset = 11; writeable = b }))))
hdf_image_open-hdf_image_create P V H prompt path w n b small =
    let (fd, fresh, x) = hdf_image_create-Returns P V path w n H small in
    let present : V.files x.after path ≡ some (hdf_bytes n) =
      rw x.files_after (file-update (V.files w) path (hdf_bytes n)) in
    let (recognised, reopened) =
      hdf_round_trip P V H prompt path x.after n (replicate (n * 512) 0) b
        (length-replicate (n * 512) 0) present in
    (fd, x.after, x.result, recognised, reopened)
