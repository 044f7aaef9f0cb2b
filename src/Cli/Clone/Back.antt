-- ===== src/Cli/Clone/Back.antt =====
-- `cmd_clone` of src/hdfmonkey.c from an HDF image, and back again.
use hdfmonkey.Base.{
  ℕ, ◌*◌, ◌/◌, ◌+◌, ◌++◌, ◌^◌, ◌<◌, ◌≡◌, sym, ap, ◌∙◌, List, some, false, true, get_elem?, length,
  same_bytes, ok, arith,
}
use hdfmonkey.Base.Slices.{slice, length-slice, slice-append_back, slice_all}
use hdfmonkey.Posix.{Posix, View, IsHealthy, IsPrompt, CString, update_file}
use hdfmonkey.Posix.Views.{file-update}
use hdfmonkey.Volume.{image_file}
use hdfmonkey.ImageFile.Header.{hdf_signature, header_bytes, header_bytes-Describes}
use hdfmonkey.ImageFile.Images.RoundTrip.{hdf_round_trip, length-image}
use hdfmonkey.Machine.{Machine}
use hdfmonkey.FatFs.{FatFs}
use hdfmonkey.Libc.{Libc}
use hdfmonkey.Cli.Names.{filename_is_hdf}
use hdfmonkey.Cli.Support.{success}
use hdfmonkey.Cli.Clone.{cmd_clone}
use hdfmonkey.Cli.Clone.Volumes.{clone_volume_raw}
use hdfmonkey.Cli.Clone.Command.{Opens, Ends, ends, open_hdf_run, cmd_clone_hdf}

-- What lies behind a list is the list that was put there.
slice_behind :
    (front content : List ℕ) (p n : ℕ)
    → length front ≡ p
    → length content ≡ n
    → slice p n (front ++ content) ≡ content
slice_behind front content p n a b =
    slice-append_back p 0 n front content (omega (arith, a)) ∙ slice_all n content (sym b)

module _ {P : Posix} (T : Libc P) (F : FatFs P) (V : View P) (H : IsHealthy P V)
    (prompt : IsPrompt P V) where
  module _ (m : Machine P.World F.State) (argv : List CString) (source destination : CString)
      (sectors : ℕ) (content : List ℕ) (drives : 0 < length m.drives)
      (second : get_elem? argv 2 ≡ some source) (third : get_elem? argv 3 ≡ some destination)
      (whole : length content ≡ sectors * 512)
      (present : V.files m.world source ≡ some (header_bytes sectors ++ content)) where
    hdf-Opens : Opens T F m V source 0x0216 sectors
    hdf-Opens =
        let (x, _) =
          hdf_round_trip P V H prompt source m.world sectors content false whole present in
        let (_, (fd, fresh, y)) =
          hdf_round_trip P V H prompt source x.after sectors content false whole
            (rw x.files_after present) in
        record {
          fd = fd;
          offset = 11;
          after = y.after;
          result =
              open_hdf_run T F m source (image_file fd 0x0216 512 sectors) x.after y.after drives
                x.result y.result;
          fresh = sym (ap (λ t. t fd) x.fds_after) ∙ fresh;
          files_after = y.files_after ∙ x.files_after;
          fds_after = y.fds_after ∙ rw x.fds_after;
        }

    -- On a healthy and prompt disk, when the source holds a header and exactly its sectors, below 2GB,
    -- and the destination is another name that `filename_is_hdf` refuses, `cmd_clone` ends with status
    -- 0; the destination then holds exactly the sectors, every other file is as it was, and no
    -- descriptor is left open.
    pub cmd_clone_back :
        same_bytes source destination ≡ false
        → sectors * 512 + 0x0216 < 2 ^ 31
        → filename_is_hdf destination ≡ some false
        → Ends T F m V source argv destination content
    cmd_clone_back other low raw =
        let bytes = header_bytes sectors ++ content in
        let size = length-image sectors content whole in
        let same : slice 0x0216 (sectors * 512) bytes ≡ content =
          slice_behind (header_bytes sectors) content 0x0216 (sectors * 512)
            (header_bytes-Describes sectors).size whole in
        ends T F m V source argv destination bytes second third present 0x0216 sectors content
          hdf-Opens
          λ fd offset m1 opened there. rw (← same) (
            clone_volume_raw T F fd 0x0216 sectors destination m1 V H bytes
              (record { path = source; offset = offset; writeable = false }) opened there other
              (omega arith) (omega (arith, size)) raw)

  -- On a healthy and prompt disk, when a source that does not begin with the signature and ends 0x216
  -- bytes below 2GB or before is cloned to another name that `filename_is_hdf` accepts, and that in a
  -- second run of the program to another name that `filename_is_hdf` refuses, both end with status 0;
  -- the last file then holds exactly the whole sectors of the first, the one between them these behind
  -- their header, every other file is as it was, and no descriptor is left open.
  pub cmd_clone-cmd_clone :
      (m next : Machine P.World F.State) (there back : List CString)
      → (source image result : CString) (bytes : List ℕ) → 0 < length m.drives
      → 0 < length next.drives
      → get_elem? there 2 ≡ some source
      → get_elem? there 3 ≡ some image
      → get_elem? back 2 ≡ some image
      → get_elem? back 3 ≡ some result
      → V.files m.world source ≡ some bytes
      → same_bytes hdf_signature (slice 0 7 bytes) ≡ false
      → length bytes + 0x0216 < 2 ^ 31
      → same_bytes source image ≡ false
      → same_bytes image result ≡ false
      → filename_is_hdf image ≡ some true
      → filename_is_hdf result ≡ some false
      → let n = length bytes / 512 in
        let content = slice 0 (n * 512) bytes in
        (m1 m2 : Machine P.World F.State) × (cmd_clone T F there m ≡ ok success m1)
        × (cmd_clone T F back (record next { world = m1.world }) ≡ ok success m2)
        × (V.files m2.world
            ≡ update_file
                (update_file (V.files m.world) image (header_bytes n ++ content))
                result
                content)
        × (V.fds m2.world ≡ V.fds m.world)
  cmd_clone-cmd_clone m next there back source image result bytes drives drives' a b c d present
        unsigned low other other' hdf raw =
      let n = length bytes / 512 in
      let content = slice 0 (n * 512) bytes in
      let (m1, run, files, fds) =
        cmd_clone_hdf T F m V H prompt there source image bytes drives a b present unsigned other
          (omega arith) low hdf in
      let kept : V.files m1.world image ≡ some (header_bytes n ++ content) =
        ap (λ t. t image) files ∙ file-update (V.files m.world) image (header_bytes n ++ content) in
      let (m2, run', files', fds') =
        cmd_clone_back (record next { world = m1.world }) back image result n content drives' c d
          (length-slice 0 (n * 512) bytes (omega arith)) kept other' (omega arith) raw in
      (m1, m2, run, run', files' ∙ ap (λ t. update_file t result content) files, fds' ∙ fds)
