-- ===== src/Cli/Clone/Command.antt =====
-- `cmd_clone` of src/hdfmonkey.c from its arguments on.
use mathlib.Core.Path.{fun_ext}
use hdfmonkey.Base.{
  ℕ, ◌*◌, ◌/◌, ◌+◌, ◌++◌, ◌^◌, ◌<◌, ◌≡◌, sym, ap, ◌∙◌, List, Option, some, none, false, true,
  get_elem?, length, set, same_bytes, ok, arith,
}
use hdfmonkey.Base.Slices.{slice}
use hdfmonkey.Posix.{Posix, View, IsHealthy, IsPrompt, CString, Descriptor, update, update_file}
use hdfmonkey.Posix.Views.{lookup-update}
use hdfmonkey.Volume.{Volume, image_file}
use hdfmonkey.ImageFile.Header.{hdf_signature, header_bytes}
use hdfmonkey.ImageFile.Images.{image_file_is_hdf, raw_image_open, hdf_image_open}
use hdfmonkey.ImageFile.Images.Open.{image_file_is_hdf-Returns, raw_image_open-Returns}
use hdfmonkey.Machine.{Machine}
use hdfmonkey.Diskio.{disk_map}
use hdfmonkey.FatFs.{FatFs}
use hdfmonkey.Libc.{Libc}
use hdfmonkey.Cli.Names.{filename_is_hdf}
use hdfmonkey.Cli.Support.{success, open_image}
use hdfmonkey.Cli.Clone.{clone_volume, cmd_clone}
use hdfmonkey.Cli.Clone.Volumes.{IsCloned, clone_volume_raw, clone_volume_hdf}

opened_and_closed :
    (fds : ℕ → Option Descriptor) (a : ℕ) (x : Option Descriptor)
    → fds a ≡ none
    → update (update fds a x) a none ≡ fds
opened_and_closed fds a x h = fun_ext λ j. ground arith

module _ {P : Posix} (T : Libc P) (F : FatFs P) (m : Machine P.World F.State) where
  abbrev mapped : Volume → P.World → Machine P.World F.State
  mapped vol w = record m { world = w; drives = set m.drives 0 (some vol) }

  open_raw_run :
      (path : CString) (vol : Volume) (w1 w2 : P.World)
      → 0 < length m.drives
      → image_file_is_hdf P path m.world ≡ ok false w1
      → raw_image_open P path false w1 ≡ ok (some vol) w2
      → open_image T F path false false m ≡ ok (some vol) (mapped vol w2)
  unfolding open_image disk_map
  open_raw_run path vol w1 w2 d e r = ground arith

  pub open_hdf_run :
      (path : CString) (vol : Volume) (w1 w2 : P.World)
      → 0 < length m.drives
      → image_file_is_hdf P path m.world ≡ ok true w1
      → hdf_image_open P path false w1 ≡ ok (some vol) w2
      → open_image T F path false false m ≡ ok (some vol) (mapped vol w2)
  unfolding open_image disk_map
  open_hdf_run path vol w1 w2 d e r = ground arith

  clone_command_run :
      (argv : List CString) (source destination : CString) (vol : Volume)
      (m1 : Machine P.World F.State)
      → get_elem? argv 2 ≡ some source
      → get_elem? argv 3 ≡ some destination
      → open_image T F source false false m ≡ ok (some vol) m1
      → cmd_clone T F argv m ≡ clone_volume T F vol destination m1
  unfolding cmd_clone
  clone_command_run argv source destination vol m1 a b r = ground arith

  module _ (V : View P) (source : CString) where
    -- The source has been opened, with its sectors of 512 bytes from an offset on.
    pub record Opens (so sectors : ℕ) : Type 0 where
      pub fd : ℕ
      pub offset : ℕ
      pub after : P.World
      pub result :
          let vol = image_file fd so 512 sectors in
          open_image T F source false false m ≡ ok (some vol) (mapped vol after)
      pub fresh : V.fds m.world fd ≡ none
      pub files_after : V.files after ≡ V.files m.world
      pub fds_after :
          V.fds after
          ≡ update
              (V.fds m.world)
              fd
              (some (record { path = source; offset = offset; writeable = false }))

    -- What is to be shown of a command that gives the destination these bytes.
    abbrev pub Ends : List CString → CString → List ℕ → Type 0
    Ends argv destination result =
        (m' : Machine P.World F.State) × (cmd_clone T F argv m ≡ ok success m')
        × (V.files m'.world ≡ update_file (V.files m.world) destination result)
        × (V.fds m'.world ≡ V.fds m.world)

    module _ (argv : List CString) (destination : CString) (bytes : List ℕ)
        (second : get_elem? argv 2 ≡ some source) (third : get_elem? argv 3 ≡ some destination)
        (present : V.files m.world source ≡ some bytes) where
      -- The command ends as `clone_volume` of the open source does.
      pub ends :
          (so sectors : ℕ) (result : List ℕ)
          → Opens so sectors
          → ((fd offset : ℕ) (m1 : Machine P.World F.State)
              → V.fds m1.world fd
                ≡ some (record { path = source; offset = offset; writeable = false })
              → V.files m1.world source ≡ some bytes
              → IsCloned T F fd so sectors destination m1 V result)
          → Ends argv destination result
      ends so sectors result y clones =
          let sd : Descriptor = record { path = source; offset = y.offset; writeable = false } in
          let vol = image_file y.fd so 512 sectors in
          let m1 = mapped vol y.after in
          let z =
            clones y.fd y.offset m1 (rw y.fds_after (lookup-update (V.fds m.world) y.fd (some sd)))
              (rw y.files_after present) in
          (
            record m1 { world = z.after },
            clone_command_run argv source destination vol m1 second third y.result ∙ z.result,
            z.files_after ∙ ap (λ t. update_file t destination result) y.files_after,
            z.fds_after
                ∙ ap (λ t. update t y.fd none) y.fds_after
                ∙ opened_and_closed (V.fds m.world) y.fd (some sd) y.fresh,
          )

  module _ (V : View P) (H : IsHealthy P V) (prompt : IsPrompt P V) (argv : List CString)
      (source destination : CString) (bytes : List ℕ) (drives : 0 < length m.drives)
      (second : get_elem? argv 2 ≡ some source) (third : get_elem? argv 3 ≡ some destination)
      (present : V.files m.world source ≡ some bytes)
      (unsigned : same_bytes hdf_signature (slice 0 7 bytes) ≡ false)
      (other : same_bytes source destination ≡ false) (low : length bytes < 2 ^ 31) where
    abbrev sectors : ℕ
    sectors = length bytes / 512

    raw-Opens : Opens V source 0 sectors
    raw-Opens =
        let x = image_file_is_hdf-Returns P V H source m.world bytes present prompt in
        let (fd, fresh, y) =
          raw_image_open-Returns P V H source x.after bytes (rw x.files_after present) false in
        record {
          fd = fd;
          offset = 0;
          after = y.after;
          result =
              open_raw_run source (image_file fd 0 512 sectors) x.after y.after drives
                (x.result ∙ ap (λ t. ok t x.after) unsigned) y.result;
          fresh = sym (ap (λ t. t fd) x.fds_after) ∙ fresh;
          files_after = y.files_after ∙ x.files_after;
          fds_after = y.fds_after ∙ rw x.fds_after;
        }

    -- On a healthy and prompt disk, when the source is a file below 2GB that does not begin with the
    -- signature, and the destination another name that `filename_is_hdf` refuses, `cmd_clone` ends with
    -- status 0; the destination then holds exactly the whole sectors of the source, every other file is
    -- as it was, and no descriptor is left open.
    pub cmd_clone_raw :
        filename_is_hdf destination ≡ some false
        → (m' : Machine P.World F.State) × (cmd_clone T F argv m ≡ ok success m')
          × (V.files m'.world
              ≡ update_file
                  (V.files m.world)
                  destination
                  (slice 0 (length bytes / 512 * 512) bytes))
          × (V.fds m'.world ≡ V.fds m.world)
    cmd_clone_raw raw =
        ends V source argv destination bytes second third present 0 sectors
          (slice 0 (sectors * 512) bytes) raw-Opens
          λ fd offset m1 opened there.
            clone_volume_raw T F fd 0 sectors destination m1 V H bytes
              (record { path = source; offset = offset; writeable = false }) opened there other
              (omega arith) (omega arith) raw

    -- On a healthy and prompt disk, when the source is a file that does not begin with the signature
    -- and ends 0x216 bytes below 2GB or before, and the destination another name that
    -- `filename_is_hdf` accepts, `cmd_clone` ends with status 0; the destination then holds the header
    -- for the whole sectors of the source and exactly these behind it, every other file is as it was,
    -- and no descriptor is left open.
    pub cmd_clone_hdf :
        length bytes + 0x0216 < 2 ^ 31
        → filename_is_hdf destination ≡ some true
        → (m' : Machine P.World F.State) × (cmd_clone T F argv m ≡ ok success m')
          × (V.files m'.world
              ≡ update_file
                  (V.files m.world)
                  destination
                  (header_bytes (length bytes / 512) ++ slice 0 (length bytes / 512 * 512) bytes))
          × (V.fds m'.world ≡ V.fds m.world)
    cmd_clone_hdf small hdf =
        ends V source argv destination bytes second third present 0 sectors
          (header_bytes sectors ++ slice 0 (sectors * 512) bytes) raw-Opens
          λ fd offset m1 opened there.
            clone_volume_hdf T F fd 0 sectors destination m1 V H bytes
              (record { path = source; offset = offset; writeable = false }) opened there other
              (omega arith) (omega arith) (omega arith) hdf
