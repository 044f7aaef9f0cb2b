-- ===== src/Cli/Clone/Copies.antt =====
-- What the loop of `cmd_clone` of src/hdfmonkey.c copies.
use mathlib.Core.Path.{fun_ext}
use hdfmonkey.Base.{
  Option, ℕ, zero, suc, ◌+◌, ◌-◌, ◌^◌, ◌≤◌, ◌<◌, ◌≡◌, sym, ap, ◌∙◌, List, some, none, true, false,
  ltb, ◌==◌, length, same_bytes, pos, ok, arith, Bool-cases, inl, inr, ltb→lt, lt→ltb, le→ltb_false,
}
use hdfmonkey.Base.Slices.{
  slice, splice, slice_split, slice-zero, splice_split, splice-nil, length-slice, length-splice,
}
use hdfmonkey.Posix.{Posix, View, IsHealthy, Descriptor, update, update_file}
use hdfmonkey.Posix.Views.{
  advance, lookup-update, file-update, update_file_self, update_file-update_file, file-update_ne,
}
use hdfmonkey.Volume.{Volume, image_file}
use hdfmonkey.Volume.Dispatch.{volume_read, volume_write, volume_close}
use hdfmonkey.Volume.Offsets.{volume_read-Returns, volume_write-Returns}
use hdfmonkey.ImageFile.Io.{image_file_close}
use hdfmonkey.Machine.{Machine}
use hdfmonkey.FatFs.{FatFs}
use hdfmonkey.Libc.{Libc}
use hdfmonkey.Cli.Support.{success}
use hdfmonkey.Cli.Clone.{chunk_size, clone_loop}

chunk_bounds :
    (left : ℕ)
    → 0 < left
    → (0 < chunk_size left) × (chunk_size left ≤ left) × (chunk_size left < 2 ^ 31)
chunk_bounds left h = ground arith

-- Two ranges written one after the other.
copy_parts :
    (p q n m k ps qs : ℕ) (source bytes : List ℕ)
    → q ≡ p + n
    → qs ≡ ps + n
    → k ≡ n + m
    → ps + n ≤ length source
    → splice q (slice qs m source) (splice p (slice ps n source) bytes)
      ≡ splice p (slice ps k source) bytes
copy_parts p q n m k ps qs source bytes e f g h =
    splice_split p q (slice ps n source) (slice qs m source) bytes
      (omega (arith, length-slice ps n source h))
    ∙ ap (λ t. splice p t bytes) (sym (slice_split ps n m k qs source g f))

closed_twice :
    (fds : ℕ → Option Descriptor) (a b : ℕ) (x y : Option Descriptor)
    → update (update (update (update fds a x) b y) a none) b none
      ≡ update (update fds a none) b none
closed_twice fds a b x y = fun_ext λ j. ground arith

module _ {P : Posix} (T : Libc P) (F : FatFs P) (sfd so sb sn dfd do_ db dn total : ℕ) where
  abbrev source_vol : Volume
  source_vol = image_file sfd so sb sn

  abbrev destination_vol : Volume
  destination_vol = image_file dfd do_ db dn

  clone_done :
      (fuel position : ℕ) (m : Machine P.World F.State)
      → ltb position total ≡ false
      → clone_loop T F (suc fuel) source_vol destination_vol position total m
        ≡ ok success (record m { world = P.close dfd (P.close sfd m.world) })
  unfolding clone_loop volume_close image_file_close
  clone_done fuel position m e = rw e

  -- The bytes of the round that begins at a position.
  abbrev chunk : ℕ → ℕ
  chunk position = chunk_size (total - position)

  clone_round :
      (fuel position n : ℕ) (m : Machine P.World F.State) (buffer : List ℕ) (w1 w2 : P.World)
      → ltb position total ≡ true
      → volume_read P source_vol position (chunk position) m.world
        ≡ ok (pos (chunk position), buffer) w1
      → volume_write P destination_vol position buffer w1 ≡ ok (pos n) w2
      → clone_loop T F (suc fuel) source_vol destination_vol position total m
        ≡ clone_loop T F fuel source_vol destination_vol
            (position + chunk position)
            total
            (record m { world = w2 })
  unfolding clone_loop
  clone_round fuel position n m buffer w1 w2 e r s = rw (e, r, s)

  module _ (V : View P) (source : List ℕ) (sd dd : Descriptor) where
    -- Both files are open with these bytes.
    record IsReady (w : P.World) (soff doff : ℕ) (bytes : List ℕ) : Type 0 where
      source_open : V.fds w sfd ≡ some (advance sd soff)
      destination_open : V.fds w dfd ≡ some (advance dd doff)
      source_present : V.files w sd.path ≡ some source
      destination_present : V.files w dd.path ≡ some bytes

    -- The bytes of the destination when `bytes` have been gone over from a position to another.
    abbrev copied : (position n : ℕ) → List ℕ → List ℕ
    copied position n bytes = splice (position + do_) (slice (position + so) n source) bytes

    -- The loop has ended well from `position` on; both files are closed then.
    pub record IsCopied (m : Machine P.World F.State) (fuel position : ℕ) (bytes : List ℕ)
        : Type 0 where
      pub after : P.World
      pub result :
          clone_loop T F fuel source_vol destination_vol position total m
          ≡ ok success (record m { world = after })
      pub files_after :
          V.files after
          ≡ update_file (V.files m.world) dd.path (copied position (total - position) bytes)
      pub fds_after : V.fds after ≡ update (update (V.fds m.world) sfd none) dfd none

    -- One round has been gone through.
    record IsMoved (m : Machine P.World F.State) (fuel position : ℕ) (bytes : List ℕ) : Type 0 where
      next : P.World
      round :
          clone_loop T F (suc fuel) source_vol destination_vol position total m
          ≡ clone_loop T F fuel source_vol destination_vol
              (position + chunk position)
              total
              (record m { world = next })
      ready :
          IsReady next
            (position + so + chunk position)
            (position + do_ + chunk position)
            (copied position (chunk position) bytes)
      files_next :
          V.files next
          ≡ update_file (V.files m.world) dd.path (copied position (chunk position) bytes)
      fds_next :
          V.fds next
          ≡ update
              (update (V.fds m.world) sfd (some (advance sd (position + so + chunk position))))
              dfd
              (some (advance dd (position + do_ + chunk position)))

    module _ (H : IsHealthy P V) (apart : (sfd == dfd) ≡ false)
        (other : same_bytes sd.path dd.path ≡ false) (writeable : dd.writeable ≡ true)
        (source_low : total + so < 2 ^ 31) (destination_low : total + do_ < 2 ^ 31)
        (long : total + so ≤ length source) where
      move :
          (m : Machine P.World F.State) (fuel position soff doff : ℕ) (bytes : List ℕ)
          → position < total
          → total + do_ ≤ length bytes
          → IsReady m.world soff doff bytes
          → IsMoved m fuel position bytes
      move m fuel position soff doff bytes more room i =
          let (positive, within, low) = chunk_bounds (total - position) (omega arith) in
          let c = chunk position in
          let x =
            volume_read-Returns P V H m.world source_vol (advance sd soff) source i.source_open
              i.source_present position c (omega arith) low (omega arith) in
          let buffer = slice (position + so) c source in
          let size : length buffer ≡ c = length-slice (position + so) c source (omega arith) in
          let y =
            volume_write-Returns P V H x.after destination_vol (advance dd doff) bytes
              (rw x.fds_after (ground (arith, i.destination_open)))
              (rw x.files_after i.destination_present) position buffer writeable (omega arith)
              (omega arith) (omega arith) in
          let files : V.files y.after
              ≡ update_file (V.files m.world) dd.path (copied position c bytes) =
            y.files_after ∙ rw x.files_after in
          let fds : V.fds y.after
              ≡ update (update (V.fds m.world) sfd (some (advance sd (position + so + c)))) dfd
                  (some (advance dd (position + do_ + c))) =
            y.fds_after ∙ rw (x.fds_after, size) in
          record {
            next = y.after;
            round =
                clone_round fuel position (length buffer) m buffer x.after y.after
                  (lt→ltb position total more) x.result y.result;
            ready = record {
              source_open = rw fds (ground (arith, apart));
              destination_open = rw fds (
                  lookup-update (update (V.fds m.world) sfd (some (advance sd (position + so + c))))
                    dfd _);
              source_present =
                  rw files
                    (file-update_ne (V.files m.world) dd.path _ sd.path other ∙ i.source_present);
              destination_present = rw files (file-update (V.files m.world) dd.path _);
            };
            files_next = files;
            fds_next = fds;
          }

      finished :
          (m : Machine P.World F.State) (fuel position : ℕ) (bytes : List ℕ)
          → position ≡ total
          → V.files m.world dd.path ≡ some bytes
          → IsCopied m (suc fuel) position bytes
      finished m fuel position bytes e present =
          let none_left : total - position ≡ 0 = omega arith in
          record {
            after = P.close dfd (P.close sfd m.world);
            result = clone_done fuel position m (le→ltb_false position total (omega arith));
            files_after =
                H.close_files (P.close sfd m.world) dfd
                ∙ H.close_files m.world sfd
                ∙ sym (
                    rw (none_left, slice-zero, splice-nil)
                      (update_file_self (V.files m.world) dd.path bytes present));
            fds_after =
                H.close_fds (P.close sfd m.world) dfd
                ∙ ap (λ t. update t dfd none) (H.close_fds m.world sfd);
          }

      copies :
          (m : Machine P.World F.State) (fuel position soff doff : ℕ) (bytes : List ℕ)
          → total - position < fuel
          → position ≤ total
          → total + do_ ≤ length bytes
          → IsReady m.world soff doff bytes
          → IsCopied m fuel position bytes
      copies m zero position soff doff bytes f b room i = absurd (omega arith)
      copies m (suc fuel) position soff doff bytes f b room i =
          elim (Bool-cases (ltb position total)) [
            | inr over ↦ finished m fuel position bytes (ground arith) i.destination_present
            | inl more ↦
                let less = ltb→lt position total more in
                let (positive, within, low) = chunk_bounds (total - position) (omega arith) in
                let c = chunk position in
                let v = move m fuel position soff doff bytes less room i in
                let ih =
                  copies (record m { world = v.next }) fuel (position + c) _ _
                    (copied position c bytes) (omega arith) (omega arith)
                    (omega (
                      arith,
                      length-splice (position + do_) (slice (position + so) c source) bytes,
                    ))
                    v.ready in
                record {
                  after = ih.after;
                  result = v.round ∙ ih.result;
                  files_after =
                      ih.files_after
                      ∙ rw v.files_next (update_file-update_file (V.files m.world) dd.path _ _)
                      ∙ ap (λ t. update_file (V.files m.world) dd.path t)
                          (copy_parts (position + do_) (position + c + do_) c
                            (total - (position + c)) (total - position) (position + so)
                            (position + c + so) source bytes (omega arith) (omega arith)
                            (omega arith) (omega arith));
                  fds_after =
                      ih.fds_after ∙ rw v.fds_next (closed_twice (V.fds m.world) sfd dfd _ _);
                }
          ]

      -- On a healthy disk, when an image file and another one, open for writing, both hold at least
      -- `total` bytes of data, all below 2 ^ 31, the loop ends with status 0 within `total + 1` rounds:
      -- then the destination's data begin with the source's `total` bytes, all else in it and every
      -- other file is as it was, and both are closed.
      pub clone_loop-IsCopied :
          (m : Machine P.World F.State) (bytes : List ℕ)
          → V.fds m.world sfd ≡ some sd
          → V.fds m.world dfd ≡ some dd
          → V.files m.world sd.path ≡ some source
          → V.files m.world dd.path ≡ some bytes
          → total + do_ ≤ length bytes
          → IsCopied m (suc total) 0 bytes
      clone_loop-IsCopied m bytes so_open do_open so_file do_file room =
          copies m (suc total) 0 sd.offset dd.offset bytes (omega arith) (omega arith) room
            (record {
              source_open = so_open;
              destination_open = do_open;
              source_present = so_file;
              destination_present = do_file;
            })
