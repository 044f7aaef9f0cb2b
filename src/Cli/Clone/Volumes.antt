-- ===== src/Cli/Clone/Volumes.antt =====
-- What `cmd_clone` of src/hdfmonkey.c leaves of a source image that is open.
use mathlib.Core.Path.{fun_ext}
use mathlib.Core.List.{append-nil}
use hdfmonkey.Base.{
  ℕ, suc, ◌+◌, ◌-◌, ◌*◌, ◌%◌, ◌^◌, ◌≤◌, ◌<◌, ◌≡◌, refl, sym, ap, ◌∙◌, List, [], ◌∷◌, ◌++◌, Option,
  some, none, true, false, ◌==◌, length, replicate, same_bytes, ok, arith, Bool-cases, inl, inr,
  word_modulus, length-replicate, length-append, ==_iff,
}
use hdfmonkey.Base.Slices.{slice, splice, splice-append, length-slice}
use hdfmonkey.Posix.{Posix, View, IsHealthy, CString, Descriptor, update, update_file}
use hdfmonkey.Posix.Views.{lookup-update, file-update, update_file-update_file, file-update_ne}
use hdfmonkey.Volume.{Volume, image_file}
use hdfmonkey.ImageFile.Header.{header_bytes, header_bytes-Describes}
use hdfmonkey.ImageFile.Images.{hdf_image_create, raw_image_create}
use hdfmonkey.ImageFile.Images.Create.{
  hdf_bytes, hdf_image_create-Returns, raw_image_create-Returns,
}
use hdfmonkey.Machine.{Machine}
use hdfmonkey.FatFs.{FatFs}
use hdfmonkey.Libc.{Libc}
use hdfmonkey.Cli.Names.{filename_is_hdf}
use hdfmonkey.Cli.Support.{success, create_image}
use hdfmonkey.Cli.Clone.{clone_loop, clone_volume}
use hdfmonkey.Cli.Clone.Copies.{clone_loop-IsCopied}

splice_all : (bs xs : List ℕ) → length bs ≡ length xs → splice 0 bs xs ≡ bs
splice_all bs xs e =
    ap (λ t. splice 0 bs t) (sym (append-nil xs)) ∙ splice-append bs xs [] e ∙ append-nil bs

splice_behind :
    (front bs xs : List ℕ)
    → length bs ≡ length xs
    → splice (length front) bs (front ++ xs) ≡ front ++ bs
unfolding splice
splice_behind [] bs xs e = splice_all bs xs e
splice_behind (x ∷ front) bs xs e = ap (λ t. x ∷ t) (splice_behind front bs xs e)

-- What is open is not what is fresh.
fresh_apart :
    (fds : ℕ → Option Descriptor) (a b : ℕ) (d : Descriptor)
    → fds a ≡ some d
    → fds b ≡ none
    → (a == b) ≡ false
fresh_apart fds a b d e f = elim (Bool-cases (a == b)) [
  | inr apart ↦ apart
  | inl same ↦
      let h : a ≡ b = (==_iff a b).0 same in
      let g : some d ≡ none = sym e ∙ ap fds h ∙ f in ground arith
]

closed_fresh :
    (fds : ℕ → Option Descriptor) (a b : ℕ) (x : Option Descriptor)
    → fds b ≡ none
    → update (update (update fds b x) a none) b none ≡ update fds a none
closed_fresh fds a b x h = fun_ext λ j. ground arith

module _ {P : Posix} (T : Libc P) (F : FatFs P) (sfd so n : ℕ) (path : CString)
    (m : Machine P.World F.State) where
  abbrev source_vol : Volume
  source_vol = image_file sfd so 512 n

  create_hdf :
      (dfd : ℕ) (w1 : P.World)
      → filename_is_hdf path ≡ some true
      → hdf_image_create P path n m.world ≡ ok (some (image_file dfd 0x0216 512 n)) w1
      → create_image T F path n m
        ≡ ok (some (image_file dfd 0x0216 512 n)) (record m { world = w1 })
  unfolding create_image
  create_hdf dfd w1 e r = ground arith

  create_raw :
      (dfd : ℕ) (w1 : P.World)
      → filename_is_hdf path ≡ some false
      → raw_image_create P path n m.world ≡ ok (some (image_file dfd 0 512 n)) w1
      → create_image T F path n m ≡ ok (some (image_file dfd 0 512 n)) (record m { world = w1 })
  unfolding create_image
  create_raw dfd w1 e r = ground arith

  clone_run :
      (v : Volume) (total : ℕ) (m1 : Machine P.World F.State)
      → 512 * n % word_modulus ≡ total
      → create_image T F path n m ≡ ok (some v) m1
      → clone_volume T F source_vol path m ≡ clone_loop T F (suc total) source_vol v 0 total m1
  unfolding clone_volume
  clone_run v total m1 t r = ground arith

  module _ (V : View P) where
    -- The command's work has ended with status 0; the file of the given name holds `bytes`, every
    -- other file is as it was, and the source is closed.
    pub record IsCloned (bytes : List ℕ) : Type 0 where
      pub after : P.World
      pub result : clone_volume T F source_vol path m ≡ ok success (record m { world = after })
      pub files_after : V.files after ≡ update_file (V.files m.world) path bytes
      pub fds_after : V.fds after ≡ update (V.fds m.world) sfd none

  module _ (V : View P) (H : IsHealthy P V) (source : List ℕ) (sd : Descriptor)
      (opened : V.fds m.world sfd ≡ some sd) (present : V.files m.world sd.path ≡ some source)
      (other : same_bytes sd.path path ≡ false) (low : n * 512 + so < 2 ^ 31)
      (long : n * 512 + so ≤ length source) where
    -- The sectors of the source.
    abbrev pub data_of : List ℕ
    data_of = slice so (n * 512) source

    -- A copy onto the file that was just made.
    onto :
        (v : Volume) (dfd do_ total : ℕ) (fresh bytes : List ℕ) (w1 : P.World)
        → V.fds m.world dfd ≡ none
        → v ≡ image_file dfd do_ 512 n
        → total ≡ n * 512
        → total + do_ < 2 ^ 31
        → create_image T F path n m ≡ ok (some v) (record m { world = w1 })
        → V.files w1 ≡ update_file (V.files m.world) path fresh
        → V.fds w1
          ≡ update
              (V.fds m.world)
              dfd
              (some (record { path = path; offset = do_; writeable = true }))
        → total + do_ ≤ length fresh
        → splice do_ (slice so total source) fresh ≡ bytes
        → IsCloned V bytes
    onto v dfd do_ total fresh bytes w1 free same size below run files fds room result =
        let dd : Descriptor = record { path = path; offset = do_; writeable = true } in
        let apart = fresh_apart (V.fds m.world) sfd dfd sd opened free in
        let x =
          clone_loop-IsCopied T F sfd so 512 n dfd do_ 512 n total V source sd dd H apart other refl
            (omega arith) below (omega arith) (record m { world = w1 }) fresh
            (rw fds (ground (arith, apart, opened)))
            (rw fds (lookup-update (V.fds m.world) dfd (some dd)))
            (rw files (file-update_ne (V.files m.world) path fresh sd.path other ∙ present))
            (rw files (file-update (V.files m.world) path fresh)) room in
        let a : 0 + do_ ≡ do_ = omega arith in
        let b : 0 + so ≡ so = omega arith in
        let c : total - 0 ≡ total = omega arith in
        let whole : splice (0 + do_) (slice (0 + so) (total - 0) source) fresh ≡ bytes =
          rw (a, b, c) result in
        record {
          after = x.after;
          result =
              clone_run v total (record m { world = w1 }) (omega arith) run
              ∙ ap (λ t. clone_loop T F (suc total) source_vol t 0 total (record m { world = w1 }))
                  same
              ∙ x.result;
          files_after =
              x.files_after
              ∙ ap (λ t. update_file (V.files w1) path t) whole
              ∙ ap (λ t. update_file t path bytes) files
              ∙ update_file-update_file (V.files m.world) path fresh bytes;
          fds_after = x.fds_after ∙ rw fds (closed_fresh (V.fds m.world) sfd dfd _ free);
        }

    -- On a healthy disk, when the source is an open image of `n` sectors of 512 bytes, all inside its
    -- file and below 2 ^ 31, and another name that `filename_is_hdf` refuses is given, cloning ends with
    -- status 0; the file of that name then holds exactly the sectors of the source.
    pub clone_volume_raw : filename_is_hdf path ≡ some false → IsCloned V data_of
    clone_volume_raw raw =
        let (dfd, free, x) = raw_image_create-Returns P V path m.world n H (omega arith) in
        onto (image_file dfd 0 512 n) dfd 0 (n * 512) (replicate (n * 512) 0) data_of x.after free
          refl refl (omega arith) (create_raw dfd x.after raw x.result) x.files_after x.fds_after
          (omega (arith, length-replicate {A = ℕ} (n * 512) 0))
          (splice_all data_of (replicate (n * 512) 0)
            (length-slice so (n * 512) source (omega arith) ∙ sym (length-replicate (n * 512) 0)))

    -- On a healthy disk, when the source is an open image of `n` sectors of 512 bytes, all inside its
    -- file and below 2 ^ 31, and another name that `filename_is_hdf` accepts is given, with an image of
    -- a size below 2 ^ 31, cloning ends with status 0; the file of that name then holds the header for
    -- `n` sectors, and behind it exactly the sectors of the source.
    pub clone_volume_hdf :
        n * 512 + 0x0216 < 2 ^ 31
        → filename_is_hdf path ≡ some true
        → IsCloned V (header_bytes n ++ data_of)
    clone_volume_hdf small hdf =
        let (dfd, free, x) = hdf_image_create-Returns P V path m.world n H (omega arith) in
        let size : length (header_bytes n) ≡ 0x0216 = (header_bytes-Describes n).size in
        onto (image_file dfd 0x0216 512 n) dfd 0x0216 (n * 512) (hdf_bytes n)
          (header_bytes n ++ data_of) x.after free refl refl (omega arith)
          (create_hdf dfd x.after hdf x.result) x.files_after x.fds_after
          (omega (
            arith,
            length-append (header_bytes n) (replicate {A = ℕ} (n * 512) 0),
            size,
            length-replicate {A = ℕ} (n * 512) 0,
          ))
          (ap (λ t. splice t data_of (hdf_bytes n)) (sym size)
            ∙ splice_behind (header_bytes n) data_of (replicate (n * 512) 0) (
                length-slice so (n * 512) source (omega arith)
                ∙ sym (length-replicate (n * 512) 0)))
