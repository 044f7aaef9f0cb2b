-- ===== src/Cli/Put/Stores.antt =====
-- What `put_file` of src/hdfmonkey.c makes of a regular file.
use hdfmonkey.Base.{ℕ, suc, ◌/◌, ◌<◌, ◌≡◌, ap, ◌∙◌, List, [], true, false, some, length, ok, arith}
use hdfmonkey.Posix.{Posix, CString, update_file}
use hdfmonkey.Posix.Views.{update_file-update_file, file-update}
use hdfmonkey.Machine.{Machine}
use hdfmonkey.FatFs.{FatFs, fr_ok, write_always}
use hdfmonkey.Libc.{Libc, Stream}
use hdfmonkey.Files.{FileView, IsSound}
use hdfmonkey.Volume.{Volume}
use hdfmonkey.Cli.Support.{success, is_ok, is_directory}
use hdfmonkey.Cli.Put.{put_loop, put_regular, put_file}
use hdfmonkey.Cli.Put.Loop.{IsFrame, put_loop_stores}

module _ {P : Posix} (T : Libc P) (F : FatFs P) where
  put_regular_run :
      (fuel : ℕ) (source dest : CString) (input : Stream) (m : Machine P.World F.State)
      → (T.fopen_read source m.world).0 ≡ some input
      → let (r, m2) =
          F.f_open dest write_always (record m { world = (T.fopen_read source m.world).1 }) in
        r.0 ≡ fr_ok → put_regular T F fuel source dest m ≡ put_loop T F fuel input r.1 m2
  unfolding put_regular is_ok
  put_regular_run fuel source dest input m o r = rw (o, r)

  pub put_file_run :
      (fuel : ℕ) (source dest : CString) (m m0 : Machine P.World F.State)
      → is_directory T F source m ≡ ok false m0
      → put_file T F (suc fuel) source dest m ≡ put_regular T F fuel source dest m0
  unfolding put_file
  put_file_run fuel source dest m m0 d = rw d

  module _ (V : FileView T F) (S : IsSound T F V) where
    -- The state when the destination has been made.
    abbrev pub opened_for : CString → CString → Machine P.World F.State → Machine P.World F.State
    opened_for source dest m =
        (F.f_open dest write_always (record m { world = (T.fopen_read source m.world).1 })).1

    -- A regular file is stored; what is kept through the loop holds from the making of the destination
    -- on.
    pub put_regular_stores :
        (R : Machine P.World F.State → Machine P.World F.State → Type 0) (fuel : ℕ)
        (source dest : CString) (m : Machine P.World F.State) (bytes : List ℕ)
        → IsFrame T F V S R (V.name_of dest)
        → V.host m.world source ≡ some bytes
        → V.admits m dest ≡ true
        → length bytes / 2048 < fuel
        → (m' : Machine P.World F.State) × (put_regular T F fuel source dest m ≡ ok success m')
          × (V.files m' ≡ update_file (V.files m) (V.name_of dest) bytes)
          × R (opened_for source dest m) m'
    put_regular_stores R fuel source dest m bytes fr there free enough =
        let x = S.fopen_read source bytes m there in
        let m1 = record m { world = (T.fopen_read source m.world).1 } in
        let y = S.f_create dest m1 (ap (λ t. t dest) x.admits ∙ free) in
        let (r, m2) = F.f_open dest write_always m1 in
        let made : V.files m2 ≡ update_file (V.files m) (V.name_of dest) [] =
          y.files ∙ rw x.files in
        let unread : V.unread m2.world x.stream ≡ bytes =
          ap (λ t. t x.stream) y.streams.unread ∙ x.unread in
        let (m', run, files, kept) =
          put_loop_stores T F V S R fuel x.stream r.1 m2 (V.name_of dest) [] fr y.path_is y.now_open
            y.mode (rw made (file-update (V.files m) (V.name_of dest) [])) y.pending
            (rw unread (omega arith)) in
        (
          m',
          put_regular_run fuel source dest x.stream m x.result y.result ∙ run,
          files ∙ rw (made, unread) (update_file-update_file (V.files m) (V.name_of dest) [] bytes),
          kept,
        )
