-- ===== src/Cli/Rebuild/Copies.antt =====
-- What `copy_dir` of src/hdfmonkey.c makes of an entry that is a regular file.
use mathlib.Core.List.{append_assoc}
use hdfmonkey.Base.{
  ℕ, zero, suc, ◌/◌, ◌<◌, ◌≡◌, ap, ◌∙◌, List, [], ◌++◌, true, false, some, ◌==◌, length, take, drop,
  take-append-drop, ok, arith, Bool-cases, inl, inr, same_bytes, same_bytes→eq, sym, ◌∷◌,
}
use hdfmonkey.Posix.{Posix, CString, update_file}
use hdfmonkey.Posix.Views.{update_file-update_file, file-update}
use hdfmonkey.Machine.{Machine}
use hdfmonkey.FatFs.{FatFs, fr_ok, read_existing, write_always}
use hdfmonkey.Libc.{Libc}
use hdfmonkey.Files.{FileView, IsSound}
use hdfmonkey.Files.Trees.{TreeView, IsOrderly, Grown, Still, Grown-append, Still-Grown}
use hdfmonkey.Cli.Support.{success, is_ok}
use hdfmonkey.Cli.Get.{buffer_size}
use hdfmonkey.Cli.Get.Delivers.{take_short, take_full}
use hdfmonkey.Cli.Rebuild.{copy_loop, copy_file}

module _ {P : Posix} (T : Libc P) (F : FatFs P) where
  -- Both files are closed.
  abbrev closed : F.File → F.File → Machine P.World F.State → Machine P.World F.State
  closed source destination m = (F.f_close destination (F.f_close source m).1).1

  copy_full :
      (fuel : ℕ) (source destination : F.File) (m : Machine P.World F.State)
      → let (r, m1) = F.f_read source buffer_size m in
        let (s, m2) = F.f_write destination r.1 m1 in
        r.0 ≡ fr_ok
        → s.0 ≡ fr_ok
        → (length r.1 == buffer_size) ≡ true
        → copy_loop T F (suc fuel) source destination m ≡ copy_loop T F fuel r.2 s.2 m2
  unfolding copy_loop is_ok
  copy_full fuel source destination m e w f = rw (e, w, f)

  copy_last :
      (fuel : ℕ) (source destination : F.File) (m : Machine P.World F.State)
      → let (r, m1) = F.f_read source buffer_size m in
        let (s, m2) = F.f_write destination r.1 m1 in
        r.0 ≡ fr_ok
        → s.0 ≡ fr_ok
        → (length r.1 == buffer_size) ≡ false
        → copy_loop T F (suc fuel) source destination m ≡ ok success (closed r.2 s.2 m2)
  unfolding copy_loop is_ok
  copy_last fuel source destination m e w f = rw (e, w, f)

  copy_file_run :
      (fuel : ℕ) (source destination : CString) (m : Machine P.World F.State)
      → let (r, m1) = F.f_open source read_existing m in
        let (s, m2) = F.f_open destination write_always m1 in
        r.0 ≡ fr_ok
        → s.0 ≡ fr_ok
        → copy_file T F fuel source destination m ≡ copy_loop T F fuel r.1 s.1 m2
  unfolding copy_file is_ok
  copy_file_run fuel source destination m e w = rw (e, w)

  module _ (V : FileView T F) (S : IsSound T F V) (W : TreeView T F) (O : IsOrderly T F V W) where
    closed_files :
        (source destination : F.File) (m : Machine P.World F.State)
        → same_bytes (V.path_of source) (V.path_of destination) ≡ false
        → V.is_open m source ≡ true
        → V.mode_of source ≡ read_existing
        → V.is_open m destination ≡ true
        → V.mode_of destination ≡ write_always
        → V.files (closed source destination m)
          ≡ update_file (V.files m) (V.path_of destination) (V.pending m destination)
    closed_files source destination m apart live reads live' w =
        let x = S.f_close_read source m live reads in
        (S.f_close_written destination (F.f_close source m).1
          (x.others_open destination apart live') w).files_after
        ∙ rw (x.files_after, x.others_pending destination apart)

    still : (k : ℕ) (m m' : Machine P.World F.State) → Still T F V W m m' → Grown T F V W k [] m m'
    still = Still-Grown T F V W

    onward :
        (k : ℕ) (names : List CString) (m m' m'' : Machine P.World F.State)
        → Grown T F V W k [] m m'
        → Grown T F V W k names m' m''
        → Grown T F V W k names m m''
    onward k names = Grown-append T F V W k [] names

    closed-Grown :
        (source destination : F.File) (path : CString) (m : Machine P.World F.State)
        → same_bytes (V.path_of source) path ≡ false
        → V.is_open m source ≡ true
        → V.mode_of source ≡ read_existing
        → V.path_of destination ≡ path
        → V.is_open m destination ≡ true
        → V.mode_of destination ≡ write_always
        → V.files m path ≡ some []
        → Grown T F V W (W.drive_of path) [] m (closed source destination m)
    closed-Grown source destination path m apart live reads p live' w there =
        let m1 = (F.f_close source m).1 in
        let k = W.drive_of path in
        let x = S.f_close_read source m live reads in
        let there1 : V.files m1 (V.path_of destination) ≡ some [] = rw (x.files_after, p) there in
        onward k [] m m1 (closed source destination m)
          (still k m m1 (O.f_close_read source m live reads))
          (rw (← p) (
            O.f_close_written destination [] m1 (x.others_open destination (rw p apart) live') w
              there1))

    -- One round.
    round-Grown :
        (source destination : F.File) (path : CString) (m : Machine P.World F.State)
        → V.is_open m source ≡ true
        → V.mode_of source ≡ read_existing
        → V.path_of destination ≡ path
        → V.is_open m destination ≡ true
        → V.mode_of destination ≡ write_always
        → let (r, m1) = F.f_read source buffer_size m in
          Grown T F V W (W.drive_of path) [] m (F.f_write destination r.1 m1).1
    round-Grown source destination path m live reads p live' w =
        let (r, m1) = F.f_read source buffer_size m in
        let x = S.f_read source buffer_size m live reads in
        let k = W.drive_of path in
        onward k [] m m1 (F.f_write destination r.1 m1).1
          (still k m m1 (O.f_read source buffer_size m live reads))
          (rw (← p) (O.f_write destination r.1 m1 (x.kept.open_kept destination live') w))

    copy_loop_copies :
        (fuel : ℕ) (source destination : F.File) (m : Machine P.World F.State) (path : CString)
        (content : List ℕ)
        → V.is_open m source ≡ true
        → V.mode_of source ≡ read_existing
        → same_bytes (V.path_of source) path ≡ false
        → V.path_of destination ≡ path
        → V.is_open m destination ≡ true
        → V.mode_of destination ≡ write_always
        → V.files m path ≡ some []
        → V.pending m destination ≡ content
        → length (V.ahead m source) / 2048 < fuel
        → (m' : Machine P.World F.State) × (copy_loop T F fuel source destination m ≡ ok success m')
          × (V.files m' ≡ update_file (V.files m) path (content ++ V.ahead m source))
          × Grown T F V W (W.drive_of path) [] m m'
    copy_loop_copies zero source destination m path content live reads apart p live' w there c h =
        absurd (omega arith)
    copy_loop_copies (suc fuel) source destination m path content live reads apart p live' w there c
          h =
        let all = V.ahead m source in
        let (r, m1) = F.f_read source buffer_size m in
        let x = S.f_read source buffer_size m live reads in
        let c1 : V.pending m1 destination ≡ content = ap (λ t. t destination) x.kept.pending ∙ c in
        let (s, m2) = F.f_write destination r.1 m1 in
        let y = S.f_write destination r.1 m1 (x.kept.open_kept destination live') w in
        let step = round-Grown source destination path m live reads p live' w in
        let now = content ++ take 2048 all in
        let files : V.files m2 ≡ V.files m = y.kept.files ∙ x.kept.files in
        let c2 : V.pending m2 s.2 ≡ now =
          ap (λ t. t s.2) y.kept.pending ∙ y.pending ∙ rw (c1, x.bytes) in
        let apart1 : same_bytes (V.path_of r.2) path ≡ false = rw x.path apart in
        let live1 = y.kept.open_kept r.2 x.still_open in
        let p2 : V.path_of s.2 ≡ path = y.path ∙ p in
        let w2 : V.mode_of s.2 ≡ write_always = y.mode ∙ w in
        let there2 : V.files m2 path ≡ some [] = rw files there in
        elim (Bool-cases (length r.1 == buffer_size)) [
          | inl full ↦
              let left = take_full 2048 all (rw (← x.bytes) full) in
              let ahead : V.ahead m2 r.2 ≡ drop 2048 all =
                ap (λ t. t r.2) (y.kept.ahead ∙ x.kept.ahead) ∙ x.ahead in
              let (m', run, files', grown) =
                copy_loop_copies fuel r.2 s.2 m2 path now live1 (x.mode ∙ reads) apart1 p2
                  y.still_open w2 there2 c2 (rw ahead (omega arith)) in
              (
                m',
                copy_full fuel source destination m x.result y.result full ∙ run,
                files'
                    ∙ rw (files, ahead)
                        (ap (λ t. update_file (V.files m) path t)
                          (append_assoc content (take 2048 all) (drop 2048 all)
                            ∙ ap (λ t. content ++ t) (take-append-drop 2048 all))),
                onward (W.drive_of path) [] m m2 m' step grown,
              )
          | inr short ↦ (
            closed r.2 s.2 m2,
            copy_last fuel source destination m x.result y.result short,
            closed_files r.2 s.2 m2 (rw p2 apart1) live1 (x.mode ∙ reads) y.still_open w2
                ∙ rw (files, p2, c2)
                    (ap (λ t. update_file (V.files m) path (content ++ t))
                      (take_short 2048 all (rw (← x.bytes) short))),
            onward (W.drive_of path) [] m m2 (closed r.2 s.2 m2) step (
                closed-Grown r.2 s.2 path m2 apart1 live1 (x.mode ∙ reads) p2 y.still_open w2
                  there2),
          )
        ]

    names_apart :
        (p q : CString)
        → (W.drive_of p == W.drive_of q) ≡ false
        → same_bytes (V.name_of p) (V.name_of q) ≡ false
    names_apart p q n = elim (Bool-cases (same_bytes (V.name_of p) (V.name_of q))) [
      | inl same ↦
          let e : W.drive_of p ≡ W.drive_of q =
            sym (O.drive_of-name_of p)
            ∙ ap (λ t. W.drive_of t) (same_bytes→eq (V.name_of p) (V.name_of q) same)
            ∙ O.drive_of-name_of q in
          absurd (ground arith)
      | inr apart ↦ apart
    ]

    -- Copying a file that is there to a name that can be made.
    pub copy_file_copies :
        (fuel : ℕ) (source destination : CString) (m : Machine P.World F.State) (bytes : List ℕ)
        → V.files m (V.name_of source) ≡ some bytes
        → (W.drive_of source == W.drive_of destination) ≡ false
        → V.admits (F.f_open source read_existing m).1 destination ≡ true
        → length bytes / 2048 < fuel
        → (m' : Machine P.World F.State) × (copy_file T F fuel source destination m ≡ ok success m')
          × (V.files m' ≡ update_file (V.files m) (V.name_of destination) bytes)
          × Grown T F V W (W.drive_of destination) (V.name_of destination ∷ []) m m'
    copy_file_copies fuel source destination m bytes there elsewhere free enough =
        let (r, m1) = F.f_open source read_existing m in
        let x = S.f_open source bytes m there in
        let (s, m2) = F.f_open destination write_always m1 in
        let y = S.f_create destination m1 free in
        let path = V.name_of destination in
        let k = W.drive_of destination in
        let apart : same_bytes (V.path_of r.1) path ≡ false =
          rw x.path_is (names_apart source destination elsewhere) in
        let made : V.files m2 ≡ update_file (V.files m) path [] = y.files ∙ rw x.kept.files in
        let ahead : V.ahead m2 r.1 ≡ bytes =
          y.others r.1 apart ∙ ap (λ t. t r.1) x.kept.ahead ∙ x.ahead in
        let (m', run, files, grown) =
          copy_loop_copies fuel r.1 s.1 m2 path [] (y.open_kept r.1 x.now_open) x.mode apart
            y.path_is y.now_open y.mode (rw made (file-update (V.files m) path [])) y.pending
            (rw ahead enough) in
        (
          m',
          copy_file_run fuel source destination m x.result y.result ∙ run,
          files ∙ rw (made, ahead) (update_file-update_file (V.files m) path [] bytes),
          onward k (path ∷ []) m m1 m' (still k m m1 (O.f_open source bytes m there)) (
              Grown-append T F V W k (path ∷ []) [] m1 m2 m' (O.f_create destination m1 free)
                (rw (← (O.drive_of-name_of destination)) grown)),
        )
