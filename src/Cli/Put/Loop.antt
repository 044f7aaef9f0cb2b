-- ===== src/Cli/Put/Loop.antt =====
-- The loop of `put_file` of src/hdfmonkey.c stores what it reads.
use mathlib.Core.List.{append_assoc, append-nil}
use hdfmonkey.Base.{
  ℕ, zero, suc, ◌/◌, ◌<◌, ◌≡◌, sym, ap, ◌∙◌, List, [], ◌++◌, true, false, some, ◌==◌, length, take,
  drop, take-append-drop, ok, arith, Bool-cases, inl, inr,
}
use hdfmonkey.Posix.{Posix, CString, update_file}
use hdfmonkey.Machine.{Machine}
use hdfmonkey.FatFs.{FatFs, fr_ok, write_always}
use hdfmonkey.Libc.{Libc, Stream}
use hdfmonkey.Files.{FileView, IsSound}
use hdfmonkey.Cli.Support.{success, is_ok}
use hdfmonkey.Cli.Get.{buffer_size}
use hdfmonkey.Cli.Get.Delivers.{take_short, take_full, take_nothing}
use hdfmonkey.Cli.Put.{put_loop}

module _ {P : Posix} (T : Libc P) (F : FatFs P) where
  -- Both files are closed.
  abbrev pub closed : Stream → F.File → Machine P.World F.State → Machine P.World F.State
  closed input file m = (F.f_close file (record m { world = T.fclose input m.world })).1

  abbrev pub fetched : Stream → Machine P.World F.State → Machine P.World F.State
  fetched input m = record m { world = (T.fread input buffer_size m.world).1 }

  abbrev pub piece : Stream → Machine P.World F.State → List ℕ
  piece input m = (T.fread input buffer_size m.world).0

  put_empty :
      (fuel : ℕ) (input : Stream) (file : F.File) (m : Machine P.World F.State)
      → T.ferror input (fetched input m).world ≡ false
      → (length (piece input m) == 0) ≡ true
      → put_loop T F (suc fuel) input file m ≡ ok success (closed input file (fetched input m))
  unfolding put_loop
  put_empty fuel input file m e z = rw (e, z)

  put_full :
      (fuel : ℕ) (input : Stream) (file : F.File) (m : Machine P.World F.State)
      → T.ferror input (fetched input m).world ≡ false
      → (length (piece input m) == 0) ≡ false
      → let (s, m2) = F.f_write file (piece input m) (fetched input m) in
        s.0 ≡ fr_ok
        → (length (piece input m) == buffer_size) ≡ true
        → put_loop T F (suc fuel) input file m ≡ put_loop T F fuel input s.2 m2
  unfolding put_loop is_ok
  put_full fuel input file m e z r f = rw (e, z, r, f)

  put_last :
      (fuel : ℕ) (input : Stream) (file : F.File) (m : Machine P.World F.State)
      → T.ferror input (fetched input m).world ≡ false
      → (length (piece input m) == 0) ≡ false
      → let (s, m2) = F.f_write file (piece input m) (fetched input m) in
        s.0 ≡ fr_ok
        → (length (piece input m) == buffer_size) ≡ false
        → put_loop T F (suc fuel) input file m ≡ ok success (closed input s.2 m2)
  unfolding put_loop is_ok
  put_last fuel input file m e z r f = rw (e, z, r, f)

  module _ (V : FileView T F) (S : IsSound T F V) where
    closed_files :
        (input : Stream) (file : F.File) (m : Machine P.World F.State)
        → V.is_open m file ≡ true
        → V.mode_of file ≡ write_always
        → V.files (closed input file m)
          ≡ update_file (V.files m) (V.path_of file) (V.pending m file)
    closed_files input file m live w =
        let x = S.fclose_kept input m in
        (S.f_close_written file (record m { world = T.fclose input m.world })
          (x.open_kept file live) w).files_after
        ∙ rw (x.files, x.pending)

    -- What leads from each state of the loop to the next ones, kept through the whole of it.
    pub record IsFrame (R : Machine P.World F.State → Machine P.World F.State → Type 0)
        (path : CString) : Type 0 where
      pub chain : (a b c : Machine P.World F.State) → R a b → R b c → R a c
      pub fread : (s : Stream) (m : Machine P.World F.State) → R m (fetched s m)
      pub f_write :
          (f : F.File) (bytes : List ℕ) (m : Machine P.World F.State)
          → V.path_of f ≡ path
          → V.is_open m f ≡ true
          → V.mode_of f ≡ write_always
          → R m (F.f_write f bytes m).1
      pub closing :
          (s : Stream) (f : F.File) (m : Machine P.World F.State)
          → V.path_of f ≡ path
          → V.is_open m f ≡ true
          → V.mode_of f ≡ write_always
          → V.files m path ≡ some []
          → R m (closed s f m)

    -- The loop stores what is still to come from the stream behind what is pending, and ends.
    pub put_loop_stores :
        (R : Machine P.World F.State → Machine P.World F.State → Type 0) (fuel : ℕ) (input : Stream)
        (file : F.File) (m : Machine P.World F.State) (path : CString) (content : List ℕ)
        → IsFrame R path
        → V.path_of file ≡ path
        → V.is_open m file ≡ true
        → V.mode_of file ≡ write_always
        → V.files m path ≡ some []
        → V.pending m file ≡ content
        → length (V.unread m.world input) / 2048 < fuel
        → (m' : Machine P.World F.State) × (put_loop T F fuel input file m ≡ ok success m')
          × (V.files m' ≡ update_file (V.files m) path (content ++ V.unread m.world input))
          × R m m'
    put_loop_stores R zero input file m path content fr p live w there c h = absurd (omega arith)
    put_loop_stores R (suc fuel) input file m path content fr p live w there c h =
        let all = V.unread m.world input in
        let m1 = fetched input m in
        let bs = piece input m in
        let e : T.ferror input m1.world ≡ false = S.ferror input m1.world in
        let bytes : bs ≡ take 2048 all = S.fread_bytes input 2048 m.world in
        let x = S.fread_kept input 2048 m in
        let live1 = x.open_kept file live in
        let there1 : V.files m1 path ≡ some [] = rw x.files there in
        let c1 : V.pending m1 file ≡ content = ap (λ t. t file) x.pending ∙ c in
        let y = S.f_write file bs m1 live1 w in
        let (s, m2) = F.f_write file bs m1 in
        let now = content ++ take 2048 all in
        let files : V.files m2 ≡ V.files m = y.kept.files ∙ x.files in
        let c2 : V.pending m2 s.2 ≡ now =
          ap (λ t. t s.2) y.kept.pending ∙ y.pending ∙ rw (c1, bytes) in
        let there2 : V.files m2 path ≡ some [] = rw files there in
        let p2 : V.path_of s.2 ≡ path = y.path ∙ p in
        let w2 : V.mode_of s.2 ≡ write_always = y.mode ∙ w in
        let read = fr.fread input m in
        let step = fr.chain m m1 m2 read (fr.f_write file bs m1 p live1 w) in
        elim (Bool-cases (length bs == 0)) [
          | inl nothing ↦
              let none_left : all ≡ [] = take_nothing 2047 all (rw (← bytes) nothing) in
              (
                closed input file m1,
                put_empty fuel input file m e nothing,
                closed_files input file m1 live1 w
                    ∙ rw (x.files, p, c1)
                        (ap (λ t. update_file (V.files m) path t)
                          (sym (ap (λ t. content ++ t) none_left ∙ append-nil content))),
                fr.chain m m1 (closed input file m1) read
                    (fr.closing input file m1 p live1 w there1),
              )
          | inr something ↦ elim (Bool-cases (length bs == buffer_size)) [
            | inl full ↦
                let left = take_full 2048 all (rw (← bytes) full) in
                let unread : V.unread m2.world input ≡ drop 2048 all =
                  ap (λ t. t input) y.streams.unread ∙ S.fread_unread input 2048 m.world in
                let (m', run, files', rest) =
                  put_loop_stores R fuel input s.2 m2 path now fr p2 y.still_open w2 there2 c2
                    (rw unread (omega arith)) in
                (
                  m',
                  put_full fuel input file m e something y.result full ∙ run,
                  files'
                      ∙ rw (files, unread)
                          (ap (λ t. update_file (V.files m) path t)
                            (append_assoc content (take 2048 all) (drop 2048 all)
                              ∙ ap (λ t. content ++ t) (take-append-drop 2048 all))),
                  fr.chain m m2 m' step rest,
                )
            | inr short ↦ (
              closed input s.2 m2,
              put_last fuel input file m e something y.result short,
              closed_files input s.2 m2 y.still_open w2
                  ∙ rw (files, p2, c2)
                      (ap (λ t. update_file (V.files m) path (content ++ t))
                        (take_short 2048 all (rw (← bytes) short))),
              fr.chain m m2 (closed input s.2 m2) step
                  (fr.closing input s.2 m2 p2 y.still_open w2 there2),
            )
          ]
        ]
