-- ===== src/Cli/Put/Whole.antt =====
-- `put_file` of src/hdfmonkey.c puts whole trees on an image.
use hdfmonkey.Base.{
  ℕ, zero, suc, ◌≤◌, ◌≡◌, refl, ap, ◌∙◌, List, [], ◌∷◌, ◌++◌, Option, none, some, arith,
}
use hdfmonkey.Posix.{Posix, CString}
use hdfmonkey.Machine.{Machine}
use hdfmonkey.FatFs.{FatFs}
use hdfmonkey.Libc.{Libc}
use hdfmonkey.Files.{FileView, IsSound}
use hdfmonkey.Files.Trees.{TreeView, IsOrderly, Grown-append, Still-Grown}
use hdfmonkey.Files.Host.{HostView, Calm, Turned, KeepsImages, KeepsHost, IsHosted, with_stream}
use hdfmonkey.Cli.Names.{concat_filename}
use hdfmonkey.Cli.Support.{success}
use hdfmonkey.Cli.Put.Trees.{
  HostTree, nothing, skipped, regular, folder, names, rounds, Lies, stored, names_stored,
  with_stream_twice, with_stream_at, entries_end, entries_skip, entries_next,
}
use hdfmonkey.Cli.Put.Entries.{Ready, Ready-Grown, Puts, file_put, folder_put}

module _ {P : Posix} (T : Libc P) (F : FatFs P) (V : FileView T F) (S : IsSound T F V)
    (W : TreeView T F) (O : IsOrderly T F V W) (H : HostView T) (I : KeepsImages T F V W H)
    (J : KeepsHost T F V W H) (N : IsHosted T F V W H) where
  abbrev Is : H.Content → CString → List CString → Machine P.World F.State → Type 0
  Is = Ready T F V S W O H I J N

  -- Two turns of one stream, and what comes between them, are one.
  turn_again :
      (dir : ℕ) (before : Option (List CString)) (w w1 w2 w3 : P.World)
      → Turned T H dir before w w1
      → Calm T H w1 w2
      → Turned T H dir none w2 w3
      → Turned T H dir none w w3
  turn_again dir before w w1 w2 w3 a b c = record {
    host = c.host ∙ b.host ∙ a.host;
    coming =
        c.coming
        ∙ ap (λ q. with_stream T q dir none) (b.coming ∙ a.coming)
        ∙ with_stream_twice T (H.coming w) dir before none;
  }

  calm : (w : P.World) → Calm T H w w
  calm w = record { host = refl; coming = refl }

  -- The rounds from a directory's next name on.
  pub entries_put :
      (t : HostTree) (fuel : ℕ) (c : H.Content) (dir : ℕ) (source dest : CString)
      (m : Machine P.World F.State)
      → rounds t ≤ fuel
      → H.coming m.world dir ≡ some (names t)
      → Lies H c source t
      → Is c dest (names_stored V dest t) m
      → Puts T F V S W O H I J N fuel source dest t dir m
  unfolding rounds names Lies stored names_stored
  entries_put nothing zero c dir source dest m enough coming lies r = absurd (omega arith)
  entries_put (skipped name t) zero c dir source dest m enough coming lies r = absurd (omega arith)
  entries_put (regular name bytes t) zero c dir source dest m enough coming lies r =
      absurd (omega arith)
  entries_put (folder name inner t) zero c dir source dest m enough coming lies r =
      absurd (omega arith)
  entries_put (folder name inner t) (suc zero) c dir source dest m enough coming lies r =
      absurd (omega arith)
  entries_put nothing (suc fuel) c dir source dest m enough coming lies r =
      let k = W.drive_of dest in
      let x = N.readdir_end dir m.world coming in
      let m1 = record m { world = (T.readdir dir m.world).1 } in
      let m2 = record m1 { world = T.closedir dir m1.world } in
      let y = N.closedir dir m1.world in
      (
        m2,
        entries_end T F fuel dir source dest m x.result,
        (I.closedir dir m1).files ∙ (I.readdir dir m).files,
        Grown-append T F V W k [] [] m m1 m2 (Still-Grown T F V W k m m1 (I.readdir dir m))
            (Still-Grown T F V W k m1 m2 (I.closedir dir m1)),
        record {
          host = y.host ∙ x.calm.host;
          coming = y.coming ∙ ap (λ q. with_stream T q dir none) x.calm.coming;
        },
      )
  entries_put (skipped name t) (suc fuel) c dir source dest m enough coming (dots, lies) r =
      let k = W.drive_of dest in
      let x = N.readdir dir name (names t) m.world coming in
      let m1 = record m { world = (T.readdir dir m.world).1 } in
      let g1 = Still-Grown T F V W k m m1 (I.readdir dir m) in
      let now : H.coming m1.world dir ≡ some (names t) =
        ap (λ q. q dir) x.turned.coming
        ∙ with_stream_at T (H.coming m.world) dir (some (names t)) in
      let (m', run, files, grown, turned) =
        entries_put t fuel c dir source dest m1 (omega arith) now lies (
          Ready-Grown T F V S W O H I J N c dest k [] (names_stored V dest t) m m1 g1 x.turned.host
            r) in
      (
        m',
        entries_skip T F fuel dir source dest name m x.result dots ∙ run,
        files ∙ rw (I.readdir dir m).files,
        Grown-append T F V W k [] (names_stored V dest t) m m1 m' g1 grown,
        turn_again dir (some (names t)) m.world m1.world m1.world m'.world x.turned (calm m1.world)
            turned,
      )
  entries_put (regular name bytes t) (suc fuel) c dir source dest m enough coming
        (plain, legal, there, lies) r =
      let k = W.drive_of dest in
      let path = V.name_of (concat_filename dest name) in
      let more = names_stored V dest t in
      let x = N.readdir dir name (names t) m.world coming in
      let m1 = record m { world = (T.readdir dir m.world).1 } in
      let g1 = Still-Grown T F V W k m m1 (I.readdir dir m) in
      let (m2, result, files, step, r2) =
        file_put T F V S W O H I J N fuel c (concat_filename source name) dest name bytes more m1
          legal there (omega arith)
          (Ready-Grown T F V S W O H I J N c dest k [] (path ∷ more) m m1 g1 x.turned.host r) in
      let now : H.coming m2.world dir ≡ some (names t) =
        ap (λ q. q dir) (step.calm.coming ∙ x.turned.coming)
        ∙ with_stream_at T (H.coming m.world) dir (some (names t)) in
      let (m', run, files', grown, turned) =
        entries_put t fuel c dir source dest m2 (omega arith) now lies r2 in
      (
        m',
        entries_next T F fuel dir source dest name success m m2 x.result plain result ∙ run,
        files' ∙ rw (files, (I.readdir dir m).files),
        Grown-append T F V W k [] (path ∷ more) m m1 m' g1
            (Grown-append T F V W k (path ∷ []) more m1 m2 m' step.grown grown),
        turn_again dir (some (names t)) m.world m1.world m2.world m'.world x.turned step.calm
            turned,
      )
  entries_put (folder name inner t) (suc (suc fuel)) c dir source dest m enough coming
        (plain, legal, listed, within, lies) r =
      let k = W.drive_of dest in
      let from = concat_filename source name in
      let to = concat_filename dest name in
      let path = V.name_of to in
      let inside = names_stored V to inner in
      let more = names_stored V dest t in
      let x = N.readdir dir name (names t) m.world coming in
      let m1 = record m { world = (T.readdir dir m.world).1 } in
      let g1 = Still-Grown T F V W k m m1 (I.readdir dir m) in
      let (m2, result, files, step, made, r2) =
        folder_put T F V S W O H I J N fuel c from dest name inner more m1 legal listed
          (Ready-Grown T F V S W O H I J N c dest k [] (path ∷ (inside ++ more)) m m1 g1
            x.turned.host r)
          (λ d m3 q r3. entries_put inner fuel c d from to m3 (omega arith) q within r3) in
      let now : H.coming m2.world dir ≡ some (names t) =
        ap (λ q. q dir) (step.calm.coming ∙ x.turned.coming)
        ∙ with_stream_at T (H.coming m.world) dir (some (names t)) in
      let (m', run, files', grown, turned) =
        entries_put t (suc fuel) c dir source dest m2 (omega arith) now lies r2 in
      (
        m',
        entries_next T F (suc fuel) dir source dest name success m m2 x.result plain result ∙ run,
        files' ∙ rw (files, (I.readdir dir m).files),
        Grown-append T F V W k [] (path ∷ (inside ++ more)) m m1 m' g1
            (Grown-append T F V W k (path ∷ inside) more m1 m2 m' step.grown grown),
        turn_again dir (some (names t)) m.world m1.world m2.world m'.world x.turned step.calm
            turned,
      )
