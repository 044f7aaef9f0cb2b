-- ===== src/Cli/Put/Entries.antt =====
-- What the loop of `put_file` of src/hdfmonkey.c over a directory of the host does with one name.
use mathlib.Core.Path.{subst}
use hdfmonkey.Base.{
  ℕ, zero, suc, ◌+◌, ◌/◌, ◌<◌, ◌≡◌, ap, ◌∙◌, List, [], ◌∷◌, ◌++◌, true, false, none, some, length,
  ok, arith,
}
use hdfmonkey.Posix.{Posix, CString, update_file}
use hdfmonkey.Machine.{Machine}
use hdfmonkey.FatFs.{FatFs, write_always}
use hdfmonkey.Libc.{Libc}
use hdfmonkey.Files.{FileView, IsSound, is_entry_name}
use hdfmonkey.Files.Trees.{
  TreeView, IsOrderly, Grown, Still, Grown-append, Still-Grown, fresh_first, fresh, fresh-append,
}
use hdfmonkey.Files.Host.{HostView, Calm, Turned, KeepsImages, KeepsHost, IsHosted, with_stream}
use hdfmonkey.Cli.Names.{concat_filename}
use hdfmonkey.Cli.Support.{success}
use hdfmonkey.Cli.Put.{put_file, put_entries}
use hdfmonkey.Cli.Put.Loop.{IsFrame, closed, fetched}
use hdfmonkey.Cli.Put.Stores.{opened_for, put_regular_stores, put_file_run}
use hdfmonkey.Cli.Put.Trees.{
  HostTree, names, stored, names_stored, with_stream_twice, with_stream_self, with_stream_at,
  directory_run, ensure_run, folder_run,
}

module _ {P : Posix} (T : Libc P) (F : FatFs P) (V : FileView T F) (S : IsSound T F V)
    (W : TreeView T F) (O : IsOrderly T F V W) (H : HostView T) (I : KeepsImages T F V W H)
    (J : KeepsHost T F V W H) (N : IsHosted T F V W H) where
  -- What one name leaves: the names that have come to be taken, and a host as before.
  pub record Step (drive : ℕ) (taken : List CString) (m m' : Machine P.World F.State) : Type 0 where
    pub grown : Grown T F V W drive taken m m'
    pub calm : Calm T H m.world m'.world

  -- What the host holds, and the names that are to be taken below the destination.
  pub record Ready (c : H.Content) (dest : CString) (free_names : List CString)
      (m : Machine P.World F.State) : Type 0 where
    pub content : H.on_host m.world ≡ c
    pub there : W.is_dir m (V.name_of dest) ≡ true
    pub free : fresh (W.taken m) free_names ≡ true

  pub Step-append :
      (k : ℕ) (ps qs : List CString) (a b d : Machine P.World F.State)
      → Step k ps a b
      → Step k qs b d
      → Step k (ps ++ qs) a d
  Step-append k ps qs a b d x y = record {
    grown = Grown-append T F V W k ps qs a b d x.grown y.grown;
    calm = record { host = y.calm.host ∙ x.calm.host; coming = y.calm.coming ∙ x.calm.coming };
  }

  pub Still-Step :
      (k : ℕ) (m m' : Machine P.World F.State)
      → Still T F V W m m'
      → Calm T H m.world m'.world
      → Step k [] m m'
  Still-Step k m m' s q = record { grown = Still-Grown T F V W k m m' s; calm = q }

  pub Ready-Grown :
      (c : H.Content) (dest : CString) (k : ℕ) (ps more : List CString)
      (m m' : Machine P.World F.State)
      → Grown T F V W k ps m m'
      → H.on_host m'.world ≡ H.on_host m.world
      → Ready c dest (ps ++ more) m
      → Ready c dest more m'
  Ready-Grown c dest k ps more m m' g same r = record {
    content = same ∙ r.content;
    there = g.dirs (V.name_of dest) r.there;
    free = rw g.taken (ground (arith, fresh-append ps more (W.taken m), r.free));
  }

  Ready-left :
      (c : H.Content) (dest : CString) (ps more : List CString) (m : Machine P.World F.State)
      → Ready c dest (ps ++ more) m
      → fresh (W.taken m) ps ≡ true
  Ready-left c dest ps more m r = ground (arith, fresh-append ps more (W.taken m), r.free)

  -- The loop over a file's bytes.
  frame : (path : CString) → IsFrame T F V S (Step (W.drive_of path) []) path
  frame path =
      let k = W.drive_of path in
      record {
        chain = Step-append k [] [];
        fread = λ s m. Still-Step k m (fetched T F s m) (I.fread s 2048 m) (J.fread s 2048 m.world);
        f_write = λ f bytes m p live w. record {
          grown = rw (← p) (O.f_write f bytes m live w);
          calm = J.f_write f bytes m;
        };
        closing = λ s f m p live w there.
            let m1 = record m { world = T.fclose s m.world } in
            let x = S.fclose_kept s m in
            let there1 : V.files m1 (V.path_of f) ≡ some [] = rw (x.files, p) there in
            Step-append k [] [] m m1 (closed T F s f m)
              (Still-Step k m m1 (I.fclose s m) (J.fclose s m.world))
              (record {
                grown = rw (← p) (O.f_close_written f [] m1 (x.open_kept f live) w there1);
                calm = J.f_close f m1;
              });
      }

  -- A regular file.
  pub file_put :
      (fuel : ℕ) (c : H.Content) (from dest name : CString) (bytes : List ℕ) (more : List CString)
      (m : Machine P.World F.State)
      → let to = concat_filename dest name in
        is_entry_name name ≡ true
        → H.bytes_of c from ≡ some bytes
        → 1 + length bytes / 2048 < fuel
        → Ready c dest (V.name_of to ∷ more) m
        → (m' : Machine P.World F.State) × (put_file T F fuel from to m ≡ ok success m')
          × (V.files m' ≡ update_file (V.files m) (V.name_of to) bytes)
          × Step (W.drive_of dest) (V.name_of to ∷ []) m m'
          × Ready c dest more m'
  file_put zero c from dest name bytes more m legal there enough r = absurd (omega arith)
  file_put (suc fuel) c from dest name bytes more m legal there enough r =
      let to = concat_filename dest name in
      let path = V.name_of to in
      let k = W.drive_of dest in
      let same : W.drive_of path ≡ k = O.drive_of-name_of to ∙ O.drive_of-concat dest name in
      let x = N.stat_file from bytes m.world (rw r.content there) in
      let m0 = record m { world = (T.stat_mode from m.world).1 } in
      let s0 = Still-Step k m m0 (I.stat_mode from m) (J.stat_mode from m.world) in
      let r0 = Ready-Grown c dest k [] (path ∷ more) m m0 s0.grown s0.calm.host r in
      let m1 = record m0 { world = (T.fopen_read from m0.world).1 } in
      let s1 = Still-Step k m0 m1 (I.fopen_read from m0) (J.fopen_read from m0.world) in
      let r1 = Ready-Grown c dest k [] (path ∷ more) m0 m1 s1.grown s1.calm.host r0 in
      let admitted =
        O.admits dest name m1 legal r1.there (fresh_first path more (W.taken m1) r1.free) in
      let s2 : Step k (path ∷ []) m1 (opened_for T F V S from to m0) = record {
        grown = rw (← (O.drive_of-concat dest name)) (O.f_create to m1 admitted);
        calm = J.f_open to write_always m1;
      } in
      let (m', run, files, kept) =
        put_regular_stores T F V S (Step (W.drive_of path) []) fuel from to m0 bytes (frame path)
          (N.host_there from m0.world ∙ rw r0.content there)
          (O.admits dest name m0 legal r0.there (fresh_first path more (W.taken m0) r0.free))
          (omega arith) in
      let kept' : Step k [] (opened_for T F V S from to m0) m' =
        subst (λ j. Step j [] (opened_for T F V S from to m0) m') same kept in
      let whole : Step k (path ∷ []) m m' = Step-append k [] (path ∷ []) m m0 m' s0 (
        Step-append k [] (path ∷ []) m0 m1 m' s1
          (Step-append k (path ∷ []) [] m1 (opened_for T F V S from to m0) m' s2 kept')) in
      (
        m',
        put_file_run T F fuel from to m m0 (directory_run T F from x.mode true m x.result x.kind)
            ∙ run,
        files ∙ rw (I.stat_mode from m).files,
        whole,
        Ready-Grown c dest k (path ∷ []) more m m' whole.grown whole.calm.host r,
      )

  -- What the rounds over a directory are to do.
  abbrev pub Puts : ℕ → CString → CString → HostTree → ℕ → Machine P.World F.State → Type 0
  Puts fuel source dest t dir m =
      (m' : Machine P.World F.State) × (put_entries T F fuel dir source dest m ≡ ok success m')
      × (V.files m' ≡ stored V dest t (V.files m))
      × Grown T F V W (W.drive_of dest) (names_stored V dest t) m m'
      × Turned T H dir none m.world m'.world

  -- A directory, given what the rounds over it do.
  pub folder_put :
      (fuel : ℕ) (c : H.Content) (source d name : CString) (t : HostTree) (more : List CString)
      (m : Machine P.World F.State)
      → let dest = concat_filename d name in
        let inside = names_stored V dest t in
        is_entry_name name ≡ true
        → H.names_of c source ≡ some (names t)
        → Ready c d (V.name_of dest ∷ (inside ++ more)) m
        → ((dir : ℕ) (m3 : Machine P.World F.State)
            → H.coming m3.world dir ≡ some (names t)
            → Ready c dest inside m3
            → Puts fuel source dest t dir m3)
        → (m' : Machine P.World F.State) × (put_file T F (suc fuel) source dest m ≡ ok success m')
          × (V.files m' ≡ stored V dest t (V.files m))
          × Step (W.drive_of d) (V.name_of dest ∷ inside) m m'
          × (W.is_dir m' (V.name_of dest) ≡ true)
          × Ready c d more m'
  folder_put fuel c source d name t more m legal listed r putting =
      let dest = concat_filename d name in
      let inside = names_stored V dest t in
      let path = V.name_of dest in
      let all = path ∷ (inside ++ more) in
      let k = W.drive_of d in
      let x = N.stat_dir source (names t) m.world (rw r.content listed) in
      let m0 = record m { world = (T.stat_mode source m.world).1 } in
      let s0 = Still-Step k m m0 (I.stat_mode source m) (J.stat_mode source m.world) in
      let r0 = Ready-Grown c d k [] all m m0 s0.grown s0.calm.host r in
      let (absent, quiet) =
        N.f_opendir_free d name m0 legal r0.there
          (fresh_first path (inside ++ more) (W.taken m0) r0.free) in
      let m1 = (F.f_opendir dest m0).1 in
      let s1 = Still-Step k m0 m1 quiet (J.f_opendir dest m0) in
      let r1 = Ready-Grown c d k [] all m0 m1 s1.grown s1.calm.host r0 in
      let y =
        O.f_mkdir d name m1 legal r1.there
          (fresh_first path (inside ++ more) (W.taken m1) r1.free) in
      let m2 = (F.f_mkdir dest m1).1 in
      let s2 : Step k (path ∷ []) m1 m2 = record {
        grown = rw (← (O.drive_of-concat d name)) y.grown;
        calm = J.f_mkdir dest m1;
      } in
      let r2 = Ready-Grown c d k (path ∷ []) (inside ++ more) m1 m2 s2.grown s2.calm.host r1 in
      let z = N.opendir source (names t) m2.world (rw r2.content listed) in
      let m3 = record m2 { world = (T.opendir source m2.world).1 } in
      let open_still = I.opendir source m2 in
      let r3 : Ready c dest inside m3 = record {
        content = z.turned.host ∙ r2.content;
        there = ap (λ q. q path) open_still.dirs ∙ y.there;
        free = rw open_still.taken (Ready-left c d inside more m2 r2);
      } in
      let delivers : H.coming m3.world z.stream ≡ some (names t) =
        ap (λ q. q z.stream) z.turned.coming
        ∙ with_stream_at T (H.coming m2.world) z.stream (some (names t)) in
      let (m4, run, files, grown, turned) = putting z.stream m3 delivers r3 in
      let s4 : Step k inside m2 m4 = record {
        grown =
            Grown-append T F V W k [] inside m2 m3 m4 (Still-Grown T F V W k m2 m3 open_still)
              (subst (λ j. Grown T F V W j inside m3 m4) (O.drive_of-concat d name) grown);
        calm = record {
          host = turned.host ∙ z.turned.host;
          coming =
              turned.coming
              ∙ ap (λ q. with_stream T q z.stream none) z.turned.coming
              ∙ with_stream_twice T (H.coming m2.world) z.stream (some (names t)) none
              ∙ with_stream_self T (H.coming m2.world) z.stream none z.fresh;
        };
      } in
      let whole : Step k (path ∷ inside) m m4 = Step-append k [] (path ∷ inside) m m0 m4 s0 (
        Step-append k [] (path ∷ inside) m0 m1 m4 s1
          (Step-append k (path ∷ []) inside m1 m2 m4 s2 s4)) in
      (
        m4,
        folder_run T F fuel z.stream source dest m m0 m2
              (directory_run T F source x.mode false m x.result x.kind)
              (ensure_run T F dest m0 absent y.result) z.result
            ∙ run,
        files ∙ rw (open_still.files, y.files, quiet.files, (I.stat_mode source m).files),
        whole,
        s4.grown.dirs path y.there,
        Ready-Grown c d k (path ∷ inside) more m m4 whole.grown whole.calm.host r,
      )
