-- ===== src/Cli/Rebuild/Entries.antt =====
-- What the loop of `copy_dir` of src/hdfmonkey.c does with one entry.
use hdfmonkey.Base.{
  ℕ, suc, ◌/◌, ◌<◌, ◌≡◌, sym, ap, ◌∙◌, List, [], ◌∷◌, ◌++◌, true, false, some, ◌==◌, length, ok,
}
use hdfmonkey.Posix.{Posix, CString, update_file}
use hdfmonkey.Machine.{Machine}
use hdfmonkey.FatFs.{FatFs, FileInfo, fr_ok, read_existing}
use hdfmonkey.Libc.{Libc}
use hdfmonkey.Files.{FileView, IsSound, is_entry_name}
use hdfmonkey.Files.Trees.{
  TreeView, IsOrderly, Grown, Still, Grown-append, Still-Grown, fresh_first,
}
use hdfmonkey.Cli.Listing.{entry_name}
use hdfmonkey.Cli.Support.{success}
use hdfmonkey.Cli.Rebuild.{copy_file, copy_dir, copy_entries}
use hdfmonkey.Cli.Rebuild.Copies.{copy_file_copies}
use hdfmonkey.Cli.Rebuild.Trees.{
  Tree, entries_of, below, Lies, planted, names_below, Ready, Ready-Still, Ready-Grown, Ready-left,
  dir_run,
}

module _ {P : Posix} (T : Libc P) (F : FatFs P) (V : FileView T F) (S : IsSound T F V)
    (W : TreeView T F) (O : IsOrderly T F V W) where
  abbrev pub Grows :
      CString → List CString → Machine P.World F.State → Machine P.World F.State → Type 0
  Grows dest names m m' = Grown T F V W (W.drive_of dest) names m m'

  pub still :
      (dest : CString) (m m' : Machine P.World F.State) → Still T F V W m m' → Grows dest [] m m'
  still dest = Still-Grown T F V W (W.drive_of dest)

  pub chain :
      (dest : CString) (ps qs : List CString) (m m' m'' : Machine P.World F.State)
      → Grows dest ps m m'
      → Grows dest qs m' m''
      → Grows dest (ps ++ qs) m m''
  chain dest = Grown-append T F V W (W.drive_of dest)

  -- One entry that is a file.
  pub file_entry :
      (fuel : ℕ) (c : W.Content) (source dest : CString) (i : FileInfo) (bytes : List ℕ)
      (more : List CString) (m : Machine P.World F.State)
      → (W.drive_of source == W.drive_of dest) ≡ false
      → is_entry_name (entry_name i) ≡ true
      → W.files_on c (V.name_of (below source i)) ≡ some bytes
      → length bytes / 2048 < fuel
      → Ready V W c source dest (V.name_of (below dest i) ∷ more) m
      → (m' : Machine P.World F.State) × (copy_file T F fuel (below source i) (below dest i) m
          ≡ ok success m')
        × (V.files m' ≡ update_file (V.files m) (V.name_of (below dest i)) bytes)
        × Grows dest (V.name_of (below dest i) ∷ []) m m'
        × Ready V W c source dest more m'
  file_entry fuel c source dest i bytes more m apart legal there enough r =
      let from = below source i in
      let to = below dest i in
      let present : V.files m (V.name_of from) ≡ some bytes =
        O.files_there (V.name_of from) m
        ∙ rw (O.drive_of-name_of from, O.drive_of-concat source, r.content) there in
      let m1 = (F.f_open from read_existing m).1 in
      let s = O.f_open from bytes m present in
      let r1 = Ready-Still V W c source dest (V.name_of to ∷ more) m m1 s r in
      let free : W.taken m1 (V.name_of to) ≡ false =
        fresh_first (V.name_of to) more (W.taken m1) r1.free in
      let elsewhere : (W.drive_of from == W.drive_of to) ≡ false =
        rw (O.drive_of-concat source, O.drive_of-concat dest) apart in
      let (m', run, files, grown) =
        copy_file_copies T F V S W O fuel from to m bytes present elsewhere
          (O.admits dest (entry_name i) m1 legal r1.there free) enough in
      let g : Grows dest (V.name_of to ∷ []) m m' =
        rw (← (O.drive_of-concat dest (entry_name i))) grown in
      (
        m',
        run,
        files,
        g,
        Ready-Grown V W c source dest (W.drive_of dest) (V.name_of to ∷ []) more m m' apart g r,
      )

  -- What the rounds over a directory are to do.
  abbrev pub Copies : ℕ → CString → CString → Tree → F.Dir → Machine P.World F.State → Type 0
  Copies fuel source dest t dir m =
      (m' : Machine P.World F.State) × (copy_entries T F fuel dir source dest m ≡ ok success m')
      × (V.files m' ≡ planted V W dest t (V.files m))
      × Grows dest (names_below V W dest t) m m'

  -- One entry that is a directory, given what the rounds over it do.
  pub folder_entry :
      (fuel : ℕ) (c : W.Content) (source dest : CString) (i : FileInfo) (inner : Tree)
      (more : List CString) (m : Machine P.World F.State)
      → let from = below source i in
        let to = below dest i in
        let inside = names_below V W to inner in
        (W.drive_of source == W.drive_of dest) ≡ false
        → is_entry_name (entry_name i) ≡ true
        → W.listing c (V.name_of from) ≡ some (entries_of inner)
        → Ready V W c source dest (V.name_of to ∷ (inside ++ more)) m
        → ((dir : F.Dir) (m3 : Machine P.World F.State)
            → (W.drive_of from == W.drive_of to) ≡ false
            → W.drive_read dir ≡ W.drive_of from
            → W.coming c dir ≡ entries_of inner
            → Lies V W c from inner
            → Ready V W c from to inside m3
            → Copies fuel from to inner dir m3)
        → Lies V W c from inner
        → (m' : Machine P.World F.State) × ((F.f_mkdir to m).0 ≡ fr_ok)
          × (copy_dir T F (suc fuel) from to (F.f_mkdir to m).1 ≡ ok success m')
          × (V.files m' ≡ planted V W to inner (V.files m))
          × Grows dest (V.name_of to ∷ inside) m m'
          × Ready V W c source dest more m'
  folder_entry fuel c source dest i inner more m apart legal listed r copying lies =
      let from = below source i in
      let to = below dest i in
      let name = V.name_of to in
      let inside = names_below V W to inner in
      let y =
        O.f_mkdir dest (entry_name i) m legal r.there
          (fresh_first name (inside ++ more) (W.taken m) r.free) in
      let m2 = (F.f_mkdir to m).1 in
      let grown2 : Grows dest (name ∷ []) m m2 =
        rw (← (O.drive_of-concat dest (entry_name i))) y.grown in
      let r2 =
        Ready-Grown V W c source dest (W.drive_of dest) (name ∷ []) (inside ++ more) m m2 apart
          grown2 r in
      let r3 : Ready V W c from to inside m2 = record {
        content = rw (O.drive_of-concat source (entry_name i)) r2.content;
        there = y.there;
        free = (Ready-left V W c source dest inside more m2 r2).free;
      } in
      let z =
        O.f_opendir from (entries_of inner) m2
          (ap (λ k. W.listing k (V.name_of from)) r3.content ∙ listed) in
      let (found, m3) = F.f_opendir from m2 in
      let elsewhere : (W.drive_of from == W.drive_of to) ≡ false =
        rw (O.drive_of-concat source, O.drive_of-concat dest) apart in
      let (m4, run, files, grown) =
        copying found.1 m3 elsewhere z.drive
          (ap (λ k. W.coming k found.1) (sym r3.content) ∙ z.coming) lies
          (Ready-Still V W c from to inside m2 m3 z.still r3) in
      let grown3 : Grows dest inside m3 m4 = rw (← (O.drive_of-concat dest (entry_name i))) grown in
      let grown4 = chain dest [] inside m2 m3 m4 (still dest m2 m3 z.still) grown3 in
      (
        m4,
        y.result,
        dir_run T F fuel from to m2 z.result ∙ run,
        files ∙ rw (z.still.files, y.files),
        chain dest (name ∷ []) inside m m2 m4 grown2 grown4,
        Ready-Grown V W c source dest (W.drive_of dest) inside more m2 m4 apart grown4 r2,
      )
