-- ===== src/Cli/Rebuild/Whole.antt =====
-- `copy_dir` of src/hdfmonkey.c copies whole trees.
use hdfmonkey.Base.{
  ℕ, zero, suc, ◌<◌, ◌≤◌, ◌≡◌, refl, sym, ap, ◌∙◌, List, [], ◌∷◌, ◌++◌, true, false, some, ◌==◌, ok,
  arith,
}
use hdfmonkey.Posix.{Posix, CString}
use hdfmonkey.Machine.{Machine}
use hdfmonkey.FatFs.{FatFs, FileInfo}
use hdfmonkey.Libc.{Libc}
use hdfmonkey.Files.{FileView, IsSound}
use hdfmonkey.Files.Trees.{TreeView, IsOrderly, fresh}
use hdfmonkey.Cli.Support.{success}
use hdfmonkey.Cli.Rebuild.{copy_dir}
use hdfmonkey.Cli.Rebuild.Trees.{
  Tree, nothing, regular, folder, entries_of, rounds, below, Lies, planted, names_below, Ready,
  Ready-Still, entries_end, entries_file, entries_folder, dir_run,
}
use hdfmonkey.Cli.Rebuild.Entries.{still, chain, file_entry, folder_entry, Copies}

module _ {P : Posix} (T : Libc P) (F : FatFs P) (V : FileView T F) (S : IsSound T F V)
    (W : TreeView T F) (O : IsOrderly T F V W) where
  -- What a directory object has still to deliver, told by the content of its drive.
  from_here :
      (c : W.Content) (dir : F.Dir) (source dest : CString) (names : List CString)
      (entries : List FileInfo) (m : Machine P.World F.State)
      → W.drive_read dir ≡ W.drive_of source
      → Ready V W c source dest names m
      → W.coming c dir ≡ entries
      → W.coming (W.on_drive m (W.drive_read dir)) dir ≡ entries
  from_here c dir source dest names entries m drive r e = rw (drive, r.content) e

  to_here :
      (c : W.Content) (dir rest : F.Dir) (source dest : CString) (names : List CString)
      (entries : List FileInfo) (m : Machine P.World F.State)
      → W.drive_read dir ≡ W.drive_of source
      → Ready V W c source dest names m
      → W.coming (W.on_drive m (W.drive_read dir)) rest ≡ entries
      → W.coming c rest ≡ entries
  to_here c dir rest source dest names entries m drive r e =
      ap (λ k. W.coming k rest) (sym (ap (λ k. W.on_drive m k) drive ∙ r.content)) ∙ e

  -- The rounds from a directory's next entry on.
  entries_copied :
      (t : Tree) (fuel : ℕ) (c : W.Content) (dir : F.Dir) (source dest : CString)
      (m : Machine P.World F.State)
      → (W.drive_of source == W.drive_of dest) ≡ false
      → rounds t ≤ fuel
      → W.drive_read dir ≡ W.drive_of source
      → W.coming c dir ≡ entries_of t
      → Lies V W c source t
      → Ready V W c source dest (names_below V W dest t) m
      → Copies T F V S W O fuel source dest t dir m
  unfolding rounds entries_of Lies planted names_below
  entries_copied nothing zero c dir source dest m apart enough drive coming lies r =
      absurd (omega arith)
  entries_copied nothing (suc fuel) c dir source dest m apart enough drive coming lies r =
      let x = O.f_readdir_end dir m (from_here c dir source dest [] [] m drive r coming) in
      let m1 = (F.f_readdir dir m).1 in
      (
        m1,
        entries_end T F fuel dir source dest m x.result x.no_name,
        x.still.files,
        still T F V S W O dest m m1 x.still,
      )
  entries_copied (regular i bytes t) zero c dir source dest m apart enough drive coming lies r =
      absurd (omega arith)
  entries_copied (regular i bytes t) (suc fuel) c dir source dest m apart enough drive coming
        (named, legal, plain, there, lies) r =
      let (read, m1) = F.f_readdir dir m in
      let name = V.name_of (below dest i) in
      let more = names_below V W dest t in
      let x =
        O.f_readdir dir i (entries_of t) m
          (from_here c dir source dest (name ∷ more) (i ∷ entries_of t) m drive r coming) in
      let r1 = Ready-Still V W c source dest (name ∷ more) m m1 x.still r in
      let (m2, run, files, grown, r2) =
        file_entry T F V S W O fuel c source dest i bytes more m1 apart legal there (omega arith)
          r1 in
      let (m', run', files', grown') =
        entries_copied t fuel c read.2 source dest m2 apart (omega arith) (x.drive ∙ drive)
          (to_here c dir read.2 source dest (name ∷ more) (entries_of t) m drive r x.coming) lies
          r2 in
      (
        m',
        entries_file T F fuel dir source dest i m m2 x.result x.entry named plain run ∙ run',
        files' ∙ rw (files, x.still.files),
        chain T F V S W O dest [] (name ∷ more) m m1 m' (still T F V S W O dest m m1 x.still)
            (chain T F V S W O dest (name ∷ []) more m1 m2 m' grown grown'),
      )
  entries_copied (folder i inner t) zero c dir source dest m apart enough drive coming lies r =
      absurd (omega arith)
  entries_copied (folder i inner t) (suc zero) c dir source dest m apart enough drive coming lies
        r =
      absurd (omega arith)
  entries_copied (folder i inner t) (suc (suc fuel)) c dir source dest m apart enough drive coming
        (named, legal, is_folder, listed, within, lies) r =
      let (read, m1) = F.f_readdir dir m in
      let from = below source i in
      let to = below dest i in
      let name = V.name_of to in
      let inside = names_below V W to inner in
      let more = names_below V W dest t in
      let x = O.f_readdir dir i (entries_of t) m (
        from_here c dir source dest (name ∷ (inside ++ more)) (i ∷ entries_of t) m drive r
          coming) in
      let r1 = Ready-Still V W c source dest (name ∷ (inside ++ more)) m m1 x.still r in
      let (m2, result, run, files, grown, r2) =
        folder_entry T F V S W O fuel c source dest i inner more m1 apart legal listed r1
          (λ found m3 elsewhere.
            entries_copied inner fuel c found from to m3 elsewhere (omega arith))
          within in
      let (m', run', files', grown') =
        entries_copied t (suc fuel) c read.2 source dest m2 apart (omega arith) (x.drive ∙ drive)
          (to_here c dir read.2 source dest (name ∷ (inside ++ more)) (entries_of t) m drive r
            x.coming)
          lies r2 in
      (
        m',
        entries_folder T F (suc fuel) dir source dest i m m2 x.result x.entry named is_folder result
              run
            ∙ run',
        files' ∙ rw (files, x.still.files),
        chain T F V S W O dest [] (name ∷ (inside ++ more)) m m1 m'
            (still T F V S W O dest m m1 x.still)
            (chain T F V S W O dest (name ∷ inside) more m1 m2 m' grown grown'),
      )

  -- On sound volumes with room for all that is written, copying a directory to an existing
  -- directory on another drive, where the names of its files and directories are free, different
  -- ones, and ASCII names that FAT allows, returns 0 with any fuel above the number of its entries,
  -- directories and buffers; below the destination there are then all files of the tree with
  -- exactly their bytes, which each has from its close on, every other file is as it was, and the
  -- drive of the source has not changed.
  pub copy_dir_copies :
      (t : Tree) (fuel : ℕ) (source dest : CString) (m : Machine P.World F.State)
      → let c = W.on_drive m (W.drive_of source) in
        (W.drive_of source == W.drive_of dest) ≡ false
        → rounds t < fuel
        → W.listing c (V.name_of source) ≡ some (entries_of t)
        → Lies V W c source t
        → W.is_dir m (V.name_of dest) ≡ true
        → fresh (W.taken m) (names_below V W dest t) ≡ true
        → (m' : Machine P.World F.State) × (copy_dir T F fuel source dest m ≡ ok success m')
          × (V.files m' ≡ planted V W dest t (V.files m))
          × (W.on_drive m' (W.drive_of source) ≡ c)
  copy_dir_copies t zero source dest m apart enough listed lies there free = absurd (omega arith)
  copy_dir_copies t (suc fuel) source dest m apart enough listed lies there free =
      let c = W.on_drive m (W.drive_of source) in
      let names = names_below V W dest t in
      let z = O.f_opendir source (entries_of t) m listed in
      let (found, m1) = F.f_opendir source m in
      let r : Ready V W c source dest names m = record {
        content = refl;
        there = there;
        free = free;
      } in
      let (m', run, files, grown) =
        entries_copied t fuel c found.1 source dest m1 apart (omega arith) z.drive z.coming lies
          (Ready-Still V W c source dest names m m1 z.still r) in
      (
        m',
        dir_run T F fuel source dest m z.result ∙ run,
        files ∙ rw z.still.files,
        (chain T F V S W O dest [] names m m1 m' (still T F V S W O dest m m1 z.still) grown).others
            (W.drive_of source) apart,
      )
