-- ===== src/Cli/Listing/Prints.antt =====
-- What `cmd_ls` of src/hdfmonkey.c prints.
use mathlib.Core.List.{append_assoc, append-nil}
use Prim.Native.Nat.{bit_and}
use hdfmonkey.Base.{
  ℕ, zero, suc, ◌==◌, text, ◌<◌, ◌≡◌, sym, ap, ◌∙◌, List, [], ◌∷◌, ◌++◌, Bool, true, false, not,
  ◌&&◌, some, length, get_elem?, ok, arith,
}
use hdfmonkey.Posix.{Posix, CString}
use hdfmonkey.Volume.{Volume, image_file}
use hdfmonkey.Volume.Dispatch.{volume_close}
use hdfmonkey.ImageFile.Io.{image_file_close}
use hdfmonkey.Machine.{Machine}
use hdfmonkey.FatFs.{FatFs, FileInfo, fr_ok}
use hdfmonkey.Libc.{Libc, stdout}
use hdfmonkey.Files.{FileView}
use hdfmonkey.Files.Trees.{TreeView, IsOrderly, Prints}
use hdfmonkey.Cli.Support.{success, is_ok, open_image}
use hdfmonkey.Cli.Listing.{entry_name, is_empty, entry_line, ls_loop, dirname, cmd_ls}

-- Every entry has a name.
unfoldable pub all_named : List FileInfo → Bool
all_named [] = true
all_named (e ∷ entries) = not (is_empty e.fname) && all_named entries

module _ {P : Posix} (T : Libc P) (F : FatFs P) where
  -- The line of an entry: whether it is a directory or else its size, a tab, and its long name or, if
  -- it has none, its short one.
  unfoldable pub line_of : (is_dir : Bool) (size : ℕ) (short long : CString) → CString
  line_of true size short [] = text "[DIR]" ++ (0x09 ∷ (short ++ (0x0a ∷ [])))
  line_of true size short (c ∷ long) = text "[DIR]" ++ (0x09 ∷ c ∷ (long ++ (0x0a ∷ [])))
  line_of false size short [] = T.show_long size ++ (0x09 ∷ (short ++ (0x0a ∷ [])))
  line_of false size short (c ∷ long) = T.show_long size ++ (0x09 ∷ c ∷ (long ++ (0x0a ∷ [])))

  -- The lines of the entries, one after the other.
  unfoldable pub lines_of : List FileInfo → CString
  lines_of [] = []
  lines_of (e ∷ entries) =
      line_of (not (bit_and e.fattrib 0x10 == 0)) e.fsize e.fname e.lfname ++ lines_of entries

  entry_line-line_of :
      (attributes size : ℕ) (short long : CString)
      → entry_line T F (record { fsize = size; fattrib = attributes; fname = short; lfname = long })
        ≡ line_of (not (bit_and attributes 0x10 == 0)) size short long
  unfolding entry_line line_of entry_name
  entry_line-line_of attributes size short [] = ground arith
  entry_line-line_of attributes size short (c ∷ long) = ground arith

  abbrev closed : ℕ → Machine P.World F.State → Machine P.World F.State
  closed fd m = record m { world = P.close fd m.world }

  ls_end :
      (fuel fd offset bytes n : ℕ) (dir : F.Dir) (m : Machine P.World F.State)
      → let (r, m1) = F.f_readdir dir m in
        r.0 ≡ fr_ok
        → r.1.fname ≡ []
        → ls_loop T F (suc fuel) (image_file fd offset bytes n) dir m ≡ ok success (closed fd m1)
  unfolding ls_loop is_ok volume_close image_file_close
  ls_end fuel fd offset bytes n dir m e z = rw (e, z)

  ls_entry :
      (fuel : ℕ) (vol : Volume) (dir : F.Dir) (i : FileInfo) (m : Machine P.World F.State)
      (shown : CString)
      → let (r, m1) = F.f_readdir dir m in
        r.0 ≡ fr_ok
        → r.1 ≡ i
        → is_empty i.fname ≡ false
        → entry_line T F i ≡ shown
        → ls_loop T F (suc fuel) vol dir m
          ≡ ls_loop T F fuel vol r.2 (record m1 { world = T.print shown m1.world })
  unfolding ls_loop is_ok
  ls_entry fuel vol dir i m shown e x z l = rw (e, x, z, l)

  module _ (V : FileView T F) (W : TreeView T F) (O : IsOrderly T F V W) (L : Prints T F V W) where
    ls_loop_prints :
        (entries : List FileInfo) (fuel fd offset bytes n : ℕ) (dir : F.Dir)
        (m : Machine P.World F.State)
        → length entries < fuel
        → W.coming (W.on_drive m (W.drive_read dir)) dir ≡ entries
        → all_named entries ≡ true
        → (m' : Machine P.World F.State) × (ls_loop T F fuel (image_file fd offset bytes n) dir m
            ≡ ok success m')
          × (V.written m'.world stdout ≡ V.written m.world stdout ++ lines_of entries)
    unfolding lines_of all_named
    ls_loop_prints [] zero fd offset bytes n dir m enough coming named = absurd (omega arith)
    ls_loop_prints (i ∷ entries) zero fd offset bytes n dir m enough coming named =
        absurd (omega arith)
    ls_loop_prints [] (suc fuel) fd offset bytes n dir m enough coming named =
        let x = O.f_readdir_end dir m coming in
        let m1 = (F.f_readdir dir m).1 in
        (
          closed fd m1,
          ls_end fuel fd offset bytes n dir m x.result x.no_name,
          ap (λ t. t stdout) (L.close_written fd m1.world ∙ x.still.written) ∙ sym (append-nil _),
        )
    ls_loop_prints (i ∷ entries) (suc fuel) fd offset bytes n dir m enough coming named =
        let x = O.f_readdir dir i entries m coming in
        let (r, m1) = F.f_readdir dir m in
        let line = line_of (not (bit_and i.fattrib 0x10 == 0)) i.fsize i.fname i.lfname in
        let m2 = record m1 { world = T.print line m1.world } in
        let drives : W.on_drive m2 ≡ W.on_drive m = L.print_drives line m1 ∙ x.still.drives in
        let written : V.written m2.world stdout ≡ V.written m.world stdout ++ line =
          L.print_written line m1.world ∙ ap (λ t. t stdout ++ line) x.still.written in
        let rest : W.coming (W.on_drive m2 (W.drive_read r.2)) r.2 ≡ entries =
          rw (drives, x.drive) x.coming in
        let (m', run, written') =
          ls_loop_prints entries fuel fd offset bytes n r.2 m2 (omega arith) rest (ground arith) in
        (
          m',
          ls_entry fuel (image_file fd offset bytes n) dir i m line x.result x.entry (ground arith)
                (entry_line-line_of i.fattrib i.fsize i.fname i.lfname)
              ∙ run,
          written' ∙ rw written (append_assoc (V.written m.world stdout) line (lines_of entries)),
        )

  cmd_ls_run :
      (fuel : ℕ) (argv : List CString) (image : CString) (m m1 : Machine P.World F.State)
      (vol : Volume)
      → get_elem? argv 2 ≡ some image
      → open_image T F image true false m ≡ ok (some vol) m1
      → let (r, m2) = F.f_opendir (dirname T F (get_elem? argv 3)) m1 in
        r.0 ≡ fr_ok → cmd_ls T F fuel argv m ≡ ls_loop T F fuel vol r.1 m2
  unfolding cmd_ls is_ok
  cmd_ls_run fuel argv image m m1 vol a o r = cc

  -- On sound volumes, when the image opens and the path, or else the root, is a directory on it whose
  -- entries all have names, `cmd_ls` returns 0 with any fuel above the number of the entries, and has
  -- printed exactly one line for each of them, in their order: `[DIR]` for a directory or else the
  -- size, a tab, the long name or, if it has none, the short one, and a newline.
  pub cmd_ls_prints :
      (V : FileView T F) (W : TreeView T F)
      → IsOrderly T F V W
      → Prints T F V W
      → (fuel : ℕ) (argv : List CString) (image : CString) (m m1 : Machine P.World F.State)
        (fd offset bytes n : ℕ) (entries : List FileInfo)
      → let path = dirname T F (get_elem? argv 3) in
        get_elem? argv 2 ≡ some image
        → open_image T F image true false m ≡ ok (some (image_file fd offset bytes n)) m1
        → W.listing (W.on_drive m1 (W.drive_of path)) (V.name_of path) ≡ some entries
        → all_named entries ≡ true
        → length entries < fuel
        → (m' : Machine P.World F.State) × (cmd_ls T F fuel argv m ≡ ok success m')
          × (V.written m'.world stdout ≡ V.written m1.world stdout ++ lines_of entries)
  cmd_ls_prints V W O L fuel argv image m m1 fd offset bytes n entries a o listed named enough =
      let path = dirname T F (get_elem? argv 3) in
      let z = O.f_opendir path entries m1 listed in
      let (r, m2) = F.f_opendir path m1 in
      let coming : W.coming (W.on_drive m2 (W.drive_read r.1)) r.1 ≡ entries =
        rw (z.still.drives, z.drive) z.coming in
      let (m', run, written) =
        ls_loop_prints V W O L entries fuel fd offset bytes n r.1 m2 enough coming named in
      (
        m',
        cmd_ls_run fuel argv image m m1 (image_file fd offset bytes n) a o z.result ∙ run,
        written ∙ ap (λ t. t stdout ++ lines_of entries) z.still.written,
      )
