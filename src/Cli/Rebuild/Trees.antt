-- ===== src/Cli/Rebuild/Trees.antt =====
-- What `copy_dir` of src/hdfmonkey.c makes of a tree of directories.
use Prim.Native.Nat.{bit_and}
use hdfmonkey.Base.{
  ℕ, suc, ◌+◌, ◌/◌, ◌≡◌, ap, ◌∙◌, List, [], ◌∷◌, ◌++◌, true, false, Option, some, ◌==◌, length, ok,
  arith,
}
use hdfmonkey.Posix.{Posix, CString, update_file}
use hdfmonkey.Machine.{Machine}
use hdfmonkey.FatFs.{FatFs, FileInfo, fr_ok}
use hdfmonkey.Libc.{Libc}
use hdfmonkey.Files.{FileView, is_entry_name}
use hdfmonkey.Files.Trees.{TreeView, Grown, Still, fresh, fresh-append}
use hdfmonkey.Cli.Names.{concat_filename}
use hdfmonkey.Cli.Listing.{entry_name}
use hdfmonkey.Cli.Support.{success, is_ok}
use hdfmonkey.Cli.Rebuild.{copy_file, copy_dir, copy_entries}

-- What a directory holds, entry by entry.
pub data Tree : Type 0 where
  nothing : Tree
  regular : FileInfo → List ℕ → Tree → Tree
  folder : FileInfo → Tree → Tree → Tree

unfoldable pub entries_of : Tree → List FileInfo
entries_of nothing = []
entries_of (regular i bytes t) = i ∷ entries_of t
entries_of (folder i inner t) = i ∷ entries_of t

-- Rounds that are enough: one for each entry, for each directory and for each buffer.
unfoldable pub rounds : Tree → ℕ
rounds nothing = 1
rounds (regular i bytes t) = 2 + length bytes / 2048 + rounds t
rounds (folder i inner t) = 2 + rounds inner + rounds t

abbrev pub below : CString → FileInfo → CString
below path i = concat_filename path (entry_name i)

module _ {P : Posix} {T : Libc P} {F : FatFs P} (V : FileView T F) (W : TreeView T F) where
  -- The tree is what the directory of this path holds on the drive.
  unfoldable pub Lies : W.Content → CString → Tree → Type 0
  Lies c path nothing = Unit
  Lies c path (regular i bytes t) =
      ((length i.fname == 0) ≡ false)
      × (is_entry_name (entry_name i) ≡ true)
      × ((bit_and i.fattrib 16 == 0) ≡ true)
      × (W.files_on c (V.name_of (below path i)) ≡ some bytes)
      × Lies c path t
  Lies c path (folder i inner t) =
      ((length i.fname == 0) ≡ false)
      × (is_entry_name (entry_name i) ≡ true)
      × ((bit_and i.fattrib 16 == 0) ≡ false)
      × (W.listing c (V.name_of (below path i)) ≡ some (entries_of inner))
      × Lies c (below path i) inner
      × Lies c path t

  -- The files of the tree, put below a path.
  unfoldable pub planted : CString → Tree → (CString → Option (List ℕ)) → CString → Option (List ℕ)
  planted path nothing files = files
  planted path (regular i bytes t) files =
      planted path t (update_file files (V.name_of (below path i)) bytes)
  planted path (folder i inner t) files = planted path t (planted (below path i) inner files)

  -- The names that they and their directories have there.
  unfoldable pub names_below : CString → Tree → List CString
  names_below path nothing = []
  names_below path (regular i bytes t) = V.name_of (below path i) ∷ names_below path t
  names_below path (folder i inner t) =
      V.name_of (below path i) ∷ (names_below (below path i) inner ++ names_below path t)

  -- What the source's drive holds, and the names that are to be taken below the destination.
  pub record Ready (c : W.Content) (source dest : CString) (names : List CString)
      (m : Machine P.World F.State) : Type 0 where
    pub content : W.on_drive m (W.drive_of source) ≡ c
    pub there : W.is_dir m (V.name_of dest) ≡ true
    pub free : fresh (W.taken m) names ≡ true

  module _ (c : W.Content) (source dest : CString) where
    pub Ready-Still :
        (names : List CString) (m m' : Machine P.World F.State)
        → Still T F V W m m'
        → Ready c source dest names m
        → Ready c source dest names m'
    Ready-Still names m m' s r = record {
      content = ap (λ t. t (W.drive_of source)) s.drives ∙ r.content;
      there = ap (λ t. t (V.name_of dest)) s.dirs ∙ r.there;
      free = rw s.taken r.free;
    }

    pub Ready-Grown :
        (k : ℕ) (names more : List CString) (m m' : Machine P.World F.State)
        → (W.drive_of source == k) ≡ false
        → Grown T F V W k names m m'
        → Ready c source dest (names ++ more) m
        → Ready c source dest more m'
    Ready-Grown k names more m m' apart g r = record {
      content = g.others (W.drive_of source) apart ∙ r.content;
      there = g.dirs (V.name_of dest) r.there;
      free = rw g.taken (ground (arith, fresh-append names more (W.taken m), r.free));
    }

    pub Ready-left :
        (names more : List CString) (m : Machine P.World F.State)
        → Ready c source dest (names ++ more) m
        → Ready c source dest names m
    Ready-left names more m r = record {
      content = r.content;
      there = r.there;
      free = ground (arith, fresh-append names more (W.taken m), r.free);
    }

module _ {P : Posix} (T : Libc P) (F : FatFs P) where
  pub entries_end :
      (fuel : ℕ) (dir : F.Dir) (source dest : CString) (m : Machine P.World F.State)
      → let (r, m1) = F.f_readdir dir m in
        r.0 ≡ fr_ok → r.1.fname ≡ [] → copy_entries T F (suc fuel) dir source dest m ≡ ok success m1
  unfolding copy_entries is_ok
  entries_end fuel dir source dest m e z = rw (e, z)

  pub entries_file :
      (fuel : ℕ) (dir : F.Dir) (source dest : CString) (i : FileInfo)
      (m m2 : Machine P.World F.State)
      → let (r, m1) = F.f_readdir dir m in
        r.0 ≡ fr_ok
        → r.1 ≡ i
        → (length i.fname == 0) ≡ false
        → (bit_and i.fattrib 16 == 0) ≡ true
        → copy_file T F fuel (below source i) (below dest i) m1 ≡ ok success m2
        → copy_entries T F (suc fuel) dir source dest m ≡ copy_entries T F fuel r.2 source dest m2
  unfolding copy_entries is_ok
  entries_file fuel dir source dest i m m2 e x n a run = rw (e, x, n, a, run)

  pub entries_folder :
      (fuel : ℕ) (dir : F.Dir) (source dest : CString) (i : FileInfo)
      (m m3 : Machine P.World F.State)
      → let (r, m1) = F.f_readdir dir m in
        let (made, m2) = F.f_mkdir (below dest i) m1 in
        r.0 ≡ fr_ok
        → r.1 ≡ i
        → (length i.fname == 0) ≡ false
        → (bit_and i.fattrib 16 == 0) ≡ false
        → made ≡ fr_ok
        → copy_dir T F fuel (below source i) (below dest i) m2 ≡ ok success m3
        → copy_entries T F (suc fuel) dir source dest m ≡ copy_entries T F fuel r.2 source dest m3
  unfolding copy_entries is_ok
  entries_folder fuel dir source dest i m m3 e x n a made run = rw (e, x, n, a, made, run)

  pub dir_run :
      (fuel : ℕ) (source dest : CString) (m : Machine P.World F.State)
      → let (r, m1) = F.f_opendir source m in
        r.0 ≡ fr_ok
        → copy_dir T F (suc fuel) source dest m ≡ copy_entries T F fuel r.1 source dest m1
  unfolding copy_dir is_ok
  dir_run fuel source dest m e = rw e
