-- ===== src/Files/Trees.antt =====
-- What `copy_dir` of src/hdfmonkey.c relies on when it goes through directories: the documented
-- behaviour of the driver's directories on several drives.
use hdfmonkey.Base.{
  ℕ, ◌≡◌, refl, sym, ap, ◌∙◌, arith, List, [], ◌∷◌, ◌++◌, Bool, true, false, not, ◌&&◌, ◌||◌,
  Option, some, ◌==◌, same_bytes,
}
use hdfmonkey.Posix.{Posix, CString}
use hdfmonkey.Machine.{Machine}
use hdfmonkey.FatFs.{FatFs, FileInfo, fr_ok, read_existing, write_always}
use hdfmonkey.Libc.{Libc, stdout}
use hdfmonkey.Files.{FileView, is_entry_name}
use hdfmonkey.Cli.Names.{concat_filename}

-- Names added to those that are taken.
unfoldable pub add : List CString → (CString → Bool) → CString → Bool
add [] taken = taken
add (p ∷ ps) taken = add ps (λ q. taken q || same_bytes q p)

-- The names can be taken one after the other.
unfoldable pub fresh : (CString → Bool) → List CString → Bool
fresh taken [] = true
fresh taken (p ∷ ps) = not (taken p) && fresh (add (p ∷ []) taken) ps

module _ {P : Posix} (T : Libc P) (F : FatFs P) where
  -- What there is to see of directories, short aliases aside. A directory object is a value that holds its position.
  pub record TreeView : Type 1 where
    -- what lies on one drive
    pub Content : Type 0
    pub on_drive : Machine P.World F.State → ℕ → Content
    -- the drive that a path begins with, or else drive 0
    pub drive_of : CString → ℕ
    pub files_on : Content → CString → Option (List ℕ)
    -- the entries of a directory, and those that a directory object has still to deliver
    pub listing : Content → CString → Option (List FileInfo)
    pub coming : Content → F.Dir → List FileInfo
    -- the drive that a directory object reads
    pub drive_read : F.Dir → ℕ
    -- there is a file or a directory of this name, there is a directory
    pub taken : Machine P.World F.State → CString → Bool
    pub is_dir : Machine P.World F.State → CString → Bool

  module _ (V : FileView T F) (W : TreeView) where
    -- These names have come to be taken, and nothing has changed on any other drive.
    pub record Grown (drive : ℕ) (names : List CString) (m m' : Machine P.World F.State)
        : Type 0 where
      pub others : (j : ℕ) → (j == drive) ≡ false → W.on_drive m' j ≡ W.on_drive m j
      pub taken : W.taken m' ≡ add names (W.taken m)
      pub dirs : (p : CString) → W.is_dir m p ≡ true → W.is_dir m' p ≡ true

    -- Nothing has changed on any drive.
    pub record Still (m m' : Machine P.World F.State) : Type 0 where
      pub drives : W.on_drive m' ≡ W.on_drive m
      pub files : V.files m' ≡ V.files m
      pub taken : W.taken m' ≡ W.taken m
      pub written : V.written m'.world ≡ V.written m.world
      pub dirs : W.is_dir m' ≡ W.is_dir m

    pub record MakesDir (path : CString) (m : Machine P.World F.State) : Type 0 where
      pub result : (F.f_mkdir path m).0 ≡ fr_ok
      pub files : V.files (F.f_mkdir path m).1 ≡ V.files m
      pub there : W.is_dir (F.f_mkdir path m).1 (V.name_of path) ≡ true
      pub grown : Grown (W.drive_of path) (V.name_of path ∷ []) m (F.f_mkdir path m).1

    pub record OpensDir (path : CString) (entries : List FileInfo) (m : Machine P.World F.State)
        : Type 0 where
      pub result : (F.f_opendir path m).0.0 ≡ fr_ok
      pub drive : W.drive_read (F.f_opendir path m).0.1 ≡ W.drive_of path
      pub coming : W.coming (W.on_drive m (W.drive_of path)) (F.f_opendir path m).0.1 ≡ entries
      pub still : Still m (F.f_opendir path m).1

    pub record ReadsDir (d : F.Dir) (e : FileInfo) (entries : List FileInfo)
        (m : Machine P.World F.State) : Type 0 where
      pub result : (F.f_readdir d m).0.0 ≡ fr_ok
      pub entry : (F.f_readdir d m).0.1 ≡ e
      pub drive : W.drive_read (F.f_readdir d m).0.2 ≡ W.drive_read d
      pub coming : W.coming (W.on_drive m (W.drive_read d)) (F.f_readdir d m).0.2 ≡ entries
      pub still : Still m (F.f_readdir d m).1

    pub record EndsDir (d : F.Dir) (m : Machine P.World F.State) : Type 0 where
      pub result : (F.f_readdir d m).0.0 ≡ fr_ok
      pub no_name : (F.f_readdir d m).0.1.fname ≡ []
      pub still : Still m (F.f_readdir d m).1

    -- `printf` appends to the standard output, and neither it nor closing an image does more to see.
    pub record Prints : Type 0 where
      pub print_written :
          (s : CString) (w : P.World) → V.written (T.print s w) stdout ≡ V.written w stdout ++ s
      pub print_drives :
          (s : CString) (m : Machine P.World F.State)
          → W.on_drive (record m { world = T.print s m.world }) ≡ W.on_drive m
      pub close_written : (fd : ℕ) (w : P.World) → V.written (P.close fd w) ≡ V.written w

    -- The documented behaviour, on sound volumes that have room left.
    pub record IsOrderly : Type 0 where
      pub drive_of-name_of : (p : CString) → W.drive_of (V.name_of p) ≡ W.drive_of p
      pub drive_of-concat : (p name : CString) → W.drive_of (concat_filename p name) ≡ W.drive_of p
      pub files_there :
          (p : CString) (m : Machine P.World F.State)
          → V.files m p ≡ W.files_on (W.on_drive m (W.drive_of p)) p
      pub admits :
          (d name : CString) (m : Machine P.World F.State)
          → is_entry_name name ≡ true
          → W.is_dir m (V.name_of d) ≡ true
          → W.taken m (V.name_of (concat_filename d name)) ≡ false
          → V.admits m (concat_filename d name) ≡ true
      pub f_read :
          (f : F.File) (n : ℕ) (m : Machine P.World F.State)
          → V.is_open m f ≡ true
          → V.mode_of f ≡ read_existing
          → Still m (F.f_read f n m).1
      pub f_open :
          (path : CString) (bytes : List ℕ) (m : Machine P.World F.State)
          → V.files m (V.name_of path) ≡ some bytes
          → Still m (F.f_open path read_existing m).1
      pub f_write :
          (f : F.File) (bytes : List ℕ) (m : Machine P.World F.State)
          → V.is_open m f ≡ true
          → V.mode_of f ≡ write_always
          → Grown (W.drive_of (V.path_of f)) [] m (F.f_write f bytes m).1
      pub f_create :
          (path : CString) (m : Machine P.World F.State)
          → V.admits m path ≡ true
          → Grown (W.drive_of path) (V.name_of path ∷ []) m (F.f_open path write_always m).1
      pub f_close_read :
          (f : F.File) (m : Machine P.World F.State)
          → V.is_open m f ≡ true
          → V.mode_of f ≡ read_existing
          → Still m (F.f_close f m).1
      pub f_close_written :
          (f : F.File) (content : List ℕ) (m : Machine P.World F.State)
          → V.is_open m f ≡ true
          → V.mode_of f ≡ write_always
          → V.files m (V.path_of f) ≡ some content
          → Grown (W.drive_of (V.path_of f)) [] m (F.f_close f m).1
      pub f_mkdir :
          (d name : CString) (m : Machine P.World F.State)
          → is_entry_name name ≡ true
          → W.is_dir m (V.name_of d) ≡ true
          → W.taken m (V.name_of (concat_filename d name)) ≡ false
          → MakesDir (concat_filename d name) m
      pub f_opendir :
          (path : CString) (entries : List FileInfo) (m : Machine P.World F.State)
          → W.listing (W.on_drive m (W.drive_of path)) (V.name_of path) ≡ some entries
          → OpensDir path entries m
      pub f_readdir :
          (d : F.Dir) (e : FileInfo) (entries : List FileInfo) (m : Machine P.World F.State)
          → W.coming (W.on_drive m (W.drive_read d)) d ≡ e ∷ entries
          → ReadsDir d e entries m
      pub f_readdir_end :
          (d : F.Dir) (m : Machine P.World F.State)
          → W.coming (W.on_drive m (W.drive_read d)) d ≡ []
          → EndsDir d m

add-append :
    (ps qs : List CString) (taken : CString → Bool) → add (ps ++ qs) taken ≡ add qs (add ps taken)
unfolding add
add-append [] qs taken = refl
add-append (p ∷ ps) qs taken = add-append ps qs (λ q. taken q || same_bytes q p)

pub fresh-append :
    (ps qs : List CString) (taken : CString → Bool)
    → fresh taken (ps ++ qs) ≡ fresh taken ps && fresh (add ps taken) qs
unfolding add fresh
fresh-append [] qs taken = refl
fresh-append (p ∷ ps) qs taken = ground (arith, fresh-append ps qs (λ q. taken q || same_bytes q p))

pub fresh_first :
    (p : CString) (ps : List CString) (taken : CString → Bool)
    → fresh taken (p ∷ ps) ≡ true
    → taken p ≡ false
unfolding fresh
fresh_first p ps taken h = ground arith

module _ {P : Posix} (T : Libc P) (F : FatFs P) (V : FileView T F) (W : TreeView T F) where
  pub Grown-append :
      (k : ℕ) (ps qs : List CString) (m m' m'' : Machine P.World F.State)
      → Grown T F V W k ps m m'
      → Grown T F V W k qs m' m''
      → Grown T F V W k (ps ++ qs) m m''
  Grown-append k ps qs m m' m'' a b = record {
    others = λ j n. b.others j n ∙ a.others j n;
    taken = b.taken ∙ ap (add qs) a.taken ∙ sym (add-append ps qs (W.taken m));
    dirs = λ p d. b.dirs p (a.dirs p d);
  }

  pub Still-Grown :
      (k : ℕ) (m m' : Machine P.World F.State) → Still T F V W m m' → Grown T F V W k [] m m'
  unfolding add
  Still-Grown k m m' s = record {
    others = λ j n. ap (λ t. t j) s.drives;
    taken = s.taken;
    dirs = λ p d. ap (λ t. t p) s.dirs ∙ d;
  }
