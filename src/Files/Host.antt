-- ===== src/Files/Host.antt =====
-- What `put_file` of src/hdfmonkey.c relies on when it goes through directories of the host: the
-- documented behaviour of directory streams and of `stat`, beside a driver that leaves the host alone.
use Prim.Native.Nat.{bit_and}
use hdfmonkey.Base.{
  ℕ, ◌≡◌, List, [], ◌∷◌, Bool, true, false, Option, none, some, ◌==◌, if◌then◌else◌,
}
use hdfmonkey.Posix.{Posix, CString}
use hdfmonkey.Machine.{Machine}
use hdfmonkey.FatFs.{FatFs, OpenMode, fr_ok, fr_no_path}
use hdfmonkey.Libc.{Libc, Stream}
use hdfmonkey.Files.{FileView, is_entry_name}
use hdfmonkey.Files.Trees.{TreeView, Still}
use hdfmonkey.Cli.Names.{concat_filename}

module _ {P : Posix} (T : Libc P) where
  -- What there is to see of the host.
  pub record HostView : Type 1 where
    -- what lies on the host beside the images
    pub Content : Type 0
    pub on_host : P.World → Content
    pub bytes_of : Content → CString → Option (List ℕ)
    -- the names in a directory, in the order in which they are read
    pub names_of : Content → CString → Option (List CString)
    -- the names that a directory stream has still to deliver; `none` where it is not open
    pub coming : P.World → ℕ → Option (List CString)

  abbrev pub with_stream :
      (ℕ → Option (List CString)) → ℕ → Option (List CString) → ℕ → Option (List CString)
  with_stream streams d names j = if j == d then names else streams j

  module _ (H : HostView) where
    -- Nothing of this has changed.
    pub record Calm (w w' : P.World) : Type 0 where
      pub host : H.on_host w' ≡ H.on_host w
      pub coming : H.coming w' ≡ H.coming w

    -- One directory stream has other names to deliver.
    pub record Turned (d : ℕ) (names : Option (List CString)) (w w' : P.World) : Type 0 where
      pub host : H.on_host w' ≡ H.on_host w
      pub coming : H.coming w' ≡ with_stream (H.coming w) d names

    pub record OpensStream (path : CString) (names : List CString) (w : P.World) : Type 0 where
      pub stream : ℕ
      pub result : (T.opendir path w).0 ≡ some stream
      pub fresh : H.coming w stream ≡ none
      pub turned : Turned stream (some names) w (T.opendir path w).1

    pub record ReadsName (d : ℕ) (name : CString) (names : List CString) (w : P.World)
        : Type 0 where
      pub result : (T.readdir d w).0 ≡ some name
      pub turned : Turned d (some names) w (T.readdir d w).1

    pub record EndsStream (d : ℕ) (w : P.World) : Type 0 where
      pub result : (T.readdir d w).0 ≡ none
      pub calm : Calm w (T.readdir d w).1

    -- The mode of a directory, or of a regular file.
    pub record TellsKind (path : CString) (plain : Bool) (w : P.World) : Type 0 where
      pub mode : ℕ
      pub result : (T.stat_mode path w).0 ≡ some mode
      pub kind : (bit_and mode 0x4000 == 0) ≡ plain

module _ {P : Posix} (T : Libc P) (F : FatFs P) (V : FileView T F) (W : TreeView T F)
    (H : HostView T) where
  -- The functions of the C library leave the images alone.
  pub record KeepsImages : Type 0 where
    pub fopen_read :
        (path : CString) (m : Machine P.World F.State)
        → Still T F V W m (record m { world = (T.fopen_read path m.world).1 })
    pub fread :
        (s : Stream) (n : ℕ) (m : Machine P.World F.State)
        → Still T F V W m (record m { world = (T.fread s n m.world).1 })
    pub fclose :
        (s : Stream) (m : Machine P.World F.State)
        → Still T F V W m (record m { world = T.fclose s m.world })
    pub stat_mode :
        (path : CString) (m : Machine P.World F.State)
        → Still T F V W m (record m { world = (T.stat_mode path m.world).1 })
    pub opendir :
        (path : CString) (m : Machine P.World F.State)
        → Still T F V W m (record m { world = (T.opendir path m.world).1 })
    pub readdir :
        (d : ℕ) (m : Machine P.World F.State)
        → Still T F V W m (record m { world = (T.readdir d m.world).1 })
    pub closedir :
        (d : ℕ) (m : Machine P.World F.State)
        → Still T F V W m (record m { world = T.closedir d m.world })

  -- Neither the driver nor streams change anything on the host beside the images.
  pub record KeepsHost : Type 0 where
    pub f_open :
        (path : CString) (mode : OpenMode) (m : Machine P.World F.State)
        → Calm T H m.world (F.f_open path mode m).1.world
    pub f_write :
        (f : F.File) (bytes : List ℕ) (m : Machine P.World F.State)
        → Calm T H m.world (F.f_write f bytes m).1.world
    pub f_close :
        (f : F.File) (m : Machine P.World F.State) → Calm T H m.world (F.f_close f m).1.world
    pub f_mkdir :
        (path : CString) (m : Machine P.World F.State) → Calm T H m.world (F.f_mkdir path m).1.world
    pub f_opendir :
        (path : CString) (m : Machine P.World F.State)
        → Calm T H m.world (F.f_opendir path m).1.world
    pub fopen_read : (path : CString) (w : P.World) → Calm T H w (T.fopen_read path w).1
    pub fread : (s : Stream) (n : ℕ) (w : P.World) → Calm T H w (T.fread s n w).1
    pub fclose : (s : Stream) (w : P.World) → Calm T H w (T.fclose s w)
    pub stat_mode : (path : CString) (w : P.World) → Calm T H w (T.stat_mode path w).1

  -- The documented behaviour of `stat`, of directory streams, and of the driver's `f_opendir` as a
  -- test for a directory.
  pub record IsHosted : Type 0 where
    pub host_there : (p : CString) (w : P.World) → V.host w p ≡ H.bytes_of (H.on_host w) p
    pub stat_file :
        (p : CString) (bytes : List ℕ) (w : P.World)
        → H.bytes_of (H.on_host w) p ≡ some bytes
        → TellsKind T H p true w
    pub stat_dir :
        (p : CString) (names : List CString) (w : P.World)
        → H.names_of (H.on_host w) p ≡ some names
        → TellsKind T H p false w
    pub opendir :
        (p : CString) (names : List CString) (w : P.World)
        → H.names_of (H.on_host w) p ≡ some names
        → OpensStream T H p names w
    pub readdir :
        (d : ℕ) (name : CString) (names : List CString) (w : P.World)
        → H.coming w d ≡ some (name ∷ names)
        → ReadsName T H d name names w
    pub readdir_end : (d : ℕ) (w : P.World) → H.coming w d ≡ some [] → EndsStream T H d w
    pub closedir : (d : ℕ) (w : P.World) → Turned T H d none w (T.closedir d w)
    pub f_opendir_there :
        (p : CString) (m : Machine P.World F.State)
        → W.is_dir m (V.name_of p) ≡ true
        → ((F.f_opendir p m).0.0 ≡ fr_ok) × Still T F V W m (F.f_opendir p m).1
    pub f_opendir_free :
        (d name : CString) (m : Machine P.World F.State)
        → is_entry_name name ≡ true
        → W.is_dir m (V.name_of d) ≡ true
        → W.taken m (V.name_of (concat_filename d name)) ≡ false
        → ((F.f_opendir (concat_filename d name) m).0.0 ≡ fr_no_path)
          × Still T F V W m (F.f_opendir (concat_filename d name) m).1
