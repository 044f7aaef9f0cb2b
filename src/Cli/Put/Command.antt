-- ===== src/Cli/Put/Command.antt =====
-- `cmd_put` of src/hdfmonkey.c into a directory that is there.
use hdfmonkey.Base.{◌≡◌, List, [], ◌∷◌, ◌++◌, true, false, some}
use hdfmonkey.Posix.{Posix, CString}
use hdfmonkey.Volume.{Volume}
use hdfmonkey.Machine.{Machine}
use hdfmonkey.FatFs.{FatFs}
use hdfmonkey.Libc.{Libc}
use hdfmonkey.Files.{FileView, IsSound, is_entry_name}
use hdfmonkey.Files.Trees.{TreeView, IsOrderly}
use hdfmonkey.Files.Host.{HostView, KeepsImages, KeepsHost, IsHosted}
use hdfmonkey.Cli.Put.Trees.{HostTree, nothing, regular, folder, names, Lies}
use hdfmonkey.Cli.Put.Entries.{Ready}

-- The command line of `put`.
abbrev pub command_line : (program put image : CString) → List CString → CString → List CString
command_line program put image sources dest = program ∷ put ∷ image ∷ (sources ++ (dest ∷ []))

module _ {P : Posix} {T : Libc P} (H : HostView T) where
  -- The arguments name these files and directories, one after the other, as `basename` takes them
  -- apart.
  unfoldable pub Names : H.Content → List CString → HostTree → Type 0
  Names c [] nothing = Unit
  Names c (s ∷ sources) (regular name bytes t) =
      ((T.basename s).0 ≡ name)
      × (is_entry_name name ≡ true)
      × (H.bytes_of c (T.basename s).1 ≡ some bytes)
      × Names c sources t
  Names c (s ∷ sources) (folder name inner t) =
      ((T.basename s).0 ≡ name)
      × (is_entry_name name ≡ true)
      × (H.names_of c (T.basename s).1 ≡ some (names inner))
      × Lies H c (T.basename s).1 inner
      × Names c sources t
  Names c sources t = false ≡ true

module _ {P : Posix} (T : Libc P) (F : FatFs P) where
  module _ (V : FileView T F) (S : IsSound T F V) (W : TreeView T F) (O : IsOrderly T F V W)
      (H : HostView T) (I : KeepsImages T F V W H) (J : KeepsHost T F V W H)
      (N : IsHosted T F V W H) where
    abbrev Are : H.Content → CString → List CString → Machine P.World F.State → Type 0
    Are = Ready T F V S W O H I J N
