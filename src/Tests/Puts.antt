-- ===== src/Tests/Puts.antt =====
-- `put` of a file and of a directory, with a C library and a driver in memory.
use hdfmonkey.Base.{[], ◌∷◌, true, none, some, if◌then◌else◌, same_bytes, text}
use hdfmonkey.Files.Memory.{streams, fat_files}
use hdfmonkey.Cli.Support.{open_image}
use hdfmonkey.Cli.Put.Trees.{HostTree, nothing, skipped, regular, folder}
use hdfmonkey.Cli.Put.Command.{Names}
use hdfmonkey.Tests.Worlds.{ten}
use hdfmonkey.Tests.Samples.{FatState, image, contents, start, after}

-- A directory beside the image, with a file and another directory in it.
abbrev host : FatState
host = record start {
  world = record start.world {
    files = λ p.
        if same_bytes p (text "docs/a")
        then some (1 ∷ 2 ∷ [])
        else if same_bytes p (text "docs/sub/b")
        then some contents
        else start.world.files p;
    folders = λ p.
        if same_bytes p (text "docs")
        then some (text "." ∷ text ".." ∷ text "a" ∷ text "sub" ∷ [])
        else if same_bytes p (text "docs/sub")
        then some (text "b" ∷ [])
        else none;
  };
}

-- The arguments `notes` and `docs`, as they lie there.
abbrev sub : HostTree
sub = regular (text "b") contents nothing

abbrev docs : HostTree
docs =
    skipped (text ".")
      (skipped (text "..") (regular (text "a") (1 ∷ 2 ∷ []) (folder (text "sub") sub nothing)))

abbrev sources : HostTree
sources = regular (text "notes") contents (folder (text "docs") docs nothing)

abbrev opened : FatState
opened = after (open_image (streams ten) (fat_files ten) image true true host) host
