-- ===== src/Tests/Samples.antt =====
-- An image with files and directories in memory, for the commands.
use hdfmonkey.Base.{
  ℕ, List, [], ◌∷◌, true, false, Option, none, some, if◌then◌else◌, same_bytes, replicate, text,
  Run, ok, fault, out_of_fuel,
}
use hdfmonkey.Posix.{CString}
use hdfmonkey.Posix.Memory.Disk.{Disk}
use hdfmonkey.Volume.{Volume}
use hdfmonkey.FatFs.{FileInfo}
use hdfmonkey.Machine.{Machine}
use hdfmonkey.Files.Memory.{streams, fat_files, Volumes}
use hdfmonkey.Cli.Support.{open_image}
use hdfmonkey.Cli.Rebuild.Trees.{Tree, nothing, regular, folder, entries_of}
use hdfmonkey.Tests.Worlds.{ten}

abbrev pub FatState : Type 0
FatState = Machine Disk Volumes

abbrev pub image : CString
image = text "disk.img"

-- A file of two whole buffers and a bit.
abbrev pub contents : List ℕ
contents = replicate {A = ℕ} 4100 7

abbrev pub entry : ℕ → CString → FileInfo
entry attributes name = record { fsize = 0; fattrib = attributes; fname = name; lfname = [] }

-- A directory with a file in it, and a file.
abbrev pub inner : Tree
inner = regular (entry 32 (text "C.TXT")) (1 ∷ []) nothing

abbrev pub tree : Tree
tree = folder (entry 16 (text "SUB")) inner (regular (entry 32 (text "B.TXT")) contents nothing)

-- An image of one sector, a file beside it, and one file of other contents on the image.
abbrev pub start : FatState
start = record {
  world = record {
    files = λ p.
        if same_bytes p image
        then some (replicate {A = ℕ} 512 0)
        else if same_bytes p (text "notes")
        then some contents
        else none;
    table = [];
    errors = [];
    folders = λ p. none;
    readers = λ d. none;
    next = 0;
  };
  drives = replicate {A = Option Volume} 8 none;
  fat = record {
    files = λ p.
        if same_bytes p (text "A.TXT")
        then some contents
        else if same_bytes p (text "0:/B.TXT")
        then some contents
        else if same_bytes p (text "0:/SUB/C.TXT")
        then some (1 ∷ [])
        else none;
    opened = λ p. false;
    dirs = λ p.
        if same_bytes p (text "0:")
        then some (entries_of tree)
        else if same_bytes p (text "0:/SUB")
        then some (entries_of inner)
        else if same_bytes p (text "1:")
        then some []
        else none;
  };
}

abbrev pub after : {S A : Type 0} → Run S A → S → S
after (ok a s) s' = s
after fault s' = s'
after out_of_fuel s' = s'

-- The image has been opened for reading.
abbrev pub reading : FatState
reading = after (open_image (streams ten) (fat_files ten) image true false start) start

-- The image has been opened for writing.
abbrev pub writing : FatState
writing = after (open_image (streams ten) (fat_files ten) image true true start) start

abbrev pub create_arguments : CString → List CString
create_arguments name = text "hdfmonkey" ∷ text "create" ∷ name ∷ text "64M" ∷ []
