-- ===== src/Tests/Worlds.antt =====
-- Disks in memory with one file each, and drives over them.
use hdfmonkey.Base.{ℕ, [], ◌∷◌, List, none, some, true, if◌then◌else◌, same_bytes, arith}
use hdfmonkey.Posix.{CString, Descriptor, IsHealthy, IsPrompt}
use hdfmonkey.Posix.Memory.Disk.{Disk, memory, memory_view}
use hdfmonkey.Posix.Memory.Laws.{memory-IsHealthy, memory-IsPrompt}
use hdfmonkey.Volume.{Volume, image_file, partition}
use hdfmonkey.Machine.{Machine}

-- A transfer moves eleven bytes at most.
abbrev pub ten : ℕ
ten = 10

abbrev pub healthy : IsHealthy (memory ten) (memory_view ten)
healthy = memory-IsHealthy ten

abbrev pub prompt : IsPrompt (memory ten) (memory_view ten)
prompt = memory-IsPrompt ten (omega arith)

abbrev pub disk_path : CString
disk_path = 100 ∷ []

-- The file `d` alone, with nothing open.
abbrev pub disk_of : List ℕ → Disk
disk_of bytes = record {
  files = λ p. if same_bytes p disk_path then some bytes else none;
  table = [];
  errors = [];
  folders = λ p. none;
  readers = λ d. none;
  next = 0;
}

abbrev pub descriptor : Descriptor
descriptor = record { path = disk_path; offset = 0; writeable = true }

-- The same with `d` open as descriptor 0.
abbrev pub open_disk : List ℕ → Disk
open_disk bytes = record (disk_of bytes) { table = some descriptor ∷ [] }

-- Ten sectors of two bytes after four bytes of a header.
abbrev pub small_bytes : List ℕ
small_bytes =
    82 ∷ 83 ∷ 45 ∷ 73 ∷ 1 ∷ 2 ∷ 3 ∷ 4 ∷ 5 ∷ 6 ∷ 7 ∷ 8 ∷ 9 ∷ 10 ∷ 11 ∷ 12 ∷ 13 ∷ 14 ∷ 15 ∷ 16 ∷ 17
    ∷ 18 ∷ 19 ∷ 20 ∷ []

abbrev pub small_volume : Volume
small_volume = image_file 0 4 2 10

-- Its second sector and what follows.
abbrev pub small_partition : Volume
small_partition = partition small_volume 2 2

abbrev pub machine : Volume → Disk → Machine Disk (Unit {0})
machine v w = record { world = w; drives = some v ∷ none ∷ []; fat = tt }
