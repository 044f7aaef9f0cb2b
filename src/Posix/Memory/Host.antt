-- ===== src/Posix/Memory/Host.antt =====
-- The directories of a host in memory, and streams over them.
use hdfmonkey.Base.{
  ℕ, suc, List, [], ◌∷◌, Bool, false, ◌||◌, Option, none, some, ltb, ◌==◌, if◌then◌else◌,
}
use hdfmonkey.Posix.{CString}
use hdfmonkey.Posix.Memory.Disk.{Disk}

-- The names that no path can be: their first character lies above 255.
abbrev pub is_hidden : CString → Bool
is_hidden [] = false
is_hidden (c ∷ s) = ltb 255 c

abbrev pub shown : (CString → Option (List ℕ)) → CString → Option (List ℕ)
shown files path = if is_hidden path then none else files path

-- A regular file is no directory.
abbrev pub listed : Option (List ℕ) → Option (List CString) → Option (List CString)
listed none names = names
listed (some bytes) names = none

abbrev pub mode_of : Option (List ℕ) → Option (List CString) → Option ℕ
mode_of (some bytes) names = some 0x8000
mode_of none (some names) = some 0x4000
mode_of none none = none

abbrev pub open_reader : Option (List CString) → Disk → Option ℕ × Disk
open_reader none w = (none, w)
open_reader (some names) w = (
  some w.next,
  record w { readers = λ j. if j == w.next then some names else w.readers j; next = suc w.next },
)

abbrev pub reader_at : Disk → ℕ → Option (List CString)
reader_at w d = if ltb d w.next then w.readers d else none

abbrev pub read_name : ℕ → Option (List CString) → Disk → Option CString × Disk
read_name d none w = (none, w)
read_name d (some []) w = (none, w)
read_name d (some (name ∷ names)) w =
    (some name, record w { readers = λ j. if j == d then some names else w.readers j })

abbrev pub close_reader : ℕ → Disk → Disk
close_reader d w = record w { readers = λ j. if j == d then none else w.readers j }

unfoldable has_slash : CString → Bool
has_slash [] = false
has_slash (c ∷ s) = c == 47 || has_slash s

-- What follows the last slash.
unfoldable pub base_name : CString → CString
unfolding has_slash
base_name [] = []
base_name (c ∷ s) = let rest = base_name s in if c == 47 || has_slash s then rest else c ∷ s
