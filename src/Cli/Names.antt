-- ===== src/Cli/Names.antt =====
-- The functions of src/hdfmonkey.c on file names.
use hdfmonkey.Base.{
  ℕ, ◌-◌, [], ◌∷◌, ◌++◌, Bool, ◌&&◌, ◌||◌, Option, none, some, ltb, ◌==◌, if◌then◌else◌, length,
  get_or,
}
use hdfmonkey.Posix.{CString}

-- `none` where the characters lie before the beginning of the name.
unfoldable pub filename_is_hdf : CString → Option Bool
filename_is_hdf filename =
    let len = length filename in
    let at = λ (i : ℕ). get_or filename (len - i) 0 in
    if ltb len 3
    then none
    else some (
        (at 3 == b'h' || at 3 == b'H')
        && (at 2 == b'd' || at 2 == b'D')
        && (at 1 == b'f' || at 1 == b'F'))

unfoldable pub concat_filename : CString → CString → CString
concat_filename path filename = path ++ (b'/' ∷ filename)

-- One trailing slash or backslash goes.
unfoldable pub strip_trailing_slash : CString → CString
strip_trailing_slash [] = []
strip_trailing_slash (c ∷ []) = if c == 0x5c || c == b'/' then [] else c ∷ []
strip_trailing_slash (c ∷ d ∷ path) = c ∷ strip_trailing_slash (d ∷ path)
