-- ===== src/Cli/Options.antt =====
-- The option loop that `cmd_create`, `cmd_format` and `cmd_rebuild` of src/hdfmonkey.c share.
pub mod Laws
use hdfmonkey.Base.{
  ℕ, zero, suc, List, [], ◌∷◌, Option, none, some, if◌then◌else◌, get_elem?, text, same_bytes,
}
use hdfmonkey.Posix.{CString}
use hdfmonkey.FatFs.{Format, automatic, fat12, fat16, fat32}

-- The variables of the loop: `fmt`, `arg_num`, and what the cases 0, 1 and 2 of the switch assign.
-- `cmd_format` has the cases 0 and 1 alone, and refuses a third argument.
pub record Options : Type 0 where
  pub fmt : Format
  pub arg_num : ℕ
  pub arg_0 : Option CString
  pub arg_1 : Option CString
  pub arg_2 : Option CString

abbrev pub no_options : Options
no_options = record { fmt = automatic; arg_num = 0; arg_0 = none; arg_1 = none; arg_2 = none }

unfoldable pub take_argument : CString → ℕ → Options → Options
take_argument arg zero o = record o { arg_0 = some arg; arg_num = 1 }
take_argument arg (suc zero) o = record o { arg_1 = some arg; arg_num = 2 }
take_argument arg (suc (suc zero)) o = record o { arg_2 = some arg; arg_num = 3 }
take_argument arg (suc (suc (suc n))) o = record o { arg_num = suc (suc (suc (suc n))) }

unfoldable pub option_step : CString → Options → Options
unfolding take_argument same_bytes
option_step arg o =
    if same_bytes arg (text "--fat12")
    then record o { fmt = fat12 }
    else if same_bytes arg (text "--fat16")
    then record o { fmt = fat16 }
    else if same_bytes arg (text "--fat32")
    then record o { fmt = fat32 }
    else take_argument arg o.arg_num o

-- The loop over `argv[2]` and what follows.
unfoldable pub parse_options : List CString → Options → Options
unfolding option_step
parse_options [] o = o
parse_options (arg ∷ args) o = parse_options args (option_step arg o)
