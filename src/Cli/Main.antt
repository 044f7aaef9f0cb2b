-- ===== src/Cli/Main.antt =====
-- `main` of src/hdfmonkey.c.
use hdfmonkey.Base.{
  ℕ, List, ◌++◌, Option, none, some, if◌then◌else◌, get_elem?, text, same_bytes, ℤ, pure, ◌>>◌,
}
use hdfmonkey.Posix.{Posix, CString}
use hdfmonkey.FatFs.{FatFs}
use hdfmonkey.Libc.{Libc}
use hdfmonkey.Cli.Support.{MainCmd, success, say}
use hdfmonkey.Cli.Clone.{cmd_clone}
use hdfmonkey.Cli.Create.{cmd_create, cmd_format}
use hdfmonkey.Cli.Get.{cmd_get}
use hdfmonkey.Cli.Help.{cmd_help}
use hdfmonkey.Cli.Listing.{cmd_ls}
use hdfmonkey.Cli.Edit.{cmd_mkdir, cmd_rm}
use hdfmonkey.Cli.Put.{cmd_put}
use hdfmonkey.Cli.Rebuild.{cmd_rebuild}

-- The commands in the order of the tests of `main`.
pub data Command : Type 0 where
  clone create format get help ls mkdir put rebuild rm : Command

unfoldable pub command_of : CString → Option Command
command_of word =
    if same_bytes word (text "clone")
    then some clone
    else if same_bytes word (text "create")
    then some create
    else if same_bytes word (text "format")
    then some format
    else if same_bytes word (text "get")
    then some get
    else if same_bytes word (text "help")
    then some help
    else if same_bytes word (text "ls")
    then some ls
    else if same_bytes word (text "mkdir")
    then some mkdir
    else if same_bytes word (text "put")
    then some put
    else if same_bytes word (text "rebuild")
    then some rebuild
    else if same_bytes word (text "rm")
    then some rm
    else none

module _ {P : Posix} (T : Libc P) (F : FatFs P) where
  unfoldable pub run_command : (fuel : ℕ) → Command → List CString → MainCmd T F ℤ
  run_command fuel clone argv = cmd_clone T F argv
  run_command fuel create argv = cmd_create T F argv
  run_command fuel format argv = cmd_format T F argv
  run_command fuel get argv = cmd_get T F fuel argv
  run_command fuel help argv = cmd_help T F argv
  run_command fuel ls argv = cmd_ls T F fuel argv
  run_command fuel mkdir argv = cmd_mkdir T F argv
  run_command fuel put argv = cmd_put T F fuel argv
  run_command fuel rebuild argv = cmd_rebuild T F fuel argv
  run_command fuel rm argv = cmd_rm T F argv

  -- `main`; the fuel is for the commands whose loops another library's calls end.
  unfoldable pub main : (fuel : ℕ) → List CString → MainCmd T F ℤ
  main fuel argv = elim (get_elem? argv 1) [
    | none ↦ do say T F (text "Type 'hdfmonkey help' for usage."); pure success
    | some word ↦ elim (command_of word) [
      | some command ↦ run_command fuel command argv
      | none ↦ do
        say T F (text "Unknown command: '" ++ word ++ text "'")
        say T F (text "Type 'hdfmonkey help' for usage.")
        pure success
    ]
  ]
