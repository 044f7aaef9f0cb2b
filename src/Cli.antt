-- ===== src/Cli.antt =====
-- src/hdfmonkey.c: the commands. A command runs over the machine and returns its exit status; 0 and
-- -1 are `success` and `minus_one`.
pub mod Names
pub mod Support
pub mod Options
pub mod Clone
pub mod Get
pub mod Put
pub mod Listing
pub mod Create
pub mod Rebuild
pub mod Edit
pub mod Help
pub mod Main
pub mod Safety
pub mod Ends
pub mod Errors
