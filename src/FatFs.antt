-- ===== src/FatFs.antt =====
-- The FAT driver, a library of another project whose copy lies in src/ (ff.c, ff.h), as a parameter:
-- its file and directory objects, its work areas, and the calls that src/hdfmonkey.c makes. A call
-- may run src/diskio.c, so it acts on the whole machine.
use hdfmonkey.Base.{ℕ, List, Option}
use hdfmonkey.Posix.{Posix, CString}
use hdfmonkey.Machine.{Machine}

-- `FRESULT`
pub data FResult : Type 0 where
  fr_ok fr_disk_err fr_int_err fr_not_ready fr_no_file fr_no_path fr_invalid_name fr_denied :
      FResult
  fr_exist fr_invalid_object fr_write_protected fr_invalid_drive fr_not_enabled : FResult
  fr_no_filesystem fr_mkfs_aborted fr_timeout : FResult

-- What `f_readdir` fills in: `FILINFO` with the buffer of the long name.
pub record FileInfo : Type 0 where
  pub fsize : ℕ
  pub fattrib : ℕ
  pub fname : CString
  pub lfname : CString

-- `FA_READ | FA_OPEN_EXISTING` and `FA_WRITE | FA_CREATE_ALWAYS`.
pub data OpenMode : Type 0 where
  read_existing write_always : OpenMode

-- `fmt`: 0 for the driver's choice, FS_FAT12, FS_FAT16, FS_FAT32.
pub data Format : Type 0 where
  automatic fat12 fat16 fat32 : Format

pub record FatFs (P : Posix) : Type 1 where
  pub State : Type 0
  pub File : Type 0
  pub Dir : Type 0
  -- registers a fresh work area for the drive
  pub f_mount : ℕ → Machine P.World State → FResult × Machine P.World State
  -- drive and volume label; the other two arguments are 0
  pub f_mkfs : ℕ → Option CString → Format → Machine P.World State → FResult × Machine P.World State
  pub f_open : CString → OpenMode → Machine P.World State → (FResult × File) × Machine P.World State
  pub f_read : File → ℕ → Machine P.World State → (FResult × List ℕ × File) × Machine P.World State
  -- how many bytes were written
  pub f_write : File → List ℕ → Machine P.World State → (FResult × ℕ × File) × Machine P.World State
  pub f_close : File → Machine P.World State → FResult × Machine P.World State
  pub f_opendir : CString → Machine P.World State → (FResult × Dir) × Machine P.World State
  pub f_readdir : Dir → Machine P.World State → (FResult × FileInfo × Dir) × Machine P.World State
  pub f_mkdir : CString → Machine P.World State → FResult × Machine P.World State
  pub f_unlink : CString → Machine P.World State → FResult × Machine P.World State
