-- ===== src/Lib.antt =====
-- hdfmonkey: a tool for the disk images of ZX Spectrum emulators, HDF files and raw images, with
-- a FAT file system on them.
--
-- The parts of the program, and the files that model them:
--
-- - src/volume_container.h, something that acts as a disk: Volume.antt. The function pointers of
--   the struct are told by the constructor; Volume/Dispatch.antt has the calls through them, with
--   partition_read and partition_write of src/mbr.c, Volume/Offsets.antt shows what they amount
--   to.
-- - src/image_file.c: ImageFile. Io has image_file_read, image_file_write and image_file_close,
--   and Io/Reads, Io/Writes and Io/Refused what they do; Geometry and Header have the bytes that
--   hdf_write_header builds; Images has the functions that open and create images, Images/Create,
--   Images/Open, Images/Fields and Images/RoundTrip what they leave and find.
-- - src/mbr.c, partition tables: Mbr.antt, and Mbr/Table.antt for what is read of a table.
-- - src/diskio.c, the sectors that the FAT driver asks for: Diskio.antt over the state of
--   Machine.antt, Diskio/Sectors, Diskio/RoundTrip and Diskio/ReadOnly for what the driver can
--   rely on.
-- - src/clock.c: Clock.antt and Clock/Fields.antt. src/integer.h: Integers.antt.
-- - src/hdfmonkey.c, the commands: Cli. Names, Support and Options have what the commands share;
--   Clone, Get, Put, Listing (ls), Create (create and format), Rebuild, Edit (mkdir and rm) and
--   Help have the commands, Main the dispatch. Options/Laws, Clone/Copies, Clone/Volumes,
--   Clone/Command, Clone/Back, Get/Delivers, Put/Loop, Put/Stores, Put/Entries, Put/Whole,
--   Put/Command, Listing/Prints, Rebuild/Copies, Rebuild/Entries, Rebuild/Whole, Rebuild/Onto and
--   Rebuild/Command have their theorems, Rebuild/Trees and Put/Trees the trees that copy_dir and
--   put_file go through. Three modules are about all commands together: Cli/Safety about where
--   they can fault, with ImageFile/Safety and Base/Safety below it, Cli/Ends about where they
--   return, with ImageFile/Ends and Base/Ends, and Cli/Errors about the number of arguments that
--   they ask for.
-- - What get, ls, put and rebuild rely on when they move the contents of files: Files.antt; on
--   directories of images: Files/Trees; what put relies on when it goes through directories of
--   the host: Files/Host.
-- - Base has the helpers: Boolean tests, lists measured by native numbers, C integers, slices of
--   lists, runs of stateful code. Tests has the theorems at concrete inputs.
--
-- A command of the program runs over a Machine: the world of the system calls, the eight drives
-- of src/diskio.c, and the work area of the FAT driver. The commands call src/image_file.c to
-- open an image, map it to a drive, and call the FAT driver, which calls src/diskio.c, which
-- calls through the volume's function pointers. A run returns a value and a state, faults
-- (undefined behaviour of C: a field that was never set, an index out of an array, NULL
-- followed), or meets the end of its fuel. The cast of a double to an unsigned long that is out of
-- range is undefined too, but is no fault here: it is part of the conversion of a size, a parameter.
--
-- Parameters are what is not this program's code: the system calls (Posix), the C library (Libc),
-- and the FAT driver, a library of another project (FatFs). What the theorems ask of the system
-- calls is IsHealthy: regular files behave as documented on a disk without failures, with
-- transfers of any length that moves at least a byte; and, where the code reads a header with a
-- single call, IsPrompt: a read of 11 bytes at most is not cut short. The disk in memory of
-- Posix/Memory satisfies both, and IsGuarded: a write to a descriptor not open for writing fails.
-- Progresses asks for less: no transfer moves more than it was asked to, and no write of some
-- bytes moves none without failing. The time that get_fattime packs is a parameter, too. What
-- they ask of the driver and of streams is KeepsDrives of Cli/Safety, that no call of the driver
-- touches the drives of src/diskio.c, and IsSound of Files: open files are read from their position on
-- and written at their end, on volumes that are not full; what is written is pending, and the file
-- gets it when it is closed; a file object that was closed is good for nothing. IsOrderly of
-- Files/Trees has the same of directories: a new file or directory with an ASCII name that FAT allows, in a
-- directory that is there, changes nothing on another drive and no other name, short aliases aside;
-- Prints, that printf appends to the standard output. For put of directories,
-- KeepsImages and KeepsHost of Files/Host say that the C library leaves the images and that
-- driver and streams leave the host alone, and IsHosted how stat and directory streams behave.
-- Files/Memory has a C library and a driver in memory that satisfy all of it.
--
-- Integers: int has 32 bits; long, size_t and off_t have 64. The results of lseek, read and write
-- pass through an int as in the source. The offset of a partition is a natural number: one of 2 ^ 63
-- and more, negative as an off_t, stays large. Memory is never exhausted, and free is not modelled.
--
-- Fuel: the loops of image_file_read, image_file_write and hdf_write_header have one round more
-- than bytes; the theorems that they return show that this is enough, since a round moves a byte.
-- The loop of cmd_clone has one round more than bytes. The loops over a file or a directory that
-- another library's calls end, and the recursion of put_file and copy_dir, run on fuel that main
-- is given; for the contents of a file a round for each whole buffer and one more are shown to be
-- enough, for copy_dir and put_file the sum of these and of the entries and directories (rounds
-- of Rebuild/Trees and of Put/Trees).
--
-- Not modelled: the FAT driver (src/ff.c, src/ccsbcs.c, src/ffconf.h), the builds without long
-- file names, build files and packaging.
pub mod Base
pub mod Integers
pub mod Posix
pub mod Volume
pub mod ImageFile
pub mod Machine
pub mod Mbr
pub mod Diskio
pub mod Clock
pub mod FatFs
pub mod Libc
pub mod Files
pub mod Cli
pub mod Tests
