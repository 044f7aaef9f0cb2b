-- ===== src/ImageFile.antt =====
-- src/image_file.c: raw and HDF disk images as volumes. Every function runs over the world of the
-- system calls; an `int` result is an integer, and -1 is `minus_one`.
pub mod Geometry
pub mod Header
pub mod Io
pub mod Images
pub mod Safety
pub mod Ends
