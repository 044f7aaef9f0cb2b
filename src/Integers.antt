-- ===== src/Integers.antt =====
-- src/integer.h: the integer types of the FAT driver, which src/diskio.c and src/clock.c use, and
-- their widths under LP64.
use hdfmonkey.Base.{ℕ}

pub data IntegerType : Type 0 where
  int uint char uchar byte short ushort word wchar long ulong dword : IntegerType

-- `int`, `unsigned int`, `signed char`, `unsigned char` twice, `short`, `unsigned short` three
-- times, `long`, and `unsigned long` twice.
abbrev pub width : IntegerType → ℕ
width int = 32
width uint = 32
width char = 8
width uchar = 8
width byte = 8
width short = 16
width ushort = 16
width word = 16
width wchar = 16
width long = 64
width ulong = 64
width dword = 64
