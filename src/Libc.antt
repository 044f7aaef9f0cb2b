-- ===== src/Libc.antt =====
-- The functions of the C library that src/hdfmonkey.c calls beside the system calls, as a parameter.
use hdfmonkey.Base.{ℕ, Bool, List, Option}
use hdfmonkey.Posix.{Posix, CString}

pub data Stream : Type 0 where
  stdout : Stream
  opened : ℕ → Stream

pub record Libc (P : Posix) : Type 1 where
  -- `printf` of a text that is already put together
  pub print : CString → P.World → P.World
  -- "%ld"
  pub show_long : ℕ → CString
  pub stat_mode : CString → P.World → Option ℕ × P.World
  -- `basename(path)`, and what it leaves in `path`
  pub basename : CString → CString × CString
  -- a `double`, with `strtod(text, &rest)` and `(unsigned long) (x * scale / 512)`
  pub Double : Type 0
  pub strtod : CString → Double × CString
  pub sectors_of : Double → (scale : ℕ) → ℕ
  -- `fopen(path, "wb")` and `fopen(path, "rb")`
  pub fopen_write : CString → P.World → Option Stream × P.World
  pub fopen_read : CString → P.World → Option Stream × P.World
  pub fread : Stream → ℕ → P.World → List ℕ × P.World
  pub ferror : Stream → P.World → Bool
  pub fwrite : Stream → List ℕ → P.World → P.World
  pub fclose : Stream → P.World → P.World
  pub opendir : CString → P.World → Option ℕ × P.World
  pub readdir : ℕ → P.World → Option CString × P.World
  pub closedir : ℕ → P.World → P.World
