-- ===== src/ImageFile/Io.antt =====
-- `image_file_read`, `image_file_write` and `image_file_close` of src/image_file.c. The results of
-- lseek, read and write pass through an `int`. The loops run on fuel, `count + 1` rounds for `count`
-- bytes: every round moves a byte or ends the loop.
pub mod Reads
pub mod Writes
pub mod Refused
use hdfmonkey.Base.{
  ℕ, zero, suc, ◌+◌, List, [], ◌++◌, none, some, ◌==◌, if◌then◌else◌, length, drop, text, ℤ, pos,
  negsuc, minus_one, to_int, sub_word, out_of_fuel, Cmd, pure, ◌>>=◌, ◌>>◌, call, perform,
}
use hdfmonkey.Posix.{Posix}

module _ (P : Posix) where
  -- The result, and what the caller's buffer holds so far.
  abbrev pub ReadCmd : Type 0
  ReadCmd = Cmd P.World (ℤ × List ℕ)

  abbrev read_failed : List ℕ → ReadCmd
  read_failed buf = do perform (P.perror (text "read() error. line: 27")); pure (minus_one, buf)

  unfoldable pub read_loop : ℕ → ℕ → ℕ → ℕ → List ℕ → ReadCmd
  unfolding to_int sub_word
  read_loop zero fd count done buf = λ w. out_of_fuel
  read_loop (suc fuel) fd count done buf = if count == 0 then pure (pos done, buf) else do
    r ← call (P.read fd count)
    elim r [
      | none ↦ read_failed buf
      | some bytes ↦ elim (to_int (length bytes)) [
        | pos zero ↦ read_failed buf
        | pos (suc n) ↦ read_loop fuel fd (sub_word count (suc n)) (done + suc n) (buf ++ bytes)
        | negsuc n ↦ read_failed buf
      ]
    ]

  unfoldable pub image_file_read : (fd data_offset position count : ℕ) → ReadCmd
  unfolding read_loop
  image_file_read fd data_offset position count = do
    r ← call (P.lseek fd (position + data_offset))
    elim r [
      | none ↦ pure (minus_one, [])
      | some p ↦ elim (to_int p) [
        | pos _ ↦ read_loop (suc count) fd count 0 []
        | negsuc n ↦ pure (negsuc n, [])
      ]
    ]

  abbrev write_failed : Cmd P.World ℤ
  write_failed = do perform (P.perror (text "write() error")); pure minus_one

  unfoldable pub write_loop : ℕ → ℕ → List ℕ → ℕ → ℕ → Cmd P.World ℤ
  unfolding to_int sub_word
  write_loop zero fd bytes count done = λ w. out_of_fuel
  write_loop (suc fuel) fd bytes count done = if count == 0 then pure (pos done) else do
    r ← call (P.write fd bytes)
    elim r [
      | none ↦ write_failed
      | some m ↦ elim (to_int m) [
        | pos n ↦ write_loop fuel fd (drop n bytes) (sub_word count n) (done + n)
        | negsuc n ↦ write_failed
      ]
    ]

  -- `bytes` is what the buffer holds, `count` of them.
  unfoldable pub image_file_write : (fd data_offset position : ℕ) → List ℕ → Cmd P.World ℤ
  unfolding write_loop
  image_file_write fd data_offset position bytes = do
    r ← call (P.lseek fd (position + data_offset))
    elim r [
      | none ↦ pure minus_one
      | some p ↦ elim (to_int p) [
        | pos _ ↦ write_loop (suc (length bytes)) fd bytes (length bytes) 0
        | negsuc n ↦ pure (negsuc n)
      ]
    ]

  unfoldable pub image_file_close : ℕ → Cmd P.World ℤ
  image_file_close fd = do perform (P.close fd); pure (pos 0)
