-- ===== src/Clock.antt =====
-- src/clock.c: the current time in the format of the FAT driver.
pub mod Fields
use Prim.Native.Nat.{bit_or}
use hdfmonkey.Base.{ℕ, ◌+◌, ◌-◌, ◌*◌, ◌/◌, ◌%◌, ◌^◌, ltb, if◌then◌else◌}
use hdfmonkey.Integers.{width, int, dword}

-- `struct tm`, its fields as `gmtime_r` gives them for a time since 1900.
pub record Tm : Type 0 where
  pub tm_year : ℕ
  pub tm_mon : ℕ
  pub tm_mday : ℕ
  pub tm_hour : ℕ
  pub tm_min : ℕ
  pub tm_sec : ℕ

-- `(tm_year + 1900 - 1980) & 0x7f`: the difference may be negative, and the mask keeps its low bits.
unfoldable pub fat_year : ℕ → ℕ
fat_year tm_year = (tm_year + 1900 + (2 ^ 32 - 1980)) % 2 ^ 7

-- The `|` of the fields is an `int`; as a `DWORD` its sign fills the upper half.
unfoldable pub get_fattime : Tm → ℕ
unfolding fat_year
get_fattime t =
    let year = fat_year t.tm_year * 2 ^ 25 in
    let month = bit_or year ((t.tm_mon + 1) * 2 ^ 21) in
    let day = bit_or month (t.tm_mday * 2 ^ 16) in
    let hour = bit_or day (t.tm_hour * 2 ^ 11) in
    let minute = bit_or hour (t.tm_min * 2 ^ 5) in
    let n = bit_or minute (t.tm_sec / 2) in
    if ltb n (2 ^ 31) then n else n + (2 ^ width dword - 2 ^ width int)
