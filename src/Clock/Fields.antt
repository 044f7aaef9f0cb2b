-- ===== src/Clock/Fields.antt =====
-- The fields of a FAT timestamp, src/clock.c.
use Prim.Native.Nat.{bit_or}
use hdfmonkey.Base.{ℕ, ◌+◌, ◌-◌, ◌*◌, ◌/◌, ◌%◌, ◌^◌, ◌≤◌, ◌<◌, ◌≡◌, refl, ltb, if◌then◌else◌, arith}
use hdfmonkey.Base.Bits.{bit_or_disjoint}
use hdfmonkey.Clock.{Tm, fat_year, get_fattime}

-- The ranges that `gmtime_r` documents (the 60 is a leap second), and years from 1980 to 2107.
pub record IsTime (t : Tm) : Type 0 where
  pub from : 80 ≤ t.tm_year
  pub to : t.tm_year < 208
  pub mon : t.tm_mon < 12
  pub mday : t.tm_mday < 32
  pub hour : t.tm_hour < 24
  pub min : t.tm_min < 60
  pub sec : t.tm_sec ≤ 60

-- A multiple of `2 ^ k`, given as `x`, beside a number below `2 ^ k`.
or_field : (k a x b : ℕ) → x ≡ a * 2 ^ k → b < 2 ^ k → bit_or x b ≡ x + b
or_field k a x b e h = rw e (bit_or_disjoint k a b h)

abbrev packed : Tm → ℕ
packed t =
    (t.tm_year - 80) * 2 ^ 25
    + (t.tm_mon + 1) * 2 ^ 21
    + t.tm_mday * 2 ^ 16
    + t.tm_hour * 2 ^ 11
    + t.tm_min * 2 ^ 5
    + t.tm_sec / 2

fat_year_lem : (y : ℕ) → 80 ≤ y → y < 208 → fat_year y ≡ y - 80
unfolding fat_year
fat_year_lem y h k = omega arith

-- The fields share no bits.
fields-packed :
    (t : Tm)
    → IsTime t
    → bit_or
        (bit_or
          (bit_or
            (bit_or
              (bit_or ((t.tm_year - 80) * 2 ^ 25) ((t.tm_mon + 1) * 2 ^ 21))
              (t.tm_mday * 2 ^ 16))
            (t.tm_hour * 2 ^ 11))
          (t.tm_min * 2 ^ 5))
        (t.tm_sec / 2)
      ≡ packed t
fields-packed t i =
    let y = t.tm_year - 80 in
    let m = y * 2 ^ 25 + (t.tm_mon + 1) * 2 ^ 21 in
    let d = m + t.tm_mday * 2 ^ 16 in
    let h = d + t.tm_hour * 2 ^ 11 in
    let n = h + t.tm_min * 2 ^ 5 in
    rw (
      or_field 25 y (y * 2 ^ 25) ((t.tm_mon + 1) * 2 ^ 21) refl (omega arith),
      or_field 21 (y * 16 + t.tm_mon + 1) m (t.tm_mday * 2 ^ 16) (omega arith) (omega arith),
      or_field 16 ((y * 16 + t.tm_mon + 1) * 32 + t.tm_mday) d (t.tm_hour * 2 ^ 11) (omega arith)
          (omega arith),
      or_field 11 (((y * 16 + t.tm_mon + 1) * 32 + t.tm_mday) * 32 + t.tm_hour) h (t.tm_min * 2 ^ 5)
          (omega arith) (omega arith),
      or_field 5 ((((y * 16 + t.tm_mon + 1) * 32 + t.tm_mday) * 32 + t.tm_hour) * 64 + t.tm_min) n
          (t.tm_sec / 2) (omega arith) (omega arith),
    )

get_fattime-packed :
    (t : Tm)
    → IsTime t
    → get_fattime t ≡ (if ltb (packed t) (2 ^ 31) then packed t else packed t + (2 ^ 64 - 2 ^ 32))
unfolding get_fattime
get_fattime-packed t i = rw (fat_year_lem t.tm_year i.from i.to, fields-packed t i)

-- For every time from 1980 to 2107 the low 32 bits of the timestamp are its fields as a FAT file
-- system has them: 7 bits for the years since 1980, 4 for the month from 1, 5 for the day, 5 for the
-- hour, 6 for the minute, and 5 for half the second.
pub get_fattime_fields :
    (t : Tm)
    → IsTime t
    → let n = get_fattime t % 2 ^ 32 in
      (n / 2 ^ 25 + 80 ≡ t.tm_year)
      × (n / 2 ^ 21 % 16 ≡ t.tm_mon + 1)
      × (n / 2 ^ 16 % 32 ≡ t.tm_mday)
      × (n / 2 ^ 11 % 32 ≡ t.tm_hour)
      × (n / 2 ^ 5 % 64 ≡ t.tm_min)
      × (n % 32 ≡ t.tm_sec / 2)
get_fattime_fields t i =
    let low : get_fattime t % 2 ^ 32 ≡ packed t = rw (get_fattime-packed t i) (ground arith) in
    rw low (omega arith)

-- From 2044 on the timestamp itself does not fit 32 bits.
pub get_fattime_wide : (t : Tm) → IsTime t → 144 ≤ t.tm_year → 2 ^ 32 ≤ get_fattime t
get_fattime_wide t i late = rw (get_fattime-packed t i) (ground arith)
