-- ===== src/Tests/Times.antt =====
-- Timestamps.
use hdfmonkey.Base.{◌+◌, ◌/◌, ◌%◌, ◌^◌, ◌≤◌, ◌≡◌, arith}
use hdfmonkey.Clock.{Tm, get_fattime}
use hdfmonkey.Clock.Fields.{IsTime, get_fattime_fields, get_fattime_wide}

-- 2045-12-31 23:59:59
abbrev late_time : Tm
late_time = record {
  tm_year = 145;
  tm_mon = 11;
  tm_mday = 31;
  tm_hour = 23;
  tm_min = 59;
  tm_sec = 59;
}

late_time-IsTime : IsTime late_time
late_time-IsTime = record {
  from = omega arith;
  to = omega arith;
  mon = omega arith;
  mday = omega arith;
  hour = omega arith;
  min = omega arith;
  sec = omega arith;
}

get_fattime_fields_example :
    let n = get_fattime late_time % 2 ^ 32 in
    (n / 2 ^ 25 + 80 ≡ 145)
    × (n / 2 ^ 21 % 16 ≡ 12)
    × (n / 2 ^ 16 % 32 ≡ 31)
    × (n / 2 ^ 11 % 32 ≡ 23)
    × (n / 2 ^ 5 % 64 ≡ 59)
    × (n % 32 ≡ 29)
get_fattime_fields_example = get_fattime_fields late_time late_time-IsTime

get_fattime_wide_example : 2 ^ 32 ≤ get_fattime late_time
get_fattime_wide_example = get_fattime_wide late_time late_time-IsTime (omega arith)
