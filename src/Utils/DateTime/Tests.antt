-- ===== src/Utils/DateTime/Tests.antt =====
-- The texts of src/utils/DateTime.cc on the first day of 1970.
use jerry.Base.{ℕ, ◌+◌, ◌/◌, ◌%◌, ◌<◌, ◌≡◌, ◌↔◌, refl, arith, codes}
use jerry.Utils.{micro_seconds_per_second}
use jerry.Utils.DateTime.{Tm, to_string, to_gmt_string}
use jerry.Utils.DateTime.EastEight.{IsGmtime, text_of, to_string_lem}

-- A clock that always shows the first day of the epoch.
abbrev first_day : ℕ → Tm
first_day s = record {
  tm_year = 70;
  tm_mon = 0;
  tm_mday = 1;
  tm_hour = s / 3600 % 24;
  tm_min = s / 60 % 60;
  tm_sec = s % 60;
  tm_wday = 4;
}

first_day-IsGmtime : IsGmtime first_day
first_day-IsGmtime = record {
  hour = λ s. refl;
  min = λ s. refl;
  sec = λ s. refl;
  year_of_day = λ s t h. refl;
  mon_of_day = λ s t h. refl;
  mday_of_day = λ s t h. refl;
  year_small = λ s h. omega arith;
  mon_small = λ s. omega arith;
  mday_small = λ s. omega arith;
}

evening : to_string first_day 57600000001 ≡ codes "1970-01-01 24:00:00.000001"
unfolding to_string
evening = refl

evening_gmt : to_gmt_string first_day 57600000001 ≡ codes "Thu, 01 Jan 1970 16:00:00 GMT"
unfolding to_gmt_string
evening_gmt = refl

to_string_example :
    (to_string first_day 3600000005
      ≡ text_of
          (first_day (3600000005 / micro_seconds_per_second + 28800))
          (3600000005 % micro_seconds_per_second))
    ↔ (3600000005 / micro_seconds_per_second / 3600 % 24 < 16)
to_string_example = to_string_lem first_day first_day-IsGmtime 3600000005 (omega arith)
