-- ===== src/Utils/DateTime.antt =====
-- src/utils/DateTime.h and DateTime.cc: a time is its `us_since_epoch`, not negative. `gmtime_r` is a parameter.
pub mod Text
pub mod EastEight
mod Tests
use jerry.Base.{
  ℕ, ◌+◌, ◌-◌, ◌*◌, ◌/◌, ◌%◌, Bool, List, [], ◌∷◌, ◌++◌, length, take, replicate, get_or, ltb, leb,
  ◌==◌, if◌then◌else◌, codes,
}
use jerry.Http.Resp.{decimal}
use jerry.Utils.{micro_seconds_per_second}

unfoldable pub less : ℕ → ℕ → Bool
less a b = ltb a b

unfoldable pub less_eq : ℕ → ℕ → Bool
less_eq a b = leb a b

unfoldable pub greater : ℕ → ℕ → Bool
greater a b = ltb b a

unfoldable pub greater_eq : ℕ → ℕ → Bool
greater_eq a b = leb b a

unfoldable pub equal : ℕ → ℕ → Bool
equal a b = a == b

-- The difference of two times, which may be negative.
pub data Difference : Type 0 where
  later : ℕ → Difference
  earlier : ℕ → Difference

unfoldable pub subtract : ℕ → ℕ → Difference
subtract a b = if leb b a then later (a - b) else earlier (b - a)

-- The members of `tm` that the texts use.
pub record Tm : Type 0 where
  pub tm_year : ℕ
  pub tm_mon : ℕ
  pub tm_mday : ℕ
  pub tm_hour : ℕ
  pub tm_min : ℕ
  pub tm_sec : ℕ
  pub tm_wday : ℕ

-- `%u` with a width, filled with blanks or zeros.
unfoldable pub print_unsigned : ℕ → ℕ → ℕ → List ℕ
unfolding decimal
print_unsigned fill width n = let s = decimal n in replicate (width - length s) fill ++ s

-- `"%4u-%02u-%02u %02u:%02u:%02u.%06u"` of `ToString`.
unfoldable pub date_and_time : ℕ → ℕ → ℕ → ℕ → ℕ → ℕ → ℕ → List ℕ
unfolding print_unsigned
date_and_time year mon mday hour min sec us =
    (print_unsigned 32 4 year
      ++ (b'-' ∷ (print_unsigned 48 2 mon ++ (b'-' ∷ (print_unsigned 48 2 mday ++ 32 ∷ [])))))
    ++ (print_unsigned 48 2 hour
        ++ (b':'
            ∷ (print_unsigned 48 2 min
                ++ (b':' ∷ (print_unsigned 48 2 sec ++ (b'.' ∷ print_unsigned 48 6 us))))))

-- `snprintf` into the 27 bytes of `buf`.
unfoldable pub to_string : (ℕ → Tm) → ℕ → List ℕ
unfolding date_and_time
to_string gmtime t =
    let tm = gmtime (t / micro_seconds_per_second) in
    take 26 (
      date_and_time (tm.tm_year + 1900) (tm.tm_mon + 1) tm.tm_mday (tm.tm_hour + 8) tm.tm_min
        tm.tm_sec (t % micro_seconds_per_second))

abbrev day_names : List (List ℕ)
day_names =
    codes "Sun"
    ∷ codes "Mon"
    ∷ codes "Tue"
    ∷ codes "Wed"
    ∷ codes "Thu"
    ∷ codes "Fri"
    ∷ codes "Sat"
    ∷ []

abbrev month_names : List (List ℕ)
month_names =
    codes "Jan"
    ∷ codes "Feb"
    ∷ codes "Mar"
    ∷ codes "Apr"
    ∷ codes "May"
    ∷ codes "Jun"
    ∷ codes "Jul"
    ∷ codes "Aug"
    ∷ codes "Sep"
    ∷ codes "Oct"
    ∷ codes "Nov"
    ∷ codes "Dec"
    ∷ []

-- `"%a, %d %b %Y %T GMT"` of `ToGmtString`, in the C locale.
unfoldable pub to_gmt_string : (ℕ → Tm) → ℕ → List ℕ
unfolding print_unsigned
to_gmt_string gmtime t =
    let tm = gmtime (t / micro_seconds_per_second) in
    get_or day_names tm.tm_wday (codes "?")
    ++ (codes ", "
        ++ (print_unsigned 48 2 tm.tm_mday
            ++ (32
                ∷ (get_or month_names tm.tm_mon (codes "?")
                    ++ (32
                        ∷ (decimal (tm.tm_year + 1900)
                            ++ (32
                                ∷ (print_unsigned 48 2 tm.tm_hour
                                    ++ (b':'
                                        ∷ (print_unsigned 48 2 tm.tm_min
                                            ++ (b':'
                                                ∷ (print_unsigned 48 2 tm.tm_sec
                                                    ++ codes " GMT"))))))))))))
