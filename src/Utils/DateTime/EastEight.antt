-- ===== src/Utils/DateTime/EastEight.antt =====
-- Which time `ToString` of src/utils/DateTime.cc prints: that of UTC+8, as long as the day is the same there.
use jerry.Base.{
  ℕ, zero, suc, ◌+◌, ◌/◌, ◌%◌, ◌≤◌, ◌<◌, ◌≡◌, ◌↔◌, ◌∙◌, refl, sym, ap, List, [], ◌∷◌, ◌++◌, Option,
  some, length, take, get_elem?, arith, length-append, take_all,
}
use jerry.Utils.{micro_seconds_per_second}
use jerry.Utils.DateTime.{Tm, print_unsigned, date_and_time, to_string}
use jerry.Utils.DateTime.Text.{two_digits, length-print_unsigned}

-- What the manual says of `gmtime_r`, up to the end of the year 9999.
pub record IsGmtime (gmtime : ℕ → Tm) : Type 0 where
  pub hour : (s : ℕ) → (gmtime s).tm_hour ≡ s / 3600 % 24
  pub min : (s : ℕ) → (gmtime s).tm_min ≡ s / 60 % 60
  pub sec : (s : ℕ) → (gmtime s).tm_sec ≡ s % 60
  pub year_of_day : (s t : ℕ) → s / 86400 ≡ t / 86400 → (gmtime s).tm_year ≡ (gmtime t).tm_year
  pub mon_of_day : (s t : ℕ) → s / 86400 ≡ t / 86400 → (gmtime s).tm_mon ≡ (gmtime t).tm_mon
  pub mday_of_day : (s t : ℕ) → s / 86400 ≡ t / 86400 → (gmtime s).tm_mday ≡ (gmtime t).tm_mday
  pub year_small : (s : ℕ) → s < 253402300800 → (gmtime s).tm_year + 1900 < 10000
  pub mon_small : (s : ℕ) → (gmtime s).tm_mon < 12
  pub mday_small : (s : ℕ) → (gmtime s).tm_mday ≤ 31

-- The text of a broken-down time with microseconds.
abbrev pub text_of : Tm → ℕ → List ℕ
text_of tm us =
    date_and_time (tm.tm_year + 1900) (tm.tm_mon + 1) tm.tm_mday tm.tm_hour tm.tm_min tm.tm_sec us

-- The date with its blank, and the time of the day.
abbrev date : ℕ → ℕ → ℕ → List ℕ
date year mon mday =
    print_unsigned 32 4 year
    ++ (b'-' ∷ (print_unsigned 48 2 mon ++ (b'-' ∷ (print_unsigned 48 2 mday ++ 32 ∷ []))))

abbrev clock : ℕ → ℕ → ℕ → ℕ → List ℕ
clock hour min sec us =
    print_unsigned 48 2 hour
    ++ (b':'
        ∷ (print_unsigned 48 2 min
            ++ (b':' ∷ (print_unsigned 48 2 sec ++ (b'.' ∷ print_unsigned 48 6 us)))))

length-date :
    (year mon mday : ℕ) → year < 10000 → mon < 100 → mday < 100 → length (date year mon mday) ≡ 11
length-date year mon mday y m d = omega (
  arith,
  length-append (print_unsigned 32 4 year)
      (b'-' ∷ (print_unsigned 48 2 mon ++ (b'-' ∷ (print_unsigned 48 2 mday ++ 32 ∷ [])))),
  length-append (print_unsigned 48 2 mon) (b'-' ∷ (print_unsigned 48 2 mday ++ 32 ∷ [])),
  length-append (print_unsigned 48 2 mday) (32 ∷ []),
  length-print_unsigned 32 3 year y,
  length-print_unsigned 48 1 mon m,
  length-print_unsigned 48 1 mday d,
)

length-clock :
    (hour min sec us : ℕ)
    → hour < 100
    → min < 100
    → sec < 100
    → us < 1000000
    → length (clock hour min sec us) ≡ 15
length-clock hour min sec us h i s u = omega (
  arith,
  length-append (print_unsigned 48 2 hour) (
      b':'
      ∷ (print_unsigned 48 2 min
          ++ (b':' ∷ (print_unsigned 48 2 sec ++ (b'.' ∷ print_unsigned 48 6 us))))),
  length-append (print_unsigned 48 2 min)
      (b':' ∷ (print_unsigned 48 2 sec ++ (b'.' ∷ print_unsigned 48 6 us))),
  length-append (print_unsigned 48 2 sec) (b'.' ∷ print_unsigned 48 6 us),
  length-print_unsigned 48 1 hour h,
  length-print_unsigned 48 1 min i,
  length-print_unsigned 48 1 sec s,
  length-print_unsigned 48 5 us u,
)

get_elem?-append :
    (xs : List ℕ) (y : ℕ) (ys : List ℕ) (n : ℕ)
    → n ≡ length xs
    → get_elem? (xs ++ y ∷ ys) n ≡ some y
get_elem?-append [] y ys zero h = refl
get_elem?-append [] y ys (suc n) h = absurd (omega arith)
get_elem?-append (x ∷ xs) y ys zero h = absurd (omega arith)
get_elem?-append (x ∷ xs) y ys (suc n) h = get_elem?-append xs y ys n (omega arith)

-- The first digit of the hour stands behind the date.
hour_digit :
    (year mon mday hour min sec us : ℕ)
    → year < 10000
    → mon < 100
    → mday < 100
    → hour < 100
    → get_elem? (date_and_time year mon mday hour min sec us) 11 ≡ some (48 + hour / 10)
unfolding date_and_time
hour_digit year mon mday hour min sec us y m d h =
    ap
      (λ l.
        get_elem?
          (date year mon mday
            ++ (l
                ++ (b':'
                    ∷ (print_unsigned 48 2 min
                        ++ (b':' ∷ (print_unsigned 48 2 sec ++ (b'.' ∷ print_unsigned 48 6 us)))))))
          11)
      (two_digits hour h)
    ∙ get_elem?-append (date year mon mday) (48 + hour / 10) _ 11
        (sym (length-date year mon mday y m d))

-- Nothing is cut off.
whole_text :
    (year mon mday hour min sec us : ℕ)
    → year < 10000
    → mon < 100
    → mday < 100
    → hour < 100
    → min < 100
    → sec < 100
    → us < 1000000
    → take 26 (date_and_time year mon mday hour min sec us)
      ≡ date_and_time year mon mday hour min sec us
unfolding date_and_time
whole_text year mon mday hour min sec us y m d h i s u =
    take_all 26 (date_and_time year mon mday hour min sec us) (
      omega (
        arith,
        length-append (date year mon mday) (clock hour min sec us),
        length-date year mon mday y m d,
        length-clock hour min sec us h i s u,
      ))

some_inj : (a b : ℕ) → ◌≡◌ {A = Option ℕ} (some a) (some b) → a ≡ b
some_inj a b e = cc e

module _ (gmtime : ℕ → Tm) (g : IsGmtime gmtime) (t : ℕ) where
  abbrev secs : ℕ
  secs = t / micro_seconds_per_second

  abbrev us : ℕ
  us = t % micro_seconds_per_second

  -- All of the text is there.
  printed :
      secs + 28800 < 253402300800
      → to_string gmtime t
        ≡ date_and_time
            ((gmtime secs).tm_year + 1900)
            ((gmtime secs).tm_mon + 1)
            (gmtime secs).tm_mday
            ((gmtime secs).tm_hour + 8)
            (gmtime secs).tm_min
            (gmtime secs).tm_sec
            us
  unfolding to_string
  printed small =
      whole_text ((gmtime secs).tm_year + 1900) ((gmtime secs).tm_mon + 1) (gmtime secs).tm_mday
        ((gmtime secs).tm_hour + 8) (gmtime secs).tm_min (gmtime secs).tm_sec us
        (g.year_small secs (omega arith)) (omega (arith, g.mon_small secs))
        (omega (arith, g.mday_small secs)) (omega (arith, g.hour secs)) (omega (arith, g.min secs))
        (omega (arith, g.sec secs)) (omega arith)

  -- The same day.
  early :
      secs / 3600 % 24 < 16
      → date_and_time
          ((gmtime secs).tm_year + 1900)
          ((gmtime secs).tm_mon + 1)
          (gmtime secs).tm_mday
          ((gmtime secs).tm_hour + 8)
          (gmtime secs).tm_min
          (gmtime secs).tm_sec
          us
        ≡ text_of (gmtime (secs + 28800)) us
  early h =
      let day : secs / 86400 ≡ (secs + 28800) / 86400 = omega arith in
      let hour : (gmtime secs).tm_hour + 8 ≡ (gmtime (secs + 28800)).tm_hour =
        omega (arith, g.hour secs, g.hour (secs + 28800)) in
      let min : (gmtime secs).tm_min ≡ (gmtime (secs + 28800)).tm_min =
        omega (arith, g.min secs, g.min (secs + 28800)) in
      let sec : (gmtime secs).tm_sec ≡ (gmtime (secs + 28800)).tm_sec =
        omega (arith, g.sec secs, g.sec (secs + 28800)) in
      cc (
        g.year_of_day secs (secs + 28800) day,
        g.mon_of_day secs (secs + 28800) day,
        g.mday_of_day secs (secs + 28800) day,
        hour,
        min,
        sec,
      )

  -- The hour is from 24 to 31 otherwise.
  late :
      secs + 28800 < 253402300800
      → to_string gmtime t ≡ text_of (gmtime (secs + 28800)) us
      → (gmtime secs).tm_hour + 8 < 24
  late small e =
      let n = secs + 28800 in
      let digits : 48 + ((gmtime secs).tm_hour + 8) / 10 ≡ 48 + (gmtime n).tm_hour / 10 =
        some_inj _ _ (
          sym (
            hour_digit ((gmtime secs).tm_year + 1900) ((gmtime secs).tm_mon + 1)
              (gmtime secs).tm_mday ((gmtime secs).tm_hour + 8) (gmtime secs).tm_min
              (gmtime secs).tm_sec us (g.year_small secs (omega arith))
              (omega (arith, g.mon_small secs)) (omega (arith, g.mday_small secs))
              (omega (arith, g.hour secs)))
          ∙ ap (λ l. get_elem? l 11) (sym (printed small) ∙ e)
          ∙ hour_digit ((gmtime n).tm_year + 1900) ((gmtime n).tm_mon + 1) (gmtime n).tm_mday
              (gmtime n).tm_hour (gmtime n).tm_min (gmtime n).tm_sec us (g.year_small n small)
              (omega (arith, g.mon_small n)) (omega (arith, g.mday_small n))
              (omega (arith, g.hour n))) in
      omega (arith, digits, g.hour secs, g.hour n)

-- Up to the end of the year 9999, `ToString` prints the time of UTC+8 exactly when the hour of UTC is below
-- 16; from 16:00 UTC on its text is not that of this time, since the 8 hours are added to the hour alone.
pub to_string_lem :
    (gmtime : ℕ → Tm) (g : IsGmtime gmtime) (t : ℕ)
    → t / micro_seconds_per_second + 28800 < 253402300800
    → (to_string gmtime t
        ≡ text_of (gmtime (t / micro_seconds_per_second + 28800)) (t % micro_seconds_per_second))
      ↔ (t / micro_seconds_per_second / 3600 % 24 < 16)
to_string_lem gmtime g t small = (
  λ e. omega (arith, late gmtime g t small e, g.hour (t / micro_seconds_per_second)),
  λ h. printed gmtime g t small ∙ early gmtime g t h,
)
