-- ===== src/Logger/Filter.antt =====
-- Which lines src/logger/Logger.cc hands to its appender.
use jerry.Base.{
  ℕ, ◌+◌, ◌≤◌, ◌/◌, ◌≡◌, ◌∙◌, refl, sym, Bool, true, false, List, [], ◌∷◌, ◌++◌, length, drop,
  length-append, length-drop, ltb, if◌then◌else◌, append-nil, append_assoc, arith, Bool-cases, inl,
  inr,
}
use jerry.Logger.Log.{
  LogLevel, value, six_digits, format_now_string, Logger, LogCall, line, is_fatal, log, run_log,
}

-- The calls that are not below the level, to the first that is fatal.
unfoldable pub admitted : LogLevel → List LogCall → List LogCall
admitted level [] = []
admitted level (c ∷ cs) =
    let rest = admitted level cs in
    if ltb (value c.level) (value level)
    then rest
    else if is_fatal c.level
    then c ∷ []
    else c ∷ rest

-- The line of a call, and after a fatal one the line on the error.
unfoldable pub lines : List LogCall → List (List ℕ)
lines [] = []
lines (c ∷ cs) =
    let rest = lines cs in if is_fatal c.level then line c ∷ c.err_msg ∷ rest else line c ∷ rest

unfoldable pub any_fatal : List LogCall → Bool
any_fatal [] = false
any_fatal (c ∷ cs) = if is_fatal c.level then true else any_fatal cs

run_log_aborted : (cs : List LogCall) (l : Logger) → l.aborted ≡ true → run_log cs l ≡ l
unfolding run_log
run_log_aborted [] l h = refl
run_log_aborted (c ∷ cs) l h = simp h refl

-- The appender gets the lines of the calls that are not below the level, in order, to the first fatal one; after
-- this one the line on the error, and the process aborts, which it does for nothing else.
pub run_log_lem :
    (cs : List LogCall) (l : Logger)
    → l.aborted ≡ false
    → ((run_log cs l).appended ≡ l.appended ++ lines (admitted l.global_level cs))
      × ((run_log cs l).aborted ≡ any_fatal (admitted l.global_level cs))
unfolding run_log log admitted lines any_fatal
run_log_lem [] l h = (sym (append-nil l.appended), h)
run_log_lem (c ∷ cs) l h = elim (Bool-cases (ltb (value c.level) (value l.global_level))) [
  | inl below ↦ simp (h, below) (run_log_lem cs l h)
  | inr above ↦ elim (Bool-cases (is_fatal c.level)) [
    | inl end ↦
        let l' : Logger = record l {
          appended = (l.appended ++ line c ∷ []) ++ c.err_msg ∷ [];
          flushes = l.flushes + 1;
          aborted = true;
        } in
        simp (h, above, end, run_log_aborted cs l' refl)
          (append_assoc l.appended (line c ∷ []) (c.err_msg ∷ []), refl)
    | inr go ↦
        let l' : Logger = record l { appended = l.appended ++ line c ∷ []; aborted = false } in
        let (rest, ends) = run_log_lem cs l' refl in
        simp (h, above, go)
          (rest ∙ append_assoc l.appended (line c ∷ []) (lines (admitted l.global_level cs)), ends)
  ]
]

-- A line is as long as its message, if this has the place for the time that `LOG_BASE` leaves.
length-line :
    (c : LogCall)
    → length c.prefix_of_time ≡ 20
    → 27 ≤ length c.msg
    → length (line c) ≡ length c.msg
unfolding format_now_string
length-line c p h = omega (
  arith,
  length-append c.prefix_of_time (six_digits (c.usec / 1000) ++ 32 ∷ drop 27 c.msg),
  length-drop 27 c.msg,
)
