-- ===== src/Logger/Log.antt =====
-- src/logger/Logger.h and Logger.cc: the levels, and what goes to the appender. The date and time up to the
-- second, as `gmtime_r` and `snprintf` give them, are the text `prefix_of_time`. Messages hold no zero byte,
-- as `snprintf` makes them.
use jerry.Base.{
  ℕ, ◌+◌, ◌/◌, ◌%◌, Bool, true, false, List, [], ◌∷◌, ◌++◌, drop, codes, ltb, if◌then◌else◌,
}

pub data LogLevel : Type 0 where
  debug : LogLevel
  info : LogLevel
  warn : LogLevel
  error : LogLevel
  fatal : LogLevel

-- The values of the `enum`.
abbrev pub value : LogLevel → ℕ
value debug = 0
value info = 1
value warn = 2
value error = 3
value fatal = 4

unfoldable pub get_log_level_string : LogLevel → List ℕ
get_log_level_string debug = codes "[DEBUG]"
get_log_level_string info = codes "[INFO]"
get_log_level_string warn = codes "[WARN]"
get_log_level_string error = codes "[ERROR]"
get_log_level_string fatal = codes "[FATAL]"

-- `%06u` of a number below a million.
abbrev pub six_digits : ℕ → List ℕ
six_digits n =
    (48 + n / 100000 % 10)
    ∷ (48 + n / 10000 % 10)
    ∷ (48 + n / 1000 % 10)
    ∷ (48 + n / 100 % 10)
    ∷ (48 + n / 10 % 10)
    ∷ (48 + n % 10)
    ∷ []

-- `FormatNowString`: the first 27 bytes of the buffer are written.
unfoldable pub format_now_string : List ℕ → ℕ → List ℕ → List ℕ
format_now_string prefix_of_time usec buffer =
    prefix_of_time ++ (six_digits (usec / 1000) ++ 32 ∷ drop 27 buffer)

-- The global object: the level, what the appender was given, how often it was flushed, and whether `abort`
-- was called, after which nothing happens.
pub record Logger : Type 0 where
  pub global_level : LogLevel
  pub appended : List (List ℕ)
  pub flushes : ℕ
  pub aborted : Bool

unfoldable pub set_log_level : LogLevel → Logger → Logger
set_log_level level l = record l { global_level = level }

-- A call of `Log`, with the time that it shows, and the line on `errno` that it writes before it aborts.
pub record LogCall : Type 0 where
  pub level : LogLevel
  pub msg : List ℕ
  pub prefix_of_time : List ℕ
  pub usec : ℕ
  pub err_msg : List ℕ

abbrev pub line : LogCall → List ℕ
line c = format_now_string c.prefix_of_time c.usec c.msg

abbrev pub is_fatal : LogLevel → Bool
is_fatal level = elim level [
  | debug ↦ false
  | info ↦ false
  | warn ↦ false
  | error ↦ false
  | fatal ↦ true
]

unfoldable pub log : LogCall → Logger → Logger
unfolding format_now_string
log c l =
    if ltb (value c.level) (value l.global_level)
    then l
    else if is_fatal c.level
    then record l {
      appended = (l.appended ++ line c ∷ []) ++ c.err_msg ∷ [];
      flushes = l.flushes + 1;
      aborted = true;
    }
    else record l { appended = l.appended ++ line c ∷ [] }

unfoldable pub run_log : List LogCall → Logger → Logger
unfolding log
run_log [] l = l
run_log (c ∷ cs) l = let rest = run_log cs (log c l) in if l.aborted then l else rest
