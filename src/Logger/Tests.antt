-- ===== src/Logger/Tests.antt =====
-- The appender's theorems at small inputs.
use jerry.Base.{codes, false, ◌++◌, ◌≡◌, refl, true, List, [], ◌∷◌, some, inl}
use jerry.Logger.Log.{
  LogLevel, debug, info, warn, error, fatal, get_log_level_string, LogCall, Logger,
}
use jerry.Base.Result.{ok}
use jerry.Logger.{AsyncFileAppender, Event, appends, stops, flushes, run, new_appender, at_test}
use jerry.Logger.Buffers.{Inv, stored}
use jerry.Logger.Stopping.{stop_drops}
use jerry.Logger.Lossless.{given, run_lossless}

abbrev some_events : List Event
some_events =
    appends (1 ∷ 2 ∷ []) ∷ flushes ∷ flushes ∷ appends (3 ∷ []) ∷ flushes ∷ stops ∷ flushes ∷ []

run_lossless_example :
    (a : AsyncFileAppender) × (run some_events new_appender ≡ ok a) × (stored a ≡ given some_events)
run_lossless_example = run_lossless some_events

-- A message has been appended, and `Stop` called, before the first round of the flush thread.
abbrev unwritten : AsyncFileAppender
unwritten = record new_appender { cur_buffer = some (1 ∷ 2 ∷ []); stop = true }

unwritten-Inv : Inv at_test unwritten
unwritten-Inv = record {
  at = refl;
  cur = (1 ∷ 2 ∷ [], refl);
  fulled = tt;
  next = inl refl;
  owns = (refl, refl, refl);
}

stop_drops_example :
    (b : AsyncFileAppender) × (run (flushes ∷ flushes ∷ []) unwritten ≡ ok b)
    × (b.log_file ≡ unwritten.log_file)
stop_drops_example = stop_drops (flushes ∷ flushes ∷ []) unwritten unwritten-Inv refl

-- Something at each level, the last after a fatal one.
abbrev call_at : LogLevel → LogCall
call_at level = record {
  level = level;
  msg = codes "0000-00-00 00:00:00.000000 " ++ (get_log_level_string level ++ codes " a.cc:1 - x");
  prefix_of_time = codes "2022-03-14 10:00:00.";
  usec = 123456;
  err_msg = codes "Terminate reason: none";
}

abbrev some_calls : List LogCall
some_calls = call_at debug ∷ call_at warn ∷ call_at info ∷ call_at fatal ∷ call_at error ∷ []

abbrev at_info : Logger
at_info = record { global_level = info; appended = []; flushes = 0; aborted = false }
