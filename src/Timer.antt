-- ===== src/Timer.antt =====
-- src/net/TimerQueue.h and TimerQueue.cc: the timers of one IOWorker. Times are microseconds since the
-- epoch; the clock goes on while an expired timer is handled, by what its task takes, and stands still
-- between the calls of the queue itself. `std::priority_queue` is a list with the greatest
-- timer in `TimerCmp` first; of equal timers the one that was pushed first is on top. A `TimerStruct` that
-- waits is reached through the queue and, by its id, through `timers_map`: the model keeps it in the
-- queue, and in the map its id. `-1` is `none`. All queues take their ids from one counter; the model
-- follows one queue.
pub mod Pop
pub mod Order
pub mod Agree
pub mod Budget
pub mod Cancel
pub mod Fires
mod Tests
use jerry.Base.{
  ℕ, suc, ◌+◌, ◌-◌, Bool, true, false, ◌&&◌, List, [], ◌∷◌, ◌++◌, Option, none, some, length, ltb,
  leb, ◌==◌, if◌then◌else◌, emplace, erase, has,
}
use jerry.Utils.{set_timer_fd, after_micro_seconds}

-- `TimerStruct`; whether there is a task and a stop condition, but not what they do.
pub record TimerStruct : Type 0 where
  pub has_task : Bool
  pub has_stop_condition : Bool
  pub canceled : Bool
  pub tid : Option ℕ
  pub expire : ℕ
  pub repeat_times : ℕ
  pub repeat_interval : ℕ

-- `TimerCmp`
unfoldable pub timer_cmp : TimerStruct → TimerStruct → Bool
timer_cmp lhs rhs = ltb lhs.expire rhs.expire

-- `emplace` of the priority queue.
unfoldable pub push : TimerStruct → List TimerStruct → List TimerStruct
unfolding timer_cmp
push t [] = t ∷ []
push t (u ∷ q) = if timer_cmp u t then t ∷ u ∷ q else u ∷ push t q

-- The object, the time for which the timer descriptor was last set, as seconds and nanoseconds, and the
-- ids of the timers whose tasks have been called, newest first.
pub record TimerQueue : Type 0 where
  pub waiting_timers : List TimerStruct
  pub timers_map : List ℕ
  pub timer_fd : Option (ℕ × ℕ)
  pub next_timer_id : ℕ
  pub called : List (Option ℕ)

abbrev pub new_queue : TimerQueue
new_queue = record {
  waiting_timers = [];
  timers_map = [];
  timer_fd = none;
  next_timer_id = 0;
  called = [];
}

unfoldable pub get_timer_nums : TimerQueue → ℕ
get_timer_nums s = length s.waiting_timers

-- `GetNextTimeout`
unfoldable pub get_next_timeout : ℕ → TimerQueue → Option ℕ
get_next_timeout now s = elim s.waiting_timers [ [] ↦ none | t ∷ q ↦ some (t.expire - now) ]

-- The loop of `PopExpiredTimers`, in which `i` grows and the queue shrinks: the timers that it pops,
-- and those that stay.
unfoldable pub pop_loop : ℕ → ℕ → List TimerStruct → List TimerStruct × List TimerStruct
pop_loop i now [] = ([], [])
pop_loop i now (t ∷ q) =
    let rest = pop_loop (suc i) now q in
    if ltb i (length (t ∷ q))
    then if ltb now t.expire then ([], t ∷ q) else (t ∷ rest.0, rest.1)
    else ([], t ∷ q)

unfoldable pub pop_expired_timers : ℕ → List TimerStruct → List TimerStruct × List TimerStruct
unfolding pop_loop
pop_expired_timers now q = pop_loop 0 now q

abbrev pub erase_tid : Option ℕ → List ℕ → List ℕ
erase_tid none m = m
erase_tid (some k) m = erase k m

unfoldable pub erase_all : List TimerStruct → List ℕ → List ℕ
erase_all [] m = m
erase_all (t ∷ ts) m = erase_all ts (erase_tid t.tid m)

-- `PopExpiredTimers` with its effect on the object.
unfoldable pub take_expired_timers : ℕ → TimerQueue → List TimerStruct × TimerQueue
take_expired_timers now s =
    let (popped, rest) = pop_expired_timers now s.waiting_timers in
    (popped, record s { waiting_timers = rest; timers_map = erase_all popped s.timers_map })

abbrev pub is_earlier : TimerStruct → List TimerStruct → Bool
is_earlier t [] = true
is_earlier t (u ∷ q) = ltb t.expire u.expire

abbrev pub id_or : ℕ → Option ℕ → ℕ
id_or n none = n
id_or n (some k) = k

abbrev pub id_after : ℕ → Option ℕ → ℕ
id_after n none = suc n
id_after n (some k) = n

-- `AddTimer(TimerStruct*)`
unfoldable pub add_timer : ℕ → TimerStruct → TimerQueue → Option ℕ × TimerQueue
add_timer now t s =
    if leb t.expire now
    then (none, s)
    else let id = id_or s.next_timer_id t.tid in
      (
        some id,
        record s {
          timer_fd =
              if is_earlier t s.waiting_timers
              then some (set_timer_fd (t.expire - now))
              else s.timer_fd;
          next_timer_id = id_after s.next_timer_id t.tid;
          waiting_timers = push (record t { tid = some id }) s.waiting_timers;
          timers_map = emplace id s.timers_map;
        },
      )

-- The three `AddTimer` of the interface make these timers.
abbrev pub timer_at : ℕ → TimerStruct
timer_at when = record {
  has_task = true;
  has_stop_condition = false;
  canceled = false;
  tid = none;
  expire = when;
  repeat_times = 0;
  repeat_interval = 0;
}

abbrev pub timer_repeated : ℕ → ℕ → ℕ → TimerStruct
timer_repeated now us repeat_times = record (timer_at (after_micro_seconds us now)) {
  repeat_times = repeat_times;
  repeat_interval = us;
}

abbrev pub timer_until : ℕ → ℕ → TimerStruct
timer_until now us = record (timer_at (after_micro_seconds us now)) {
  has_stop_condition = true;
  repeat_interval = us;
}

abbrev pub id_is : ℕ → Option ℕ → Bool
id_is k none = false
id_is k (some j) = j == k

-- `target->second->canceled = true`
unfoldable pub mark : ℕ → List TimerStruct → List TimerStruct
mark k [] = []
mark k (t ∷ q) = (if id_is k t.tid then record t { canceled = true } else t) ∷ mark k q

unfoldable pub cancel_timer : ℕ → TimerQueue → Bool × TimerQueue
unfolding mark
cancel_timer k s =
    if has k s.timers_map
    then (true, record s { waiting_timers = mark k s.waiting_timers })
    else (false, s)

-- A call of the interface, from the user or from a task.
pub data Call : Type 0 where
  adds_at : ℕ → Call
  adds_repeated : ℕ → ℕ → Call
  adds_until : ℕ → Call
  cancels : ℕ → Call

unfoldable pub do_call : ℕ → Call → TimerQueue → TimerQueue
unfolding add_timer cancel_timer
do_call now (adds_at when) s = (add_timer now (timer_at when) s).1
do_call now (adds_repeated us n) s = (add_timer now (timer_repeated now us n) s).1
do_call now (adds_until us) s = (add_timer now (timer_until now us) s).1
do_call now (cancels k) s = (cancel_timer k s).1

unfoldable pub do_calls : ℕ → List Call → TimerQueue → TimerQueue
unfolding do_call
do_calls now [] s = s
do_calls now (c ∷ cs) s = do_calls now cs (do_call now c s)

-- What the timers of an event do, by their ids: the answers of their stop conditions, the calls that their
-- tasks make, and the time that passes until the task has returned.
pub record Outside : Type 0 where
  pub stops : Option ℕ → Bool
  pub acts : Option ℕ → List Call
  pub lasts : Option ℕ → ℕ

-- `timer->task()`
unfoldable pub call_task : Outside → ℕ → TimerStruct → TimerQueue → TimerQueue
unfolding do_calls
call_task o now t s =
    if t.has_task then do_calls now (o.acts t.tid) (record s { called = t.tid ∷ s.called }) else s

-- The clock after the timer.
abbrev pub later : Outside → ℕ → TimerStruct → ℕ
later o now t = now + o.lasts t.tid

unfoldable pub handle_timer : Outside → ℕ → TimerStruct → TimerQueue → TimerQueue
unfolding call_task
handle_timer o now t s =
    if t.canceled
    then record s { timers_map = erase_tid t.tid s.timers_map }
    else if t.has_stop_condition && o.stops t.tid
    then record s { timers_map = erase_tid t.tid s.timers_map }
    else let s' = call_task o now t s in
      if ltb 0 t.repeat_times
      then (add_timer (later o now t)
          (record t {
            repeat_times = t.repeat_times - 1;
            expire = after_micro_seconds t.repeat_interval (later o now t);
          })
          s').1
      else s'

unfoldable pub handle_all : Outside → ℕ → List TimerStruct → TimerQueue → TimerQueue
unfolding handle_timer
handle_all o now [] s = s
handle_all o now (t ∷ ts) s = handle_all o (later o now t) ts (handle_timer o now t s)

abbrev pub rearmed : Option ℕ → Option (ℕ × ℕ) → Option (ℕ × ℕ)
rearmed none fd = fd
rearmed (some us) fd = some (set_timer_fd us)

unfoldable pub on_timeout : Outside → ℕ → TimerQueue → TimerQueue
unfolding take_expired_timers get_next_timeout
on_timeout o now s =
    let (expired_timers, s1) = take_expired_timers now s in
    let s2 : TimerQueue = record s1 { timer_fd = rearmed (get_next_timeout now s1) s1.timer_fd } in
    handle_all o now expired_timers s2

-- A call of the user, or the timer descriptor fires.
pub data Event : Type 0 where
  calls : ℕ → Call → Event
  fires : Outside → ℕ → Event

unfoldable pub step : Event → TimerQueue → TimerQueue
step (calls now c) s = do_call now c s
step (fires o now) s = on_timeout o now s

unfoldable pub run : List Event → TimerQueue → TimerQueue
unfolding step
run [] s = s
run (e ∷ es) s = run es (step e s)
