-- ===== src/Logger.antt =====
-- src/logger/AsyncFileAppender.h and AsyncFileAppender.cc: messages go to buffers in memory, and a
-- thread writes the buffers to the log file. Each critical section is one step; the steps of the
-- flush thread and of the callers come in any order. A null pointer that is used, and an index
-- outside a vector, is the fault `bad_access`.
pub mod Log
pub mod Filter
pub mod Buffers
pub mod Rounds
pub mod Lossless
pub mod Stopping
mod Tests
use jerry.Base.{
  ℕ, suc, ◌+◌, ◌-◌, ◌*◌, Bool, true, false, not, List, [], ◌∷◌, ◌++◌, Option, none, some, length,
  take, ltb, leb, if◌then◌else◌,
}
use jerry.Base.Result.{Result, ok, fault, bad_access, ◌>>=◌}

abbrev pub fixed_buffer_size : ℕ
fixed_buffer_size = 1024 * 1024 * 4

-- `FixedBuffer`, by the bytes between `data` and `cur`.
abbrev pub FixedBuffer : Type 0
FixedBuffer = List ℕ

abbrev pub available_bytes : FixedBuffer → ℕ
available_bytes b = fixed_buffer_size - length b

-- `FixedBuffer::Append`: what does not fit is dropped.
unfoldable pub append_bytes : List ℕ → FixedBuffer → FixedBuffer
append_bytes msg b = if leb (length msg) (available_bytes b) then b ++ msg else b

-- Where the flush thread is: before the test of `stop`, before its critical section, before the
-- writes, or at its end.
pub data Phase : Type 0 where
  at_test at_lock at_write ended : Phase

-- The object, and the local variables of `FlushThread`. `none` is a null `unique_ptr`.
pub record AsyncFileAppender : Type 0 where
  pub cur_buffer : Option FixedBuffer
  pub next_buffer : Option FixedBuffer
  pub fulled_buffers : List (Option FixedBuffer)
  pub stop : Bool
  pub phase : Phase
  pub tmp_buffer1 : Option FixedBuffer
  pub tmp_buffer2 : Option FixedBuffer
  pub buffers_to_write : List (Option FixedBuffer)
  pub log_file : List ℕ

abbrev pub new_appender : AsyncFileAppender
new_appender = record {
  cur_buffer = some [];
  next_buffer = some [];
  fulled_buffers = [];
  stop = false;
  phase = at_test;
  tmp_buffer1 = some [];
  tmp_buffer2 = some [];
  buffers_to_write = [];
  log_file = [];
}

abbrev pub deref : Option FixedBuffer → Result FixedBuffer
deref none = fault bad_access
deref (some b) = ok b

abbrev pub or_fresh : Option FixedBuffer → FixedBuffer
or_fresh none = []
or_fresh (some b) = b

-- `Append`.
unfoldable pub append : List ℕ → AsyncFileAppender → Result AsyncFileAppender
unfolding append_bytes
append msg a = deref a.cur_buffer >>= λ cur.
    if leb (length msg) (available_bytes cur)
    then ok (record a { cur_buffer = some (append_bytes msg cur) })
    else ok (record a {
      fulled_buffers = a.fulled_buffers ++ a.cur_buffer ∷ [];
      cur_buffer = some (append_bytes msg (or_fresh a.next_buffer));
      next_buffer = none;
    })

abbrev pub or_else : Option FixedBuffer → Option FixedBuffer → Option FixedBuffer
or_else none o = o
or_else (some b) o = some b

abbrev pub left_of : Option FixedBuffer → Option FixedBuffer → Option FixedBuffer
left_of none o = none
left_of (some b) o = o

-- The critical section of `FlushThread`: all buffers are taken, and two fresh ones put in place.
unfoldable pub collect : AsyncFileAppender → AsyncFileAppender
collect a = record a {
  fulled_buffers = a.buffers_to_write;
  buffers_to_write = a.fulled_buffers ++ a.cur_buffer ∷ [];
  cur_buffer = a.tmp_buffer1;
  tmp_buffer1 = none;
  next_buffer = or_else a.next_buffer a.tmp_buffer2;
  tmp_buffer2 = left_of a.next_buffer a.tmp_buffer2;
  phase = at_write;
}

-- The bytes that the loop over `buffers_to_write` writes.
unfoldable pub write_all : List (Option FixedBuffer) → Result (List ℕ)
write_all [] = ok []
write_all (o ∷ os) = deref o >>= λ b. write_all os >>= λ rest. ok (b ++ rest)

-- `std::move(v[i])`, then `Reset`, where the pointer is null.
abbrev pub reuse : Option FixedBuffer → List (Option FixedBuffer) → Result (Option FixedBuffer)
reuse (some b) os = ok (some b)
reuse none [] = fault bad_access
reuse none (o ∷ os) = deref o >>= λ _. ok (some [])

abbrev pub tail : List (Option FixedBuffer) → List (Option FixedBuffer)
tail [] = []
tail (o ∷ os) = os

-- The rest of the round. `resize(2)` keeps the first two buffers; `buffers_to_write[0]` and `[1]` are
-- the heads of the list and of its tail.
unfoldable pub write_out : AsyncFileAppender → Result AsyncFileAppender
unfolding write_all
write_out a = write_all a.buffers_to_write >>= λ bytes.
    let kept =
      if ltb 2 (length a.buffers_to_write) then take 2 a.buffers_to_write else a.buffers_to_write in
    reuse a.tmp_buffer1 kept >>= λ tmp1. reuse a.tmp_buffer2 (tail kept) >>= λ tmp2. ok (record a {
      log_file = a.log_file ++ bytes;
      tmp_buffer1 = tmp1;
      tmp_buffer2 = tmp2;
      buffers_to_write = [];
      phase = at_test;
    })

-- What the flush thread does next.
unfoldable pub flush_step : AsyncFileAppender → Result AsyncFileAppender
unfolding collect write_out
flush_step a = elim a.phase [
  | at_test ↦ ok (record a { phase = if a.stop then ended else at_lock })
  | at_lock ↦ ok (collect a)
  | at_write ↦ write_out a
  | ended ↦ ok a
]

-- A call of `Append`, the store to `stop` in `Stop`, and a step of the flush thread.
pub data Event : Type 0 where
  appends : List ℕ → Event
  stops : Event
  flushes : Event

unfoldable pub step : Event → AsyncFileAppender → Result AsyncFileAppender
step (appends msg) a = append msg a
step stops a = ok (record a { stop = true })
step flushes a = flush_step a

unfoldable pub run : List Event → AsyncFileAppender → Result AsyncFileAppender
unfolding step
run [] a = ok a
run (e ∷ es) a = step e a >>= run es
