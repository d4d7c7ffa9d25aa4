-- ===== src/Logger/Buffers.antt =====
-- The invariant of the appender, and `Append` of src/logger/AsyncFileAppender.cc.
use jerry.Base.{
  ℕ, ◌≤◌, ◌≡◌, ◌⊎◌, ◌∙◌, refl, sym, ap, true, List, [], ◌∷◌, ◌++◌, Option, none, some, length, leb,
  arith, if◌then◌else◌, length-append, append_assoc, append-nil, Bool-cases, inl, inr, leb→le,
  le→leb,
}
use jerry.Base.Result.{Result, ok}
use jerry.Logger.{
  AsyncFileAppender, FixedBuffer, Phase, at_test, at_lock, at_write, ended, append, append_bytes,
  write_all, or_fresh, available_bytes, fixed_buffer_size,
}

-- All buffers of a list are there.
abbrev pub AllThere : List (Option FixedBuffer) → Type 0
AllThere [] = Unit {0}
AllThere (none ∷ os) = ⊥
AllThere (some b ∷ os) = AllThere os

abbrev pub bytes : List (Option FixedBuffer) → List ℕ
bytes [] = []
bytes (o ∷ os) = or_fresh o ++ bytes os

pub AllThere-append :
    (os : List (Option FixedBuffer)) (b : FixedBuffer) → AllThere os → AllThere (os ++ some b ∷ [])
AllThere-append [] b h = tt
AllThere-append (none ∷ os) b h = h
AllThere-append (some x ∷ os) b h = AllThere-append os b h

pub bytes-append :
    (os : List (Option FixedBuffer)) (o : Option FixedBuffer)
    → bytes (os ++ o ∷ []) ≡ bytes os ++ or_fresh o
bytes-append [] o = append-nil (or_fresh o)
bytes-append (x ∷ os) o =
    ap (λ l. or_fresh x ++ l) (bytes-append os o)
    ∙ sym (append_assoc (or_fresh x) (bytes os) (or_fresh o))

pub write_all_lem : (os : List (Option FixedBuffer)) → AllThere os → write_all os ≡ ok (bytes os)
unfolding write_all
write_all_lem [] h = refl
write_all_lem (none ∷ os) h = absurd h
write_all_lem (some b ∷ os) h = let ih = write_all_lem os h in ground arith

-- What the flush thread owns, in each of its phases: `tmp_buffer1`, `tmp_Buffer2` and
-- `buffers_to_write`.
abbrev pub Owns :
    Phase → Option FixedBuffer → Option FixedBuffer → List (Option FixedBuffer) → Type 0
Owns at_write tmp1 tmp2 os =
    (tmp1 ≡ none)
    × AllThere os
    × (1 ≤ length os)
    × ((tmp2 ≡ some []) ⊎ (tmp2 ≡ none) × (2 ≤ length os))
Owns at_test tmp1 tmp2 os = (tmp1 ≡ some []) × (tmp2 ≡ some []) × (os ≡ [])
Owns at_lock tmp1 tmp2 os = (tmp1 ≡ some []) × (tmp2 ≡ some []) × (os ≡ [])
Owns ended tmp1 tmp2 os = (tmp1 ≡ some []) × (tmp2 ≡ some []) × (os ≡ [])

pub record Inv (p : Phase) (a : AsyncFileAppender) : Type 0 where
  pub at : a.phase ≡ p
  pub cur : (b : FixedBuffer) × (a.cur_buffer ≡ some b)
  pub fulled : AllThere a.fulled_buffers
  pub next : (a.next_buffer ≡ some []) ⊎ (a.next_buffer ≡ none) × (1 ≤ length a.fulled_buffers)
  pub owns : Owns p a.tmp_buffer1 a.tmp_buffer2 a.buffers_to_write

-- All bytes that are in the file or on their way to it.
unfoldable pub stored : AsyncFileAppender → List ℕ
stored a =
    a.log_file ++ (bytes a.buffers_to_write ++ (bytes a.fulled_buffers ++ or_fresh a.cur_buffer))

-- The bytes that a message adds: none if it is longer than a buffer.
unfoldable pub fitting : List ℕ → List ℕ
fitting msg = if leb (length msg) fixed_buffer_size then msg else []

-- One step of `a` succeeds, keeps the invariant and adds `xs`.
abbrev pub Goes : List ℕ → AsyncFileAppender → Result AsyncFileAppender → Type 0
Goes xs a r =
    (p : Phase) × (b : AsyncFileAppender) × (r ≡ ok b) × Inv p b × (stored b ≡ stored a ++ xs)

fresh_bytes :
    (msg : List ℕ) (o : Option FixedBuffer)
    → (o ≡ some []) ⊎ (o ≡ none)
    → append_bytes msg (or_fresh o) ≡ fitting msg
unfolding append_bytes fitting
fresh_bytes msg o (inl e) = rw e refl
fresh_bytes msg o (inr e) = rw e refl

fits_bytes :
    (msg : List ℕ) (b : FixedBuffer)
    → leb (length msg) (available_bytes b) ≡ true
    → append_bytes msg b ≡ b ++ fitting msg
unfolding append_bytes fitting
fits_bytes msg b h =
    ground (arith, leb→le (length msg) (available_bytes b) h, le→leb (length msg) fixed_buffer_size)

-- Bytes added at the end of the current buffer are added to all that is stored.
stored_end :
    (a : AsyncFileAppender) (cur xs new : List ℕ)
    → a.cur_buffer ≡ some cur
    → new ≡ cur ++ xs
    → a.log_file ++ (bytes a.buffers_to_write ++ (bytes a.fulled_buffers ++ new)) ≡ stored a ++ xs
unfolding stored
stored_end a cur xs new e h =
    let f = a.log_file in
    let w = bytes a.buffers_to_write in
    let q = bytes a.fulled_buffers in
    rw (e, h)
      (sym (
        append_assoc f (w ++ (q ++ cur)) xs
        ∙ ap (λ l. f ++ l)
            (append_assoc w (q ++ cur) xs ∙ ap (λ l. w ++ l) (append_assoc q cur xs))))

blank_or_none :
    (o : Option FixedBuffer) (P : Type 0)
    → (o ≡ some []) ⊎ (o ≡ none) × P
    → (o ≡ some []) ⊎ (o ≡ none)
blank_or_none o P (inl e) = inl e
blank_or_none o P (inr (e, h)) = inr e

pub append-Goes :
    (p : Phase) (msg : List ℕ) (a : AsyncFileAppender)
    → Inv p a
    → Goes (fitting msg) a (append msg a)
unfolding append stored
append-Goes p msg a i =
    let (cur, e) = i.cur in
    elim (Bool-cases (leb (length msg) (available_bytes cur))) [
      | inl fits ↦ (
        p,
        record a { cur_buffer = some (append_bytes msg cur) },
        ground arith,
        record {
          at = i.at;
          cur = (append_bytes msg cur, refl);
          fulled = i.fulled;
          next = i.next;
          owns = i.owns;
        },
        stored_end a cur (fitting msg) (append_bytes msg cur) e (fits_bytes msg cur fits),
      )
      | inr full ↦
          let new = append_bytes msg (or_fresh a.next_buffer) in
          let fresh =
            fresh_bytes msg a.next_buffer
              (blank_or_none a.next_buffer (1 ≤ length a.fulled_buffers) i.next) in
          (
            p,
            record a {
              fulled_buffers = a.fulled_buffers ++ a.cur_buffer ∷ [];
              cur_buffer = some new;
              next_buffer = none;
            },
            ground arith,
            record {
              at = i.at;
              cur = (new, refl);
              fulled = rw e (AllThere-append a.fulled_buffers cur i.fulled);
              next = inr (refl, omega (arith, length-append a.fulled_buffers (a.cur_buffer ∷ [])));
              owns = i.owns;
            },
            ap (λ l. a.log_file ++ (bytes a.buffers_to_write ++ (l ++ new)))
                  (bytes-append a.fulled_buffers a.cur_buffer)
                ∙ ap (λ l. a.log_file ++ (bytes a.buffers_to_write ++ l))
                    (append_assoc (bytes a.fulled_buffers) (or_fresh a.cur_buffer) new)
                ∙ stored_end a cur (fitting msg) (or_fresh a.cur_buffer ++ new) e
                    (rw e (ap (λ l. cur ++ l) fresh)),
          )
    ]
