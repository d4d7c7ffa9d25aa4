-- ===== src/Channel/Interest.antt =====
-- What a channel asks of epoll: the event mask as two flags, and the kernel's view of it.
use jerry.Base.{
  ℕ, ◌+◌, ◌≡◌, refl, sym, subst, Bool, true, false, List, ◌∷◌, Option, some, ◌⊎◌, inl, inr, arith,
  if◌then◌else◌,
}
use jerry.Channel.{
  Channel, EpollCall, ctl_mod, is_activate_reading, is_activate_writing, activate_reading,
  deactivate_reading, activate_writing, deactivate_writing, activate_rw, deactivate_rw,
}

-- The six calls that change the interest.
pub data Change : Type 0 where
  reading_on reading_off writing_on writing_off both_on both_off : Change

unfoldable pub apply : Change → Channel → Channel
unfolding activate_reading deactivate_reading activate_writing deactivate_writing activate_rw
    deactivate_rw
apply reading_on c = activate_reading c
apply reading_off c = deactivate_reading c
apply writing_on c = activate_writing c
apply writing_off c = deactivate_writing c
apply both_on c = activate_rw c
apply both_off c = deactivate_rw c

-- What they mean for the two flags, read and write.
abbrev pub changed : Change → Bool → Bool → Bool × Bool
changed reading_on r w = (true, w)
changed reading_off r w = (false, w)
changed writing_on r w = (r, true)
changed writing_off r w = (r, false)
changed both_on r w = (true, true)
changed both_off r w = (false, false)

-- The mask of two flags.
abbrev pub mask : Bool → Bool → ℕ
mask r w = (if r then 3 else 0) + (if w then 4 else 0)

-- The flags of a channel are `r` and `w`.
pub record Asks (r w : Bool) (c : Channel) : Type 0 where
  pub bits : c.events ≡ mask r w

both_flags :
    (P : Bool → Bool → Type 0)
    → P true true
    → P true false
    → P false true
    → P false false
    → (r w : Bool) → P r w
both_flags P a b c d true true = a
both_flags P a b c d true false = b
both_flags P a b c d false true = c
both_flags P a b c d false false = d

module _ (calls : List EpollCall) (t : ℕ) where
  abbrev at : Bool → Bool → Channel
  at r w = record { events = mask r w; triggered_events = t; calls = calls }

  -- Holds by evaluation at each of the four masks.
  abbrev FlagsFollow : Change → Bool → Bool → Type 0
  FlagsFollow ch r w = (apply ch (at r w)).events ≡ mask (changed ch r w).0 (changed ch r w).1

  FlagsFollow-all : (ch : Change) (r w : Bool) → FlagsFollow ch r w
  unfolding apply
  FlagsFollow-all reading_on = both_flags (FlagsFollow reading_on) refl refl refl refl
  FlagsFollow-all reading_off = both_flags (FlagsFollow reading_off) refl refl refl refl
  FlagsFollow-all writing_on = both_flags (FlagsFollow writing_on) refl refl refl refl
  FlagsFollow-all writing_off = both_flags (FlagsFollow writing_off) refl refl refl refl
  FlagsFollow-all both_on = both_flags (FlagsFollow both_on) refl refl refl refl
  FlagsFollow-all both_off = both_flags (FlagsFollow both_off) refl refl refl refl

pub apply-Asks :
    (ch : Change) (r w : Bool) (c : Channel)
    → Asks r w c
    → Asks (changed ch r w).0 (changed ch r w).1 (apply ch c)
apply-Asks ch r w c a = record {
  bits =
      subst
        (λ e.
          (apply ch (record c { events = e })).events ≡ mask (changed ch r w).0 (changed ch r w).1)
        (sym a.bits) (FlagsFollow-all c.calls c.triggered_events ch r w);
}

-- A change either does nothing or tells epoll the new mask.
apply-calls :
    (ch : Change) (c : Channel)
    → (apply ch c ≡ c) ⊎ ((apply ch c).calls ≡ ctl_mod (apply ch c).events ∷ c.calls)
unfolding apply
apply-calls reading_on c = ground arith
apply-calls reading_off c = ground arith
apply-calls writing_on c = ground arith
apply-calls writing_off c = ground arith
apply-calls both_on c = ground arith
apply-calls both_off c = ground arith

-- What the code relies on of epoll: the mask that the calls made so far, newest first, have left for
-- the descriptor (`none` where it is not registered). EPOLL_CTL_MOD replaces it.
pub record Epoll : Type 0 where
  pub interest : List EpollCall → Option ℕ
  pub interest-mod :
      (m k : ℕ) (l : List EpollCall) → interest l ≡ some k → interest (ctl_mod m ∷ l) ≡ some m

-- The kernel knows the mask that the channel has.
abbrev pub Synced : Epoll → Channel → Type 0
Synced e c = e.interest c.calls ≡ some c.events

-- Each of the six calls, on a channel whose flags are `r` and `w` and whose mask the kernel has,
-- sets the two flags as it says and leaves the other alone, and the kernel has the new mask after
-- it, where EPOLL_CTL_MOD replaces the mask of a registered descriptor.
pub apply_lem :
    (e : Epoll) (ch : Change) (r w : Bool) (c : Channel)
    → Asks r w c
    → Synced e c
    → Asks (changed ch r w).0 (changed ch r w).1 (apply ch c) × Synced e (apply ch c)
apply_lem e ch r w c a s = (
  apply-Asks ch r w c a,
  elim (apply-calls ch c) [
    | inl same ↦ rw same s
    | inr told ↦ rw told (e.interest-mod (apply ch c).events c.events c.calls s)
  ],
)

-- The flags are what `IsActivateReading` and `IsActivateWriting` answer.
pub flags_lem :
    (r w : Bool) (c : Channel)
    → Asks r w c
    → (is_activate_reading c ≡ r) × (is_activate_writing c ≡ w)
unfolding is_activate_reading is_activate_writing
flags_lem true true c a = (rw (a.bits), rw (a.bits))
flags_lem true false c a = (rw (a.bits), rw (a.bits))
flags_lem false true c a = (rw (a.bits), rw (a.bits))
flags_lem false false c a = (rw (a.bits), rw (a.bits))
