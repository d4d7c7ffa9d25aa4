-- ===== src/Startup/Rules.antt =====
-- What a sequence of the calls of src/net/IOWorker.cc's constructors comes to, put together from its parts.
use jerry.Base.{
  ℕ, zero, suc, ◌⊎◌, inl, inr, Option, Option-cases, Bool-cases, Bool, true, false, List, [], ◌∷◌,
  ◌++◌, ◌≡◌, refl, sym, subst, none, some,
}
use jerry.Startup.{
  Call, get_flags, get_fd_flags, set_nonblock, set_cloexec, reuse_addr, reuse_port, epoll_add,
  epoll_mod, Os, Outcome, done, fatal, asserted, Sys, ◌>>=◌, open_null, must, assert, is_positive,
  is_open,
}

-- The calls whose failure nothing looks at.
abbrev pub is_optional : Call → Bool
is_optional open_null = true
is_optional (get_flags fd) = true
is_optional (get_fd_flags fd) = true
is_optional (set_nonblock fd) = true
is_optional (set_cloexec fd) = true
is_optional (reuse_addr fd) = true
is_optional (reuse_port fd) = true
is_optional (epoll_add poller fd) = true
is_optional (epoll_mod poller fd) = true
is_optional c = false

-- Calls that were made in this order: each one succeeded or was optional.
pub data Passed (os : Os) : List Call → Type 0 where
  nothing : Passed os []
  answered :
      {l : List Call} {c : Call} {r : ℕ}
      → Passed os l
      → os.answer l c ≡ some r
      → Passed os (l ++ c ∷ [])
  tried : {l : List Call} (c : Call) → Passed os l → is_optional c ≡ true → Passed os (l ++ c ∷ [])

-- How a constructor can end: with everything made; at the first call that fails; or, in a build with
-- assertions, after a call that gave the descriptor 0, or could not open the reserve.
abbrev pub Ends : {A : Type 0} → Os → (A → List Call → Type 0) → Outcome A → Type 0
Ends os P (done a l) = Passed os l × P a l
Ends os P (fatal l) =
    (before : List Call) × (c : Call) × (l ≡ before ++ c ∷ [])
    × Passed os before
    × (os.answer before c ≡ none)
Ends os P (asserted l) =
    (before : List Call) × (c : Call) × (os.has_assertions ≡ true)
    × ((os.answer before c ≡ some 0) ⊎ ((c ≡ open_null) × (os.answer before c ≡ none)))

-- The calls after some that were made already.
abbrev pub made : List Call → List Call → List Call
made l [] = l
made l (c ∷ cs) = made (l ++ c ∷ []) cs

module _ {A : Type 0} (os : Os) (Q : A → List Call → Type 0) (l : List Call) where
  pub must_then :
      (c : Call) (k : ℕ → Sys A)
      → Passed os l
      → ((r : ℕ) → os.answer l c ≡ some r → Ends os Q (k r os (l ++ c ∷ [])))
      → Ends os Q ((must c >>= k) os l)
  must_then c k p h = elim (Option-cases (os.answer l c)) [
    | inl e ↦ rw (Ends, ◌>>=◌, must, e) (l, c, refl, p, e)
    | inr (r, e) ↦ rw (Ends, ◌>>=◌, must, e) (h r e)
  ]

  -- A descriptor is checked that an earlier call gave.
  pub assert_then :
      {before : List Call} {c : Call} {fd : ℕ} (k : Unit {0} → Sys A)
      → os.answer before c ≡ some fd
      → Ends os Q (k tt os l)
      → Ends os Q ((assert (is_positive fd) >>= k) os l)
  assert_then {before} {c} {fd = zero} k e h = elim (Bool-cases os.has_assertions) [
    | inl checks ↦ rw (Ends, ◌>>=◌, assert, checks) (before, c, checks, inl e)
    | inr skips ↦ rw (Ends, ◌>>=◌, assert, skips) h
  ]
  assert_then {fd = suc n} k e h = elim (Bool-cases os.has_assertions) [
    | inl checks ↦ rw (Ends, ◌>>=◌, assert, checks) h
    | inr skips ↦ rw (Ends, ◌>>=◌, assert, skips) h
  ]

  -- The same for the reserve, which may not be there.
  pub assert_open_then :
      {before : List Call} (o : Option ℕ) (k : Unit {0} → Sys A)
      → os.answer before open_null ≡ o
      → Ends os Q (k tt os l)
      → Ends os Q ((assert (is_open o) >>= k) os l)
  assert_open_then {before} none k e h = elim (Bool-cases os.has_assertions) [
    | inl checks ↦ rw (Ends, ◌>>=◌, assert, checks) (before, open_null, checks, inr (refl, e))
    | inr skips ↦ rw (Ends, ◌>>=◌, assert, skips) h
  ]
  assert_open_then (some fd) k e h = assert_then k e h

-- A part that makes certain calls where it ends well.
abbrev pub Makes : {B : Type 0} → Os → List Call → Sys B → (B → List Call) → Type 0
Makes os l m cs = Ends os (λ b l'. l' ≡ made l (cs b)) (m os l)

module _ {A B : Type 0} (os : Os) (Q : A → List Call → Type 0) (l : List Call) where
  after :
      (P : B → List Call → Type 0) (o : Outcome B) (k : B → Sys A)
      → Ends os P o
      → ((b : B) (l' : List Call) → Passed os l' → P b l' → Ends os Q (k b os l'))
      → Ends os Q (((λ os' l'. o) >>= k) os l)
  after P (done b l') k (p, q) h = h b l' p q
  after P (fatal l') k f h = f
  after P (asserted l') k f h = f

  pub result_then :
      (P : B → List Call → Type 0) (m : Sys B) (k : B → Sys A)
      → Ends os P (m os l)
      → ((b : B) (l' : List Call) → Passed os l' → P b l' → Ends os Q (k b os l'))
      → Ends os Q ((m >>= k) os l)
  result_then P m k = after P (m os l) k

  pub part_then :
      (cs : B → List Call) (m : Sys B) (k : B → Sys A)
      → Makes os l m cs
      → ((b : B) → Passed os (made l (cs b)) → Ends os Q (k b os (made l (cs b))))
      → Ends os Q ((m >>= k) os l)
  part_then cs m k ends h =
      result_then (λ b l'. l' ≡ made l (cs b)) m k ends
        λ b l' p e. subst (λ x. Ends os Q (k b os x)) (sym e) (h b (subst (Passed os) e p))

pub made-append : (l cs ds : List Call) → made l (cs ++ ds) ≡ made (made l cs) ds
made-append l [] ds = refl
made-append l (c ∷ cs) ds = made-append (l ++ c ∷ []) cs ds
