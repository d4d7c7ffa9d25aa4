-- ===== src/Http/Headers.antt =====
-- `HttpReq::Headers` of src/proto/http/HttpReq.h: a `std::map` in the order of `strcasecmp`, as a list in
-- that order.
use Prim.Native.Nat.{compare, Ordering}
use jerry.Base.{
  ℕ, ◌+◌, ◌≡◌, ◌≢◌, refl, ap, Bool, true, false, ◌&&◌, List, [], ◌∷◌, Option, none, some, map,
  arith, leb, if◌then◌else◌, beq, take_until, beq_refl, eq_of_beq, sym, Bool-cases, inl, inr,
}

-- `tolower` in the C locale.
abbrev lower : ℕ → ℕ
lower c = if leb 65 c && leb c 90 then c + 32 else c

-- What `strcasecmp` sees of a string: up to a zero byte, and in lower case.
unfoldable pub fold_case : List ℕ → List ℕ
fold_case s = map lower (take_until 0 s)

lex : List ℕ → List ℕ → Ordering
lex [] [] = Ordering.eq
lex [] (y ∷ ys) = Ordering.lt
lex (x ∷ xs) [] = Ordering.gt
lex (x ∷ xs) (y ∷ ys) =
    let rest = lex xs ys in
    elim (compare x y) [
      | Ordering.lt ↦ Ordering.lt
      | Ordering.eq ↦ rest
      | Ordering.gt ↦ Ordering.gt
    ]

-- `CaseInsensitiveComparator`
unfoldable pub less : List ℕ → List ℕ → Bool
unfolding lex fold_case
less a b = elim (lex (fold_case a) (fold_case b)) [
  | Ordering.lt ↦ true
  | Ordering.eq ↦ false
  | Ordering.gt ↦ false
]

abbrev pub Headers : Type 0
Headers = List (List ℕ × List ℕ)

-- `emplace`: an equivalent key that is there is kept, with its value.
unfoldable pub emplace : List ℕ → List ℕ → Headers → Headers
emplace k v [] = (k, v) ∷ []
emplace k v ((j, w) ∷ m) =
    if less k j
    then (k, v) ∷ (j, w) ∷ m
    else if less j k
    then (j, w) ∷ emplace k v m
    else (j, w) ∷ m

-- `find`: the entry whose key is neither less nor greater.
unfoldable pub find : List ℕ → Headers → Option (List ℕ)
find k [] = none
find k ((j, w) ∷ m) = if less j k then find k m else if less k j then none else some w

-- Two names that the map cannot tell apart.
abbrev pub same_name : List ℕ → List ℕ → Bool
same_name a b = beq (fold_case a) (fold_case b)

lex-same : (a b : List ℕ) → beq a b ≡ true → lex a b ≡ Ordering.eq
unfolding lex beq
lex-same [] [] h = refl
lex-same [] (y ∷ ys) h = cc h
lex-same (x ∷ xs) [] h = cc h
lex-same (x ∷ xs) (y ∷ ys) h = ground (arith, lex-same xs ys)

same-lex : (a b : List ℕ) → lex a b ≡ Ordering.eq → beq a b ≡ true
unfolding lex beq
same-lex [] [] h = refl
same-lex [] (y ∷ ys) h = cc h
same-lex (x ∷ xs) [] h = cc h
same-lex (x ∷ xs) (y ∷ ys) h = ground (arith, same-lex xs ys)

lex-flip : (a b : List ℕ) → lex a b ≡ Ordering.lt → lex b a ≡ Ordering.gt
unfolding lex
lex-flip [] [] h = cc h
lex-flip [] (y ∷ ys) h = refl
lex-flip (x ∷ xs) [] h = cc h
lex-flip (x ∷ xs) (y ∷ ys) h = ground (arith, lex-flip xs ys)

flip-lex : (a b : List ℕ) → lex a b ≡ Ordering.gt → lex b a ≡ Ordering.lt
unfolding lex
flip-lex [] [] h = cc h
flip-lex [] (y ∷ ys) h = cc h
flip-lex (x ∷ xs) [] h = refl
flip-lex (x ∷ xs) (y ∷ ys) h = ground (arith, flip-lex xs ys)

lex_trans : (a b c : List ℕ) → lex a b ≡ Ordering.lt → lex b c ≡ Ordering.lt → lex a c ≡ Ordering.lt
unfolding lex
lex_trans [] [] c h k = cc
lex_trans [] (y ∷ ys) [] h k = cc k
lex_trans [] (y ∷ ys) (z ∷ zs) h k = refl
lex_trans (x ∷ xs) [] c h k = cc h
lex_trans (x ∷ xs) (y ∷ ys) [] h k = cc k
lex_trans (x ∷ xs) (y ∷ ys) (z ∷ zs) h k = ground (arith, lex_trans xs ys zs)

-- The three ways in which two folded names compare.
data Compared (a b : List ℕ) : Type 0 where
  before : lex a b ≡ Ordering.lt → lex b a ≡ Ordering.gt → Compared a b
  same : a ≡ b → lex a b ≡ Ordering.eq → lex b a ≡ Ordering.eq → Compared a b
  after : lex a b ≡ Ordering.gt → lex b a ≡ Ordering.lt → Compared a b

compared : (a b : List ℕ) → Compared a b
compared a b = go (lex a b) refl
  where
    go : (o : Ordering) → lex a b ≡ o → Compared a b
    go Ordering.lt e = before e (lex-flip a b e)
    go Ordering.eq e =
        let p = eq_of_beq a b (same-lex a b e) in same p e (lex-same b a (rw (sym p) (beq_refl a)))
    go Ordering.gt e = after e (flip-lex a b e)

-- A value that was there, or else `v` if the names are the same.
abbrev pub or_new : Bool → List ℕ → Option (List ℕ) → Option (List ℕ)
or_new is_same v (some w) = some w
or_new is_same v none = if is_same then some v else none

or_new_other : (v : List ℕ) (o : Option (List ℕ)) → or_new false v o ≡ o
or_new_other v none = refl
or_new_other v (some w) = refl

same_name-eq : (k j : List ℕ) → fold_case k ≡ fold_case j → same_name k j ≡ true
same_name-eq k j e = rw e (beq_refl (fold_case j))

same_name-lex :
    (k j : List ℕ) → lex (fold_case k) (fold_case j) ≢ Ordering.eq → same_name k j ≡ false
same_name-lex k j h = elim (Bool-cases (same_name k j)) [
  | inl e ↦ absurd (h (lex-same (fold_case k) (fold_case j) e))
  | inr e ↦ e
]

-- `emplace` adds its value for every spelling of the name unless one was there, which stays; what
-- is found under other names does not change.
pub find-emplace :
    (j k v : List ℕ) (m : Headers) → find j (emplace k v m) ≡ or_new (same_name k j) v (find j m)
unfolding find emplace less
find-emplace j k v [] = elim (compared (fold_case k) (fold_case j)) [
  | before e f ↦ ground (arith, same_name-lex k j)
  | same p e f ↦ ground (arith, same_name-eq k j p)
  | after e f ↦ ground (arith, same_name-lex k j)
]
find-emplace j k v ((i, w) ∷ m) = elim (compared (fold_case k) (fold_case j)) [
  | before e f ↦ ground (
    arith,
    same_name-lex k j,
    or_new_other v (find j ((i, w) ∷ m)),
    find-emplace j k v m,
    lex-flip (fold_case k) (fold_case i),
    or_new_other v (find j m),
  )
  | same p e f ↦ ground (
    arith,
    same_name-eq k j p,
    ap (λ x. lex x (fold_case i)) p,
    ap (lex (fold_case i)) p,
    find-emplace j k v m,
    lex-flip (fold_case k) (fold_case i),
    flip-lex (fold_case k) (fold_case i),
  )
  | after e f ↦ ground (
    arith,
    same_name-lex k j,
    or_new_other v (find j m),
    find-emplace j k v m,
    lex-flip (fold_case k) (fold_case i),
    flip-lex (fold_case k) (fold_case i),
    lex_trans (fold_case j) (fold_case k) (fold_case i),
    lex-flip (fold_case j) (fold_case i),
  )
]
