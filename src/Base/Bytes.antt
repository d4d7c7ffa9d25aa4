-- ===== src/Base/Bytes.antt =====
-- Texts as lists of bytes: comparison, and the searches of <algorithm> that the parsers use.
use Prim.Native.Nat.{ℕ, suc}
use Prim.Native.Char.{code}
use Prim.Native.String.{String}
use mathlib.Core.Path.{◌≡◌, refl}
use mathlib.Core.Logic.{◌≢◌}
use mathlib.Core.Bool.{Bool, true, false, ◌&&◌}
use mathlib.Core.List.{List, [], ◌∷◌, ◌++◌}
use mathlib.Core.Option.{Option, none, some}
use native.Mathlib.Omega.{arith}
use jerry.Base.Tests.{◌==◌, if◌then◌else◌}
use jerry.Base.Lists.{length}

-- The code points of a literal.
abbrev pub codes : String → List ℕ
codes String.[] = []
codes (String.◌∷◌ c s) = code c ∷ codes s

unfoldable pub beq : List ℕ → List ℕ → Bool
beq [] [] = true
beq [] (y ∷ ys) = false
beq (x ∷ xs) [] = false
beq (x ∷ xs) (y ∷ ys) = (x == y) && beq xs ys

pub beq_refl : (xs : List ℕ) → beq xs xs ≡ true
unfolding beq
beq_refl [] = refl
beq_refl (x ∷ xs) = ground (arith, beq_refl xs)

pub eq_of_beq : (xs ys : List ℕ) → beq xs ys ≡ true → xs ≡ ys
unfolding beq
eq_of_beq [] [] h = refl
eq_of_beq [] (y ∷ ys) h = cc h
eq_of_beq (x ∷ xs) [] h = cc h
eq_of_beq (x ∷ xs) (y ∷ ys) h = ground (arith, eq_of_beq xs ys)

abbrev later : Option ℕ → Option ℕ
later none = none
later (some i) = some (suc i)

-- `std::find`: the offset of the first `c`, if there is one.
unfoldable pub index_of : ℕ → List ℕ → Option ℕ
index_of c [] = none
index_of c (x ∷ xs) = if x == c then some 0 else later (index_of c xs)

-- The bytes before the first `c`.
unfoldable pub take_until : ℕ → List ℕ → List ℕ
take_until c [] = []
take_until c (x ∷ xs) = if x == c then [] else x ∷ take_until c xs

-- No element is `c`.
abbrev pub Absent : ℕ → List ℕ → Type 0
Absent c [] = Unit {0}
Absent c (x ∷ xs) = (x ≢ c) × Absent c xs

pub index_of-append :
    (c : ℕ) (xs ys : List ℕ) → Absent c xs → index_of c (xs ++ c ∷ ys) ≡ some (length xs)
unfolding index_of
index_of-append c [] ys a = ground arith
index_of-append c (x ∷ xs) ys a = ground (arith, index_of-append c xs ys a.1)

pub Absent-append : (c : ℕ) (xs ys : List ℕ) → Absent c xs → Absent c ys → Absent c (xs ++ ys)
Absent-append c [] ys a b = b
Absent-append c (x ∷ xs) ys a b = (a.0, Absent-append c xs ys a.1 b)
