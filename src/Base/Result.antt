-- ===== src/Base/Result.antt =====
-- How a call of the program ends: with a value, or in one of the ways that C++ gives no value for.

pub data Fault : Type 0 where
  -- a read outside the vector
  bad_access : Fault
  -- `std::map::at` on a missing key, which nothing catches
  missing_key : Fault
  -- `std::any_cast` to another type than that of the value, which nothing catches
  bad_cast : Fault
  -- a failed `assert`
  assertion : Fault
  -- an iterator loop that leaves the vector
  runaway : Fault
  -- the model's fuel, shown to suffice
  out_of_fuel : Fault

pub data Result {ℓ} (A : Type ℓ) : Type ℓ where
  ok : A → Result A
  fault : Fault → Result A

infixl 5 ◌>>=◌
abbrev pub ◌>>=◌ {ℓ κ} : {A : Type ℓ} {B : Type κ} → Result A → (A → Result B) → Result B
ok a >>= f = f a
fault e >>= f = fault e

-- How a call ends whose loops come to an end: with a value, with an exception, by a read outside the
-- vector, or by a failed assertion.
pub data Ended {A : Type 0} : Result A → Type 0 where
  returns : (x : A) → Ended (ok x)
  throws : Ended (fault missing_key)
  reads_outside : Ended (fault bad_access)
  asserts : Ended (fault assertion)
