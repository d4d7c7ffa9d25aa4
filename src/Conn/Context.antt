-- ===== src/Conn/Context.antt =====
-- `TcpContext` of src/net/TcpConn.h and TcpConn.cc: what the user keeps with a connection. A `std::map`,
-- as the list of its entries; their order is not seen from outside.
use jerry.Base.{
  ℕ, ◌≡◌, refl, List, [], ◌∷◌, Option, none, some, arith, beq, take_until, beq_refl, if◌then◌else◌,
  Absent,
}

abbrev pub TcpContext : Type 0 → Type 0
TcpContext A = List (List ℕ × A)

-- `context.find`, and the value found.
unfoldable pub find : {A : Type 0} → List ℕ → TcpContext A → Option A
find k [] = none
find k ((j, x) ∷ m) = if beq j k then some x else find k m

-- `Get`: the key ends at a zero byte.
unfoldable pub get : {A : Type 0} → List ℕ → TcpContext A → Option A
get k m = find (take_until 0 k) m

-- `Set`: `emplace` of the whole key.
unfoldable pub set : {A : Type 0} → List ℕ → A → TcpContext A → TcpContext A
set k x [] = (k, x) ∷ []
set k x ((j, y) ∷ m) = if beq j k then (j, y) ∷ m else (j, y) ∷ set k x m

abbrev pub or_else : {A : Type 0} → Option A → A → A
or_else none x = x
or_else (some y) x = y

find-set_same :
    {A : Type 0} (k : List ℕ) (x : A) (m : TcpContext A)
    → find k (set k x m) ≡ some (or_else (find k m) x)
unfolding find set
find-set_same k x [] = ground (arith, beq_refl k)
find-set_same k x ((j, y) ∷ m) = ground (arith, find-set_same k x m)

take_until_all : (k : List ℕ) → Absent 0 k → take_until 0 k ≡ k
unfolding take_until
take_until_all [] a = refl
take_until_all (x ∷ k) a = ground (arith, take_until_all k a.1)

-- For a key without a zero byte, `Set` and then `Get` gives the value that was there before, and the
-- new one only if there was none.
pub get-set :
    {A : Type 0} (k : List ℕ) (x : A) (m : TcpContext A)
    → Absent 0 k
    → get k (set k x m) ≡ some (or_else (get k m) x)
unfolding get
get-set k x m a = rw (take_until_all k a) (find-set_same k x m)
