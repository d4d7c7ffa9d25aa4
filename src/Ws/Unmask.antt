-- ===== src/Ws/Unmask.antt =====
-- Unmasking in pieces, and twice.
use jerry.Base.{
  ℕ, zero, suc, ◌+◌, ◌%◌, ◌<◌, ◌≡◌, ◌∙◌, refl, ap, ap₂, true, List, [], ◌∷◌, ◌++◌, length, arith,
  get_or, bit_xor, true_below, true_below_at, ◌==◌, ==_iff,
}
use jerry.Ws.Frame.{unmask}

abbrev pub Bytes : List ℕ → Type 0
Bytes [] = Unit {0}
Bytes (x ∷ xs) = (x < 256) × Bytes xs

pub length-unmask : (key : List ℕ) (i : ℕ) (xs : List ℕ) → length (unmask key i xs) ≡ length xs
unfolding unmask
length-unmask key i [] = refl
length-unmask key i (x ∷ xs) = ap suc (length-unmask key (i + 1) xs)

-- A piece that starts at offset `i` of the payload is unmasked with the key from `i` on.
pub unmask-append :
    (key : List ℕ) (i : ℕ) (xs ys : List ℕ)
    → unmask key i (xs ++ ys) ≡ unmask key i xs ++ unmask key (i + length xs) ys
unfolding unmask
unmask-append key i [] ys = ap (λ j. unmask key j ys) (omega arith)
unmask-append key i (x ∷ xs) ys =
    ap (λ l. bit_xor x (get_or key (i % 4) 0) ∷ l)
      (unmask-append key (i + 1) xs ys
        ∙ ap (λ j. unmask key (i + 1) xs ++ unmask key j ys) (omega arith))

xor_table : true_below (λ k. true_below (λ x. bit_xor (bit_xor x k) k == x) 256) 256 ≡ true
unfolding true_below
xor_table = refl

xor_twice : (x k : ℕ) → x < 256 → k < 256 → bit_xor (bit_xor x k) k ≡ x
xor_twice x k hx hk = (==_iff (bit_xor (bit_xor x k) k) x).0 (
    true_below_at (λ x. bit_xor (bit_xor x k) k == x) 256 x hx
      (true_below_at (λ k. true_below (λ x. bit_xor (bit_xor x k) k == x) 256) 256 k hk xor_table))

get_or-Bytes : (key : List ℕ) (i : ℕ) → Bytes key → get_or key i 0 < 256
get_or-Bytes [] i b = omega arith
get_or-Bytes (x ∷ xs) zero b = b.0
get_or-Bytes (x ∷ xs) (suc i) b = get_or-Bytes xs i b.1

-- Masking bytes twice with the same key and from the same offset gives them back, where key and
-- data are below 256: what the peer masked is what the codec gets.
pub unmask-unmask :
    (key : List ℕ) (i : ℕ) (xs : List ℕ)
    → Bytes key
    → Bytes xs
    → unmask key i (unmask key i xs) ≡ xs
unfolding unmask
unmask-unmask key i [] bk bx = refl
unmask-unmask key i (x ∷ xs) bk bx =
    ap₂ ◌∷◌ (xor_twice x (get_or key (i % 4) 0) bx.0 (get_or-Bytes key (i % 4) bk))
      (unmask-unmask key (i + 1) xs bk bx.1)
