-- ===== src/Utils/DateTime/Text.antt =====
-- The widths of the numbers in the texts of src/utils/DateTime.cc.
use native.Mathlib.Decide.{dec_lt}
use jerry.Base.{
  ℕ, zero, suc, ◌+◌, ◌-◌, ◌/◌, ◌%◌, ◌≤◌, ◌<◌, ◌≡◌, ◌∙◌, refl, ap, List, [], ◌∷◌, ◌++◌, length,
  replicate, arith, ap₂, ◌*◌, length-append, length-replicate,
}
use jerry.Http.Resp.{decimal, decimal_loop}
use jerry.Utils.DateTime.{print_unsigned}

one_digit : (f n : ℕ) (acc : List ℕ) → n < 10 → decimal_loop (suc f) n acc ≡ (48 + n % 10) ∷ acc
unfolding decimal_loop
one_digit f n acc h = ground arith

next_digit :
    (f n : ℕ) (acc : List ℕ)
    → 10 ≤ n
    → decimal_loop (suc f) n acc ≡ decimal_loop f (n / 10) ((48 + n % 10) ∷ acc)
unfolding decimal_loop
next_digit f n acc h = ground arith

-- A number below 100 has two digits, filled with a zero.
pub two_digits : (n : ℕ) → n < 100 → print_unsigned 48 2 n ≡ (48 + n / 10) ∷ (48 + n % 10) ∷ []
unfolding print_unsigned decimal
two_digits n h = elim (dec_lt n 10) [
  | yes small ↦
      let e : decimal n ≡ (48 + n % 10) ∷ [] = one_digit n n [] small in
      ap (λ s. replicate (2 - length s) 48 ++ s) e ∙ ap₂ (λ x y. x ∷ y ∷ []) (omega arith) refl
  | no large ↦
      let tens : 48 + n / 10 % 10 ≡ 48 + n / 10 = omega arith in
      let fuel : n ≡ suc (n - 1) = omega arith in
      let e : decimal n ≡ (48 + n / 10) ∷ (48 + n % 10) ∷ [] =
        next_digit n n [] (omega arith)
        ∙ ap (λ f. decimal_loop f (n / 10) ((48 + n % 10) ∷ [])) fuel
        ∙ one_digit (n - 1) (n / 10) ((48 + n % 10) ∷ []) (omega arith)
        ∙ ap (λ x. x ∷ (48 + n % 10) ∷ []) tens in
      ap (λ s. replicate (2 - length s) 48 ++ s) e
]

-- 10 ^ (k + 1)
abbrev ten_to : ℕ → ℕ
ten_to zero = 10
ten_to (suc k) = 10 * ten_to k

length-decimal_loop :
    (k f n : ℕ) (acc : List ℕ)
    → n < f
    → n < ten_to k
    → length (decimal_loop f n acc) ≤ length acc + suc k
unfolding decimal_loop
length-decimal_loop k zero n acc h small = absurd (omega arith)
length-decimal_loop zero (suc f) n acc h small = omega (arith, ap length (one_digit f n acc small))
length-decimal_loop (suc k) (suc f) n acc h small = elim (dec_lt n 10) [
  | yes one ↦ omega (arith, ap length (one_digit f n acc one))
  | no more ↦ omega (
    arith,
    ap length (next_digit f n acc (omega arith)),
    length-decimal_loop k f (n / 10) ((48 + n % 10) ∷ acc) (omega arith) (omega arith),
  )
]

-- A number that has no more digits than the width is printed in exactly this width.
pub length-print_unsigned :
    (fill k n : ℕ) → n < ten_to k → length (print_unsigned fill (suc k) n) ≡ suc k
unfolding print_unsigned decimal
length-print_unsigned fill k n h = omega (
  arith,
  length-append (replicate (suc k - length (decimal n)) fill) (decimal n),
  length-replicate {A = ℕ} (suc k - length (decimal n)) fill,
  length-decimal_loop k (suc n) n [] (omega arith) h,
)
