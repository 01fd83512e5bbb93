-- ===== src/Prelude/Decimal.antt =====
-- The text of an integer inside a template literal.
use Prim.Native.Nat.{ℕ, zero, suc, ◌+◌, ◌-◌, ◌*◌, ◌/◌, ◌%◌, ◌<◌, ◌≤◌}
use mathlib.Core.Path.{◌≡◌, refl, sym, ap, subst, ◌∙◌}
use mathlib.Core.Logic.{◌≢◌, inl, inr}
use mathlib.Core.List.{[], ◌∷◌, ◌++◌}
use native.Mathlib.Omega.{arith}
use kvdb_nodejs.Prelude.Lists.{All}
use kvdb_nodejs.Prelude.Tests.{Text, ltb, if◌then◌else◌, Bool-cases}

-- `fuel` bounds the number of digits.
digits : ℕ → ℕ → Text
digits zero n = []
digits (suc fuel) n =
    let more = digits fuel (n / 10) ++ (48 + n % 10) ∷ [] in
    if ltb n 10 then (48 + n) ∷ [] else more

unfoldable pub decimal : ℕ → Text
unfolding digits
decimal n = digits (suc n) n

number_from : ℕ → Text → ℕ
number_from acc [] = acc
number_from acc (c ∷ t) = number_from (acc * 10 + (c - 48)) t

number_from-append :
    (acc : ℕ) (t : Text) (c : ℕ) → number_from acc (t ++ c ∷ []) ≡ number_from acc t * 10 + (c - 48)
unfolding number_from
number_from-append acc [] c = refl
number_from-append acc (x ∷ t) c = number_from-append (acc * 10 + (x - 48)) t c

number_from-digits : (fuel n : ℕ) → n < fuel → number_from 0 (digits fuel n) ≡ n
unfolding number_from digits
number_from-digits zero n h = absurd (omega arith)
number_from-digits (suc fuel) n h = elim (Bool-cases (ltb n 10)) [
  | inl small ↦ rw small (ground arith)
  | inr big ↦
      rw (big, number_from-append 0 (digits fuel (n / 10)) (48 + n % 10))
        (ground (arith, number_from-digits fuel (n / 10)))
]

-- The printed number determines the number.
pub decimal_injective : {m n : ℕ} → decimal m ≡ decimal n → m ≡ n
unfolding decimal
decimal_injective {m} {n} h =
    sym (number_from-digits (suc m) m (omega arith))
    ∙ ap (number_from 0) h
    ∙ number_from-digits (suc n) n (omega arith)

All-snoc : (t : Text) (c : ℕ) → All (λ d. 48 ≤ d) t → 48 ≤ c → All (λ d. 48 ≤ d) (t ++ c ∷ [])
All-snoc [] c h hc = (hc, tt)
All-snoc (x ∷ t) c h hc = (h.0, All-snoc t c h.1 hc)

digits-All : (fuel n : ℕ) → All (λ d. 48 ≤ d) (digits fuel n)
unfolding digits
digits-All zero n = tt
digits-All (suc fuel) n = elim (Bool-cases (ltb n 10)) [
  | inl small ↦ rw small (omega arith, tt)
  | inr big ↦ rw big (All-snoc (digits fuel (n / 10)) _ (digits-All fuel (n / 10)) (omega arith))
]

-- It has no sign.
pub decimal-ne-sign : (n : ℕ) (t : Text) → b'-' ∷ t ≢ decimal n
unfolding decimal
decimal-ne-sign n t e =
    let signed : All (λ d. 48 ≤ d) (b'-' ∷ t) =
      subst (All (λ d. 48 ≤ d)) (sym e) (digits-All (suc n) n) in
    absurd (omega (arith, signed.0))
