-- ===== src/Prelude/Lists.antt =====
-- Lists over the native numbers, prefixes, and association lists with an update in place.
use Prim.Native.Nat.{ℕ, zero, suc, ◌+◌, ◌≤◌, ◌<◌}
use Prim.Native.Char.{code}
use Prim.Native.String.{String}
use mathlib.Core.Path.{◌≡◌, refl, ap}
use mathlib.Core.Bool.{Bool, true, false, ◌&&◌}
use mathlib.Core.List.{List, [], ◌∷◌, ◌++◌}
use native.Mathlib.Omega.{arith}
use mathlib.Core.Bool.{false≢true}
use mathlib.Core.Path.{sym, ◌∙◌}
use mathlib.Core.Logic.{inl, inr}
use kvdb_nodejs.Prelude.Tests.{Bool-cases, Text, eqb, if◌then◌else◌}

-- The code units of a literal.
abbrev pub codes : String → Text
codes String.[] = []
codes (String.◌∷◌ c s) = code c ∷ codes s

module _ {ℓ} {A : Type ℓ} where
  abbrev pub length : List A → ℕ
  length [] = 0
  length (x ∷ xs) = suc (length xs)

  abbrev pub take : ℕ → List A → List A
  take zero xs = []
  take (suc n) [] = []
  take (suc n) (x ∷ xs) = x ∷ take n xs

  abbrev pub drop : ℕ → List A → List A
  drop zero xs = xs
  drop (suc n) [] = []
  drop (suc n) (x ∷ xs) = drop n xs

  -- `Array.prototype.filter`
  unfoldable pub filter : (A → Bool) → List A → List A
  filter p [] = []
  filter p (x ∷ xs) = let rest = filter p xs in if p x then x ∷ rest else rest

  -- A predicate at every element, as tuples.
  abbrev pub All {κ} : (A → Type κ) → List A → Type κ
  All P [] = Unit
  All P (x ∷ xs) = P x × All P xs

  pub cons_ne_nil : {x : A} {xs : List A} → x ∷ xs ≡ [] → ⊥
  cons_ne_nil e = cc

  pub All-map {κ} : {P Q : A → Type κ} (xs : List A) → ((x : A) → P x → Q x) → All P xs → All Q xs
  All-map [] f h = tt
  All-map (x ∷ xs) f h = (f x h.0, All-map xs f h.1)

  -- What holds of the elements that pass, and of those that a filter keeps.
  pub All-filter :
      (P : A → Type 0) (p : A → Bool) (xs : List A)
      → All P xs
      → All (λ x. P x × (p x ≡ true)) (filter p xs)
  unfolding filter
  All-filter P p [] h = tt
  All-filter P p (x ∷ xs) h = elim (Bool-cases (p x)) [
    | inl e ↦ rw e ((h.0, e), All-filter P p xs h.1)
    | inr e ↦ rw e (All-filter P p xs h.1)
  ]

  pub All-of_filter :
      (P : A → Type 0) (p : A → Bool) (xs : List A)
      → All P (filter p xs)
      → All (λ x. p x ≡ true → P x) xs
  unfolding filter
  All-of_filter P p [] h = tt
  All-of_filter P p (x ∷ xs) h = elim (Bool-cases (p x)) [
    | inl e ↦ let k = rw e at h in (λ _. k.0, All-of_filter P p xs k.1)
    | inr e ↦ (λ y. absurd (false≢true (sym e ∙ y)), All-of_filter P p xs (rw e at h))
  ]

  pub length-append : (xs ys : List A) → length (xs ++ ys) ≡ length xs + length ys
  length-append [] ys = omega arith
  length-append (x ∷ xs) ys = omega (arith, length-append xs ys)

  pub drop-length_append : (xs ys : List A) → drop (length xs) (xs ++ ys) ≡ ys
  drop-length_append [] ys = refl
  drop-length_append (x ∷ xs) ys = drop-length_append xs ys

  pub length-take : (n : ℕ) (xs : List A) → length (take n xs) ≤ n
  length-take zero xs = omega arith
  length-take (suc n) [] = omega arith
  length-take (suc n) (x ∷ xs) = omega (arith, length-take n xs)

  pub All-take {κ} : (P : A → Type κ) (n : ℕ) (xs : List A) → All P xs → All P (take n xs)
  All-take P zero xs h = tt
  All-take P (suc n) [] h = tt
  All-take P (suc n) (x ∷ xs) h = (h.0, All-take P n xs h.1)

  pub take_all : (n : ℕ) (xs : List A) → length (take n xs) < n → take n xs ≡ xs
  take_all zero xs h = absurd (omega arith)
  take_all (suc n) [] h = refl
  take_all (suc n) (x ∷ xs) h = ap (λ t. x ∷ t) (take_all n xs (omega arith))

  pub append-left_cancel : (xs : List A) {ys zs : List A} → xs ++ ys ≡ xs ++ zs → ys ≡ zs
  append-left_cancel [] h = h
  append-left_cancel (x ∷ xs) h = append-left_cancel xs (ap (drop 1) h)

-- `String.prototype.startsWith`, the prefix first.
unfoldable pub is_prefix : Text → Text → Bool
is_prefix [] t = true
is_prefix (x ∷ p) [] = false
is_prefix (x ∷ p) (y ∷ t) = eqb x y && is_prefix p t

pub is_prefix-append : (p t : Text) → is_prefix p (p ++ t) ≡ true
unfolding is_prefix
is_prefix-append [] t = refl
is_prefix-append (x ∷ p) t = ground (arith, is_prefix-append p t)

-- A text with a given prefix is the prefix and the rest.
pub append-drop_of_prefix : (p t : Text) → is_prefix p t ≡ true → p ++ drop (length p) t ≡ t
unfolding is_prefix
append-drop_of_prefix [] t h = refl
append-drop_of_prefix (x ∷ p) [] h = cc
append-drop_of_prefix (x ∷ p) (y ∷ t) h = ground (arith, append-drop_of_prefix p t)

-- `String.prototype.includes` for one code unit.
unfoldable pub has_unit : ℕ → Text → Bool
has_unit c [] = false
has_unit c (x ∷ t) = let rest = has_unit c t in if eqb x c then true else rest

-- One unit more at the front of the first part.
grow : ℕ → List Text → List Text
grow x [] = (x ∷ []) ∷ []
grow x (part ∷ parts) = (x ∷ part) ∷ parts

-- `String.prototype.split` at one code unit.
unfoldable pub split : ℕ → Text → List Text
unfolding grow
split c [] = [] ∷ []
split c (x ∷ t) = let rest = split c t in if eqb x c then [] ∷ rest else grow x rest

-- `Array.prototype.join`
unfoldable pub join : Text → List Text → Text
join separator [] = []
join separator (t ∷ []) = t
join separator (t ∷ u ∷ ts) = t ++ separator ++ join separator (u ∷ ts)
