-- ===== src/Prelude/Assoc.antt =====
-- A table with a primary key: an association list in which a write goes to the row of its key.
use Prim.Native.Nat.{suc, ◌≤◌, ◌<◌}
use mathlib.Core.Path.{◌≡◌, refl, sym, subst}
use mathlib.Core.Logic.{inl, inr}
use mathlib.Core.Bool.{true, false}
use mathlib.Core.Option.{Option, none, some}
use mathlib.Core.List.{List, [], ◌∷◌}
use native.Mathlib.Omega.{arith}
use kvdb_nodejs.Prelude.Tests.{Equality, ◌==◌, ==_iff, ==_self, if◌then◌else◌, is_some, Bool-cases}
use kvdb_nodejs.Prelude.Lists.{length, All, All-map}

pub some_ne_none {ℓ} : {A : Type ℓ} {a : A} → some a ≡ none → ⊥
some_ne_none e = cc

pub some_injective {ℓ} : {A : Type ℓ} {a b : A} → some a ≡ some b → a ≡ b
some_injective e = cc

module _ {ℓ κ} {K : Type ℓ} {V : Type κ} ⦃e : Equality K⦄ where
  unfoldable pub find_row : K → List (K × V) → Option V
  find_row k [] = none
  find_row k ((j, v) ∷ rows) = let rest = find_row k rows in if j == k then some v else rest

  -- INSERT … ON CONFLICT DO UPDATE; also `Map.prototype.set`, which keeps the place of its key.
  unfoldable pub upsert : K → V → List (K × V) → List (K × V)
  upsert k v [] = (k, v) ∷ []
  upsert k v ((j, w) ∷ rows) =
      let rest = upsert k v rows in if j == k then (k, v) ∷ rows else (j, w) ∷ rest

  -- DELETE … WHERE key = k
  unfoldable pub remove : K → List (K × V) → List (K × V)
  remove k [] = []
  remove k ((j, w) ∷ rows) = let rest = remove k rows in if j == k then rest else (j, w) ∷ rest

  pub find_row-upsert :
      (k j : K) (v : V) (rows : List (K × V))
      → find_row j (upsert k v rows) ≡ (if k == j then some v else find_row j rows)
  unfolding find_row upsert
  find_row-upsert k j v [] = ground arith
  find_row-upsert k j v ((i, w) ∷ rows) =
      ground (arith, find_row-upsert k j v rows, ==_iff k j, ==_iff i k, ==_iff i j)

  pub find_row-remove :
      (k j : K) (rows : List (K × V))
      → find_row j (remove k rows) ≡ (if k == j then none else find_row j rows)
  unfolding find_row remove
  find_row-remove k j [] = ground arith
  find_row-remove k j ((i, w) ∷ rows) =
      ground (arith, find_row-remove k j rows, ==_iff k j, ==_iff i k, ==_iff i j)

  -- The rows that stay have another key.
  pub All-remove :
      (P : K × V → Type 0) (k : K) (rows : List (K × V))
      → All P rows
      → All (λ row. P row × (Path K row.0 k → ⊥)) (remove k rows)
  unfolding remove
  All-remove P k [] h = tt
  All-remove P k ((j, w) ∷ rows) h = elim (Bool-cases (j == k)) [
    | inl y ↦ rw y (All-remove P k rows h.1)
    | inr n ↦ rw n ((h.0, ground (arith, n, ==_iff j k)), All-remove P k rows h.1)
  ]

  pub length-upsert :
      (k : K) (v : V) (rows : List (K × V)) → length (upsert k v rows) ≤ suc (length rows)
  unfolding upsert
  length-upsert k v [] = omega arith
  length-upsert k v ((j, w) ∷ rows) = ground (arith, length-upsert k v rows)

  pub length_le_upsert :
      (k : K) (v : V) (rows : List (K × V))
      → (length rows ≤ length (upsert k v rows)) × (0 < length (upsert k v rows))
  unfolding upsert
  length_le_upsert k v [] = (omega arith, omega arith)
  length_le_upsert k v ((j, w) ∷ rows) = ground (arith, length_le_upsert k v rows)

  pub length-remove : (k : K) (rows : List (K × V)) → length (remove k rows) ≤ length rows
  unfolding remove
  length-remove k [] = omega arith
  length-remove k ((j, w) ∷ rows) = ground (arith, length-remove k rows)

  pub length-remove_found :
      (k : K) (rows : List (K × V))
      → is_some (find_row k rows) ≡ true
      → length (remove k rows) < length rows
  unfolding remove find_row
  length-remove_found k [] h = cc
  length-remove_found k ((j, w) ∷ rows) h =
      ground (arith, length-remove k rows, length-remove_found k rows)

  pub All-find_row :
      (P : V → Type 0) (k : K) (rows : List (K × V)) (v : V)
      → All (λ (row : K × V). P row.1) rows
      → find_row k rows ≡ some v
      → P v
  unfolding find_row
  All-find_row P k [] v h e = absurd (some_ne_none (sym e))
  All-find_row P k ((j, w) ∷ rows) v h e = elim (Bool-cases (j == k)) [
    | inl y ↦ let same : some w ≡ some v = rw y at e in subst P (some_injective same) h.0
    | inr n ↦ All-find_row P k rows v h.1 (rw n at e)
  ]

  -- No key twice.
  abbrev pub Distinct : List (K × V) → Type 0
  Distinct [] = Unit
  Distinct ((k, v) ∷ rows) = (is_some (find_row k rows) ≡ false) × Distinct rows

  pub Distinct-upsert :
      (k : K) (v : V) (rows : List (K × V)) → Distinct rows → Distinct (upsert k v rows)
  unfolding upsert find_row
  Distinct-upsert k v [] d = (refl, tt)
  Distinct-upsert k v ((j, w) ∷ rows) (fresh, d) = elim (Bool-cases (j == k)) [
    | inl y ↦ rw y (subst (λ i. is_some (find_row i rows) ≡ false) ((==_iff j k).0 y) fresh, d)
    | inr n ↦ rw n (
      ground (arith, fresh, n, find_row-upsert k j v rows, ==_iff j k, ==_iff k j),
      Distinct-upsert k v rows d,
    )
  ]

  pub All-upsert {μ} :
      (P : K × V → Type μ) (k : K) (v : V) (rows : List (K × V))
      → P (k, v)
      → All P rows
      → All P (upsert k v rows)
  unfolding upsert
  All-upsert P k v [] p h = (p, tt)
  All-upsert P k v ((j, w) ∷ rows) p h = elim (Bool-cases (j == k)) [
    | inl y ↦ rw y (p, h.1)
    | inr n ↦ rw n (h.0, All-upsert P k v rows p h.1)
  ]

  -- In a table without a key twice each row is the row of its key.
  pub Distinct-rows :
      (rows : List (K × V))
      → Distinct rows
      → All (λ (row : K × V). find_row row.0 rows ≡ some row.1) rows
  unfolding find_row
  Distinct-rows [] d = tt
  Distinct-rows ((k, v) ∷ rows) (fresh, d) = (
    ground (arith, ==_self k),
    All-map rows (λ row e. ground (arith, e, fresh, ==_iff k row.0)) (Distinct-rows rows d),
  )

  -- What holds of all rows holds of the row of a key.
  pub All-find :
      (P : K × V → Type 0) (k : K) (rows : List (K × V)) (v : V)
      → All P rows
      → find_row k rows ≡ some v
      → P (k, v)
  unfolding find_row
  All-find P k [] v h e = absurd (some_ne_none (sym e))
  All-find P k ((j, w) ∷ rows) v h e = elim (Bool-cases (j == k)) [
    | inl y ↦
        let same : some w ≡ some v = rw y at e in
        subst (λ i. P (i, v)) ((==_iff j k).0 y) (subst (λ x. P (j, x)) (some_injective same) h.0)
    | inr n ↦ All-find P k rows v h.1 (rw n at e)
  ]
