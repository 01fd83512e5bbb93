-- ===== src/Query/Value/Equivalence.antt =====
-- `isEqual` is an equivalence on values whose objects have distinct keys.
use kvdb_nodejs.Prelude.{
  and_split, and_both, ℕ, ◌≡◌, refl, sym, ◌∙◌, true, false, ◌&&◌, not, arith, ◌==◌, ==_iff, ==_self,
  Bool-cases, text_keys, eqb, eqb_iff, inl, inr,
}
use mathlib.Core.Bool.{false≢true}
use mathlib.Core.Path.{subst}
use kvdb_nodejs.Query.Value.{
  int_eqb, bool_eqb, Value, undefined, null, bool, num, str, array, object, Items, no_items, item,
  Fields, no_fields, field, count_items, count_fields, is_equal, items_equal, fields_equal, IsJson,
  AreJson, HasJson,
}
use kvdb_nodejs.Query.Value.Equal.{
  int_eqb_self, int_eqb_eq, own_here, fields_equal-first, fields_equal-join, fields_equal-own,
  fields_equal-widen, fields_equal-narrow, fields_equal-restore, count-without, HasJson-without,
  without, own-IsJson,
}

eqb_self : (n : ℕ) → eqb n n ≡ true
eqb_self n = (eqb_iff n n).1 refl

eqb_swap : (m n : ℕ) → eqb m n ≡ true → eqb n m ≡ true
eqb_swap m n h = ground (arith, h)

eqb_trans : (l m n : ℕ) → eqb l m ≡ true → eqb m n ≡ true → eqb l n ≡ true
eqb_trans l m n h k = ground (arith, h, k)

mutual
  unfolding is_equal bool_eqb IsJson count_fields

  pub is_equal_self : (v : Value) → IsJson v → is_equal v v ≡ true
  is_equal_self undefined h = refl
  is_equal_self null h = refl
  is_equal_self (bool true) h = refl
  is_equal_self (bool false) h = refl
  is_equal_self (num n) h = int_eqb_self n
  is_equal_self (str s) h = ==_self s
  is_equal_self (array xs) h = and_both (eqb_self (count_items xs)) (items_equal_self xs h)
  is_equal_self (object f) h = and_both (eqb_self (count_fields f)) (fields_equal_self f h)

  items_equal_self : (xs : Items) → AreJson xs → items_equal xs xs ≡ true
  items_equal_self no_items h = refl
  items_equal_self (item x xs) (hx, h) = and_both (is_equal_self x hx) (items_equal_self xs h)

  fields_equal_self : (f : Fields) → HasJson f → fields_equal f f ≡ true
  fields_equal_self no_fields h = refl
  fields_equal_self (field k v f) (absent, hv, h) =
      fields_equal-join k v v f (field k v f) (own_here k v f) (is_equal_self v hv)
        (fields_equal-widen f f k v h absent (fields_equal_self f h))

mutual
  unfolding is_equal bool_eqb count_items

  pub is_equal_trans :
      (u v w : Value) → is_equal u v ≡ true → is_equal v w ≡ true → is_equal u w ≡ true
  is_equal_trans undefined undefined w h k = k
  is_equal_trans null null w h k = k
  is_equal_trans (bool true) (bool true) w h k = k
  is_equal_trans (bool false) (bool false) w h k = k
  is_equal_trans (num m) (num n) w h k =
      subst (λ t. is_equal (num t) w ≡ true) (sym (int_eqb_eq m n h)) k
  is_equal_trans (str s) (str t) w h k =
      subst (λ x. is_equal (str x) w ≡ true) (sym ((==_iff s t).0 h)) k
  is_equal_trans (array xs) (array ys) (array zs) h k =
      let (a, b) = and_split _ _ h in
      let (c, d) = and_split _ _ k in
      and_both (eqb_trans (count_items xs) (count_items ys) (count_items zs) a c)
        (items_equal_trans xs ys zs b d)
  is_equal_trans (object f) (object g) (object i) h k =
      let (a, b) = and_split _ _ h in
      let (c, d) = and_split _ _ k in
      and_both (eqb_trans (count_fields f) (count_fields g) (count_fields i) a c)
        (fields_equal_trans f g i b d)
  is_equal_trans u v w h k = cc

  items_equal_trans :
      (xs ys zs : Items)
      → items_equal xs ys ≡ true
      → items_equal ys zs ≡ true
      → items_equal xs zs ≡ true
  items_equal_trans no_items ys zs h k = refl
  items_equal_trans (item x xs) (item y ys) (item z zs) h k =
      let (a, b) = and_split _ _ h in
      let (c, d) = and_split _ _ k in
      and_both (is_equal_trans x y z a c) (items_equal_trans xs ys zs b d)
  items_equal_trans (item x xs) (item y ys) no_items h k = cc
  items_equal_trans (item x xs) no_items zs h k = cc

  fields_equal_trans :
      (f g i : Fields) → fields_equal f g ≡ true → fields_equal g i ≡ true → fields_equal f i ≡ true
  fields_equal_trans no_fields g i h k = refl
  fields_equal_trans (field j v f) g i h k =
      let (w, e, q, rest) = fields_equal-first j v f g h in
      let (x, e', q') = fields_equal-own g i j w k e in
      fields_equal-join j v x f i e' (is_equal_trans v w x q q') (fields_equal_trans f g i rest k)

no_fields_of_count : (g : Fields) → 0 ≡ count_fields g → g ≡ no_fields
unfolding count_fields
no_fields_of_count no_fields h = refl
no_fields_of_count (field k v g) h = absurd (omega arith)

mutual
  unfolding is_equal bool_eqb IsJson count_items count_fields

  pub is_equal_sym : (v w : Value) → IsJson v → IsJson w → is_equal v w ≡ true → is_equal w v ≡ true
  is_equal_sym undefined undefined hv hw h = refl
  is_equal_sym null null hv hw h = refl
  is_equal_sym (bool true) (bool true) hv hw h = refl
  is_equal_sym (bool false) (bool false) hv hw h = refl
  is_equal_sym (num m) (num n) hv hw h =
      subst (λ t. int_eqb n t ≡ true) (sym (int_eqb_eq m n h)) (int_eqb_self n)
  is_equal_sym (str s) (str t) hv hw h =
      subst (λ x. (t == x) ≡ true) (sym ((==_iff s t).0 h)) (==_self t)
  is_equal_sym (array xs) (array ys) hv hw h =
      let (a, b) = and_split _ _ h in
      and_both (eqb_swap (count_items xs) (count_items ys) a)
        (items_equal_sym xs ys hv hw ((eqb_iff _ _).0 a) b)
  is_equal_sym (object f) (object g) hv hw h =
      let (a, b) = and_split _ _ h in
      and_both (eqb_swap (count_fields f) (count_fields g) a)
        (fields_equal_sym f g hv hw ((eqb_iff _ _).0 a) b)
  is_equal_sym v w hv hw h = cc

  items_equal_sym :
      (xs ys : Items)
      → AreJson xs
      → AreJson ys
      → count_items xs ≡ count_items ys
      → items_equal xs ys ≡ true
      → items_equal ys xs ≡ true
  items_equal_sym no_items no_items hx hy c h = refl
  items_equal_sym no_items (item y ys) hx hy c h = absurd (omega arith)
  items_equal_sym (item x xs) no_items hx hy c h = cc
  items_equal_sym (item x xs) (item y ys) (hx, hxs) (hy, hys) c h =
      let (a, b) = and_split _ _ h in
      and_both (is_equal_sym x y hx hy a) (items_equal_sym xs ys hxs hys (omega arith) b)

  -- The property that stands first on the left is taken out on the right.
  pub fields_equal_sym :
      (f g : Fields)
      → HasJson f
      → HasJson g
      → count_fields f ≡ count_fields g
      → fields_equal f g ≡ true
      → fields_equal g f ≡ true
  fields_equal_sym no_fields g hf hg c h =
      subst (λ t. fields_equal t no_fields ≡ true) (sym (no_fields_of_count g c)) refl
  fields_equal_sym (field k v f) g (absent, hv, hf) hg c h =
      let (w, e, q, rest) = fields_equal-first k v f g h in
      let fewer : count_fields f ≡ count_fields (without k g) =
        omega (arith, count-without k g w hg e) in
      fields_equal-restore g f k w v hg e (is_equal_sym v w hv (own-IsJson g k w hg e) q) (
        fields_equal_sym f (without k g) hf (HasJson-without k g hg) fewer
          (fields_equal-narrow f g k hf absent rest))

-- Values that are equal are equal to the same values.
pub is_equal-left :
    (v w t : Value) → IsJson v → IsJson w → is_equal v w ≡ true → is_equal v t ≡ is_equal w t
is_equal-left v w t hv hw h = elim (Bool-cases (is_equal v t)) [
  | inl e ↦ e ∙ sym (is_equal_trans w v t (is_equal_sym v w hv hw h) e)
  | inr e ↦ elim (Bool-cases (is_equal w t)) [
    | inl e' ↦ absurd (false≢true (sym e ∙ is_equal_trans v w t h e'))
    | inr e' ↦ e ∙ sym e'
  ]
]

is_equal-swap : (u v : Value) → IsJson u → IsJson v → is_equal u v ≡ is_equal v u
is_equal-swap u v hu hv = elim (Bool-cases (is_equal u v)) [
  | inl e ↦ e ∙ sym (is_equal_sym u v hu hv e)
  | inr e ↦ elim (Bool-cases (is_equal v u)) [
    | inl e' ↦ absurd (false≢true (sym e ∙ is_equal_sym v u hv hu e'))
    | inr e' ↦ e ∙ sym e'
  ]
]

is_equal-chain : (u v w : Value) → (is_equal u v && is_equal v w && not (is_equal u w)) ≡ false
is_equal-chain u v w = elim (Bool-cases (is_equal u v)) [
  | inr n ↦ rw n refl
  | inl e ↦ elim (Bool-cases (is_equal v w)) [
    | inr n ↦ rw (e, n) refl
    | inl e' ↦ rw (e, e', is_equal_trans u v w e e') refl
  ]
]

-- On values where the keys of each object are distinct, `isEqual` is an equivalence: each value equals
-- itself, a comparison says the same in both orders, and never are `u` and `v` equal, and `v` and `w`,
-- where `u` and `w` are not.
pub is_equal-equivalence :
    (u v w : Value)
    → IsJson u
    → IsJson v
    → (is_equal u u ≡ true)
      × (is_equal u v ≡ is_equal v u)
      × ((is_equal u v && is_equal v w && not (is_equal u w)) ≡ false)
is_equal-equivalence u v w hu hv =
    (is_equal_self u hu, is_equal-swap u v hu hv, is_equal-chain u v w)
