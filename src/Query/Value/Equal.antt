-- ===== src/Query/Value/Equal.antt =====
-- `isEqual` as a relation: it is an equivalence.
use kvdb_nodejs.Prelude.{
  and_split, suc, ◌≡◌, ◌⊎◌, refl, sym, ap, ◌∙◌, true, false, ◌&&◌, none, some, arith, if◌then◌else◌,
  ◌==◌, ==_iff, ==_self, Bool-cases, Option-cases, text_keys, Text, eqb_iff, inl, inr,
  some_injective, some_ne_none,
}
use mathlib.Core.Bool.{false≢true}
use mathlib.Core.Path.{subst}
use kvdb_nodejs.Query.Value.{
  ℤ, pos, negsuc, int_eqb, Value, Fields, no_fields, field, count_fields, own, is_equal,
  fields_equal, IsJson, HasJson,
}

pub int_eqb_self : (m : ℤ) → int_eqb m m ≡ true
unfolding int_eqb
int_eqb_self (pos m) = ground arith
int_eqb_self (negsuc m) = ground arith

pub int_eqb_eq : (m n : ℤ) → int_eqb m n ≡ true → m ≡ n
unfolding int_eqb
int_eqb_eq (pos m) (pos n) h = ap pos ((eqb_iff m n).0 h)
int_eqb_eq (negsuc m) (negsuc n) h = ap negsuc ((eqb_iff m n).0 h)
int_eqb_eq (pos m) (negsuc n) h = cc
int_eqb_eq (negsuc m) (pos n) h = cc

pub key-cases : (j k : Text) → (j ≡ k) ⊎ ((j == k) ≡ false)
key-cases j k = elim (Bool-cases (j == k)) [ inl y ↦ inl ((==_iff j k).0 y) | inr n ↦ inr n ]

-- The property of an object, by its first field.
pub own_here : (k : Text) (v : Value) (f : Fields) → own k (field k v f) ≡ some v
unfolding own
own_here k v f = rw (==_self k) refl

pub own_there :
    (j k : Text) (v : Value) (f : Fields) → (j == k) ≡ false → own k (field j v f) ≡ own k f
unfolding own
own_there j k v f n = rw n refl

pub own-cases :
    (j k : Text) (v x : Value) (f : Fields)
    → own k (field j v f) ≡ some x
    → ((j ≡ k) × (v ≡ x)) ⊎ (((j == k) ≡ false) × (own k f ≡ some x))
own-cases j k v x f o = elim (key-cases j k) [
  | inl y ↦ inl (y, some_injective (sym (own_here j v f) ∙ ap (λ t. own t (field j v f)) y ∙ o))
  | inr n ↦ inr (n, sym (own_there j k v f n) ∙ o)
]

pub own_absent :
    (j k : Text) (v : Value) (f : Fields)
    → own k (field j v f) ≡ none
    → ((j == k) ≡ false) × (own k f ≡ none)
own_absent j k v f o = elim (key-cases j k) [
  | inl y ↦ absurd (some_ne_none (sym (own_here j v f) ∙ ap (λ t. own t (field j v f)) y ∙ o))
  | inr n ↦ (n, sym (own_there j k v f n) ∙ o)
]

pub differ_sym : (j k : Text) → (j == k) ≡ false → (k == j) ≡ false
differ_sym j k n = elim (key-cases k j) [
  | inl y ↦ absurd (false≢true (sym n ∙ (==_iff j k).1 (sym y)))
  | inr m ↦ m
]

-- What a comparison of objects says of the first field.
pub fields_equal-first :
    (j : Text) (u : Value) (f g : Fields)
    → fields_equal (field j u f) g ≡ true
    → (w : Value) × (own j g ≡ some w) × (is_equal u w ≡ true) × (fields_equal f g ≡ true)
unfolding fields_equal
fields_equal-first j u f g h = elim (Option-cases (own j g)) [
  | inl e ↦ let bad : false ≡ true = rw e at h in absurd (false≢true bad)
  | inr (w, e) ↦
      let both : (is_equal u w && fields_equal f g) ≡ true = rw e at h in
      let parts = and_split _ _ both in (w, e, parts.0, parts.1)
]

pub fields_equal-join :
    (j : Text) (u w : Value) (f g : Fields)
    → own j g ≡ some w
    → is_equal u w ≡ true
    → fields_equal f g ≡ true
    → fields_equal (field j u f) g ≡ true
unfolding fields_equal
fields_equal-join j u w f g o e h = rw (o, e, h) refl

-- Each property on the left has an equal one on the right.
pub fields_equal-own :
    (f g : Fields) (k : Text) (v : Value)
    → fields_equal f g ≡ true
    → own k f ≡ some v
    → (w : Value) × (own k g ≡ some w) × (is_equal v w ≡ true)
unfolding own
fields_equal-own no_fields g k v h o = cc
fields_equal-own (field j u f) g k v h o =
    let (w, e, q, rest) = fields_equal-first j u f g h in
    elim (own-cases j k u v f o) [
      | inl (y, s) ↦ (w, sym (ap (λ t. own t g) y) ∙ e, subst (λ t. is_equal t w ≡ true) s q)
      | inr (n, o') ↦ fields_equal-own f g k v rest o'
    ]

-- `without k f`, the other properties.
unfoldable pub without : Text → Fields → Fields
without k no_fields = no_fields
without k (field j v f) = let rest = without k f in if j == k then rest else field j v rest

without_absent : (k : Text) (f : Fields) → own k f ≡ none → without k f ≡ f
unfolding without own
without_absent k no_fields o = refl
without_absent k (field j v f) o = elim (Bool-cases (j == k)) [
  | inl y ↦ let bad : some v ≡ none = rw y at o in absurd (some_ne_none bad)
  | inr n ↦ rw n (ap (field j v) (without_absent k f (rw n at o)))
]

own-without : (j k : Text) (f : Fields) → (k == j) ≡ false → own j (without k f) ≡ own j f
unfolding without own
own-without j k no_fields n = refl
own-without j k (field i v f) n = elim (key-cases i k) [
  | inl y ↦
      let other : (i == j) ≡ false = subst (λ t. (t == j) ≡ false) (sym y) n in
      rw ((==_iff i k).1 y, other) (own-without j k f n)
  | inr m ↦ rw m (ap (λ t. if i == j then some v else t) (own-without j k f n))
]

own-without_self : (k : Text) (f : Fields) → own k (without k f) ≡ none
unfolding without own
own-without_self k no_fields = refl
own-without_self k (field j v f) = elim (Bool-cases (j == k)) [
  | inl y ↦ rw y (own-without_self k f)
  | inr n ↦ rw (n, n) (own-without_self k f)
]

pub count-without :
    (k : Text) (f : Fields) (v : Value)
    → HasJson f
    → own k f ≡ some v
    → count_fields f ≡ suc (count_fields (without k f))
unfolding without own count_fields HasJson
count-without k no_fields v h o = cc
count-without k (field j u f) v (absent, _, h) o = elim (key-cases j k) [
  | inl y ↦
      let gone : own k f ≡ none = subst (λ t. own t f ≡ none) y absent in
      rw ((==_iff j k).1 y, without_absent k f gone) refl
  | inr n ↦ rw n (ap suc (count-without k f v h (rw n at o)))
]

pub HasJson-without : (k : Text) (f : Fields) → HasJson f → HasJson (without k f)
unfolding without HasJson
HasJson-without k no_fields h = tt
HasJson-without k (field j v f) (absent, hv, h) = elim (Bool-cases (j == k)) [
  | inl y ↦ rw y (HasJson-without k f h)
  | inr n ↦ rw n (own-without j k f (differ_sym j k n) ∙ absent, hv, HasJson-without k f h)
]

pub own-IsJson : (f : Fields) (k : Text) (v : Value) → HasJson f → own k f ≡ some v → IsJson v
unfolding own HasJson
own-IsJson no_fields k v h o = cc
own-IsJson (field j u f) k v (absent, hu, h) o = elim (own-cases j k u v f o) [
  | inl (y, s) ↦ subst IsJson s hu
  | inr (n, o') ↦ own-IsJson f k v h o'
]

-- A property that the left side lacks does not matter on the right side.
pub fields_equal-agree :
    (f g g' : Fields)
    → ((j : Text) (v : Value) → own j f ≡ some v → own j g' ≡ own j g)
    → HasJson f
    → fields_equal f g ≡ true
    → fields_equal f g' ≡ true
unfolding fields_equal HasJson
fields_equal-agree no_fields g g' same json h = refl
fields_equal-agree (field j v f) g g' same (absent, _, json) h =
    let (w, e, q, rest) = fields_equal-first j v f g h in
    let later : (i : Text) (x : Value) → own i f ≡ some x → own i g' ≡ own i g = λ i x o.
      elim (key-cases j i) [
        | inl y ↦ absurd (some_ne_none (sym o ∙ ap (λ t. own t f) (sym y) ∙ absent))
        | inr n ↦ same i x (own_there j i v f n ∙ o)
      ] in
    fields_equal-join j v w f g' (same j v (own_here j v f) ∙ e) q
      (fields_equal-agree f g g' later json rest)

pub fields_equal-widen :
    (f g : Fields) (k : Text) (v : Value)
    → HasJson f
    → own k f ≡ none
    → fields_equal f g ≡ true
    → fields_equal f (field k v g) ≡ true
fields_equal-widen f g k v json o h =
    fields_equal-agree f g (field k v g)
      (λ j x e. elim (key-cases k j) [
        | inl y ↦ absurd (some_ne_none (sym e ∙ ap (λ t. own t f) (sym y) ∙ o))
        | inr n ↦ own_there k j v g n
      ])
      json h

pub fields_equal-narrow :
    (f g : Fields) (k : Text)
    → HasJson f
    → own k f ≡ none
    → fields_equal f g ≡ true
    → fields_equal f (without k g) ≡ true
fields_equal-narrow f g k json o h =
    fields_equal-agree f g (without k g)
      (λ j x e. elim (key-cases k j) [
        | inl y ↦ absurd (some_ne_none (sym e ∙ ap (λ t. own t f) (sym y) ∙ o))
        | inr n ↦ own-without j k g n
      ])
      json h

-- The property that was left out, back in its place on either side.
pub fields_equal-restore :
    (f g : Fields) (k : Text) (v w : Value)
    → HasJson f
    → own k f ≡ some v
    → is_equal v w ≡ true
    → fields_equal (without k f) g ≡ true
    → fields_equal f (field k w g) ≡ true
unfolding without HasJson own
fields_equal-restore no_fields g k v w json o e h = cc
fields_equal-restore (field j u f) g k v w (absent, hu, json) o e h = elim (own-cases j k u v f o) [
  | inl (y, s) ↦
      let gone : own k f ≡ none = subst (λ t. own t f ≡ none) y absent in
      let rest : fields_equal f g ≡ true = rw ((==_iff j k).1 y, without_absent k f gone) at h in
      fields_equal-join j u w f (field k w g)
        (subst (λ t. own t (field k w g) ≡ some w) (sym y) (own_here k w g))
        (subst (λ t. is_equal t w ≡ true) (sym s) e) (fields_equal-widen f g k w json gone rest)
  | inr (n, o') ↦
      let h' : fields_equal (field j u (without k f)) g ≡ true = rw n at h in
      let (x, ox, ex, rest) = fields_equal-first j u (without k f) g h' in
      fields_equal-join j u x f (field k w g) (own_there k j w g (differ_sym j k n) ∙ ox) ex
        (fields_equal-restore f g k v w json o' e rest)
]
