-- ===== src/Query/Congruence/Paths.antt =====
-- Paths into values that `isEqual` does not tell apart.
use kvdb_nodejs.Prelude.{
  and_split, ℕ, zero, suc, ◌-◌, ◌≡◌, sym, ◌∙◌, Bool, true, ◌&&◌, Option, none, some, List, [], ◌∷◌,
  arith, ◌==◌, Bool-cases, Option-cases, text_keys, Text, codes, eqb, ltb, eqb_iff, inl, inr,
  some_ne_none,
}
use kvdb_nodejs.Prelude.Decimal.{decimal}
use mathlib.Core.Bool.{false≢true}
use kvdb_nodejs.Query.Value.{
  ℤ, pos, negsuc, int_eqb, Value, undefined, null, bool, num, str, array, object, Items, no_items,
  item, Fields, count_items, own, item_at, own_position, own_of_array, is_equal, items_equal,
  IsJson, AreJson, HasJson,
}
use kvdb_nodejs.Query.Value.Equal.{fields_equal-own, own-IsJson}
use kvdb_nodejs.Query.Value.Equivalence.{fields_equal_sym}
use kvdb_nodejs.Query.Ast.{
  PathSegment, key, index, FieldPath, SourceKind, enter, column, value, own_of_value, at_index,
  follow, and_then, walk_segments, extract_value,
}

-- Both missing, or equal values.
abbrev pub Alike : Option Value → Option Value → Type 0
Alike none none = Unit
Alike (some v) (some w) = IsJson v × IsJson w × (is_equal v w ≡ true)
Alike _ _ = ⊥

pub count_eq : (m n : ℕ) (b : Bool) → (eqb m n && b) ≡ true → m ≡ n
count_eq m n b h = (eqb_iff m n).0 (and_split _ _ h).0

own-Alike :
    (k : Text) (f g : Fields)
    → HasJson f
    → HasJson g
    → is_equal (object f) (object g) ≡ true
    → Alike (own k f) (own k g)
unfolding is_equal
own-Alike k f g hf hg h = elim (Option-cases (own k f)) [
  | inr (v, e) ↦
      let (w, e', q) = fields_equal-own f g k v (and_split _ _ h).1 e in
      rw (e, e') (own-IsJson f k v hf e, own-IsJson g k w hg e', q)
  | inl e ↦ elim (Option-cases (own k g)) [
    | inl e' ↦ rw (e, e') tt
    | inr (w, e') ↦
        let back = fields_equal_sym f g hf hg (count_eq _ _ _ h) (and_split _ _ h).1 in
        let (v, o, _) = fields_equal-own g f k w back e' in absurd (some_ne_none (sym o ∙ e))
  ]
]

item_at-Alike :
    (n : ℕ) (xs ys : Items)
    → AreJson xs
    → AreJson ys
    → count_items xs ≡ count_items ys
    → items_equal xs ys ≡ true
    → Alike (item_at n xs) (item_at n ys)
unfolding item_at items_equal count_items AreJson
item_at-Alike n no_items no_items hx hy c h = tt
item_at-Alike n no_items (item y ys) hx hy c h = absurd (omega arith)
item_at-Alike n (item x xs) no_items hx hy c h = cc
item_at-Alike zero (item x xs) (item y ys) (hx, hxs) (hy, hys) c h = (hx, hy, (and_split _ _ h).0)
item_at-Alike (suc n) (item x xs) (item y ys) (hx, hxs) (hy, hys) c h =
    item_at-Alike n xs ys hxs hys (omega arith) (and_split _ _ h).1

own_position-Alike :
    (k : Text) (i : ℕ) (xs ys : Items)
    → AreJson xs
    → AreJson ys
    → count_items xs ≡ count_items ys
    → items_equal xs ys ≡ true
    → Alike (own_position k i xs) (own_position k i ys)
unfolding own_position items_equal count_items AreJson
own_position-Alike k i no_items no_items hx hy c h = tt
own_position-Alike k i no_items (item y ys) hx hy c h = absurd (omega arith)
own_position-Alike k i (item x xs) no_items hx hy c h = cc
own_position-Alike k i (item x xs) (item y ys) (hx, hxs) (hy, hys) c h =
    elim (Bool-cases (decimal i == k)) [
      | inl e ↦ rw e (hx, hy, (and_split _ _ h).0)
      | inr e ↦ rw e (own_position-Alike k (suc i) xs ys hxs hys (omega arith) (and_split _ _ h).1)
    ]

own_of_array-Alike :
    (k : Text) (xs ys : Items)
    → AreJson xs
    → AreJson ys
    → is_equal (array xs) (array ys) ≡ true
    → Alike (own_of_array k xs) (own_of_array k ys)
unfolding own_of_array is_equal IsJson int_eqb
own_of_array-Alike k xs ys hx hy h = elim (Bool-cases (k == codes "length")) [
  | inl e ↦ rw e (tt, tt, (and_split _ _ h).0)
  | inr e ↦ rw e (own_position-Alike k 0 xs ys hx hy (count_eq _ _ _ h) (and_split _ _ h).1)
]

own_of_value-Alike :
    (k : Text) (v w : Value)
    → IsJson v
    → IsJson w
    → is_equal v w ≡ true
    → Alike (own_of_value k v) (own_of_value k w)
unfolding own_of_value is_equal IsJson
own_of_value-Alike k (object f) (object g) hv hw h = own-Alike k f g hv hw h
own_of_value-Alike k (array xs) (array ys) hv hw h = own_of_array-Alike k xs ys hv hw h
own_of_value-Alike k undefined undefined hv hw h = tt
own_of_value-Alike k null null hv hw h = tt
own_of_value-Alike k (bool a) (bool b) hv hw h = tt
own_of_value-Alike k (num m) (num n) hv hw h = tt
own_of_value-Alike k (str s) (str t) hv hw h = tt
own_of_value-Alike k v w hv hw h = absurd (false≢true h)

at_end-Alike :
    (n : ℕ) (xs ys : Items)
    → AreJson xs
    → AreJson ys
    → count_items xs ≡ count_items ys
    → items_equal xs ys ≡ true
    → Alike (at_index (negsuc n) (array xs)) (at_index (negsuc n) (array ys))
unfolding at_index
at_end-Alike n xs ys hx hy c h = elim (Bool-cases (ltb n (count_items ys))) [
  | inl e ↦ rw (c, e) (item_at-Alike (count_items ys - suc n) xs ys hx hy c h)
  | inr e ↦ rw (c, e) tt
]

at_index-Alike :
    (i : ℤ) (v w : Value)
    → IsJson v
    → IsJson w
    → is_equal v w ≡ true
    → Alike (at_index i v) (at_index i w)
unfolding at_index is_equal IsJson
at_index-Alike (pos n) (array xs) (array ys) hv hw h =
    item_at-Alike n xs ys hv hw (count_eq _ _ (items_equal xs ys) h) (and_split _ _ h).1
at_index-Alike (negsuc n) (array xs) (array ys) hv hw h =
    at_end-Alike n xs ys hv hw (count_eq _ _ (items_equal xs ys) h) (and_split _ _ h).1
at_index-Alike i (object f) (object g) hv hw h = tt
at_index-Alike i undefined undefined hv hw h = tt
at_index-Alike i null null hv hw h = tt
at_index-Alike i (bool a) (bool b) hv hw h = tt
at_index-Alike i (num m) (num n) hv hw h = tt
at_index-Alike i (str s) (str t) hv hw h = tt
at_index-Alike i v w hv hw h = absurd (false≢true h)

follow-Alike :
    (s : PathSegment) (v w : Value)
    → IsJson v
    → IsJson w
    → is_equal v w ≡ true
    → Alike (follow s v) (follow s w)
unfolding follow
follow-Alike (key k) v w hv hw h = own_of_value-Alike k v w hv hw h
follow-Alike (index i) v w hv hw h = at_index-Alike i v w hv hw h

and_then-Alike :
    (o p : Option Value) (next : Value → Option Value)
    → ((v w : Value) → IsJson v → IsJson w → is_equal v w ≡ true → Alike (next v) (next w))
    → Alike o p
    → Alike (and_then o next) (and_then p next)
and_then-Alike none none next f h = tt
and_then-Alike (some v) (some w) next f (hv, hw, h) = f v w hv hw h
and_then-Alike none (some w) next f h = absurd h
and_then-Alike (some v) none next f h = absurd h

walk_segments-Alike :
    (ss : List PathSegment) (v w : Value)
    → IsJson v
    → IsJson w
    → is_equal v w ≡ true
    → Alike (walk_segments ss v) (walk_segments ss w)
unfolding walk_segments
walk_segments-Alike [] v w hv hw h = (hv, hw, h)
walk_segments-Alike (s ∷ ss) v w hv hw h =
    and_then-Alike (follow s v) (follow s w) _ (walk_segments-Alike ss) (follow-Alike s v w hv hw h)

enter-Alike :
    (kind : Option SourceKind) (source : Text) (v w : Value)
    → IsJson v
    → IsJson w
    → is_equal v w ≡ true
    → Alike (enter kind source v) (enter kind source w)
unfolding enter
enter-Alike none source v w hv hw h = (hv, hw, h)
enter-Alike (some value) source v w hv hw h = (hv, hw, h)
enter-Alike (some column) source v w hv hw h = own_of_value-Alike source v w hv hw h

pub extract_value-Alike :
    (path : FieldPath) (v w : Value)
    → IsJson v
    → IsJson w
    → is_equal v w ≡ true
    → Alike (extract_value v path) (extract_value w path)
unfolding extract_value
extract_value-Alike path v w hv hw h =
    and_then-Alike _ _ _ (walk_segments-Alike path.segments)
      (enter-Alike path.source_kind path.source v w hv hw h)
