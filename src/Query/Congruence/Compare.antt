-- ===== src/Query/Congruence/Compare.antt =====
-- Comparisons of values that `isEqual` does not tell apart.
use kvdb_nodejs.Prelude.{
  and_split, ◌≡◌, refl, ap, Bool, true, not, Option, none, some, arith, text_keys, is_some,
}
use mathlib.Core.Bool.{false≢true}
use kvdb_nodejs.Query.Value.{
  ℤ, Value, undefined, null, bool, num, str, array, object, Items, no_items, item, count_items,
  is_equal, items_equal, IsJson, AreJson,
}
use kvdb_nodejs.Query.Value.Equal.{int_eqb_eq}
use kvdb_nodejs.Query.Value.Equivalence.{is_equal-left}
use kvdb_nodejs.Query.Ast.{
  CompareOp, eq_op, ne_op, gt_op, gte_op, lt_op, lte_op, in_op, nin_op, number_of, number_test,
  some_equal, evaluate_compare, some_item, some_element,
}
use kvdb_nodejs.Query.Congruence.Paths.{Alike, count_eq}

some_equal-left :
    (v w : Value) (ts : Items)
    → IsJson v
    → IsJson w
    → is_equal v w ≡ true
    → some_equal v ts ≡ some_equal w ts
unfolding some_equal
some_equal-left v w no_items hv hw h = refl
some_equal-left v w (item t ts) hv hw h =
    rw (is_equal-left v w t hv hw h, some_equal-left v w ts hv hw h) refl

number_of-Alike : (o p : Option Value) → Alike o p → number_of o ≡ number_of p
unfolding number_of is_equal
number_of-Alike none none h = refl
number_of-Alike none (some w) h = absurd h
number_of-Alike (some v) none h = absurd h
number_of-Alike (some (num m)) (some (num n)) (hv, hw, h) = ap some (int_eqb_eq m n h)
number_of-Alike (some undefined) (some undefined) h = refl
number_of-Alike (some null) (some null) h = refl
number_of-Alike (some (bool a)) (some (bool b)) h = refl
number_of-Alike (some (str s)) (some (str t)) h = refl
number_of-Alike (some (array xs)) (some (array ys)) h = refl
number_of-Alike (some (object f)) (some (object g)) h = refl
number_of-Alike (some v) (some w) (hv, hw, h) = absurd (false≢true h)

number_test-Alike :
    (test : ℤ → ℤ → Bool) (o p : Option Value) (t : Option ℤ)
    → Alike o p
    → number_test test (number_of o) t ≡ number_test test (number_of p) t
number_test-Alike test o p t h = ap (λ x. number_test test x t) (number_of-Alike o p h)

pub evaluate_compare-Alike :
    (op : CompareOp) (o p : Option Value) (t : Value)
    → Alike o p
    → evaluate_compare op o t ≡ evaluate_compare op p t
unfolding evaluate_compare
evaluate_compare-Alike op none none t h = refl
evaluate_compare-Alike op none (some w) t h = absurd h
evaluate_compare-Alike op (some v) none t h = absurd h
evaluate_compare-Alike eq_op (some v) (some w) t (hv, hw, h) = is_equal-left v w t hv hw h
evaluate_compare-Alike ne_op (some v) (some w) t (hv, hw, h) = ap not (is_equal-left v w t hv hw h)
evaluate_compare-Alike gt_op (some v) (some w) t h =
    number_test-Alike _ (some v) (some w) (number_of (some t)) h
evaluate_compare-Alike gte_op (some v) (some w) t h =
    number_test-Alike _ (some v) (some w) (number_of (some t)) h
evaluate_compare-Alike lt_op (some v) (some w) t h =
    number_test-Alike _ (some v) (some w) (number_of (some t)) h
evaluate_compare-Alike lte_op (some v) (some w) t h =
    number_test-Alike _ (some v) (some w) (number_of (some t)) h
evaluate_compare-Alike in_op (some v) (some w) (array ts) (hv, hw, h) =
    some_equal-left v w ts hv hw h
evaluate_compare-Alike nin_op (some v) (some w) (array ts) (hv, hw, h) =
    ap not (some_equal-left v w ts hv hw h)
evaluate_compare-Alike op (some v) (some w) t h = refl

some_item-Alike :
    (test : Value → Bool) (xs ys : Items)
    → ((v w : Value) → IsJson v → IsJson w → is_equal v w ≡ true → test v ≡ test w)
    → AreJson xs
    → AreJson ys
    → count_items xs ≡ count_items ys
    → items_equal xs ys ≡ true
    → some_item test xs ≡ some_item test ys
unfolding some_item items_equal count_items AreJson
some_item-Alike test no_items no_items f hx hy c h = refl
some_item-Alike test no_items (item y ys) f hx hy c h = absurd (omega arith)
some_item-Alike test (item x xs) no_items f hx hy c h = cc
some_item-Alike test (item x xs) (item y ys) f (hx, hxs) (hy, hys) c h =
    let (a, b) = and_split (is_equal x y) (items_equal xs ys) h in
    rw (f x y hx hy a, some_item-Alike test xs ys f hxs hys (omega arith) b) refl

pub some_element-Alike :
    (test : Value → Bool) (o p : Option Value)
    → ((v w : Value) → IsJson v → IsJson w → is_equal v w ≡ true → test v ≡ test w)
    → Alike o p
    → some_element test o ≡ some_element test p
unfolding some_element is_equal IsJson
some_element-Alike test none none f h = refl
some_element-Alike test none (some w) f h = absurd h
some_element-Alike test (some v) none f h = absurd h
some_element-Alike test (some (array xs)) (some (array ys)) f (hx, hy, h) =
    some_item-Alike test xs ys f hx hy (count_eq _ _ (items_equal xs ys) h) (and_split _ _ h).1
some_element-Alike test (some undefined) (some undefined) f h = refl
some_element-Alike test (some null) (some null) f h = refl
some_element-Alike test (some (bool a)) (some (bool b)) f h = refl
some_element-Alike test (some (num m)) (some (num n)) f h = refl
some_element-Alike test (some (str s)) (some (str t)) f h = refl
some_element-Alike test (some (object x)) (some (object y)) f h = refl
some_element-Alike test (some v) (some w) f (hv, hw, h) = absurd (false≢true h)

pub is_some-Alike : (o p : Option Value) → Alike o p → is_some o ≡ is_some p
is_some-Alike none none h = refl
is_some-Alike none (some w) h = absurd h
is_some-Alike (some v) none h = absurd h
is_some-Alike (some v) (some w) h = refl
