-- ===== src/Core/Key.antt =====
-- src/core/key.ts: user keys, physical keys and the prefix of a namespace.
use kvdb_nodejs.Prelude.{
  ℕ, ◌≡◌, sym, ap, ◌∙◌, false, [], ◌∷◌, ◌++◌, arith, Text, has_unit, is_prefix, is_prefix-append,
  drop, length, drop-length_append, append-left_cancel, if◌then◌else◌,
}
use mathlib.Core.List.{append_assoc}
use kvdb_nodejs.Core.Failure.{Result, ok, thrown, kvdb_config_error, ◌>>=◌, ◌>>◌, throw_if}

abbrev pub separator : ℕ
separator = b':'

pub record KeyScope : Type 0 where
  pub table_prefix : Text
  pub namespace : Text

unfoldable pub assert_no_separator : Text → Result (Unit {0})
assert_no_separator segment = throw_if (has_unit separator segment) (thrown kvdb_config_error)

unfoldable pub namespace_prefix : KeyScope → Result Text
unfolding assert_no_separator
namespace_prefix scope = do
  assert_no_separator scope.table_prefix
  assert_no_separator scope.namespace
  ok (scope.table_prefix ++ (scope.namespace ++ separator ∷ []))

unfoldable pub to_physical_key : KeyScope → Text → Result Text
to_physical_key scope user_key = do p ← namespace_prefix scope; ok (p ++ user_key)

unfoldable pub to_user_key : KeyScope → Text → Result Text
to_user_key scope physical_key = do
  p ← namespace_prefix scope
  ok (if is_prefix p physical_key then drop (length p) physical_key else physical_key)

unfoldable pub to_physical_prefix : KeyScope → Text → Result Text
to_physical_prefix scope user_prefix = do p ← namespace_prefix scope; ok (p ++ user_prefix)

-- A scope whose parts hold no separator.
abbrev pub IsValidScope : KeyScope → Type 0
IsValidScope s =
    (has_unit separator s.table_prefix ≡ false) × (has_unit separator s.namespace ≡ false)

abbrev pub prefix_of : KeyScope → Text
prefix_of s = s.table_prefix ++ (s.namespace ++ separator ∷ [])

pub namespace_prefix-eq : (s : KeyScope) → IsValidScope s → namespace_prefix s ≡ ok (prefix_of s)
unfolding namespace_prefix
namespace_prefix-eq s v = rw (v.0, v.1)

-- A user key maps to a physical key and back to itself; an invalid scope is refused.
pub to_user_key-to_physical_key :
    (s : KeyScope) (k : Text)
    → IsValidScope s
    → (p : Text) × (to_physical_key s k ≡ ok p) × (to_user_key s p ≡ ok k)
unfolding to_physical_key to_user_key
to_user_key-to_physical_key s k v = (
  prefix_of s ++ k,
  rw (namespace_prefix-eq s v),
  rw (
    namespace_prefix-eq s v,
    is_prefix-append (prefix_of s) k,
    drop-length_append (prefix_of s) k,
  ),
)

-- Text before the first separator.
unit_split :
    (a b s t : Text)
    → has_unit separator a ≡ false
    → has_unit separator b ≡ false
    → a ++ separator ∷ s ≡ b ++ separator ∷ t
    → (a ≡ b) × (s ≡ t)
unfolding has_unit
unit_split [] [] s t ha hb e = ground arith
unit_split [] (y ∷ b) s t ha hb e = ground arith
unit_split (x ∷ a) [] s t ha hb e = ground arith
unit_split (x ∷ a) (y ∷ b) s t ha hb e = ground (arith, unit_split a b s t)

scope_valid : (s : KeyScope) (k p : Text) → to_physical_key s k ≡ ok p → IsValidScope s
unfolding to_physical_key namespace_prefix
scope_valid s k p h = ground arith

key_text : (s : KeyScope) (k p : Text) → to_physical_key s k ≡ ok p → prefix_of s ++ k ≡ p
unfolding to_physical_key
key_text s k p h = let v = scope_valid s k p h in ground (arith, namespace_prefix-eq s v)

regroup :
    (s : KeyScope) (k : Text) → s.table_prefix ++ (s.namespace ++ separator ∷ k) ≡ prefix_of s ++ k
regroup s k = simp append_assoc

-- Under one table prefix, two valid scopes share a physical key only for the same namespace and the
-- same user key.
pub to_physical_key_injective :
    (s t : KeyScope) (j k p : Text)
    → s.table_prefix ≡ t.table_prefix
    → to_physical_key s j ≡ ok p
    → to_physical_key t k ≡ ok p
    → (s.namespace ≡ t.namespace) × (j ≡ k)
unfolding to_physical_key
to_physical_key_injective s t j k p e hs ht =
    unit_split s.namespace t.namespace j k (scope_valid s j p hs).1 (scope_valid t k p ht).1 (
      append-left_cancel s.table_prefix (
        regroup s j
        ∙ key_text s j p hs
        ∙ sym (key_text t k p ht)
        ∙ sym (regroup t k)
        ∙ ap (λ (q : Text). q ++ (t.namespace ++ separator ∷ k)) (sym e)))
