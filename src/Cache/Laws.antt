-- ===== src/Cache/Laws.antt =====
-- What the stores of a cache promise: each may lose entries, but has no other ones than it was given.
use kvdb_nodejs.Prelude.{
  ℕ, ◌≡◌, ◌⊎◌, inl, inr, false, Option, none, some, Text, text_keys, ◌==◌, if◌then◌else◌, ◌∙◌,
}
use kvdb_nodejs.Core.Expiry.{RawEntry, expires_at_from_ttl, is_expired}
use kvdb_nodejs.Cache.{KvStore}

-- The entry is the given one, or lost.
abbrev pub Kept : {A : Type 0} → Option A → Option A → Type 0
Kept a b = (b ≡ none) ⊎ (b ≡ a)

pub Kept-trans : {A : Type 0} (a b c : Option A) → Kept a b → Kept b c → Kept a c
Kept-trans a b c h (inl k) = inl k
Kept-trans a b c (inl h) (inr k) = inl (k ∙ h)
Kept-trans a b c (inr h) (inr k) = inr (k ∙ h)

abbrev pub live_at : {V : Type 0} → ℕ → Option (RawEntry V) → Option (RawEntry V)
live_at now none = none
live_at now (some entry) = if is_expired entry now then none else some entry

abbrev pub entry_from : {V : Type 0} → ℕ → V → Option ℕ → RawEntry V
entry_from now value ttl = record { value = value; expires_at = expires_at_from_ttl ttl now }

-- `peek` is the entry that a store has under a key, expired or not.
pub record IsStore {S V : Type 0} (store : KvStore S V) (peek : Text → S → Option (RawEntry V))
    : Type 0 where
  pub get_live : (now : ℕ) (k : Text) (s : S) → (store.get now k s).0 ≡ live_at now (peek k s)
  pub get_keeps : (now : ℕ) (k j : Text) (s : S) → Kept (peek j s) (peek j (store.get now k s).1)
  pub set_own :
      (now : ℕ) (k : Text) (v : V) (ttl : Option ℕ) (s : S)
      → peek k (store.set now k v ttl s) ≡ some (entry_from now v ttl)
  pub set_other :
      (now : ℕ) (k j : Text) (v : V) (ttl : Option ℕ) (s : S)
      → (j == k) ≡ false
      → Kept (peek j s) (peek j (store.set now k v ttl s))
  pub delete_own : (k : Text) (s : S) → peek k (store.delete k s).1 ≡ none
  pub delete_other :
      (k j : Text) (s : S) → (j == k) ≡ false → Kept (peek j s) (peek j (store.delete k s).1)
  pub clear_all : (j : Text) (s : S) → peek j (store.clear s) ≡ none
