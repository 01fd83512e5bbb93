-- ===== src/Batcher.antt =====
-- src/core/batcher.ts: the write buffer, its coalescing and its flushes. The flush handler is a call
-- that takes a payload and later brings a result, so a flush is two steps: `execute_flush` takes the
-- snapshot and hands over the payload, `finish_flush` settles the callers. A caller's promise is a
-- number; `C` is the type of the values of secondary keys.
pub mod Flush
pub mod Payload
pub mod Coalesce
pub mod Snapshot
pub mod Lifetime
pub mod Lookup
pub mod Window
pub mod Answers
pub mod Barrier
pub mod Wedge
pub mod Reach
mod Tests
use kvdb_nodejs.Prelude.{
  ℕ, zero, suc, ◌+◌, ◌*◌, ◌≡◌, max, Bool, true, false, not, ◌||◌, ◌&&◌, List, [], ◌∷◌, ◌++◌, map,
  Option, none, some, Text, codes, text_keys, text_beq, find_row, upsert, length, filter, or_else,
  get_or, is_some, leb, ltb, eqb, if◌then◌else◌,
}
use kvdb_nodejs.Prelude.Decimal.{decimal}
use kvdb_nodejs.Core.Failure.{Failure, Result, ok, err, plain_error}

-- `string | number`
pub data Key : Type 0 where
  text_key : Text → Key
  number_key : ℕ → Key

unfoldable pub key_text : Key → Text
key_text (text_key t) = t
key_text (number_key n) = decimal n

text_ltb : Text → Text → Bool
text_ltb [] [] = false
text_ltb [] (y ∷ ys) = true
text_ltb (x ∷ xs) [] = false
text_ltb (x ∷ xs) (y ∷ ys) =
    let rest = text_ltb xs ys in if ltb x y then true else if ltb y x then false else rest

-- `compareKeysDeterministic(a, b) <= 0`
unfoldable pub key_leb : Key → Key → Bool
unfolding text_ltb key_text
key_leb (number_key m) (number_key n) = leb m n
key_leb (number_key m) (text_key t) = not (text_ltb t (decimal m))
key_leb (text_key s) (number_key n) = not (text_ltb (decimal n) s)
key_leb (text_key s) (text_key t) = not (text_ltb t s)

lower : ℕ → ℕ
lower c = if leb b'A' c && leb c b'Z' then c + 32 else c

is_dangerous : Text → Bool
unfolding text_beq
is_dangerous name =
    text_beq (map lower name) (codes "__proto__")
    || (text_beq (map lower name) (codes "constructor")
        || text_beq (map lower name) (codes "prototype"))

abbrev pub Columns : Type 0 → Type 0
Columns C = List (Text × C)

unfoldable pub sanitize_secondary_keys : {C : Type 0} → Option (Columns C) → Option (Columns C)
unfolding is_dangerous lower
sanitize_secondary_keys none = none
sanitize_secondary_keys (some keys) = some (filter (λ column. not (is_dangerous column.0)) keys)

pub record Options : Type 0 where
  pub max_batch_size : ℕ
  pub coalesce : Bool
  pub sql_aggregation : Bool
  pub max_buffer_size : ℕ

pub record SetItem (V C : Type 0) : Type 0 where
  pub key : Key
  pub value : V
  pub keys : Option (Columns C)
  pub ttl_ms : Option ℕ
  pub enqueued_at : ℕ

pub data OpType : Type 0 where
  set_op delete_op : OpType

-- How a flush answers a caller of `enqueue`, or of `enqueueDelete` with the answer where the flush
-- brings none, and whether the flush's answer still reaches it.
pub data Resolver : Type 0 where
  set_call : ℕ → Resolver
  delete_call : ℕ → Bool → Bool → Resolver

pub record Pending (V C : Type 0) : Type 0 where
  pub key : Key
  pub kind : OpType
  pub item : Option (SetItem V C)
  pub had_prior_set : Bool
  pub resolves : List Resolver
  pub rejects : List ℕ

pub record Flight (V C : Type 0) : Type 0 where
  pub snapshot : List (Pending V C)
  pub batch_seq : ℕ

-- `activeFlushPromise`: absent, of a flush whose handler runs, or of a flush that had nothing to do
-- and cleared the field before its promise was stored there.
pub data Active (V C : Type 0) : Type 0 where
  idle : Active V C
  writing : Flight V C → Active V C
  spent : Active V C

pub record Batcher (V C : Type 0) : Type 0 where
  pub options : Options
  pub pending_map : List (Text × Pending V C)
  pub pending_list : List (Pending V C)
  pub active : Active V C
  pub current_seq : ℕ
  pub completed_seq : ℕ
  pub timer : Bool

-- `{ ...old, ...new }`
merge_columns : {C : Type 0} → Columns C → Columns C → Columns C
merge_columns old [] = old
merge_columns old ((k, v) ∷ new) = merge_columns (upsert k v old) new

merged_keys : {C : Type 0} → Option (Columns C) → Option (Columns C) → Option (Columns C)
unfolding merge_columns
merged_keys none none = none
merged_keys (some a) none = some a
merged_keys none (some b) = some (merge_columns [] b)
merged_keys (some a) (some b) = some (merge_columns a b)

-- `() => r()`
unheard : Resolver → Resolver
unheard (set_call caller) = set_call caller
unheard (delete_call caller default heard) = delete_call caller default false

module _ {V C : Type 0} where
  item_keys : Option (SetItem V C) → Option (Columns C)
  item_keys none = none
  item_keys (some i) = i.keys

  item_ttl : Option (SetItem V C) → Option ℕ
  item_ttl none = none
  item_ttl (some i) = i.ttl_ms

  -- A set over what is pending for its key.
  unfoldable pub merge_set : ℕ → SetItem V C → Option (Pending V C) → Pending V C
  unfolding merged_keys item_keys item_ttl
  merge_set caller i none = record {
    key = i.key;
    kind = set_op;
    item = some i;
    had_prior_set = false;
    resolves = set_call caller ∷ [];
    rejects = caller ∷ [];
  }
  merge_set caller i (some p) = record p {
    kind = set_op;
    item = some (record i {
      keys = merged_keys (item_keys p.item) i.keys;
      ttl_ms = or_else i.ttl_ms (item_ttl p.item);
    });
    resolves = p.resolves ++ set_call caller ∷ [];
    rejects = p.rejects ++ caller ∷ [];
  }

  -- A delete over what is pending for its key.
  merge_delete_in : OpType → ℕ → Pending V C → Pending V C
  unfolding unheard
  merge_delete_in set_op caller p = record p {
    kind = delete_op;
    item = none;
    had_prior_set = true;
    resolves = map unheard p.resolves ++ delete_call caller true true ∷ [];
    rejects = p.rejects ++ caller ∷ [];
  }
  merge_delete_in delete_op caller p = record p {
    resolves = p.resolves ++ delete_call caller false true ∷ [];
    rejects = p.rejects ++ caller ∷ [];
  }

  unfoldable pub merge_delete : ℕ → Key → Option (Pending V C) → Pending V C
  unfolding merge_delete_in
  merge_delete caller key none = record {
    key = key;
    kind = delete_op;
    item = none;
    had_prior_set = false;
    resolves = delete_call caller false true ∷ [];
    rejects = caller ∷ [];
  }
  merge_delete caller key (some p) = merge_delete_in p.kind caller p

  unfoldable pub pending_count : Batcher V C → ℕ
  pending_count b = if b.options.coalesce then length b.pending_map else length b.pending_list
