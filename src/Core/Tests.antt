-- ===== src/Core/Tests.antt =====
-- Keys and the auto-index manager on concrete inputs.
use kvdb_nodejs.Prelude.{
  ◌≤◌, length, List, [], ◌∷◌, text_beq, text_keys, find_row, upsert, remove, ◌≡◌, refl, Text, codes,
  has_unit,
}
use kvdb_nodejs.Core.Failure.{ok}
use kvdb_nodejs.Core.AutoIndex.{
  auto_index_manager, record_queried, record_paths, record_path, member, evict,
}
use kvdb_nodejs.Core.AutoIndex.Once.{NoDup, record_all, indexed_once}
use kvdb_nodejs.Core.Key.{
  KeyScope, IsValidScope, to_physical_key, to_user_key, to_user_key-to_physical_key,
  namespace_prefix, to_physical_key_injective,
}

abbrev users : KeyScope
users = record { table_prefix = codes "t_"; namespace = codes "users" }

users-IsValidScope : IsValidScope users
unfolding has_unit
users-IsValidScope = (refl, refl)

to_user_key-to_physical_key_example :
    (p : Text) × (to_physical_key users (codes "a:b") ≡ ok p)
    × (to_user_key users p ≡ ok (codes "a:b"))
to_user_key-to_physical_key_example =
    to_user_key-to_physical_key users (codes "a:b") users-IsValidScope

to_physical_key_injective_example : (users.namespace ≡ codes "users") × (codes "a" ≡ codes "a")
unfolding to_physical_key namespace_prefix has_unit
to_physical_key_injective_example =
    to_physical_key_injective users users (codes "a") (codes "a") (codes "t_users:a") refl refl refl

abbrev queries : List (List Text)
queries =
    (codes "age" ∷ codes "name" ∷ []) ∷ (codes "age" ∷ []) ∷ (codes "age" ∷ codes "age" ∷ []) ∷ []

-- The second query of a path hands it out.
ages : (record_all queries (auto_index_manager 2 1 200)).0 ≡ codes "age" ∷ []
unfolding record_all record_queried record_paths record_path member evict text_beq find_row upsert
    remove
ages = refl

indexed_once_example :
    (let (handed_out, m) = record_all queries (auto_index_manager 2 2 200) in
      NoDup handed_out × (length handed_out ≤ 200) × (length m.counts ≤ 2))
indexed_once_example = indexed_once 2 2 200 queries
