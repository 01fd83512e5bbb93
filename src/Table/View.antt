-- ===== src/Table/View.antt =====
-- What the operations of a table do to what its readers see.
use kvdb_nodejs.Prelude.{
  ℕ, ◌+◌, ◌≤◌, ◌≡◌, refl, true, Option, none, some, Text, text_keys, if◌then◌else◌, ◌==◌, get_or,
}
use kvdb_nodejs.Core.Failure.{Failure, ok, err}
use kvdb_nodejs.Core.Expiry.{RawEntry}
use kvdb_nodejs.Core.Key.{KeyScope, to_physical_key}
use kvdb_nodejs.Drivers.Sqlite.{Rows, UpdateResult, entry}
use kvdb_nodejs.Drivers.Sqlite.View.{view, live, view-get, view-update, update-err, get-eq-view}
use kvdb_nodejs.Table.{get, update, mutate_with, Patch, UpdateOptions, value_of, add_to, increment}

increment_mutates :
    (now amount ttl : ℕ) (o : Option (RawEntry ℕ))
    → mutate_with now
        (add_to 0 amount)
        (record { upsert = true; default = some 0; ttl_ms = some ttl })
        o
      ≡ ok (record { value = get_or 0 (value_of o) + amount; ttl_ms = some ttl })
unfolding mutate_with add_to
increment_mutates now amount ttl none = refl
increment_mutates now amount ttl (some e) = refl

module _ {V : Type 0} (scope : KeyScope) (key pk : Text)
    (at : to_physical_key scope key ≡ ok pk) where
  pub get-eq :
      (now : ℕ) (rows : Rows V) → (get scope now key rows).0 ≡ ok (value_of (view now pk rows))
  unfolding get
  get-eq now rows = rw (at, get-eq-view now pk rows)

  pub view-table_get :
      (now later : ℕ) (j : Text) (rows : Rows V)
      → now ≤ later
      → view later j (get scope now key rows).1 ≡ view later j rows
  unfolding get
  view-table_get now later j rows h = rw at (view-get now later pk j rows h)

  pub view-table_update :
      (now later : ℕ) (j : Text) (patch : Patch V) (options : UpdateOptions V) (rows : Rows V)
      (r : UpdateResult V)
      → now ≤ later
      → mutate_with now patch options (view now pk rows) ≡ ok r
      → ((update scope now key patch options rows).0 ≡ ok r.value)
        × (view later j (update scope now key patch options rows).1 ≡ (
            if pk == j then live later (some (entry now r.value r.ttl_ms)) else view later j rows))
  unfolding update
  view-table_update now later j patch options rows r h e =
      rw at (view-update now later pk j (mutate_with now patch options) rows r h e)

  pub table_update-err :
      (now : ℕ) (patch : Patch V) (options : UpdateOptions V) (rows : Rows V) (e : Failure)
      → mutate_with now patch options (view now pk rows) ≡ err e
      → update scope now key patch options rows ≡ (err e, rows)
  unfolding update
  table_update-err now patch options rows e h =
      rw at (update-err now pk (mutate_with now patch options) rows e h)

module _ (scope : KeyScope) (key pk : Text) (at : to_physical_key scope key ≡ ok pk) where
  -- An increment adds to the live counter, or to zero.
  pub view-increment :
      (now later : ℕ) (j : Text) (amount : ℕ) (ttl : ℕ) (rows : Rows ℕ)
      → now ≤ later
      → let sum = get_or 0 (value_of (view now pk rows)) + amount in
        ((increment scope now key amount 0 (some ttl) rows).0 ≡ ok sum)
        × (view later j (increment scope now key amount 0 (some ttl) rows).1
            ≡ (if pk == j then live later (some (entry now sum (some ttl))) else view later j rows))
  unfolding increment
  view-increment now later j amount ttl rows h =
      view-table_update scope key pk at now later j (add_to 0 amount)
        (record { upsert = true; default = some 0; ttl_ms = some ttl }) rows
        (record { value = get_or 0 (value_of (view now pk rows)) + amount; ttl_ms = some ttl }) h
        (increment_mutates now amount ttl (view now pk rows))
