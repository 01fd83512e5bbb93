-- ===== src/Drivers/Sqlite/View.antt =====
-- What a reader sees of the rows: the entries that have not expired.
use kvdb_nodejs.Prelude.{
  ℕ, ◌≤◌, ◌≡◌, refl, false, Option, none, some, arith, Text, text_keys, find_row, if◌then◌else◌,
  ◌==◌, ==_iff, find_row-upsert, find_row-remove,
}
use kvdb_nodejs.Core.Failure.{Failure, Result, ok, err}
use kvdb_nodejs.Core.Expiry.{RawEntry, is_expired, passed_mono}
use kvdb_nodejs.Drivers.Sqlite.{Rows, UpdateResult, entry, get, set, delete, update}

module _ {V : Type 0} where
  unfoldable pub live : ℕ → Option (RawEntry V) → Option (RawEntry V)
  live now none = none
  live now (some e) = if is_expired e now then none else some e

  unfoldable pub view : ℕ → Text → Rows V → Option (RawEntry V)
  unfolding live
  view now key rows = live now (find_row key rows)

  -- What has expired stays expired.
  live-live :
      (now later : ℕ) (o : Option (RawEntry V))
      → now ≤ later
      → live later (live now o) ≡ live later o
  unfolding live is_expired
  live-live now later none h = refl
  live-live now later (some e) h = ground (arith, passed_mono e.expires_at now later h)

  pub get-eq-view :
      (now : ℕ) (key : Text) (rows : Rows V) → (get now key rows).0 ≡ view now key rows
  unfolding get view
  get-eq-view now key rows = ground arith

  -- A read changes nothing that any later read sees.
  pub view-get :
      (now later : ℕ) (k j : Text) (rows : Rows V)
      → now ≤ later
      → view later j (get now k rows).1 ≡ view later j rows
  unfolding get view
  view-get now later k j rows h =
      ground (arith, find_row-remove k j rows, ==_iff k j, live-live now later (find_row k rows))

  pub view-set :
      (now later : ℕ) (k j : Text) (v : V) (ttl : Option ℕ) (rows : Rows V)
      → view later j (set now k v ttl rows)
        ≡ (if k == j then live later (some (entry now v ttl)) else view later j rows)
  unfolding set view
  view-set now later k j v ttl rows = rw (find_row-upsert k j (entry now v ttl) rows) (ground arith)

  pub view-delete :
      (later : ℕ) (k j : Text) (rows : Rows V)
      → view later j (delete k rows).1 ≡ (if k == j then none else view later j rows)
  unfolding delete view
  view-delete later k j rows = rw (find_row-remove k j rows) (ground arith)

  -- An update hands the live entry to the mutator and stores what it returns; one that throws
  -- leaves the rows as they were.
  pub view-update :
      (now later : ℕ) (k j : Text) (mutate : Option (RawEntry V) → Result (UpdateResult V))
      (rows : Rows V) (r : UpdateResult V)
      → now ≤ later
      → mutate (view now k rows) ≡ ok r
      → ((update now k mutate rows).0 ≡ ok r.value)
        × (view later j (update now k mutate rows).1 ≡ (
            if k == j then live later (some (entry now r.value r.ttl_ms)) else view later j rows))
  unfolding update view
  view-update now later k j mutate rows r h e =
      rw (get-eq-view now k rows, e)
        (
          refl,
          rw (find_row-upsert k j (entry now r.value r.ttl_ms) (get now k rows).1)
              (ground (arith, view-get now later k j rows h)),
        )

  pub update-err :
      (now : ℕ) (k : Text) (mutate : Option (RawEntry V) → Result (UpdateResult V)) (rows : Rows V)
      (e : Failure)
      → mutate (view now k rows) ≡ err e
      → update now k mutate rows ≡ (err e, rows)
  unfolding update
  update-err now k mutate rows e h = rw (get-eq-view now k rows, h)

  -- A live entry stays in view until it expires.
  pub view-later :
      (now later : ℕ) (k : Text) (rows : Rows V) (e : RawEntry V)
      → view now k rows ≡ some e
      → is_expired e later ≡ false
      → view later k rows ≡ some e
  unfolding view live
  view-later now later k rows e v h = ground arith
