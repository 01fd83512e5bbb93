-- ===== src/Limiter/Window.antt =====
-- What a caller of the limiter gets, over any calls inside one window.
use kvdb_nodejs.Prelude.{
  ℕ, ◌+◌, ◌-◌, ◌*◌, ◌≤◌, ◌<◌, ◌≡◌, ◌≢◌, sym, ap, inl, inr, ◌++◌, some, Text, arith, text_keys,
  get_or, ◌==◌, ==_self, ==_of_ne, if◌then◌else◌, append-left_cancel, drop, ltb, Bool-cases,
}
use kvdb_nodejs.Prelude.Decimal.{decimal, decimal_injective, decimal-ne-sign}
use kvdb_nodejs.Core.Failure.{ok}
use kvdb_nodejs.Core.Expiry.{is_expired, expires_at_from_ttl}
use kvdb_nodejs.Core.Key.{KeyScope, to_physical_key, IsValidScope, prefix_of, namespace_prefix-eq}
use kvdb_nodejs.Drivers.Sqlite.{Rows, entry}
use kvdb_nodejs.Drivers.Sqlite.View.{view, live}
use kvdb_nodejs.Table
use kvdb_nodejs.Table.{value_of}
use kvdb_nodejs.Table.View.{get-eq, view-table_get, view-increment}
use kvdb_nodejs.Limiter.{
  RateLimiterOptions, window_start, cur_key, prev_key, result_of, consume, check,
}

module _ (scope : KeyScope) (valid : IsValidScope scope) (o : RateLimiterOptions) (key : Text) where
  at_key : (k : Text) → to_physical_key scope k ≡ ok (prefix_of scope ++ k)
  unfolding to_physical_key
  at_key k = rw (namespace_prefix-eq scope valid)

  -- The live count of the current and of the previous window.
  abbrev pub cur_count : ℕ → Rows ℕ → ℕ
  cur_count now rows = get_or 0 (value_of (view now (prefix_of scope ++ cur_key o now key) rows))

  abbrev pub prev_count : ℕ → Rows ℕ → ℕ
  prev_count now rows = get_or 0 (value_of (view now (prefix_of scope ++ prev_key o now key) rows))

  pub consume_lem :
      (now later tokens : ℕ) (j : Text) (rows : Rows ℕ)
      → now ≤ later
      → ((consume scope o now key tokens rows).0
          ≡ ok (result_of o now (prev_count now rows) (cur_count now rows + tokens)))
        × (view later j (consume scope o now key tokens rows).1 ≡ (
            if prefix_of scope ++ cur_key o now key == j
            then live later
                (some (entry now (cur_count now rows + tokens) (some (o.window_ms * 2))))
            else view later j rows))
  unfolding consume
  consume_lem now later tokens j rows h =
      let pk = prefix_of scope ++ prev_key o now key in
      let ck = prefix_of scope ++ cur_key o now key in
      let read = get-eq scope (prev_key o now key) pk (at_key (prev_key o now key)) now rows in
      let kept =
        view-table_get scope (prev_key o now key) pk (at_key (prev_key o now key)) now now ck rows
          (omega arith) in
      let other =
        view-table_get scope (prev_key o now key) pk (at_key (prev_key o now key)) now later j rows
          h in
      let added =
        view-increment scope (cur_key o now key) ck (at_key (cur_key o now key)) now later j tokens
          (o.window_ms * 2) (Table.get scope now (prev_key o now key) rows).1 h in
      (rw (read, added.0, kept), rw (read, added.0) (rw (kept, other) at added.1))

  -- The keys of a window and of the window before it differ.
  prev_key-ne-cur_key : (now : ℕ) → 0 < o.window_ms → prev_key o now key ≢ cur_key o now key
  unfolding prev_key
  prev_key-ne-cur_key now pos e =
      let cur = window_start o.window_ms now in
      let same = ap (drop 1) (append-left_cancel key e) in
      elim (Bool-cases (ltb cur o.window_ms)) [
        | inl first ↦ decimal-ne-sign cur (decimal (o.window_ms - cur)) (rw first at same)
        | inr later ↦
            let equal : cur - o.window_ms ≡ cur = decimal_injective (rw later at same) in
            absurd (ground (arith, later, equal))
      ]

  -- A `check` at the time of a `consume` reports what the `consume` reported.
  pub check-consume :
      (now tokens : ℕ) (rows : Rows ℕ)
      → 0 < o.window_ms
      → (check scope o now key (consume scope o now key tokens rows).1).0
        ≡ (consume scope o now key tokens rows).0
  unfolding check
  check-consume now tokens rows pos =
      let pk = prefix_of scope ++ prev_key o now key in
      let ck = prefix_of scope ++ cur_key o now key in
      let after = (consume scope o now key tokens rows).1 in
      let result = (consume_lem now now tokens pk rows (omega arith)).0 in
      let prev_after = (consume_lem now now tokens pk rows (omega arith)).1 in
      let cur_after = (consume_lem now now tokens ck rows (omega arith)).1 in
      let apart =
        ==_of_ne ck pk
          (λ e. prev_key-ne-cur_key now pos (sym (append-left_cancel (prefix_of scope) e))) in
      let read = get-eq scope (prev_key o now key) pk (at_key (prev_key o now key)) now after in
      let kept =
        view-table_get scope (prev_key o now key) pk (at_key (prev_key o now key)) now now ck after
          (omega arith) in
      let read_cur =
        get-eq scope (cur_key o now key) ck (at_key (cur_key o now key)) now
          (Table.get scope now (prev_key o now key) after).1 in
      rw (read, read_cur, kept, result, prev_after, cur_after, apart, ==_self ck)
        (unfold live is_expired expires_at_from_ttl in ground arith)
