-- ===== src/Table/SoftDelete/Restore.antt =====
-- `restore` takes back what a soft delete did.
use kvdb_nodejs.Prelude.{
  ℕ, suc, ◌≡◌, refl, sym, ap, ◌∙◌, Bool, true, false, ◌&&◌, not, Option, none, some, Text, codes,
  eqb, and_true, text_beq, is_some, ◌==◌, text_keys, ==_self, ==_iff, arith,
}
use kvdb_nodejs.Core.Failure.{ok}
use kvdb_nodejs.Core.Expiry.{is_expired, passed, expires_at_from_ttl}
use kvdb_nodejs.Core.Key.{KeyScope, to_physical_key}
use kvdb_nodejs.Drivers.Sqlite.{Rows, entry}
use kvdb_nodejs.Drivers.Sqlite.View.{view, live, view-set}
use kvdb_nodejs.Table
use kvdb_nodejs.Table.{value_of}
use kvdb_nodejs.Table.View.{get-eq}
use kvdb_nodejs.Query.Value.{
  Value, Fields, undefined, null, bool, num, str, array, object, no_fields, field, pos, own,
  count_fields,
}
use kvdb_nodejs.Table.SoftDelete.{
  put_field, drop_field, has_deleted_at, is_marked, soft_deleted, restored, hide_deleted, soft_get,
  soft_delete, restore, is_deleted, unwrapped,
}

-- What comes back: no array, no marked object, and no object whose only property is `_value`.
abbrev pub Restorable : Value → Type 0
Restorable undefined = ⊥
Restorable (array vs) = ⊥
Restorable (object fs) =
    (own (codes "_deletedAt") fs ≡ none)
    × ((eqb (count_fields fs) 1 && is_some (own (codes "_value") fs)) ≡ false)
Restorable _ = Unit

own-put_field : (k : Text) (v : Value) (fs : Fields) → own k (put_field k v fs) ≡ some v
unfolding own put_field
own-put_field k v no_fields = rw (==_self k) refl
own-put_field k v (field j w fs) = ground (arith, own-put_field k v fs, ==_iff j k)

drop-put_field :
    (k : Text) (v : Value) (fs : Fields) → own k fs ≡ none → drop_field k (put_field k v fs) ≡ fs
unfolding own put_field drop_field
drop-put_field k v no_fields h = rw (==_self k) refl
drop-put_field k v (field j w fs) h = ground (arith, drop-put_field k v fs)

count-put_field :
    (k : Text) (v : Value) (fs : Fields)
    → own k fs ≡ none
    → count_fields (put_field k v fs) ≡ suc (count_fields fs)
unfolding own put_field count_fields
count-put_field k v no_fields h = refl
count-put_field k v (field j w fs) h = ground (arith, count-put_field k v fs)

own_other-put_field :
    (k j : Text) (v : Value) (fs : Fields) → (k == j) ≡ false → own j (put_field k v fs) ≡ own j fs
unfolding own put_field
own_other-put_field k j v no_fields n = rw n refl
own_other-put_field k j v (field i w fs) n =
    ground (arith, n, own_other-put_field k j v fs, ==_iff k j, ==_iff i k, ==_iff i j)

soft_deleted-marked :
    (now : ℕ) (v : Value) → Restorable v → has_deleted_at (soft_deleted now v) ≡ true
unfolding has_deleted_at soft_deleted own text_beq
soft_deleted-marked now undefined h = elim h [ ]
soft_deleted-marked now (array vs) h = elim h [ ]
soft_deleted-marked now null h = refl
soft_deleted-marked now (bool b) h = refl
soft_deleted-marked now (num n) h = refl
soft_deleted-marked now (str t) h = refl
soft_deleted-marked now (object fs) h =
    rw (own-put_field (codes "_deletedAt") (num (pos now)) fs) refl

unmarked : (v : Value) → Restorable v → has_deleted_at v ≡ false
unfolding has_deleted_at
unmarked (object fs) h = rw h.0 refl
unmarked undefined h = refl
unmarked null h = refl
unmarked (bool b) h = refl
unmarked (num n) h = refl
unmarked (str t) h = refl
unmarked (array vs) h = refl

two_fields : (n : ℕ) → eqb n 1 ≡ false → eqb (suc n) 2 ≡ false
two_fields n h = ground (arith, h)

unwrapped-put :
    (now : ℕ) (fs : Fields) (value : Option Value)
    → own (codes "_deletedAt") fs ≡ none
    → (eqb (count_fields fs) 1 && is_some value) ≡ false
    → unwrapped (put_field (codes "_deletedAt") (num (pos now)) fs) value ≡ object fs
unwrapped-put now fs none h k = ap object (drop-put_field (codes "_deletedAt") (num (pos now)) fs h)
unwrapped-put now fs (some v) h k = rw (count-put_field (codes "_deletedAt") (num (pos now)) fs h) (
    rw (two_fields (count_fields fs) (sym (and_true (eqb (count_fields fs) 1)) ∙ k))
      (ap object (drop-put_field (codes "_deletedAt") (num (pos now)) fs h)))

restored-soft_deleted : (now : ℕ) (v : Value) → Restorable v → restored (soft_deleted now v) ≡ v
unfolding restored soft_deleted own count_fields text_beq
restored-soft_deleted now undefined h = elim h [ ]
restored-soft_deleted now (array vs) h = elim h [ ]
restored-soft_deleted now null h = refl
restored-soft_deleted now (bool b) h = refl
restored-soft_deleted now (num n) h = refl
restored-soft_deleted now (str t) h = refl
restored-soft_deleted now (object fs) h =
    rw (own_other-put_field (codes "_deletedAt") (codes "_value") (num (pos now)) fs refl)
      (unwrapped-put now fs (own (codes "_value") fs) h.0 h.1)

module _ (scope : KeyScope) (key pk : Text) (at : to_physical_key scope key ≡ ok pk) where
  -- A key after a write without a lifetime, and after a read.
  view_set :
      (now later : ℕ) (v : Value) (rows : Rows Value)
      → view later pk (Table.set scope now key v none rows).1 ≡ some (entry now v none)
  unfolding Table.set live is_expired passed expires_at_from_ttl
  view_set now later v rows = rw (at, view-set now later pk pk v none rows, ==_self pk) refl

  set_ok :
      (now : ℕ) (v : Value) (rows : Rows Value) → (Table.set scope now key v none rows).0 ≡ ok tt
  unfolding Table.set
  set_ok now v rows = rw at refl

  soft_get-view :
      (enabled include_deleted : Bool) (now : ℕ) (rows : Rows Value)
      → (soft_get enabled include_deleted scope now key rows).0
        ≡ ok (hide_deleted (enabled && not include_deleted) (value_of (view now pk rows)))
  unfolding soft_get
  soft_get-view enabled include_deleted now rows = rw (get-eq scope key pk at now rows) refl

  -- A soft delete of a value that is there, and a restore of one that is marked.
  soft_delete-view :
      (now later : ℕ) (v : Value) (rows : Rows Value)
      → (soft_get true false scope now key rows).0 ≡ ok (some v)
      → ((soft_delete true false scope now key rows).0 ≡ ok true)
        × (view later pk (soft_delete true false scope now key rows).1
            ≡ some (entry now (soft_deleted now v) none))
  unfolding soft_delete
  soft_delete-view now later v rows h =
      let read = (soft_get true false scope now key rows).1 in
      rw h (
        rw (set_ok now (soft_deleted now v) read)
          (refl, view_set now later (soft_deleted now v) read))

  restore-view :
      (now later : ℕ) (v : Value) (rows : Rows Value)
      → value_of (view now pk rows) ≡ some v
      → has_deleted_at v ≡ true
      → ((restore true scope now key rows).0 ≡ ok true)
        × (view later pk (restore true scope now key rows).1 ≡ some (entry now (restored v) none))
  unfolding restore soft_get hide_deleted
  restore-view now later v rows h m =
      let read = (Table.get scope now key rows).1 in
      rw (get-eq scope key pk at now rows) (
        rw h
          (rw m (rw (set_ok now (restored v) read) (refl, view_set now later (restored v) read))))

  -- in a table with soft delete, in a scope that is valid, a value that is there is deleted: reads no
  -- longer show it, and isDeleted says so. A restore brings it back, and from then on every read shows
  -- it, whatever lifetime it had. This is for values other than arrays, marked objects, and objects
  -- whose only property is `_value`.
  pub restore-soft_delete :
      (now later last : ℕ) (v : Value) (rows : Rows Value)
      → Restorable v
      → (soft_get true false scope now key rows).0 ≡ ok (some v)
      → let (deleted, gone) = soft_delete true false scope now key rows in
        let (restores, back) = restore true scope later key gone in
        (deleted ≡ ok true)
        × ((soft_get true false scope later key gone).0 ≡ ok none)
        × ((is_deleted true scope later key gone).0 ≡ ok true)
        × (restores ≡ ok true)
        × ((soft_get true false scope last key back).0 ≡ ok (some v))
  unfolding is_deleted hide_deleted is_marked
  restore-soft_delete now later last v rows plain there =
      let (deleted, gone) = soft_delete-view now later v rows there in
      let marked = soft_deleted-marked now v plain in
      let (restores, back) =
        restore-view later last (soft_deleted now v) (soft_delete true false scope now key rows).1
          (ap value_of gone) marked in
      (
        deleted,
        soft_get-view true false later (soft_delete true false scope now key rows).1
            ∙ rw gone (rw marked refl),
        rw (get-eq scope key pk at later (soft_delete true false scope now key rows).1)
            (rw gone (rw marked refl)),
        restores,
        soft_get-view true false last
              (restore true scope later key (soft_delete true false scope now key rows).1).1
            ∙ rw back (rw (restored-soft_deleted now v plain) (rw (unmarked v plain) refl)),
      )
