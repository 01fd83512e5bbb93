-- ===== src/Queue/Schedule/Trigger.antt =====
-- What `triggerNextSchedule` does, and which schedule it finds in a job id.
use kvdb_nodejs.Prelude.{
  ℕ, ◌≡◌, refl, sym, ◌∙◌, ◌⊎◌, inl, inr, ap, false, [], ◌∷◌, ◌++◌, Option, none, some, Text, arith,
  codes, text_keys, find_row, eqb, is_prefix, has_unit, split, ltb, Bool-cases, Option-cases,
}
use mathlib.Core.Bool.{true≢false}
use mathlib.Core.List.{append_assoc}
use kvdb_nodejs.Core.Failure.{Result-cases}
use kvdb_nodejs.Queue.Job.{JobOptions, Config, Store, Cron}
use kvdb_nodejs.Queue.Schedule.{
  trigger_next_schedule, trigger_part, trigger_named, enqueue_run, next_run, schedule_prefix,
  schedule_key, get_elem?,
}

module _ (timer : Cron) {P R : Type 0} where
  -- The store as it was, or with one job pushed.
  abbrev pub Triggered : Config → ℕ → Store P R → Store P R → Type 0
  Triggered c now s s' =
      (s' ≡ s)
      ⊎ ((name : Text) × (payload : P) × (options : JobOptions) × (time : ℕ) × (s'
            ≡ enqueue_run c now name payload options time s))

  trigger_named_cases :
      (c : Config) (now : ℕ) (name : Text) (s : Store P R)
      → Triggered c now s (trigger_named timer c now name s)
  unfolding trigger_named
  trigger_named_cases c now name s =
      elim (Option-cases (find_row (schedule_key c.name name) s.schedules)) [
        | inl e ↦ rw (trigger_named, e) (inl refl)
        | inr (sched, e) ↦
            rw (trigger_named, e)
              (elim (Option-cases (next_run timer sched.cron sched.every_ms now)) [
                | inl f ↦ rw f (inl refl)
                | inr (r, f) ↦ rw f (elim (Result-cases r) [
                  | inr (x, g) ↦ rw g (inl refl)
                  | inl (time, g) ↦ rw g (elim (Bool-cases (ltb 0 time)) [
                    | inl y ↦ rw y (inr (name, sched.payload, sched.options, time, refl))
                    | inr n ↦ rw n (inl refl)
                  ])
                ])
              ])
      ]

  trigger_part_cases :
      (c : Config) (now : ℕ) (part : Option Text) (s : Store P R)
      → Triggered c now s (trigger_part timer c now part s)
  unfolding trigger_part
  trigger_part_cases c now none s = inl refl
  trigger_part_cases c now (some []) s = inl refl
  trigger_part_cases c now (some (x ∷ name)) s = trigger_named_cases c now (x ∷ name) s

  pub trigger_cases :
      (c : Config) (now : ℕ) (id : Text) (s : Store P R)
      → Triggered c now s (trigger_next_schedule timer c now id s)
  unfolding trigger_next_schedule
  trigger_cases c now id s = elim (Bool-cases (is_prefix (schedule_prefix c.name) id)) [
    | inl y ↦ rw y (trigger_part_cases c now (get_elem? (split b':' id) 2) s)
    | inr n ↦ rw n (inl refl)
  ]

  -- An id that no schedule made triggers nothing.
  pub trigger_other :
      (c : Config) (now : ℕ) (id : Text) (s : Store P R)
      → is_prefix (schedule_prefix c.name) id ≡ false
      → trigger_next_schedule timer c now id s ≡ s
  unfolding trigger_next_schedule
  trigger_other c now id s h = rw h refl

split-append : (c : ℕ) (a t : Text) → has_unit c a ≡ false → split c (a ++ c ∷ t) ≡ a ∷ split c t
unfolding split has_unit
split-append c [] t h = ground arith
split-append c (x ∷ a) t h = elim (Bool-cases (eqb x c)) [
  | inl y ↦ absurd (true≢false (sym (rw y refl) ∙ h))
  | inr n ↦ rw (n, split-append c a t (rw n at h)) refl
]

schedule_prefix-append :
    (queue name rest : Text)
    → schedule_prefix queue ++ name ++ b':' ∷ rest
      ≡ codes "sched" ++ (b':' ∷ (queue ++ (b':' ∷ (name ++ b':' ∷ rest))))
unfolding schedule_prefix
schedule_prefix-append queue name rest =
    ap (λ t. codes "sched:" ++ t)
      (append_assoc (queue ++ b':' ∷ []) name (b':' ∷ rest)
        ∙ append_assoc queue (b':' ∷ []) (name ++ b':' ∷ rest))

-- The third part of the id of a schedule is its name, where neither name has a colon.
pub schedule_prefix-parts :
    (queue name rest : Text)
    → has_unit b':' queue ≡ false
    → has_unit b':' name ≡ false
    → get_elem? (split b':' (schedule_prefix queue ++ name ++ b':' ∷ rest)) 2 ≡ some name
unfolding get_elem? has_unit
schedule_prefix-parts queue name rest q h =
    rw
      (
        schedule_prefix-append queue name rest,
        split-append b':' (codes "sched") (queue ++ (b':' ∷ (name ++ b':' ∷ rest))) refl,
        split-append b':' queue (name ++ b':' ∷ rest) q,
        split-append b':' name rest h,
      )
      refl
