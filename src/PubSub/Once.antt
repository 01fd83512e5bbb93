-- ===== src/PubSub/Once.antt =====
-- The poll of src/pubsub/pubsub.ts hands a message on at most once, and all of those that it finds in
-- the order of their times.
use kvdb_nodejs.Prelude.{
  ℕ, ◌<◌, ◌≡◌, refl, ap, ◌∙◌, sym, eqb_no, inl, inr, Bool, true, false, arith, ◌||◌, List, [], ◌∷◌,
  ◌++◌, if◌then◌else◌, not, max, map, filter, get_or, find_row, text_keys, and_true, ◌&&◌, eqb, ltb,
  lt_of_ltb, length, Bool-cases,
}
use kvdb_nodejs.PubSub.{PubSubMessage, PubSubState, handlers_of, deliver, poll_loop, poll_events}
use mathlib.Core.Path.{subst}
use mathlib.Core.List.{append_assoc}

abbrev pub at_time : ℕ → PubSubState → PubSubState
at_time t s = record s { last_processed = t }

is_open : (c : Bool) (n : ℕ) → c ≡ false → 0 < n → (c || eqb n 0) ≡ false
is_open c n o h = rw (o, eqb_no n h) refl

module _ {P : Type 0} where
  -- Each message is later than the time and the messages before it.
  abbrev pub Rising : ℕ → List (PubSubMessage P) → Type 0
  Rising t [] = Unit
  Rising t (m ∷ ms) = (t < m.timestamp) × Rising m.timestamp ms

  -- What a poll makes of messages that it hands on all.
  abbrev deliver_all : PubSubState → List (PubSubMessage P) → List (ℕ × PubSubMessage P)
  deliver_all s [] = []
  deliver_all s (m ∷ ms) = deliver s m ++ deliver_all s ms

  abbrev pub last_time : ℕ → List (PubSubMessage P) → ℕ
  last_time t [] = t
  last_time t (m ∷ ms) = last_time m.timestamp ms

  -- The messages that move the time of the last one.
  abbrev late_ones : ℕ → List (PubSubMessage P) → List (PubSubMessage P)
  late_ones t [] = []
  late_ones t (m ∷ ms) =
      let skipped = late_ones t ms in
      let later = late_ones m.timestamp ms in if ltb t m.timestamp then m ∷ later else skipped

  loop-late_ones :
      (s : PubSubState) (t : ℕ) (ms : List (PubSubMessage P))
      → poll_loop s t ms ≡ (deliver_all s (late_ones t ms), last_time t (late_ones t ms))
  unfolding poll_loop
  loop-late_ones s t [] = refl
  loop-late_ones s t (m ∷ ms) = elim (Bool-cases (ltb t m.timestamp)) [
    | inl y ↦ rw y (ap (λ r. (deliver s m ++ r.0, r.1)) (loop-late_ones s m.timestamp ms))
    | inr n ↦ rw n (loop-late_ones s t ms)
  ]

  late_ones-Rising : (t : ℕ) (ms : List (PubSubMessage P)) → Rising t (late_ones t ms)
  late_ones-Rising t [] = tt
  late_ones-Rising t (m ∷ ms) = elim (Bool-cases (ltb t m.timestamp)) [
    | inl y ↦ rw y (lt_of_ltb t m.timestamp y, late_ones-Rising m.timestamp ms)
    | inr n ↦ rw n (late_ones-Rising t ms)
  ]

  late_ones-append :
      (t : ℕ) (xs ys : List (PubSubMessage P))
      → late_ones t (xs ++ ys) ≡ late_ones t xs ++ late_ones (last_time t (late_ones t xs)) ys
  late_ones-append t [] ys = refl
  late_ones-append t (m ∷ xs) ys = elim (Bool-cases (ltb t m.timestamp)) [
    | inl y ↦ rw y (ap (λ r. m ∷ r) (late_ones-append m.timestamp xs ys))
    | inr n ↦ rw n (late_ones-append t xs ys)
  ]

  deliver_all-append :
      (s : PubSubState) (xs ys : List (PubSubMessage P))
      → deliver_all s (xs ++ ys) ≡ deliver_all s xs ++ deliver_all s ys
  deliver_all-append s [] ys = refl
  deliver_all-append s (m ∷ xs) ys =
      ap (λ r. deliver s m ++ r) (deliver_all-append s xs ys)
      ∙ sym (append_assoc (deliver s m) (deliver_all s xs) (deliver_all s ys))

  -- Polls one after the other, each with what it finds.
  abbrev pub polls : List (List (PubSubMessage P)) → PubSubState → List (ℕ × PubSubMessage P)
  polls [] s = []
  polls (found ∷ rounds) s = (poll_events found s).0 ++ polls rounds (poll_events found s).1

  abbrev pub all_found : List (List (PubSubMessage P)) → List (PubSubMessage P)
  all_found [] = []
  all_found (found ∷ rounds) = found ++ all_found rounds

  loop-at_time :
      (s : PubSubState) (t u : ℕ) (ms : List (PubSubMessage P))
      → poll_loop (at_time t s) u ms ≡ poll_loop s u ms
  unfolding poll_loop deliver handlers_of
  loop-at_time s t u [] = refl
  loop-at_time s t u (m ∷ ms) = rw (loop-at_time s t u ms, loop-at_time s t m.timestamp ms) refl

  poll-late_ones :
      (s : PubSubState) (t : ℕ) (found : List (PubSubMessage P))
      → s.is_closed ≡ false
      → 0 < length s.subscribers
      → poll_events found (at_time t s)
        ≡ (deliver_all s (late_ones t found), at_time (last_time t (late_ones t found)) s)
  unfolding poll_events
  poll-late_ones s t found o h =
      rw (is_open s.is_closed (length s.subscribers) o h)
        (rw (loop-at_time s t t found) (ap (λ r. (r.0, at_time r.1 s)) (loop-late_ones s t found)))

  polls-late_ones :
      (s : PubSubState) (t : ℕ) (rounds : List (List (PubSubMessage P)))
      → s.is_closed ≡ false
      → 0 < length s.subscribers
      → polls rounds (at_time t s) ≡ deliver_all s (late_ones t (all_found rounds))
  polls-late_ones s t [] o h = refl
  polls-late_ones s t (found ∷ rounds) o h = rw (poll-late_ones s t found o h) (
      rw (late_ones-append t found (all_found rounds)) (
        ap (λ r. deliver_all s (late_ones t found) ++ r)
          (polls-late_ones s (last_time t (late_ones t found)) rounds o h)
        ∙ sym (deliver_all-append s (late_ones t found) _)))

  -- Later than the messages that were found before it.
  abbrev pub is_latest : PubSubMessage P → List (PubSubMessage P) → Bool
  is_latest m [] = true
  is_latest m (b ∷ before) = ltb b.timestamp m.timestamp && is_latest m before

  -- The messages later than a time and than each that was found before, `before` in reverse.
  abbrev pub new_ones : ℕ → List (PubSubMessage P) → List (PubSubMessage P) → List (PubSubMessage P)
  new_ones t before [] = []
  new_ones t before (m ∷ ms) =
      let rest = new_ones t (m ∷ before) ms in
      if ltb t m.timestamp && is_latest m before then m ∷ rest else rest

  -- What other instances sent.
  abbrev pub others : PubSubState → List (PubSubMessage P) → List (PubSubMessage P)
  others s ms = filter (λ m. not (eqb m.sender s.instance_id)) ms

  -- A call of each handler of its channel for each message.
  abbrev pub calls_for : PubSubState → List (PubSubMessage P) → List (ℕ × PubSubMessage P)
  calls_for s [] = []
  calls_for s (m ∷ ms) =
      map (λ h. (h, m)) (get_or [] (find_row m.channel s.subscribers)) ++ calls_for s ms

  deliver_all-others :
      (s : PubSubState) (ms : List (PubSubMessage P)) → deliver_all s ms ≡ calls_for s (others s ms)
  unfolding deliver handlers_of filter
  deliver_all-others s [] = refl
  deliver_all-others s (m ∷ ms) = elim (Bool-cases (eqb m.sender s.instance_id)) [
    | inl y ↦ rw y (deliver_all-others s ms)
    | inr n ↦ rw n (
        ap (λ r. map (λ h. (h, m)) (get_or [] (find_row m.channel s.subscribers)) ++ r)
          (deliver_all-others s ms))
  ]

  abbrev peak : ℕ → List (PubSubMessage P) → ℕ
  peak t [] = t
  peak t (b ∷ before) = max b.timestamp (peak t before)

  peak-is_latest :
      (t : ℕ) (m : PubSubMessage P) (before : List (PubSubMessage P))
      → ltb (peak t before) m.timestamp ≡ (ltb t m.timestamp && is_latest m before)
  peak-is_latest t m [] = sym (and_true (ltb t m.timestamp))
  peak-is_latest t m (b ∷ before) = ground (arith, peak-is_latest t m before)

  late_ones-new_ones :
      (t : ℕ) (before ms : List (PubSubMessage P))
      → late_ones (peak t before) ms ≡ new_ones t before ms
  late_ones-new_ones t before [] = refl
  late_ones-new_ones t before (m ∷ ms) = elim (Bool-cases (ltb (peak t before) m.timestamp)) [
    | inl y ↦
        let later : peak t (m ∷ before) ≡ m.timestamp = ground (arith, y) in
        rw (sym (peak-is_latest t m before)) (
          rw y (
            ap (λ r. m ∷ r)
              (ap (λ u. late_ones u ms) (sym later) ∙ late_ones-new_ones t (m ∷ before) ms)))
    | inr n ↦
        let same : peak t (m ∷ before) ≡ peak t before = ground (arith, n) in
        rw (sym (peak-is_latest t m before))
          (rw n (ap (λ u. late_ones u ms) (sym same) ∙ late_ones-new_ones t (m ∷ before) ms))
  ]

  -- while an instance is open and has subscribers, its polls call the handlers for those messages of
  -- other instances, and only those, that are later than all that it found before, each once and in the
  -- order of rising times.
  pub polls_once :
      (s : PubSubState) (rounds : List (List (PubSubMessage P)))
      → s.is_closed ≡ false
      → 0 < length s.subscribers
      → (polls rounds s ≡ calls_for s (others s (new_ones s.last_processed [] (all_found rounds))))
        × Rising s.last_processed (new_ones s.last_processed [] (all_found rounds))
  polls_once s rounds o h =
      let late = late_ones-new_ones s.last_processed [] (all_found rounds) in
      (
        polls-late_ones s s.last_processed rounds o h
            ∙ (deliver_all-others s (late_ones s.last_processed (all_found rounds))
                ∙ ap (λ ms. calls_for s (others s ms)) late),
        subst (λ ms. Rising s.last_processed ms) late
            (late_ones-Rising s.last_processed (all_found rounds)),
      )
