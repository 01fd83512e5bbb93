-- ===== src/Core/AutoIndex/Once.antt =====
-- src/core/auto-index.ts: the paths that are handed out over several queries.
use kvdb_nodejs.Prelude.{
  ℕ, zero, suc, ◌+◌, ◌-◌, ◌≤◌, ◌<◌, ◌≡◌, refl, sym, ◌∙◌, ap, inl, inr, false, ◌||◌, List, [], ◌∷◌,
  ◌++◌, Text, arith, text_keys, text_beq, text_beq_iff, find_row, get_or, length, length-append,
  drop, leb, ltb, Bool-cases,
}
use mathlib.Core.List.{append_assoc, append-nil}
use mathlib.Core.Path.{subst}
use kvdb_nodejs.Core.AutoIndex.{
  AutoIndexManager, auto_index_manager, member, count_path, record_path, record_paths, evict,
  record_queried,
}

abbrev pub NoDup : List Text → Type 0
NoDup [] = Unit
NoDup (x ∷ xs) = (member x xs ≡ false) × NoDup xs

member-append :
    (x y : Text) (xs : List Text) → member x (xs ++ y ∷ []) ≡ member x xs || text_beq x y
unfolding member
member-append x y [] = ground arith
member-append x y (z ∷ xs) = ground (arith, member-append x y xs)

NoDup-append : (y : Text) (xs : List Text) → member y xs ≡ false → NoDup xs → NoDup (xs ++ y ∷ [])
unfolding member
NoDup-append y [] h d = (refl, tt)
NoDup-append y (x ∷ xs) h (fresh, d) = (
  rw (member-append x y xs) (ground (arith, h, fresh, text_beq_iff x y, text_beq_iff y x)),
  NoDup-append y xs (ground (arith, h)) d,
)

-- What a step hands out goes to the end of the indexed paths, which stay without repetition and within
-- their bound.
abbrev Extends : AutoIndexManager → List Text → AutoIndexManager → Type 0
Extends m pushed m' =
    (m'.indexed ≡ m.indexed ++ pushed)
    × (m'.max_indexed ≡ m.max_indexed)
    × (m'.max_tracked ≡ m.max_tracked)
    × (NoDup m.indexed → NoDup m'.indexed)
    × (length m.indexed ≤ m.max_indexed → length m'.indexed ≤ m.max_indexed)

count_path-Extends :
    (path : Text) (next : ℕ) (m : AutoIndexManager)
    → member path m.indexed ≡ false
    → length m.indexed < m.max_indexed
    → Extends m (count_path path next m).0 (count_path path next m).1
unfolding count_path
count_path-Extends path next m fresh room = elim (Bool-cases (leb m.threshold next)) [
  | inl y ↦ rw y (
    refl,
    refl,
    refl,
    λ d. NoDup-append path m.indexed fresh d,
    λ b. omega (arith, room, length-append m.indexed (path ∷ [])),
  )
  | inr n ↦ rw n (sym (append-nil m.indexed), refl, refl, (λ d. d), λ b. b)
]

same-Extends : (m : AutoIndexManager) → Extends m [] m
same-Extends m = (sym (append-nil m.indexed), refl, refl, (λ d. d), λ b. b)

record_path-Extends :
    (path : Text) (m : AutoIndexManager) → Extends m (record_path path m).0 (record_path path m).1
unfolding record_path
record_path-Extends path m =
    let next = get_or 0 (find_row path m.counts) + 1 in
    elim (Bool-cases (member path m.indexed || leb m.max_indexed (length m.indexed))) [
      | inl y ↦ rw (record_path, y) (same-Extends m)
      | inr n ↦
          rw (record_path, n)
            (count_path-Extends path next m (ground (arith, n)) (ground (arith, n)))
    ]

Extends-trans :
    (m m' m'' : AutoIndexManager) (xs ys : List Text)
    → Extends m xs m'
    → Extends m' ys m''
    → Extends m (xs ++ ys) m''
Extends-trans m m' m'' xs ys (i, b, c, d, e) (i', b', c', d', e') = (
  i' ∙ ap (λ t. t ++ ys) i ∙ append_assoc m.indexed xs ys,
  b' ∙ b,
  c' ∙ c,
  λ h. d' (d h),
  λ h.
      subst (λ t. length m''.indexed ≤ t) b (e' (subst (λ t. length m'.indexed ≤ t) (sym b) (e h))),
)

record_paths-Extends :
    (paths : List Text) (m : AutoIndexManager)
    → Extends m (record_paths paths m).0 (record_paths paths m).1
unfolding record_paths
record_paths-Extends [] m = same-Extends m
record_paths-Extends (path ∷ paths) m =
    let m' = (record_path path m).1 in
    Extends-trans m m' (record_paths paths m').1 (record_path path m).0 (record_paths paths m').0
      (record_path-Extends path m) (record_paths-Extends paths m')

length-drop_excess : {A : Type 0} (n : ℕ) (xs : List A) → length (drop n xs) ≡ length xs - n
length-drop_excess zero xs = omega arith
length-drop_excess (suc n) [] = omega arith
length-drop_excess (suc n) (x ∷ xs) = omega (arith, length-drop_excess n xs)

evict-bound :
    (m : AutoIndexManager)
    → ((evict m).indexed ≡ m.indexed)
      × ((evict m).max_indexed ≡ m.max_indexed)
      × ((evict m).max_tracked ≡ m.max_tracked)
      × (length (evict m).counts ≤ m.max_tracked)
unfolding evict
evict-bound m = elim (Bool-cases (ltb m.max_tracked (length m.counts))) [
  | inl y ↦
      rw (evict, y)
        (
          refl,
          refl,
          refl,
          omega (arith, length-drop_excess (length m.counts - m.max_tracked) m.counts),
        )
  | inr n ↦ rw (evict, n) (refl, refl, refl, ground (arith, n))
]

-- The paths that are handed out over several queries.
unfoldable pub record_all : List (List Text) → AutoIndexManager → List Text × AutoIndexManager
record_all [] m = ([], m)
record_all (paths ∷ queries) m =
    let (to_index, m') = record_queried paths m in
    let (rest, m'') = record_all queries m' in (to_index ++ rest, m'')

record_queried-Extends :
    (paths : List Text) (m : AutoIndexManager)
    → Extends m (record_queried paths m).0 (record_queried paths m).1
unfolding record_queried
record_queried-Extends paths m =
    let next = (record_paths paths m).1 in
    let (i, b, c, bound) = evict-bound next in
    let (i', b', c', d, e) = record_paths-Extends paths m in
    (
      i ∙ i',
      b ∙ b',
      c ∙ c',
      λ h. subst (λ t. NoDup t) (sym i) (d h),
      λ h. subst (λ t. length t ≤ m.max_indexed) (sym i) (e h),
    )

record_all-Extends :
    (queries : List (List Text)) (m : AutoIndexManager)
    → Extends m (record_all queries m).0 (record_all queries m).1
unfolding record_all
record_all-Extends [] m = same-Extends m
record_all-Extends (paths ∷ queries) m =
    let m' = (record_queried paths m).1 in
    Extends-trans m m' (record_all queries m').1 (record_queried paths m).0
      (record_all queries m').0 (record_queried-Extends paths m) (record_all-Extends queries m')

counts-bounded :
    (queries : List (List Text)) (m : AutoIndexManager)
    → length m.counts ≤ m.max_tracked
    → length (record_all queries m).1.counts ≤ m.max_tracked
unfolding record_all record_queried
counts-bounded [] m h = h
counts-bounded (paths ∷ queries) m h =
    let next = (record_paths paths m).1 in
    let (_, _, kept, bound) = evict-bound next in
    let (_, _, same, _, _) = record_paths-Extends paths m in
    omega (arith, counts-bounded queries (evict next) (omega (arith, bound, kept)), kept, same)

-- Over any queries on a new manager, no path is handed out twice, at most as many are as the bound on
-- indexes, and at most as many are counted as the bound on tracked paths.
pub indexed_once :
    (threshold max_tracked max_indexed : ℕ) (queries : List (List Text))
    → (let (handed_out, m) =
          record_all queries (auto_index_manager threshold max_tracked max_indexed) in
        NoDup handed_out × (length handed_out ≤ max_indexed) × (length m.counts ≤ max_tracked))
indexed_once threshold max_tracked max_indexed queries =
    let m = auto_index_manager threshold max_tracked max_indexed in
    let (i, b, c, d, e) = record_all-Extends queries m in
    (
      subst (λ t. NoDup t) i (d tt),
      subst (λ t. length t ≤ max_indexed) i (e (omega arith)),
      counts-bounded queries m (omega arith),
    )
