-- ===== src/Core/AutoIndex.antt =====
-- src/core/auto-index.ts: the paths that are queried often enough to be indexed. A Map is a list in the
-- order of its keys' insertion, and so is a Set.
pub mod Once
use kvdb_nodejs.Prelude.{
  ℕ, ◌+◌, ◌-◌, Bool, true, false, ◌||◌, List, [], ◌∷◌, ◌++◌, Text, text_keys, text_beq, find_row,
  upsert, remove, get_or, length, drop, leb, ltb, if◌then◌else◌,
}

pub record AutoIndexManager : Type 0 where
  pub threshold : ℕ
  pub max_tracked : ℕ
  pub max_indexed : ℕ
  pub counts : List (Text × ℕ)
  pub indexed : List Text

abbrev pub auto_index_manager : ℕ → ℕ → ℕ → AutoIndexManager
auto_index_manager threshold max_tracked max_indexed = record {
  threshold = threshold;
  max_tracked = max_tracked;
  max_indexed = max_indexed;
  counts = [];
  indexed = [];
}

unfoldable pub member : Text → List Text → Bool
member x [] = false
member x (y ∷ ys) = text_beq x y || member x ys

-- A path that has just been queried for the `next`-th time.
count_path : Text → ℕ → AutoIndexManager → List Text × AutoIndexManager
count_path path next m =
    if leb m.threshold next
    then (path ∷ [], record m { counts = remove path m.counts; indexed = m.indexed ++ path ∷ [] })
    else ([], record m { counts = upsert path next m.counts })

-- The body of the loop: what it pushes, and the state.
unfoldable pub record_path : Text → AutoIndexManager → List Text × AutoIndexManager
unfolding count_path member
record_path path m =
    let counted = count_path path (get_or 0 (find_row path m.counts) + 1) m in
    if member path m.indexed || leb m.max_indexed (length m.indexed) then ([], m) else counted

unfoldable pub record_paths : List Text → AutoIndexManager → List Text × AutoIndexManager
unfolding record_path
record_paths [] m = ([], m)
record_paths (path ∷ paths) m =
    let (pushed, m') = record_path path m in
    let (rest, m'') = record_paths paths m' in (pushed ++ rest, m'')

-- The oldest counts beyond the bound go.
unfoldable pub evict : AutoIndexManager → AutoIndexManager
evict m =
    if ltb m.max_tracked (length m.counts)
    then record m { counts = drop (length m.counts - m.max_tracked) m.counts }
    else m

unfoldable pub record_queried : List Text → AutoIndexManager → List Text × AutoIndexManager
unfolding record_paths evict
record_queried paths m = let (to_index, m') = record_paths paths m in (to_index, evict m')
