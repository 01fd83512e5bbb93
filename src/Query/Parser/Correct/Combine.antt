-- ===== src/Query/Parser/Correct/Combine.antt =====
-- How the meaning of a query is put together from the meaning of its parts.
use kvdb_nodejs.Prelude.{
  and_true, and_false, false_and, and_both, ◌≡◌, refl, sym, ap, ◌∙◌, Bool, true, false, ◌&&◌, ◌||◌,
  not, Option, none, some,
}
use kvdb_nodejs.Core.Failure.{Result, ok, err, ◌>>=◌, ◌>>◌, throw_if}
use kvdb_nodejs.Query.Value.{Value, array, Items, no_items, item}
use kvdb_nodejs.Query.Ast.{
  FieldPath, QueryNode, and, or, nor, not_node, elem_match, Nodes, no_nodes, node, extract_value,
  some_element, some_item, evaluate_query, every_node, some_node,
}
use kvdb_nodejs.Query.Parser.{query_error, conjunction}

-- A query is accepted where it is valid, and its tree matches what it matches; any other one is
-- refused with a query error.
abbrev pub Means : Result QueryNode → Bool → (Value → Bool) → Type 0
Means (ok n) valid matches = (valid ≡ true) × ((doc : Value) → evaluate_query n doc ≡ matches doc)
Means (err e) valid matches = (valid ≡ false) × (e ≡ query_error)

-- The same for a list of queries, all of which have to match, or of which some has to.
abbrev pub AllMean : Result Nodes → Bool → (Value → Bool) → Type 0
AllMean (ok ns) valid every = (valid ≡ true) × ((doc : Value) → every_node ns doc ≡ every doc)
AllMean (err e) valid every = (valid ≡ false) × (e ≡ query_error)

abbrev pub BranchesMean : Result Nodes → Bool → (Value → Bool) → (Value → Bool) → Type 0
BranchesMean (ok ns) valid every some' =
    (valid ≡ true)
    × ((doc : Value) → every_node ns doc ≡ every doc)
    × ((doc : Value) → some_node ns doc ≡ some' doc)
BranchesMean (err e) valid every some' = (valid ≡ false) × (e ≡ query_error)

pub evaluate_query-conjunction :
    (n : QueryNode) (ns : Nodes) (doc : Value)
    → evaluate_query (conjunction n ns) doc ≡ (evaluate_query n doc && every_node ns doc)
unfolding conjunction evaluate_query
evaluate_query-conjunction n no_nodes doc = sym (and_true (evaluate_query n doc))
evaluate_query-conjunction n (node m ms) doc = refl

pub Means-conjunction :
    (r : Result QueryNode) (rs : Result Nodes) (v vs : Bool) (m ms : Value → Bool)
    → Means r v m
    → AllMean rs vs ms
    → Means (r >>= λ n. rs >>= λ ns. ok (conjunction n ns)) (v && vs) (λ doc. m doc && ms doc)
Means-conjunction (err e) rs v vs m ms h k = (false_and vs h.0, h.1)
Means-conjunction (ok n) (err e) v vs m ms h k = (and_false h.0 k.0, k.1)
Means-conjunction (ok n) (ok ns) v vs m ms h k =
    (and_both h.0 k.0, λ doc. evaluate_query-conjunction n ns doc ∙ rw (h.1 doc, k.1 doc) refl)

pub AllMean-node :
    (r : Result QueryNode) (rs : Result Nodes) (v vs : Bool) (m ms : Value → Bool)
    → Means r v m
    → AllMean rs vs ms
    → AllMean (r >>= λ n. rs >>= λ ns. ok (node n ns)) (v && vs) (λ doc. m doc && ms doc)
unfolding every_node
AllMean-node (err e) rs v vs m ms h k = (false_and vs h.0, h.1)
AllMean-node (ok n) (err e) v vs m ms h k = (and_false h.0 k.0, k.1)
AllMean-node (ok n) (ok ns) v vs m ms h k = (and_both h.0 k.0, λ doc. rw (h.1 doc, k.1 doc) refl)

pub BranchesMean-node :
    (r : Result QueryNode) (rs : Result Nodes) (v vs : Bool) (m every some' : Value → Bool)
    → Means r v m
    → BranchesMean rs vs every some'
    → BranchesMean
        (r >>= λ n. rs >>= λ ns. ok (node n ns))
        (v && vs)
        (λ doc. m doc && every doc)
        (λ doc. m doc || some' doc)
unfolding every_node
BranchesMean-node (err e) rs v vs m every some' h k = (false_and vs h.0, h.1)
BranchesMean-node (ok n) (err e) v vs m every some' h k = (and_false h.0 k.0, k.1)
BranchesMean-node (ok n) (ok ns) v vs m every some' h k =
    (and_both h.0 k.0, λ doc. rw (h.1 doc, k.1 doc) refl, λ doc. rw (h.1 doc, k.2 doc) refl)

pub Means-not :
    (r : Result QueryNode) (v : Bool) (m : Value → Bool)
    → Means r v m
    → Means (r >>= λ n. ok (not_node n)) v (λ doc. not (m doc))
unfolding evaluate_query
Means-not (err e) v m h = h
Means-not (ok n) v m h = (h.0, λ doc. ap not (h.1 doc))

pub Means-branches :
    (rs : Result Nodes) (v : Bool) (every some' : Value → Bool)
    → BranchesMean rs v every some'
    → Means (rs >>= λ ns. ok (and ns)) v every
      × Means (rs >>= λ ns. ok (or ns)) v some'
      × Means (rs >>= λ ns. ok (nor ns)) v (λ doc. not (some' doc))
unfolding evaluate_query
Means-branches (err e) v every some' h = (h, h, h)
Means-branches (ok ns) v every some' h = ((h.0, h.1), (h.0, h.2), (h.0, λ doc. ap not (h.2 doc)))

pub Means-guard :
    (r : Result QueryNode) (bad v : Bool) (m : Value → Bool)
    → Means r v m
    → Means (throw_if bad query_error >> r) (not bad && v) m
Means-guard r true v m h = (refl, refl)
Means-guard r false v m h = h

-- The tests of `elemMatch` on equal tests.
pub some_item-same :
    (p q : Value → Bool) (vs : Items) → ((v : Value) → p v ≡ q v) → some_item p vs ≡ some_item q vs
unfolding some_item
some_item-same p q no_items h = refl
some_item-same p q (item v vs) h = rw (h v, some_item-same p q vs h) refl

pub some_element-same :
    (p q : Value → Bool) (o : Option Value)
    → ((v : Value) → p v ≡ q v)
    → some_element p o ≡ some_element q o
unfolding some_element
some_element-same p q none h = refl
some_element-same p q (some (array vs)) h = some_item-same p q vs h
some_element-same p q (some v) h = refl

pub Means-elem_match :
    (r : Result QueryNode) (path : FieldPath) (v : Bool) (m : Value → Bool)
    → Means r v m
    → Means (r >>= λ n. ok (elem_match path n)) v (λ doc. some_element m (extract_value doc path))
unfolding evaluate_query
Means-elem_match (err e) path v m h = h
Means-elem_match (ok n) path v m h =
    (h.0, λ doc. some_element-same _ m (extract_value doc path) h.1)
