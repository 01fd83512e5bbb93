-- ===== src/Query/Value.antt =====
-- src/types/json.ts, and the object model of the language that query/evaluator.ts reads:
-- own properties, positions of an array, and `isEqual`.
pub mod Equal
pub mod Equivalence
use kvdb_nodejs.Prelude.{
  ℕ, zero, suc, ◌+◌, ◌-◌, ◌≡◌, refl, sym, ap, ◌∙◌, Bool, true, false, ◌&&◌, ◌||◌, not, Option, none,
  some, List, [], ◌∷◌, arith, if◌then◌else◌, ◌==◌, text_keys, Text, text_beq, codes, ltb, eqb,
}
use kvdb_nodejs.Prelude.Decimal.{decimal}

-- The whole numbers: `negsuc n` is -(n + 1).
pub data ℤ : Type 0 where
  pos : ℕ → ℤ
  negsuc : ℕ → ℤ

unfoldable pub int_eqb : ℤ → ℤ → Bool
int_eqb (pos m) (pos n) = eqb m n
int_eqb (negsuc m) (negsuc n) = eqb m n
int_eqb _ _ = false

unfoldable pub int_ltb : ℤ → ℤ → Bool
int_ltb (pos m) (pos n) = ltb m n
int_ltb (pos m) (negsuc n) = false
int_ltb (negsuc m) (pos n) = true
int_ltb (negsuc m) (negsuc n) = ltb n m

unfoldable pub bool_eqb : Bool → Bool → Bool
bool_eqb true b = b
bool_eqb false b = not b

-- JSON values, with the `undefined` that a query document of the caller may hold. `Items` and
-- `Fields` are the lists inside an array and an object, the fields in the order of `Object.keys`.
mutual
  pub data Value : Type 0 where
    undefined null : Value
    bool : Bool → Value
    num : ℤ → Value
    str : Text → Value
    array : Items → Value
    object : Fields → Value

  pub data Items : Type 0 where
    no_items : Items
    item : Value → Items → Items

  pub data Fields : Type 0 where
    no_fields : Fields
    field : Text → Value → Fields → Fields

unfoldable pub count_items : Items → ℕ
count_items no_items = 0
count_items (item v vs) = suc (count_items vs)

unfoldable pub count_fields : Fields → ℕ
count_fields no_fields = 0
count_fields (field k v fs) = suc (count_fields fs)

-- The property `k` of an object, if it has it.
unfoldable pub own : Text → Fields → Option Value
own k no_fields = none
own k (field j v fs) = let rest = own k fs in if j == k then some v else rest

-- The item at a position.
unfoldable pub item_at : ℕ → Items → Option Value
item_at n no_items = none
item_at zero (item v vs) = some v
item_at (suc n) (item v vs) = item_at n vs

-- An array owns the texts of its positions; `i` is the position of the first item.
unfoldable pub own_position : Text → ℕ → Items → Option Value
own_position k i no_items = none
own_position k i (item v vs) =
    let rest = own_position k (suc i) vs in if decimal i == k then some v else rest

-- An array owns its `length` as well.
unfoldable pub own_of_array : Text → Items → Option Value
own_of_array k vs =
    if k == codes "length" then some (num (pos (count_items vs))) else own_position k 0 vs

-- A test of a value that is there.
abbrev pub holds_of : (Value → Bool) → Option Value → Bool
holds_of test none = false
holds_of test (some v) = test v

-- `isEqual`: the items in order, the properties in any order. A value compared with itself is
-- compared like any other.
unfoldable mutual
  pub is_equal : Value → Value → Bool
  is_equal undefined undefined = true
  is_equal null null = true
  is_equal (bool a) (bool b) = bool_eqb a b
  is_equal (num m) (num n) = int_eqb m n
  is_equal (str s) (str t) = s == t
  is_equal (array xs) (array ys) = eqb (count_items xs) (count_items ys) && items_equal xs ys
  is_equal (object f) (object g) = eqb (count_fields f) (count_fields g) && fields_equal f g
  is_equal _ _ = false

  pub items_equal : Items → Items → Bool
  items_equal no_items ys = true
  items_equal (item x xs) no_items = false
  items_equal (item x xs) (item y ys) = is_equal x y && items_equal xs ys

  pub fields_equal : Fields → Fields → Bool
  fields_equal no_fields g = true
  fields_equal (field k v f) g = holds_of (λ w. is_equal v w) (own k g) && fields_equal f g

-- Objects whose keys differ, at every depth.
unfoldable mutual
  pub IsJson : Value → Type 0
  IsJson (array xs) = AreJson xs
  IsJson (object f) = HasJson f
  IsJson _ = Unit

  pub AreJson : Items → Type 0
  AreJson no_items = Unit
  AreJson (item x xs) = IsJson x × AreJson xs

  pub HasJson : Fields → Type 0
  HasJson no_fields = Unit
  HasJson (field k v f) = (own k f ≡ none) × IsJson v × HasJson f
