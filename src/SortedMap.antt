-- ===== src/SortedMap.antt =====
-- std::map as the code uses it: the entries in the order of the comparison, at most one for a key.
-- The comparison is an argument: std::less or std::greater of the keys.
pub mod Order
pub mod Laws
pub mod Sorted
pub mod Canonical
pub mod Entries
use taifex_cpp_sdk.Prelude.{
  ◌≡◌, Bool, true, false, not, ◌&&◌, Option, none, some, List, [], ◌∷◌, if◌then◌else◌,
}
use Order.{StrictOrder}

abbrev pub SortedMap : Type 0 → Type 0 → Type 0
SortedMap K V = List (K × V)

-- Keys of which neither comes first.
abbrev pub same : {K : Type 0} → StrictOrder K → K → K → Bool
same order a b = not (order.less a b) && not (order.less b a)

module _ {K : Type 0} (order : StrictOrder K) {V : Type 0} where
  -- `find`; `none` is `end()`
  unfoldable pub find : K → SortedMap K V → Option V
  find k [] = none
  find k ((j, v) ∷ m) =
      if order.less j k then find k m else (if order.less k j then none else some v)

  -- `m[k] = v`
  unfoldable pub insert : K → V → SortedMap K V → SortedMap K V
  insert k v [] = (k, v) ∷ []
  insert k v ((j, w) ∷ m) =
      if order.less j k
      then (j, w) ∷ insert k v m
      else (if order.less k j then (k, v) ∷ (j, w) ∷ m else (j, v) ∷ m)

  -- `erase(k)`
  unfoldable pub erase : K → SortedMap K V → SortedMap K V
  erase k [] = []
  erase k ((j, w) ∷ m) =
      if order.less j k then (j, w) ∷ erase k m else (if order.less k j then (j, w) ∷ m else m)

  -- The entries stand in strictly ascending order.
  abbrev pub Follows : K → SortedMap K V → Type 0
  Follows k [] = Unit
  Follows k ((j, v) ∷ m) = order.less k j ≡ true

  abbrev pub Sorted : SortedMap K V → Type 0
  Sorted [] = Unit
  Sorted ((k, v) ∷ m) = Follows k m × Sorted m

-- A condition on every value.
abbrev pub AllValues : {K V : Type 0} → (V → Type 0) → SortedMap K V → Type 0
AllValues P [] = Unit
AllValues P ((k, v) ∷ m) = P v × AllValues P m

-- A loop over the map that changes each value.
abbrev pub map_values : {K V : Type 0} → (V → V) → SortedMap K V → SortedMap K V
map_values f [] = []
map_values f ((k, v) ∷ m) = (k, f v) ∷ map_values f m

-- A condition on every entry.
abbrev pub AllEntries : {K V : Type 0} → (K → V → Type 0) → SortedMap K V → Type 0
AllEntries P [] = Unit
AllEntries P ((k, v) ∷ m) = P k v × AllEntries P m
