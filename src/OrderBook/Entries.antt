-- ===== src/OrderBook/Entries.antt =====
-- What one entry does to a side of the book, price by price.
use taifex_cpp_sdk.Prelude.{
  ℕ, ◌^◌, ◌<◌, ◌≡◌, not, ◌&&◌, ◌||◌, Option, none, some, arith, ◌==◌, if◌then◌else◌,
}
use taifex_cpp_sdk.Prelude.Int.{ℤ, ◌==ℤ◌}
use taifex_cpp_sdk.SortedMap.{SortedMap, find, same, Sorted, AllValues}
use taifex_cpp_sdk.SortedMap.Order.{StrictOrder, ascending, descending}
use taifex_cpp_sdk.SortedMap.Laws.{find-insert, find-erase, find-same}
use taifex_cpp_sdk.SortedMap.Sorted.{insert-Sorted, erase-Sorted, insert-AllValues, erase-AllValues}
use taifex_cpp_sdk.OrderBook.{update_level}

-- What is done to a value that may be absent.
pub data Effect (A : Type 0) : Type 0 where
  keep : Effect A
  remove : Effect A
  write : A → Effect A

abbrev pub overwrite : {A : Type 0} → Effect A → Option A → Option A
overwrite keep old = old
overwrite remove old = none
overwrite (write q) old = some q

-- The exchange's rules: New writes, Change writes or removes, Delete removes.
abbrev pub level_effect : ℕ → ℕ → Effect ℕ
level_effect action quantity =
    if action == 50 || ((action == 49) && (quantity == 0))
    then remove
    else if (quantity == 0) || not ((action == 48) || (action == 49))
    then keep
    else write quantity

-- Quantities are positive and fit in 64 bits.
abbrev pub IsQuantity : ℕ → Type 0
IsQuantity q = (0 < q) × (q < 2 ^ 64)

pub same-descending : (j k : ℤ) → same descending j k ≡ (j ==ℤ k)
same-descending j k = ground arith

pub same-ascending : (j k : ℤ) → same ascending j k ≡ (j ==ℤ k)
same-ascending j k = ground arith

module _ (order : StrictOrder ℤ) where
  pub find-update_level :
      (p k : ℤ) (action q : ℕ) (m : SortedMap ℤ ℕ)
      → Sorted order m
      → find order p (update_level order action k q m) ≡ (
          if same order k p
          then overwrite (level_effect action q) (find order p m)
          else find order p m)
  unfolding update_level
  find-update_level p k action q m h =
      ground (arith, find-insert order p k q m, find-erase order p k m h, find-same order p k m)

  pub update_level-Sorted :
      (k : ℤ) (action q : ℕ) (m : SortedMap ℤ ℕ)
      → Sorted order m
      → Sorted order (update_level order action k q m)
  unfolding update_level
  update_level-Sorted k action q m h =
      ground (arith, insert-Sorted order k q m h, erase-Sorted order k m h)

  pub update_level-AllValues :
      (k : ℤ) (action q : ℕ) (m : SortedMap ℤ ℕ)
      → q < 2 ^ 64
      → AllValues IsQuantity m
      → AllValues IsQuantity (update_level order action k q m)
  unfolding update_level
  update_level-AllValues k action q m b h =
      ground
        (arith, insert-AllValues order IsQuantity k q m, erase-AllValues order IsQuantity k m h)
