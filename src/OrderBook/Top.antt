-- ===== src/OrderBook/Top.antt =====
-- The best levels of a book, as get_top_bids and get_top_asks return them.
use taifex_cpp_sdk.Prelude.{
  ℕ, zero, suc, min, ◌≡◌, refl, true, some, List, [], ◌∷◌, length, All, All-map, arith, ◌⊎◌, inl,
  inr,
}
use mathlib.Core.List.{Memᴰ}
use mathlib.Core.List.Memᴰ.{head, tail}
use taifex_cpp_sdk.Prelude.Int.{ℤ}
use taifex_cpp_sdk.SortedMap.{SortedMap, find, Follows, Sorted}
use taifex_cpp_sdk.SortedMap.Order.{StrictOrder, ascending, descending}
use taifex_cpp_sdk.SortedMap.Laws.{find_head, Follows-trans}
use taifex_cpp_sdk.SortedMap.Canonical.{find_tail}
use taifex_cpp_sdk.OrderBook.{
  OrderBook, PriceQuantityLevel, level_of, top_levels, get_top_bids, get_top_asks,
}
use taifex_cpp_sdk.OrderBook.Valid.{IsValid}

-- The levels stand in the map, each with its quantity.
abbrev Stand : StrictOrder ℤ → SortedMap ℤ ℕ → List PriceQuantityLevel → Type 0
Stand order m levels = All (λ l. find order l.price m ≡ some l.quantity) levels

module _ (order : StrictOrder ℤ) where
  length-top_levels : (n : ℕ) (m : SortedMap ℤ ℕ) → length (top_levels n m) ≡ min n (length m)
  unfolding top_levels
  length-top_levels zero m = omega arith
  length-top_levels (suc n) [] = omega arith
  length-top_levels (suc n) (l ∷ m) = omega (arith, length-top_levels n m)

  find_later :
      (k : ℤ) (v : ℕ) (m : SortedMap ℤ ℕ) (l : PriceQuantityLevel)
      → Follows order k m
      → find order l.price m ≡ some l.quantity
      → (find order l.price ((k, v) ∷ m) ≡ some l.quantity) × (order.less k l.price ≡ true)
  find_later k v m l h e = ground (arith, find_tail order l.price k v m h)

  top_levels-Stand : (n : ℕ) (m : SortedMap ℤ ℕ) → Sorted order m → Stand order m (top_levels n m)
  unfolding top_levels
  top_levels-Stand zero m h = tt
  top_levels-Stand (suc n) [] h = tt
  top_levels-Stand (suc n) ((k, v) ∷ m) h = (
    find_head order k v m,
    All-map (λ l e. (find_later k v m l h.0 e).0) (top_levels n m) (top_levels-Stand n m h.1),
  )

  -- Each level comes before all behind it.
  abbrev pub InOrder : List PriceQuantityLevel → Type 0
  InOrder [] = Unit
  InOrder (l ∷ levels) = All (λ t. order.less l.price t.price ≡ true) levels × InOrder levels

  top_levels-InOrder : (n : ℕ) (m : SortedMap ℤ ℕ) → Sorted order m → InOrder (top_levels n m)
  unfolding top_levels
  top_levels-InOrder zero m h = tt
  top_levels-InOrder (suc n) [] h = tt
  top_levels-InOrder (suc n) ((k, v) ∷ m) h = (
    All-map (λ l e. (find_later k v m l h.0 e).1) (top_levels n m) (top_levels-Stand n m h.1),
    top_levels-InOrder n m h.1,
  )

  Follows-All :
      (k : ℤ) (m : SortedMap ℤ ℕ)
      → Follows order k m
      → Sorted order m
      → All (λ e. order.less k e.0 ≡ true) m
  Follows-All k [] h sorted = tt
  Follows-All k ((j, v) ∷ m) h sorted =
      (h, Follows-All k m (Follows-trans order k j m h sorted.0) sorted.1)

  -- Among the levels, or behind all of them.
  abbrev pub IsRanked : List PriceQuantityLevel → ℤ × ℕ → Type 0
  IsRanked levels e = Memᴰ (level_of e) levels ⊎ All (λ t. order.less t.price e.0 ≡ true) levels

  All-IsRanked : (m : SortedMap ℤ ℕ) → All (IsRanked []) m
  All-IsRanked [] = tt
  All-IsRanked (e ∷ m) = (inr tt, All-IsRanked m)

  worse :
      (k : ℤ) (v : ℕ) (levels : List PriceQuantityLevel) (m : SortedMap ℤ ℕ)
      → All (λ e. order.less k e.0 ≡ true) m
      → All (IsRanked levels) m
      → All (IsRanked (level_of (k, v) ∷ levels)) m
  worse k v levels [] after ranked = tt
  worse k v levels (e ∷ m) after (inl here, ranked) =
      (inl (tail here), worse k v levels m after.1 ranked)
  worse k v levels (e ∷ m) after (inr better, ranked) =
      (inr (after.0, better), worse k v levels m after.1 ranked)

  top_levels-IsRanked :
      (n : ℕ) (m : SortedMap ℤ ℕ) → Sorted order m → All (IsRanked (top_levels n m)) m
  unfolding top_levels
  top_levels-IsRanked zero m h = All-IsRanked m
  top_levels-IsRanked (suc n) [] h = tt
  top_levels-IsRanked (suc n) ((k, v) ∷ m) h = (
    inl (head refl),
    worse k v (top_levels n m) m (Follows-All k m h.0 h.1) (top_levels-IsRanked n m h.1),
  )

-- On every valid book, an empty side included, get_top_bids returns min(n, size) levels, their prices
-- strictly falling, each with the quantity that the book holds at its price; every bid of the book is among
-- them or has a lower price than all of them. get_top_asks does the same with the asks, their prices
-- strictly rising.
pub top_levels_best :
    (book : OrderBook) (n : ℕ)
    → IsValid book
    → (length (get_top_bids book n) ≡ min n (length book.bids))
      × InOrder descending (get_top_bids book n)
      × All (λ t. find descending t.price book.bids ≡ some t.quantity) (get_top_bids book n)
      × All (IsRanked descending (get_top_bids book n)) book.bids
      × (length (get_top_asks book n) ≡ min n (length book.asks))
      × InOrder ascending (get_top_asks book n)
      × All (λ t. find ascending t.price book.asks ≡ some t.quantity) (get_top_asks book n)
      × All (IsRanked ascending (get_top_asks book n)) book.asks
top_levels_best book n valid = (
  length-top_levels descending n book.bids,
  top_levels-InOrder descending n book.bids valid.bids_sorted,
  top_levels-Stand descending n book.bids valid.bids_sorted,
  top_levels-IsRanked descending n book.bids valid.bids_sorted,
  length-top_levels ascending n book.asks,
  top_levels-InOrder ascending n book.asks valid.asks_sorted,
  top_levels-Stand ascending n book.asks valid.asks_sorted,
  top_levels-IsRanked ascending n book.asks valid.asks_sorted,
)
