-- ===== src/SortedMap/Sorted.antt =====
-- Every operation keeps the entries sorted and the condition on the values.
use taifex_cpp_sdk.Prelude.{◌≡◌, true, [], ◌∷◌, arith, Bool-cases, inl, inr}
use taifex_cpp_sdk.SortedMap.{SortedMap, insert, erase, Follows, Sorted, AllValues}
use taifex_cpp_sdk.SortedMap.Order.{StrictOrder}

module _ {K : Type 0} (order : StrictOrder K) {V : Type 0} where
  Follows-insert :
      (i k : K) (v : V) (m : SortedMap K V)
      → order.less i k ≡ true
      → Follows order i m
      → Follows order i (insert order k v m)
  unfolding insert
  Follows-insert i k v [] p h = p
  Follows-insert i k v ((j, w) ∷ m) p h = ground arith

  pub insert-Sorted :
      (k : K) (v : V) (m : SortedMap K V) → Sorted order m → Sorted order (insert order k v m)
  unfolding insert
  insert-Sorted k v [] h = (tt, tt)
  insert-Sorted k v ((j, w) ∷ m) h = elim (Bool-cases (order.less j k)) [
    | inl before ↦ rw before (Follows-insert j k v m before h.0, insert-Sorted k v m h.1)
    | inr other ↦ rw other (elim (Bool-cases (order.less k j)) [
      | inl after ↦ rw after (after, h)
      | inr equal ↦ rw equal h
    ])
  ]

  Follows-erase :
      (i k : K) (m : SortedMap K V)
      → Sorted order m
      → Follows order i m
      → Follows order i (erase order k m)
  unfolding erase
  Follows-erase i k [] s h = tt
  Follows-erase i k ((j, w) ∷ []) s h = ground arith
  Follows-erase i k ((j, w) ∷ (l, u) ∷ m) s h = ground (arith, order.transitive i j l)

  pub erase-Sorted : (k : K) (m : SortedMap K V) → Sorted order m → Sorted order (erase order k m)
  unfolding erase
  erase-Sorted k [] h = tt
  erase-Sorted k ((j, w) ∷ m) h = elim (Bool-cases (order.less j k)) [
    | inl before ↦ rw before (Follows-erase j k m h.1 h.0, erase-Sorted k m h.1)
    | inr other ↦
        rw other
          (elim (Bool-cases (order.less k j)) [ inl after ↦ rw after h | inr equal ↦ rw equal h.1 ])
  ]

  module _ (P : V → Type 0) where
    pub insert-AllValues :
        (k : K) (v : V) (m : SortedMap K V) → P v → AllValues P m → AllValues P (insert order k v m)
    unfolding insert
    insert-AllValues k v [] p h = (p, tt)
    insert-AllValues k v ((j, w) ∷ m) p h = ground (arith, insert-AllValues k v m p h.1)

    pub erase-AllValues :
        (k : K) (m : SortedMap K V) → AllValues P m → AllValues P (erase order k m)
    unfolding erase
    erase-AllValues k [] h = tt
    erase-AllValues k ((j, w) ∷ m) h = ground (arith, erase-AllValues k m h.1)
