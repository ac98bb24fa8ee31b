-- ===== src/SortedMap/Laws.antt =====
-- Lookup after each operation of a sorted map.
use taifex_cpp_sdk.Prelude.{
  ◌≡◌, refl, sym, ap, true, false, none, some, [], ◌∷◌, arith, if◌then◌else◌,
}
use taifex_cpp_sdk.SortedMap.{SortedMap, find, insert, erase, same, Follows, Sorted}
use taifex_cpp_sdk.SortedMap.Order.{StrictOrder}

module _ {K : Type 0} (order : StrictOrder K) where
  pub less_asym : (a b : K) → order.less a b ≡ true → order.less b a ≡ false
  less_asym a b p = ground (arith, order.transitive a b a p, order.irreflexive a)

  pub same_refl : (k : K) → same order k k ≡ true
  same_refl k = ground (arith, order.irreflexive k)

  pub same→eq : (j k : K) → same order j k ≡ true → j ≡ k
  same→eq j k h = order.connected j k (ground arith) (ground arith)

  module _ {V : Type 0} where
    pub find-insert :
        (j k : K) (v : V) (m : SortedMap K V)
        → find order j (insert order k v m) ≡ (if same order k j then some v else find order j m)
    unfolding find insert
    find-insert j k v [] = ground arith
    find-insert j k v ((i, w) ∷ m) = ground (
      arith,
      find-insert j k v m,
      order.transitive j k i,
      order.transitive i k j,
      order.transitive k i j,
      order.transitive k j i,
      order.transitive j i k,
      order.transitive i j k,
      order.connected i k,
      order.connected i j,
      order.connected k j,
      less_asym i k,
      less_asym k i,
      less_asym j i,
      less_asym i j,
      less_asym j k,
      less_asym k j,
    )

    -- Nothing is found in front of the first key.
    pub find_before : (k : K) (m : SortedMap K V) → Follows order k m → find order k m ≡ none
    unfolding find
    find_before k [] h = refl
    find_before k ((j, v) ∷ m) h = ground (arith, less_asym k j)

    pub Follows-trans :
        (i k : K) (m : SortedMap K V)
        → order.less i k ≡ true
        → Follows order k m
        → Follows order i m
    Follows-trans i k [] p h = tt
    Follows-trans i k ((j, v) ∷ m) p h = order.transitive i k j p h

    pub find-erase :
        (j k : K) (m : SortedMap K V)
        → Sorted order m
        → find order j (erase order k m) ≡ (if same order k j then none else find order j m)
    unfolding find erase
    find-erase j k [] h = ground arith
    find-erase j k ((i, w) ∷ m) h = ground (
      arith,
      find-erase j k m h.1,
      find_before i m h.0,
      find_before j m,
      Follows-trans j i m,
      order.transitive j k i,
      order.transitive i k j,
      order.transitive k i j,
      order.transitive k j i,
      order.transitive j i k,
      order.transitive i j k,
      order.connected i k,
      order.connected i j,
      order.connected k j,
      less_asym i k,
      less_asym k i,
      less_asym j i,
      less_asym i j,
      less_asym j k,
      less_asym k j,
    )

    pub find_head : (k : K) (v : V) (m : SortedMap K V) → find order k ((k, v) ∷ m) ≡ some v
    unfolding find
    find_head k v m = ground (arith, order.irreflexive k)

    pub find-same :
        (j k : K) (m : SortedMap K V) → same order k j ≡ true → find order j m ≡ find order k m
    find-same j k m h = ap (λ (x : K). find order x m) (sym (same→eq k j h))

    pub find-insert_self :
        (k : K) (v : V) (m : SortedMap K V) → find order k (insert order k v m) ≡ some v
    find-insert_self k v m = rw (find-insert k k v m, same_refl k) refl
