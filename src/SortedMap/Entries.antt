-- ===== src/SortedMap/Entries.antt =====
-- Conditions on entries, loops over the values, and insertion of what stands there.
use mathlib.Core.Path.{subst}
use taifex_cpp_sdk.Prelude.{◌≡◌, refl, sym, none, some, [], ◌∷◌, arith, Bool-cases, inl, inr}
use taifex_cpp_sdk.SortedMap.{SortedMap, find, insert, Follows, Sorted, AllEntries, map_values}
use taifex_cpp_sdk.SortedMap.Order.{StrictOrder}

module _ {K : Type 0} (order : StrictOrder K) {V : Type 0} where
  module _ (P : K → V → Type 0) where
    pub insert-AllEntries :
        (k : K) (v : V) (m : SortedMap K V)
        → P k v
        → AllEntries P m
        → AllEntries P (insert order k v m)
    unfolding insert
    insert-AllEntries k v [] p h = (p, tt)
    insert-AllEntries k v ((j, w) ∷ m) p h = elim (Bool-cases (order.less j k)) [
      | inl before ↦ rw before (h.0, insert-AllEntries k v m p h.1)
      | inr other ↦ rw other (elim (Bool-cases (order.less k j)) [
        | inl after ↦ rw after (p, h)
        | inr equal ↦ rw equal (subst (λ i. P i v) (sym (order.connected j k other equal)) p, h.1)
      ])
    ]

    pub find-AllEntries :
        (k : K) (v : V) (m : SortedMap K V) → AllEntries P m → find order k m ≡ some v → P k v
    unfolding find
    find-AllEntries k v [] h e = absurd (ground arith)
    find-AllEntries k v ((j, w) ∷ m) h e = elim (Bool-cases (order.less j k)) [
      | inl before ↦ find-AllEntries k v m h.1 (rw before at e)
      | inr other ↦ elim (Bool-cases (order.less k j)) [
        | inl after ↦ absurd (ground arith)
        | inr equal ↦
            let key : j ≡ k = order.connected j k other equal in
            let value : w ≡ v = ground arith in
            subst (λ i. P i v) key (subst (λ u. P j u) value h.0)
      ]
    ]

  pub find-map_values :
      (f : V → V) (k : K) (m : SortedMap K V)
      → find order k (map_values f m) ≡ elim (find order k m) [ none ↦ none | some v ↦ some (f v) ]
  unfolding find
  find-map_values f k [] = refl
  find-map_values f k ((j, v) ∷ m) = ground (arith, find-map_values f k m)

  Follows-map_values :
      (f : V → V) (k : K) (m : SortedMap K V) → Follows order k m → Follows order k (map_values f m)
  Follows-map_values f k [] h = tt
  Follows-map_values f k ((j, v) ∷ m) h = h

  pub map_values-Sorted :
      (f : V → V) (m : SortedMap K V) → Sorted order m → Sorted order (map_values f m)
  map_values-Sorted f [] h = tt
  map_values-Sorted f ((j, v) ∷ m) h = (Follows-map_values f j m h.0, map_values-Sorted f m h.1)

  -- Writing what is found changes nothing.
  pub insert_found :
      (k : K) (v : V) (m : SortedMap K V) → find order k m ≡ some v → insert order k v m ≡ m
  unfolding find insert
  insert_found k v [] e = absurd (ground arith)
  insert_found k v ((j, w) ∷ m) e = ground (arith, insert_found k v m)

module _ {K V : Type 0} (P : K → V → Type 0) where
  pub map_values-AllEntries :
      (f : V → V) (m : SortedMap K V)
      → ((k : K) (v : V) → P k v → P k (f v))
      → AllEntries P m
      → AllEntries P (map_values f m)
  map_values-AllEntries f [] keeps h = tt
  map_values-AllEntries f ((k, v) ∷ m) keeps h =
      (keeps k v h.0, map_values-AllEntries f m keeps h.1)
