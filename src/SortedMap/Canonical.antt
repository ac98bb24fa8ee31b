-- ===== src/SortedMap/Canonical.antt =====
-- A sorted map is determined by its lookups.
use taifex_cpp_sdk.Prelude.{
  ◌≡◌, refl, sym, ◌∙◌, Option, none, [], ◌∷◌, if◌then◌else◌, inl, inr, Bool-cases,
}
use mathlib.Core.Path.{subst, ap₂}
use taifex_cpp_sdk.SortedMap.{SortedMap, find, Follows, Sorted}
use taifex_cpp_sdk.SortedMap.Order.{StrictOrder}
use taifex_cpp_sdk.SortedMap.Laws.{find_before, find_head, Follows-trans}

module _ {K : Type 0} (order : StrictOrder K) {V : Type 0} where
  pub find_tail :
      (x k : K) (v : V) (m : SortedMap K V)
      → Follows order k m
      → find order x m ≡ (if order.less k x then find order x ((k, v) ∷ m) else none)
  unfolding find
  find_tail x k v m h = elim (Bool-cases (order.less k x)) [
    | inl after ↦ rw after
    | inr other ↦ rw other (elim (Bool-cases (order.less x k)) [
      | inl before ↦ find_before order x m (Follows-trans order x k m before h)
      | inr equal ↦
          let e : k ≡ x = order.connected k x other equal in
          subst (λ y. find order y m ≡ none) e (find_before order k m h)
    ])
  ]

  heads_eq :
      (j k : K) (v w : V) (m n : SortedMap K V)
      → ((x : K) → find order x ((j, v) ∷ m) ≡ find order x ((k, w) ∷ n))
      → j ≡ k
  heads_eq j k v w m n e = elim (Bool-cases (order.less j k)) [
    | inl p ↦ cc (e j, find_head order j v m, find_before order j ((k, w) ∷ n) p)
    | inr p ↦ elim (Bool-cases (order.less k j)) [
      | inl q ↦ cc (e k, find_head order k w n, find_before order k ((j, v) ∷ m) q)
      | inr q ↦ order.connected j k p q
    ]
  ]

  -- Two sorted maps with the same lookups are equal.
  pub find_ext :
      (m n : SortedMap K V)
      → Sorted order m
      → Sorted order n
      → ((k : K) → find order k m ≡ find order k n)
      → m ≡ n
  find_ext [] [] hm hn e = refl
  find_ext [] ((k, v) ∷ n) hm hn e = unfold find in cc (e k, find_head order k v n)
  find_ext ((j, v) ∷ m) [] hm hn e = unfold find in cc (e j, find_head order j v m)
  find_ext ((j, v) ∷ m) ((k, w) ∷ n) hm hn e =
      let key : j ≡ k = heads_eq j k v w m n e in
      let value : v ≡ w = cc (e j, find_head order j v m, find_head order k w n, key) in
      let tails : m ≡ n = find_ext m n hm.1 hn.1 (λ x.
        find_tail x j v m hm.0
        ∙ ap₂ (λ (i : K) (o : Option V). if order.less i x then o else none) key (e x)
        ∙ sym (find_tail x k w n hn.0)) in
      cc (key, value, tails)
