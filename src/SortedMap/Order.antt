-- ===== src/SortedMap/Order.antt =====
-- What std::map asks of a comparison, with equality as its equivalence.
use taifex_cpp_sdk.Prelude.{
  ℕ, ◌≡◌, refl, Bool, true, false, List, [], ◌∷◌, arith, ltb, if◌then◌else◌,
}
use taifex_cpp_sdk.Prelude.Int.{ℤ, ltb_ℤ}

pub record StrictOrder (K : Type 0) : Type 0 where
  pub less : K → K → Bool
  pub irreflexive : (a : K) → less a a ≡ false
  pub transitive : (a b c : K) → less a b ≡ true → less b c ≡ true → less a c ≡ true
  pub connected : (a b : K) → less a b ≡ false → less b a ≡ false → a ≡ b

pub ltb_ℤ_irreflexive : (a : ℤ) → ltb_ℤ a a ≡ false
ltb_ℤ_irreflexive a = ground arith

pub ltb_ℤ_transitive : (a b c : ℤ) → ltb_ℤ a b ≡ true → ltb_ℤ b c ≡ true → ltb_ℤ a c ≡ true
ltb_ℤ_transitive a b c p q = ground arith

pub ltb_ℤ_connected : (a b : ℤ) → ltb_ℤ a b ≡ false → ltb_ℤ b a ≡ false → a ≡ b
ltb_ℤ_connected a b p q = ground arith

pub ltb_irreflexive : (a : ℕ) → ltb a a ≡ false
ltb_irreflexive a = ground arith

pub ltb_transitive : (a b c : ℕ) → ltb a b ≡ true → ltb b c ≡ true → ltb a c ≡ true
ltb_transitive a b c p q = ground arith

pub ltb_connected : (a b : ℕ) → ltb a b ≡ false → ltb b a ≡ false → a ≡ b
ltb_connected a b p q = ground arith

-- std::less of the signed prices
abbrev pub ascending : StrictOrder ℤ
ascending = record {
  less = ltb_ℤ;
  irreflexive = ltb_ℤ_irreflexive;
  transitive = ltb_ℤ_transitive;
  connected = ltb_ℤ_connected;
}

-- std::greater of the signed prices
abbrev pub descending : StrictOrder ℤ
descending = record {
  less = λ a b. ltb_ℤ b a;
  irreflexive = ltb_ℤ_irreflexive;
  transitive = λ a b c p q. ltb_ℤ_transitive c b a q p;
  connected = λ a b p q. ltb_ℤ_connected a b q p;
}

-- std::less of unsigned keys
abbrev pub numeric : StrictOrder ℕ
numeric = record {
  less = ltb;
  irreflexive = ltb_irreflexive;
  transitive = ltb_transitive;
  connected = ltb_connected;
}

-- std::string's comparison: byte by byte, a proper prefix first.
unfoldable pub less_string : List ℕ → List ℕ → Bool
less_string [] [] = false
less_string [] (b ∷ t) = true
less_string (a ∷ s) [] = false
less_string (a ∷ s) (b ∷ t) =
    let rest = less_string s t in if ltb a b then true else if ltb b a then false else rest

pub less_string_irreflexive : (s : List ℕ) → less_string s s ≡ false
unfolding less_string
less_string_irreflexive [] = refl
less_string_irreflexive (a ∷ s) = ground (arith, less_string_irreflexive s)

pub less_string_transitive :
    (s t u : List ℕ) → less_string s t ≡ true → less_string t u ≡ true → less_string s u ≡ true
unfolding less_string
less_string_transitive [] [] u p q = absurd (ground arith)
less_string_transitive [] (b ∷ t) [] p q = absurd (ground arith)
less_string_transitive [] (b ∷ t) (c ∷ u) p q = refl
less_string_transitive (a ∷ s) [] u p q = absurd (ground arith)
less_string_transitive (a ∷ s) (b ∷ t) [] p q = absurd (ground arith)
less_string_transitive (a ∷ s) (b ∷ t) (c ∷ u) p q = ground (arith, less_string_transitive s t u)

pub less_string_connected :
    (s t : List ℕ) → less_string s t ≡ false → less_string t s ≡ false → s ≡ t
unfolding less_string
less_string_connected [] [] p q = refl
less_string_connected [] (b ∷ t) p q = absurd (ground arith)
less_string_connected (a ∷ s) [] p q = absurd (ground arith)
less_string_connected (a ∷ s) (b ∷ t) p q = ground (arith, less_string_connected s t)

-- std::less of std::string
abbrev pub lexicographic : StrictOrder (List ℕ)
lexicographic = record {
  less = less_string;
  irreflexive = less_string_irreflexive;
  transitive = less_string_transitive;
  connected = less_string_connected;
}
