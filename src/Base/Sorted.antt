-- ===== src/Base/Sorted.antt =====
-- Laws of the lexicographic orders, and lists of strings in such an order.
use mathlib.Core.Bool.{true, false, not}
use mathlib.Core.List.{List, [], ◌∷◌}
use mathlib.Core.Path.{◌≡◌, refl}
use native.Mathlib.Omega.{arith}
use opendal_indexeddb.Base.Lists.{All}
use opendal_indexeddb.Base.Order.{lex_lt, lex_le, str_lt, js_lt, js_weight}
use opendal_indexeddb.Base.Text.{Str, starts_with}
use Prim.Native.Nat.{ℕ, ◌<◌}

module _ (w : ℕ → ℕ) where
  pub lex_le-eq-not-lt : (s t : Str) → lex_le w s t ≡ not (lex_lt w t s)
  lex_le-eq-not-lt [] [] = refl
  lex_le-eq-not-lt [] (b ∷ t) = refl
  lex_le-eq-not-lt (a ∷ s) [] = refl
  lex_le-eq-not-lt (a ∷ s) (b ∷ t) = ground (arith, lex_le-eq-not-lt s t)

  pub lex_lt_irrefl : (s : Str) → lex_lt w s s ≡ false
  lex_lt_irrefl [] = refl
  lex_lt_irrefl (a ∷ s) = ground (arith, lex_lt_irrefl s)

  pub lex_lt→le : (s t : Str) → lex_lt w s t ≡ true → lex_le w s t ≡ true
  lex_lt→le [] t h = refl
  lex_lt→le (a ∷ s) [] h = h
  lex_lt→le (a ∷ s) (b ∷ t) h = ground (arith, lex_lt→le s t)

  pub lex_le_lt_trans :
      (s t u : Str) → lex_le w s t ≡ true → lex_lt w t u ≡ true → lex_lt w s u ≡ true
  lex_le_lt_trans [] [] u h k = k
  lex_le_lt_trans [] (b ∷ t) [] h k = cc
  lex_le_lt_trans [] (b ∷ t) (c ∷ u) h k = refl
  lex_le_lt_trans (a ∷ s) [] u h k = cc
  lex_le_lt_trans (a ∷ s) (b ∷ t) [] h k = cc
  lex_le_lt_trans (a ∷ s) (b ∷ t) (c ∷ u) h k = ground (arith, lex_le_lt_trans s t u)

  pub lex_lt_trans : (s t u : Str) → lex_lt w s t ≡ true → lex_lt w t u ≡ true → lex_lt w s u ≡ true
  lex_lt_trans s t u h k = lex_le_lt_trans s t u (lex_lt→le s t h) k

  pub lex_lt_le_trans :
      (s t u : Str) → lex_lt w s t ≡ true → lex_le w t u ≡ true → lex_lt w s u ≡ true
  lex_lt_le_trans [] (b ∷ t) [] h k = cc
  lex_lt_le_trans [] (b ∷ t) (c ∷ u) h k = refl
  lex_lt_le_trans [] [] u h k = cc
  lex_lt_le_trans (a ∷ s) [] u h k = cc
  lex_lt_le_trans (a ∷ s) (b ∷ t) [] h k = cc
  lex_lt_le_trans (a ∷ s) (b ∷ t) (c ∷ u) h k = ground (arith, lex_lt_le_trans s t u)

  pub lex_le_trans : (s t u : Str) → lex_le w s t ≡ true → lex_le w t u ≡ true → lex_le w s u ≡ true
  lex_le_trans [] t u h k = refl
  lex_le_trans (a ∷ s) [] u h k = cc
  lex_le_trans (a ∷ s) (b ∷ t) [] h k = cc
  lex_le_trans (a ∷ s) (b ∷ t) (c ∷ u) h k = ground (arith, lex_le_trans s t u)

  pub lex_le-starts_with : (p k : Str) → starts_with p k ≡ true → lex_le w p k ≡ true
  lex_le-starts_with [] k h = refl
  lex_le-starts_with (a ∷ p) [] h = h
  lex_le-starts_with (a ∷ p) (b ∷ k) h = ground (arith, lex_le-starts_with p k)

  -- The texts with a prefix stand together.
  pub starts_with-between :
      (p k l : Str)
      → ((x y : ℕ) → w x ≡ w y → x ≡ y)
      → lex_le w p k ≡ true
      → lex_lt w k l ≡ true
      → starts_with p l ≡ true
      → starts_with p k ≡ true
  starts_with-between [] k l inj h k' h' = refl
  starts_with-between (a ∷ p) [] l inj h k' h' = h
  starts_with-between (a ∷ p) (b ∷ k) [] inj h k' h' = cc
  starts_with-between (a ∷ p) (b ∷ k) (c ∷ l) inj h k' h' =
      ground (arith, inj a b, starts_with-between p k l inj)

pub js_weight_inj : (x y : ℕ) → js_weight x ≡ js_weight y → x ≡ y
js_weight_inj x y h = ground arith

-- No character of the text takes two UTF-16 code units: no byte is 0xF0 or above.
abbrev pub IsBmp : Str → Type 0
IsBmp = All (λ b. b < 0xF0)

-- On such texts the two orders are one.
pub js_lt-eq-str_lt : (s t : Str) → IsBmp s → IsBmp t → js_lt s t ≡ str_lt s t
js_lt-eq-str_lt [] [] h k = refl
js_lt-eq-str_lt [] (b ∷ t) h k = refl
js_lt-eq-str_lt (a ∷ s) [] h k = refl
js_lt-eq-str_lt (a ∷ s) (b ∷ t) h k = ground (arith, js_lt-eq-str_lt s t)

-- In strictly ascending order.
abbrev pub Ascending : List Str → Type 0
Ascending [] = Unit
Ascending (k ∷ keys) = All (λ j. js_lt k j ≡ true) keys × Ascending keys
