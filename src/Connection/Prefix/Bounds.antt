-- ===== src/Connection/Prefix/Bounds.antt =====
-- The range from a prefix to its upper bound holds exactly the texts with that prefix.
use mathlib.Core.List.{reverse-append, reverse-reverse, reverse-cons}
use opendal_indexeddb.Base.{
  Str, Bool, true, false, none, some, ℕ, ◌+◌, ◌<◌, ◌≡◌, refl, sym, ap, subst, ◌∙◌, IsBmp,
  All-append, All-split, [], ◌∷◌, ◌++◌, ◌&&◌, lit, slash, ends_with_slash, starts_with, str_lt,
  str_le, js_lt, js_le, js_weight, js_weight_inj, byte_weight, ◌⊎◌, lex_lt, lex_le, ◌==◌, arith,
  inl, inr,
}
use opendal_indexeddb.Connection.Utf8.{is_utf8, from_utf8, is_utf8-last, is_utf8-raise}
use opendal_indexeddb.Connection.Prefix.{pop_and_raise, prefix_upper_bound}

-- `p <= k < u` by the weights `w`
abbrev pub in_range : (ℕ → ℕ) → Str → Str → Str → Bool
in_range w p u k = lex_le w p k && lex_lt w k u

module _ (w : ℕ → ℕ) (w_inj : (x y : ℕ) → w x ≡ w y → x ≡ y) where
  in_range-raise :
      (q : Str) (b : ℕ) (k : Str)
      → w (b + 1) ≡ w b + 1
      → in_range w (q ++ b ∷ []) (q ++ (b + 1) ∷ []) k ≡ starts_with (q ++ b ∷ []) k
  in_range-raise [] b [] gap = refl
  in_range-raise [] b (x ∷ []) gap = ground (arith, w_inj b x)
  in_range-raise [] b (x ∷ (y ∷ k)) gap = ground (arith, w_inj b x)
  in_range-raise (a ∷ q) b [] gap = refl
  in_range-raise (a ∷ q) b (x ∷ k) gap = ground (arith, w_inj a x, in_range-raise q b k)

js_weight_gap : (b : ℕ) → b + 1 < 0xC0 → js_weight (b + 1) ≡ js_weight b + 1
js_weight_gap b h = ground arith

-- On a valid text one round of the loop answers.
prefix_upper_bound-snoc :
    (q : Str) (b : ℕ)
    → is_utf8 (q ++ b ∷ []) ≡ true
    → prefix_upper_bound (q ++ b ∷ []) ≡ from_utf8 (q ++ (b + 1) ∷ [])
unfolding prefix_upper_bound
prefix_upper_bound-snoc q b valid =
    let below : b < 0xC0 = is_utf8-last q b valid in
    let other : (b == 255) ≡ false = ground arith in
    rw (reverse-append, other, pop_and_raise, reverse-cons, reverse-reverse) refl

from_utf8-eq_some : (t : Str) {u : Str} → from_utf8 t ≡ some u → (t ≡ u) × (is_utf8 t ≡ true)
unfolding from_utf8
from_utf8-eq_some t h = ground arith

from_utf8_valid : (t : Str) → is_utf8 t ≡ true → from_utf8 t ≡ some t
unfolding from_utf8
from_utf8_valid t h = ground arith

in_range-bound :
    (w : ℕ → ℕ) (w_inj : (x y : ℕ) → w x ≡ w y → x ≡ y)
    → ((b : ℕ) → b + 1 < 0xC0 → w (b + 1) ≡ w b + 1)
    → (q : Str) (b : ℕ) {u : Str} (k : Str) → is_utf8 (q ++ b ∷ []) ≡ true
    → prefix_upper_bound (q ++ b ∷ []) ≡ some u
    → in_range w (q ++ b ∷ []) u k ≡ starts_with (q ++ b ∷ []) k
in_range-bound w w_inj gap q b {u} k valid h =
    let (shape, raised) =
      from_utf8-eq_some (q ++ (b + 1) ∷ []) (sym (prefix_upper_bound-snoc q b valid) ∙ h) in
    rw (← shape) (in_range-raise w w_inj q b k (gap b (is_utf8-last q (b + 1) raised)))

-- Every text is empty or has a last byte.
last_byte : (p : Str) → (p ≡ []) ⊎ ((q : Str) × (b : ℕ) × (p ≡ q ++ b ∷ []))
last_byte [] = inl refl
last_byte (a ∷ p) = elim (last_byte p) [
  | inl e ↦ inr ([], a, rw e refl)
  | inr (q, b, e) ↦ inr (a ∷ q, b, rw e refl)
]

prefix_upper_bound-nil : prefix_upper_bound [] ≡ none
unfolding prefix_upper_bound
prefix_upper_bound-nil = refl

prefix_upper_bound_snoc :
    (q : Str) (b : ℕ) {u : Str} (k : Str)
    → is_utf8 (q ++ b ∷ []) ≡ true
    → prefix_upper_bound (q ++ b ∷ []) ≡ some u
    → ((js_le (q ++ b ∷ []) k && js_lt k u) ≡ starts_with (q ++ b ∷ []) k)
      × ((str_le (q ++ b ∷ []) k && str_lt k u) ≡ starts_with (q ++ b ∷ []) k)
prefix_upper_bound_snoc q b k valid h = (
  in_range-bound js_weight js_weight_inj js_weight_gap q b k valid h,
  in_range-bound byte_weight (λ x y e. e) (λ b' _. refl) q b k valid h,
)

-- For a prefix that is valid UTF-8 and has an upper bound, the keys between the two are exactly those
-- that start with the prefix, in the order of IndexedDB and in that of Rust alike.
pub prefix_upper_bound_lem :
    (p : Str) {u : Str} (k : Str)
    → is_utf8 p ≡ true
    → prefix_upper_bound p ≡ some u
    → ((js_le p k && js_lt k u) ≡ starts_with p k) × ((str_le p k && str_lt k u) ≡ starts_with p k)
prefix_upper_bound_lem p {u} k valid h = elim (last_byte p) [
  | inl e ↦ cc (prefix_upper_bound-nil, rw e at h)
  | inr (q, b, e) ↦ rw e (prefix_upper_bound_snoc q b k (rw e at valid) (rw e at h))
]

-- The upper bound has no character of two code units either.
pub prefix_upper_bound-IsBmp :
    (p : Str) {u : Str} → is_utf8 p ≡ true → IsBmp p → prefix_upper_bound p ≡ some u → IsBmp u
prefix_upper_bound-IsBmp p {u} valid plain h = elim (last_byte p) [
  | inl e ↦ cc (prefix_upper_bound-nil, rw e at h)
  | inr (q, b, e) ↦
      let valid' : is_utf8 (q ++ b ∷ []) ≡ true = rw e at valid in
      let (shape, _) =
        from_utf8-eq_some (q ++ (b + 1) ∷ [])
          (sym (prefix_upper_bound-snoc q b valid') ∙ rw e at h) in
      subst IsBmp shape (
        All-append _ q ((b + 1) ∷ []) (All-split _ q (b ∷ []) (subst IsBmp e plain)).0
          (let bound : b < 0xC0 = is_utf8-last q b valid' in (omega arith, tt)))
]

ends_with_slash-snoc : (p : Str) → ends_with_slash p ≡ true → (q : Str) × (p ≡ q ++ slash ∷ [])
ends_with_slash-snoc [] h = cc
ends_with_slash-snoc (b ∷ []) h = ([], ground arith)
ends_with_slash-snoc (a ∷ (b ∷ p)) h =
    let (q, e) = ends_with_slash-snoc (b ∷ p) h in (a ∷ q, ap (λ s. a ∷ s) e)

-- A valid prefix that ends in a slash has an upper bound: the same with `0`, the next character.
pub prefix_upper_bound-slash :
    (p : Str)
    → is_utf8 p ≡ true
    → ends_with_slash p ≡ true
    → (q : Str) × (p ≡ q ++ slash ∷ []) × (prefix_upper_bound p ≡ some (q ++ lit "0"))
prefix_upper_bound-slash p valid h =
    let (q, e) = ends_with_slash-snoc p h in
    let valid' : is_utf8 (q ++ slash ∷ []) ≡ true = rw e at valid in
    (
      q,
      e,
      rw e (
          prefix_upper_bound-snoc q slash valid'
          ∙ from_utf8_valid (q ++ lit "0") (is_utf8-raise q slash (omega arith) ∙ valid')),
    )
