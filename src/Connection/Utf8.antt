-- ===== src/Connection/Utf8.antt =====
-- `String::from_utf8`: the check of the standard library, as a machine that reads the bytes.
use opendal_indexeddb.Base.{
  Bytes, Str, Bool, true, false, ◌&&◌, Option, none, some, ℕ, ◌+◌, ◌<◌, ◌≡◌, [], ◌∷◌, ◌++◌, arith,
  leb, ◌==◌, Option-cases, inl, inr, if◌then◌else◌,
}

-- What may follow: any character, one to three continuation bytes, or the byte after 0xE0, 0xED,
-- 0xF0 or 0xF4, which is restricted.
pub data Utf8State : Type 0 where
  boundary tail1 tail2 tail3 after_e0 after_ed after_f0 after_f4 : Utf8State

abbrev pub between : ℕ → ℕ → ℕ → Bool
between lo hi b = leb lo b && leb b hi

pub utf8_step : Utf8State → ℕ → Option Utf8State
utf8_step boundary b =
    if leb b 0x7F
    then some boundary
    else if between 0xC2 0xDF b
    then some tail1
    else if b == 0xE0
    then some after_e0
    else if b == 0xED
    then some after_ed
    else if between 0xE1 0xEF b
    then some tail2
    else if b == 0xF0
    then some after_f0
    else if between 0xF1 0xF3 b
    then some tail3
    else if b == 0xF4
    then some after_f4
    else none
utf8_step tail1 b = if between 0x80 0xBF b then some boundary else none
utf8_step tail2 b = if between 0x80 0xBF b then some tail1 else none
utf8_step tail3 b = if between 0x80 0xBF b then some tail2 else none
utf8_step after_e0 b = if between 0xA0 0xBF b then some tail1 else none
utf8_step after_ed b = if between 0x80 0x9F b then some tail1 else none
utf8_step after_f0 b = if between 0x90 0xBF b then some tail2 else none
utf8_step after_f4 b = if between 0x80 0x8F b then some tail2 else none

abbrev pub at_boundary : Utf8State → Bool
at_boundary boundary = true
at_boundary _ = false

pub utf8_from : Utf8State → Bytes → Bool
utf8_from state [] = at_boundary state
utf8_from state (b ∷ rest) = elim (utf8_step state b) [
  | none ↦ false
  | some next ↦ utf8_from next rest
]

unfoldable pub is_utf8 : Bytes → Bool
unfolding utf8_from utf8_step
is_utf8 = utf8_from boundary

unfoldable pub from_utf8 : Bytes → Option Str
unfolding is_utf8
from_utf8 bytes = if is_utf8 bytes then some bytes else none

utf8_from-one : (state : Utf8State) (b : ℕ) → utf8_from state (b ∷ []) ≡ true → b < 0xC0
unfolding utf8_from utf8_step
utf8_from-one boundary b h = ground arith
utf8_from-one _ b h = ground arith

-- A text that is valid UTF-8 ends in an ASCII character or in a continuation byte.
utf8_from-last :
    (state : Utf8State) (q : Bytes) (b : ℕ) → utf8_from state (q ++ b ∷ []) ≡ true → b < 0xC0
unfolding utf8_from
utf8_from-last state [] b h = utf8_from-one state b h
utf8_from-last state (a ∷ q) b h = elim (Option-cases (utf8_step state a)) [
  | inl e ↦ cc (rw (e, utf8_from) at h)
  | inr (next, e) ↦ utf8_from-last next q b (rw (e, utf8_from) at h)
]

pub is_utf8-last : (q : Bytes) (b : ℕ) → is_utf8 (q ++ b ∷ []) ≡ true → b < 0xC0
unfolding is_utf8
is_utf8-last q b h = utf8_from-last boundary q b h

utf8_from-raise_one :
    (state : Utf8State) (b : ℕ)
    → b < 0x7F
    → utf8_from state ((b + 1) ∷ []) ≡ utf8_from state (b ∷ [])
unfolding utf8_from utf8_step
utf8_from-raise_one boundary b h = ground arith
utf8_from-raise_one _ b h = ground arith

-- The last byte may be raised within ASCII.
utf8_from-raise :
    (state : Utf8State) (q : Bytes) (b : ℕ)
    → b < 0x7F
    → utf8_from state (q ++ (b + 1) ∷ []) ≡ utf8_from state (q ++ b ∷ [])
unfolding utf8_from
utf8_from-raise state [] b h = utf8_from-raise_one state b h
utf8_from-raise state (a ∷ q) b h = elim (Option-cases (utf8_step state a)) [
  | inl e ↦ rw (e, utf8_from)
  | inr (next, e) ↦ rw (e, utf8_from) (utf8_from-raise next q b h)
]

pub is_utf8-raise :
    (q : Bytes) (b : ℕ) → b < 0x7F → is_utf8 (q ++ (b + 1) ∷ []) ≡ is_utf8 (q ++ b ∷ [])
unfolding is_utf8
is_utf8-raise q b h = utf8_from-raise boundary q b h

utf8_from-ascii_one :
    (state : Utf8State) (b : ℕ)
    → b < 0x80
    → at_boundary state ≡ true
    → utf8_from state (b ∷ []) ≡ true
unfolding utf8_from utf8_step
utf8_from-ascii_one boundary b h e = ground arith
utf8_from-ascii_one _ b h e = cc

-- An ASCII character may follow a valid text.
utf8_from-ascii :
    (state : Utf8State) (q : Bytes) (b : ℕ)
    → b < 0x80
    → utf8_from state q ≡ true
    → utf8_from state (q ++ b ∷ []) ≡ true
unfolding utf8_from
utf8_from-ascii state [] b h e = utf8_from-ascii_one state b h e
utf8_from-ascii state (a ∷ q) b h e = elim (Option-cases (utf8_step state a)) [
  | inl s ↦ cc (rw (s, utf8_from) at e)
  | inr (next, s) ↦ rw (s, utf8_from) (utf8_from-ascii next q b h (rw (s, utf8_from) at e))
]

pub is_utf8-ascii : (q : Bytes) (b : ℕ) → b < 0x80 → is_utf8 q ≡ true → is_utf8 (q ++ b ∷ []) ≡ true
unfolding is_utf8
is_utf8-ascii q b h e = utf8_from-ascii boundary q b h e
