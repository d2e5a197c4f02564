-- ===== src/Base/Order.antt =====
-- Orders of strings: lexicographic, by a weight for each byte.
use mathlib.Core.Bool.{Bool, true, false, ◌&&◌, ◌||◌}
use mathlib.Core.List.{[], ◌∷◌}
use opendal_indexeddb.Base.Tests.{ltb, leb, ◌==◌, if◌then◌else◌}
use opendal_indexeddb.Base.Text.{Str}
use Prim.Native.Nat.{ℕ, ◌+◌, ◌-◌}

-- `s < t`, lexicographically, by the weights of the bytes
abbrev pub lex_lt : (ℕ → ℕ) → Str → Str → Bool
lex_lt w [] [] = false
lex_lt w [] (b ∷ t) = true
lex_lt w (a ∷ s) [] = false
lex_lt w (a ∷ s) (b ∷ t) = ltb (w a) (w b) || (w a == w b && lex_lt w s t)

abbrev pub lex_le : (ℕ → ℕ) → Str → Str → Bool
lex_le w [] t = true
lex_le w (a ∷ s) [] = false
lex_le w (a ∷ s) (b ∷ t) = ltb (w a) (w b) || (w a == w b && lex_le w s t)

abbrev pub byte_weight : ℕ → ℕ
byte_weight b = b

-- Rust's `<` and `<=` on strings compare the bytes.
abbrev pub str_lt : Str → Str → Bool
str_lt = lex_lt byte_weight

abbrev pub str_le : Str → Str → Bool
str_le = lex_le byte_weight

-- JavaScript and IndexedDB compare the UTF-16 code units. On the UTF-8 bytes that is the same
-- comparison, but that the first bytes of U+E000 to U+FFFF (0xEE, 0xEF) stand above those of the
-- characters that take surrogates (0xF0 to 0xF4).
abbrev pub js_weight : ℕ → ℕ
js_weight b =
    if leb 0xEE b && leb b 0xEF then b + 6 else if leb 0xF0 b && leb b 0xF5 then b - 2 else b

abbrev pub js_lt : Str → Str → Bool
js_lt = lex_lt js_weight

abbrev pub js_le : Str → Str → Bool
js_le = lex_le js_weight
