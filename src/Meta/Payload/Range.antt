-- ===== src/Meta/Payload/Range.antt =====
-- Range reads: `clamp_read_range` and `subarray` against the plain slice of the bytes.
use opendal_indexeddb.Base.{
  Str, Bytes, Option, none, some, ℕ, zero, suc, ◌+◌, ◌-◌, ◌%◌, ◌^◌, ◌<◌, ◌≡◌, refl, ap, min, [],
  ◌∷◌, List, length, take, drop, length-drop, take_all, ok, arith,
}
use opendal_indexeddb.Meta.Payload.{
  key_and_value, record_bytes_range, subarray, u32_mod, saturating_add,
}
use opendal_indexeddb.Meta.Records.{ReadRange}

module _ {ℓ} {A : Type ℓ} where
  drop-min : (n : ℕ) (xs : List A) → drop (min n (length xs)) xs ≡ drop n xs
  drop-min zero xs = let e : min 0 (length xs) ≡ 0 = omega arith in rw e refl
  drop-min (suc n) [] = let e : min (suc n) 0 ≡ 0 = omega arith in rw e refl
  drop-min (suc n) (x ∷ xs) =
      let e : min (suc n) (suc (length xs)) ≡ suc (min n (length xs)) = omega arith in
      rw e (drop-min n xs)

  take_ext : (m n : ℕ) (xs : List A) → min m (length xs) ≡ min n (length xs) → take m xs ≡ take n xs
  take_ext zero zero xs h = refl
  take_ext zero (suc n) [] h = refl
  take_ext zero (suc n) (x ∷ xs) h = absurd (omega arith)
  take_ext (suc m) zero [] h = refl
  take_ext (suc m) zero (x ∷ xs) h = absurd (omega arith)
  take_ext (suc m) (suc n) [] h = refl
  take_ext (suc m) (suc n) (x ∷ xs) h = ap (λ l. x ∷ l) (take_ext m n xs (omega arith))

-- What a range of the bytes is.
abbrev pub slice : ReadRange → Bytes → Bytes
slice range bytes = elim range.size [
  | none ↦ drop range.offset bytes
  | some size ↦ take size (drop range.offset bytes)
]

subarray-drop :
    (v : Bytes) (start end : ℕ)
    → subarray v (min start (length v)) end ≡ take (end - min start (length v)) (drop start v)
unfolding subarray
subarray-drop v start end = rw drop-min refl

module _ (k path : Str) (v : Bytes) (small : length v < u32_mod) where
  -- A read with no end.
  read_from :
      (offset : ℕ)
      → record_bytes_range
          (key_and_value k v)
          path
          (record { offset = offset; size = none })
          (length v)
        ≡ ok (drop offset v)
  unfolding record_bytes_range
  read_from offset =
      let low : min offset (length v) % u32_mod % u32_mod ≡ min offset (length v) = omega arith in
      let high : length v % u32_mod % u32_mod ≡ length v = omega arith in
      rw (low, high, subarray-drop)
        (ap ok (take_all _ (drop offset v) (omega (arith, length-drop offset v))))

  read_part :
      (offset size : ℕ)
      → record_bytes_range
          (key_and_value k v)
          path
          (record { offset = offset; size = some size })
          (length v)
        ≡ ok (take size (drop offset v))
  unfolding record_bytes_range saturating_add
  read_part offset size =
      let low : min offset (length v) % u32_mod % u32_mod ≡ min offset (length v) = omega arith in
      let end = min (min (offset + size) (2 ^ 64 - 1)) (length v) in
      let high : end % u32_mod % u32_mod ≡ end = omega arith in
      rw (low, high, subarray-drop)
        (ap ok (take_ext _ size (drop offset v) (omega (arith, length-drop offset v))))

-- Of a record of fewer than 2^32 bytes, whose length is known, a range read answers with exactly
-- the bytes of the range: from the offset to the end, or as many as the size says and there are.
pub record_bytes_range-slice :
    (k path : Str) (v : Bytes) (range : ReadRange)
    → length v < u32_mod
    → record_bytes_range (key_and_value k v) path range (length v) ≡ ok (slice range v)
record_bytes_range-slice k path v range small = go range.offset range.size
  where
    go :
        (offset : ℕ) (size : Option ℕ)
        → record_bytes_range
            (key_and_value k v)
            path
            (record { offset = offset; size = size })
            (length v)
          ≡ ok (slice (record { offset = offset; size = size }) v)
    go offset none = read_from k path v small offset
    go offset (some size) = read_part k path v small offset size
