-- ===== src/Meta/Payload.antt =====
-- The values that the object stores hold, and what src/backend/meta.rs reads from one.
pub mod Range
use opendal_indexeddb.Base.{
  Str, Bytes, Bool, Option, none, some, ℕ, ◌+◌, ◌-◌, ◌%◌, ◌^◌, min, error, ◌>>=◌, Result, ok, err,
  unexpected, with_context, lit, length, take, drop, ◌++◌, List, ◌∷◌, [],
}
use opendal_indexeddb.Meta.Records.{MetaRecord, ReadRange}

-- A value of an object store: an object whose key path `k` holds a string. The crate tells three
-- shapes apart: `KeyAndValue`, whose `v` is a `Uint8Array`; one that deserialises to a
-- `MetaRecord`; and any other, which only foreign code writes.
pub data JsValue : Type 0 where
  key_and_value : Str → Bytes → JsValue
  meta_value : MetaRecord → JsValue
  foreign : Str → ℕ → JsValue

-- The value of the key path `k`.
abbrev pub key_of : JsValue → Str
key_of (key_and_value k v) = k
key_of (meta_value r) = r.k
key_of (foreign k n) = k

-- `set_record_key`: `Reflect::set` refuses only what is no object.
unfoldable pub set_record_key : JsValue → Str → JsValue
set_record_key (key_and_value k v) key = key_and_value key v
set_record_key (meta_value r) key = meta_value (record r { k = key })
set_record_key (foreign k n) key = foreign key n

-- `serde_wasm_bindgen::from_value::<MetaRecord>(value).ok()`
unfoldable pub to_meta : JsValue → Option MetaRecord
to_meta (key_and_value k v) = none
to_meta (meta_value r) = some r
to_meta (foreign k n) = none

unfoldable pub record_value_as_uint8_array : JsValue → Str → Result Bytes
record_value_as_uint8_array (key_and_value k v) path = ok v
record_value_as_uint8_array value path =
    err (with_context "path" path (error unexpected "indexeddb record value is not a byte array"))

unfoldable pub record_bytes : JsValue → Str → Result Bytes
unfolding record_value_as_uint8_array
record_bytes value path = record_value_as_uint8_array value path

-- `u64::MAX`, and the moduli of the casts to `usize` and `u32`, both of 32 bits on wasm.
abbrev pub u64_max : ℕ
u64_max = 2 ^ 64 - 1

abbrev pub u32_mod : ℕ
u32_mod = 2 ^ 32

unfoldable pub saturating_add : ℕ → ℕ → ℕ
saturating_add a b = min (a + b) u64_max

-- The start and the end of the range.
unfoldable pub clamp_read_range : ReadRange → ℕ → ℕ × ℕ
unfolding saturating_add
clamp_read_range range total_size = (
  min range.offset total_size % u32_mod,
  elim range.size [
    | some size ↦ min (saturating_add range.offset size) total_size
    | none ↦ total_size
  ]
      % u32_mod,
)

-- `Uint8Array.subarray(begin, end)`: the bounds are cut to the length, and a range that ends before
-- it begins is empty.
unfoldable pub subarray : Bytes → ℕ → ℕ → Bytes
subarray v begin end = take (end - begin) (drop begin v)

unfoldable pub record_bytes_range : JsValue → Str → ReadRange → ℕ → Result Bytes
unfolding record_value_as_uint8_array clamp_read_range subarray
record_bytes_range value path range total_size = do
  arr ← record_value_as_uint8_array value path
  let bounds = clamp_read_range range total_size
  ok (subarray arr (bounds.0 % u32_mod) (bounds.1 % u32_mod))

unfoldable pub source_size : Option MetaRecord → JsValue → Str → Result ℕ
unfolding record_value_as_uint8_array
source_size meta value path = do
  arr ← record_value_as_uint8_array value path
  ok (elim meta [ none ↦ length arr | some m ↦ m.l ])

unfoldable pub value_byte_length : JsValue → Option ℕ
value_byte_length (key_and_value k v) = some (length v)
value_byte_length value = none

-- `hash_hex` is `blake3::hash(bytes).to_hex()`.
module _ (hash_hex : Bytes → Str) where
  -- The quotes are part of the ETag.
  unfoldable pub etag_from_bytes : Bytes → Str
  etag_from_bytes bytes = lit "\"" ++ (hash_hex bytes ++ lit "\"")

  unfoldable pub value_etag : JsValue → Option Str
  unfolding etag_from_bytes
  value_etag (key_and_value k v) = some (etag_from_bytes v)
  value_etag value = none
