-- ===== src/Connection/Prefix.antt =====
-- Deletion and scanning by prefix: `recursive_delete_target`, `prefix_upper_bound`.
pub mod Bounds
use mathlib.Core.List.{reverse}
use opendal_indexeddb.Base.{
  Str, Bytes, Bool, true, Option, none, some, ℕ, ◌+◌, ◌≡◌, [], ◌∷◌, ◌++◌, lit, ends_with_slash,
  ◌==◌, is_empty, if◌then◌else◌,
}
use opendal_indexeddb.Connection.Utf8.{from_utf8}

pub record RecursiveDeleteTarget : Type 0 where
  pub exact_key : Option Str
  pub prefix : Str

unfoldable pub recursive_delete_target : Str → RecursiveDeleteTarget
recursive_delete_target path =
    if is_empty path
    then record { exact_key = none; prefix = [] }
    else if ends_with_slash path
    then record { exact_key = none; prefix = path }
    else record { exact_key = some path; prefix = path ++ lit "/" }

-- The loop of `prefix_upper_bound` over the bytes that are left, the last one first.
unfoldable pub pop_and_raise : Bytes → Option Str
unfolding from_utf8
pop_and_raise [] = none
pop_and_raise (byte ∷ rest) =
    if byte == 255 then pop_and_raise rest else from_utf8 (reverse ((byte + 1) ∷ rest))

unfoldable pub prefix_upper_bound : Str → Option Str
unfolding pop_and_raise
prefix_upper_bound prefix = pop_and_raise (reverse prefix)
