-- ===== src/Base/Results.antt =====
-- `opendal::Error` and `Result`.
use mathlib.Core.Bool.{Bool, true, false}
use mathlib.Core.List.{List, [], ◌∷◌}
use mathlib.Core.Path.{◌≡◌, refl}
use opendal_indexeddb.Base.Text.{Str}
use Prim.Native.String.{String}

-- The kinds of `opendal::ErrorKind` that the crate raises.
pub data ErrorKind : Type 0 where
  unexpected not_found condition_not_match is_same_file config_invalid : ErrorKind

pub record Error : Type 0 where
  pub kind : ErrorKind
  pub message : String
  pub context : List (String × Str)

-- `Error::new(kind, message)`
abbrev pub error : ErrorKind → String → Error
error kind message = record { kind = kind; message = message; context = [] }

-- `err.with_context(key, value)`
abbrev pub with_context : String → Str → Error → Error
with_context key value e = record e { context = (key, value) ∷ e.context }

-- `opendal::Result<T>`
pub data Result {ℓ} (T : Type ℓ) : Type ℓ where
  ok : T → Result T
  err : Error → Result T

abbrev pub map_err {ℓ} : {T : Type ℓ} → (Error → Error) → Result T → Result T
map_err g (err fault) = err (g fault)
map_err g (ok value) = ok value

infixl 5 ◌>>=◌
-- The operator `?`: an error leaves the function.
abbrev pub ◌>>=◌ {ℓ κ} : {T : Type ℓ} {U : Type κ} → Result T → (T → Result U) → Result U
err fault >>= next = err fault
ok value >>= next = next value

infixl 5 ◌>>◌
abbrev pub ◌>>◌ {ℓ} : {U : Type ℓ} → Result (Unit {0}) → Result U → Result U
first >> second = first >>= (λ _. second)

-- An early `return Err(e)` when the test holds.
abbrev pub fail_if : Bool → Error → Result (Unit {0})
fail_if true e = err e
fail_if false e = ok tt

-- Where `?` let a value through.
pub >>=-eq-ok {ℓ κ} :
    {T : Type ℓ} {U : Type κ} {u : U} (first : Result T) (next : T → Result U)
    → (first >>= next) ≡ ok u
    → (value : T) × (first ≡ ok value) × (next value ≡ ok u)
>>=-eq-ok (err fault) next passed = cc
>>=-eq-ok (ok value) next passed = (value, refl, passed)
