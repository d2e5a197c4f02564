-- ===== src/Service/Obedience.antt =====
-- What calls of the methods of src/backend/core.rs may reply where transactions fail.
use opendal_indexeddb.Base.{
  ℕ, ◌≡◌, ap, sym, List, [], ◌∷◌, ◌⊎◌, inl, inr, Result, ok, err, unexpected, Error, ◌≤◌, ltb,
  arith, Bool-cases,
}
use opendal_indexeddb.Core.Ops.{with_state}
use opendal_indexeddb.Core.Read.Refines.{stored_size}
use opendal_indexeddb.Files.Model.{Files}
use opendal_indexeddb.Idb.{Stores, External}
use opendal_indexeddb.Meta.Payload.{u32_mod}
use opendal_indexeddb.Service.Calls.{
  Call, set_call, copy_call, rename_call, delete_call, read_call, stat_call, Reply, failed,
  promised,
}
use opendal_indexeddb.Service.Sequences.{IsSmall}

-- A read of an object of 2^32 bytes or more.
abbrev pub IsLarge : External → Call → Files → Type 0
IsLarge x (read_call path args) f = u32_mod ≤ stored_size x (f path)
IsLarge x _ f = ⊥

pub IsSmall-or-IsLarge :
    (x : External) (call : Call) (f : Files) → IsSmall x call f ⊎ IsLarge x call f
IsSmall-or-IsLarge x (read_call path args) f =
    elim (Bool-cases (ltb (stored_size x (f path)) u32_mod)) [
      | inl e ↦ inl (ground arith)
      | inr e ↦ inr (ground arith)
    ]
IsSmall-or-IsLarge x (set_call path value args) f = inl tt
IsSmall-or-IsLarge x (copy_call from to if_not_exists if_match) f = inl tt
IsSmall-or-IsLarge x (rename_call from to) f = inl tt
IsSmall-or-IsLarge x (delete_call batch) f = inl tt
IsSmall-or-IsLarge x (stat_call path) f = inl tt

-- What some calls may reply, from one map to another: each does what the map promises, or fails with
-- `Unexpected` and changes nothing. Of the reply to a read of a large object nothing is said.
pub data Obeys (x : External) : List (ℕ × Call) → Files → List Reply → Files → Type 0 where
  nothing : (f : Files) → Obeys x [] f [] f
  served :
      (now : ℕ) (call : Call) {calls : List (ℕ × Call)} {f : Files} {replies : List Reply}
      {g : Files}
      → Obeys x calls (promised x call now f).1 replies g
      → Obeys x ((now, call) ∷ calls) f ((promised x call now f).0 ∷ replies) g
  broken :
      (now : ℕ) (call : Call) {calls : List (ℕ × Call)} {f : Files} {replies : List Reply}
      {g : Files}
      → Obeys x calls f replies g
      → Obeys x ((now, call) ∷ calls) f (failed unexpected ∷ replies) g
  oversized :
      (now : ℕ) (call : Call) {calls : List (ℕ × Call)} {f : Files} {reply : Reply}
      {replies : List Reply} {g : Files}
      → IsLarge x call f
      → Obeys x calls f replies g
      → Obeys x ((now, call) ∷ calls) f (reply ∷ replies) g

pub with_state-ok :
    {A S : Type 0} (r : Result A) (s t : Stores S) (a : A)
    → with_state r s ≡ ok (a, t)
    → (r ≡ ok a) × (t ≡ s)
with_state-ok {A} {S} (ok a') s t a e =
    let pair : ◌≡◌ {A = A × Stores S} (a', s) (a, t) = cc in
    (ap (λ q. ok q.0) pair, sym (ap (λ q. q.1) pair))
with_state-ok (err error) s t a e = absurd (cc e)

pub with_state-err :
    {A S : Type 0} (r : Result A) (s : Stores S) (error : Error)
    → with_state r s ≡ err error
    → r ≡ err error
with_state-err (ok a) s error e = absurd (cc e)
with_state-err (err error') s error e = let same : error' ≡ error = cc in ap (λ e'. err e') same
