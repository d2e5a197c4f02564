-- ===== src/Files/Writes.antt =====
-- Writes to the abstract map, and what is under the path behind one.
use opendal_indexeddb.Base.{
  Str, Bytes, true, false, Option, some, ℕ, ◌≡◌, refl, str_eq, str_eq_refl, condition_not_match,
}
use opendal_indexeddb.Files.Model
use opendal_indexeddb.Files.Model.{Object, Files, done, refused, info, update, permits, written}
use opendal_indexeddb.Meta.Records.{WriteArgs}

module _ (etag_of : Bytes → Str) (path : Str) (bytes : Bytes) (args : WriteArgs) (now : ℕ)
    (f : Files) where
  pub write-done :
      permits etag_of args (f path) ≡ true
      → (let new = written etag_of bytes args now (f path) in
          Model.write etag_of path bytes args now f
          ≡ done (info etag_of new) (update f path (some new)))
  unfolding Model.write
  write-done allowed = rw allowed refl

  pub write-refused :
      permits etag_of args (f path) ≡ false
      → Model.write etag_of path bytes args now f ≡ refused condition_not_match
  unfolding Model.write
  write-refused forbidden = rw forbidden refl

pub update-same : (f : Files) (path : Str) (o : Option Object) → update f path o path ≡ o
update-same f path o = rw (str_eq_refl path) refl

pub update-other :
    (f : Files) (path k : Str) (o : Option Object) → str_eq path k ≡ false → update f path o k ≡ f k
update-other f path k o other = rw other refl
