-- ===== src/Files/Model.antt =====
-- What the service promises: a map from paths to objects. The two object stores and their records
-- do not show. Every operation answers with its result and the new map, or refuses.
use opendal_indexeddb.Base.{
  Str, Bytes, Bool, true, false, Option, none, some, ℕ, List, [], ◌∷◌, ◌++◌, is_some, or_else,
  and_then, not, ◌&&◌, ◌||◌, str_eq, lit, is_empty, ends_with_slash, starts_with, length, ltb, leb,
  ErrorKind, condition_not_match, not_found, if◌then◌else◌,
}
use opendal_indexeddb.Meta.Records.{EntryInfo, WriteArgs, ReadArgs, UserMetadata}

pub record Object : Type 0 where
  pub bytes : Bytes
  pub modified : Option ℕ
  pub content_type : Option Str
  pub user_metadata : Option UserMetadata

abbrev pub Files : Type 0
Files = Str → Option Object

abbrev pub update : Files → Str → Option Object → Files
update f path o k = if str_eq path k then o else f k

pub data Outcome (A : Type 0) : Type 0 where
  done : A → Files → Outcome A
  refused : ErrorKind → Outcome A

-- A request for `*` matches any object, any other one the object with that ETag.
abbrev pub tag_matches : Str → Option Str → Bool
tag_matches want none = false
tag_matches want (some etag) = str_eq want (lit "*") || str_eq etag want

abbrev pub wanted : Option Str → Option Str → Bool
wanted none etag = true
wanted (some want) etag = tag_matches want etag

abbrev pub unwanted : Option Str → Option Str → Bool
unwanted none etag = true
unwanted (some want) etag = not (tag_matches want etag)

-- A condition on the time of an object holds where the time is not known.
abbrev pub newer : Option ℕ → Option ℕ → Bool
newer none time = true
newer (some since) none = true
newer (some since) (some time) = ltb since time

abbrev pub not_newer : Option ℕ → Option ℕ → Bool
not_newer none time = true
not_newer (some until) none = true
not_newer (some until) (some time) = leb time until

-- The conditions of a read, on the time and on the ETag.
abbrev pub readable : ReadArgs → Option ℕ → Option Str → Bool
readable args time etag =
    newer args.if_modified_since time
    && not_newer args.if_unmodified_since time
    && wanted args.if_match etag
    && unwanted args.if_none_match etag

module _ (etag_of : Bytes → Str) where
  abbrev pub etag : Option Object → Option Str
  etag none = none
  etag (some o) = some (etag_of o.bytes)

  -- What a client is told of an object.
  abbrev pub info : Object → EntryInfo
  info o = record {
    meta = record {
      size = some (length o.bytes);
      last_modified_ms = o.modified;
      etag = some (etag_of o.bytes);
      content = some (record {
        etag = some (etag_of o.bytes);
        content_type = o.content_type;
        user_metadata = o.user_metadata;
      });
    };
  }

  abbrev pub permits : WriteArgs → Option Object → Bool
  permits args old =
      not (args.if_not_exists && is_some old)
      && (wanted args.if_match (etag old) && unwanted args.if_none_match (etag old))

  -- What an append keeps of the object; any other write keeps nothing.
  abbrev pub kept : WriteArgs → Option Object → Option Object
  kept args old = if args.append then old else none

  abbrev pub old_bytes : Option Object → Bytes
  old_bytes none = []
  old_bytes (some o) = o.bytes

  abbrev pub written : Bytes → WriteArgs → ℕ → Option Object → Object
  written incoming args now old = record {
    bytes = old_bytes (kept args old) ++ incoming;
    modified = some now;
    content_type =
        or_else (and_then args.meta (λ m. m.content_type))
          (and_then (kept args old) (λ o. o.content_type));
    user_metadata =
        or_else (and_then args.meta (λ m. m.user_metadata))
          (and_then (kept args old) (λ o. o.user_metadata));
  }

  unfoldable pub write : Str → Bytes → WriteArgs → ℕ → Files → Outcome EntryInfo
  write path incoming args now f =
      let new = written incoming args now (f path) in
      if permits args (f path)
      then done (info new) (update f path (some new))
      else refused condition_not_match

  -- The new object is the old one, at a new time.
  unfoldable pub copy : Str → Str → Bool → Option Str → ℕ → Files → Outcome EntryInfo
  copy from to if_not_exists if_match now f = elim (f from) [
    | none ↦ refused not_found
    | some o ↦
        let new : Object = record o { modified = some now } in
        if not (if_not_exists && is_some (f to)) && wanted if_match (etag (f to))
        then done (info new) (update f to (some new))
        else refused condition_not_match
  ]

-- The object stands under the new path alone, with the time that it had.
unfoldable pub rename : Str → Str → Files → Outcome (Unit {0})
rename from to f = elim (f from) [
  | none ↦ refused not_found
  | some o ↦ done tt (update (update f to (some o)) from none)
]

-- A recursive entry names its path and all below it; the empty path names everything.
abbrev pub names_path : Str → Bool → Str → Bool
names_path path false k = str_eq path k
names_path path true k =
    if is_empty path
    then true
    else if ends_with_slash path
    then starts_with path k
    else str_eq path k || starts_with (path ++ lit "/") k

abbrev pub removed : List (Str × Bool) → Str → Bool
removed [] k = false
removed ((path, recursive) ∷ batch) k = names_path path recursive k || removed batch k

unfoldable pub remove : List (Str × Bool) → Files → Files
remove batch f k = if removed batch k then none else f k
