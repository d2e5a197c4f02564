-- ===== src/Meta/Records.antt =====
-- The record types of src/backend/meta.rs and their conversions.
use opendal_indexeddb.Base.{
  Str, Bool, Option, none, some, List, ℕ, is_some, or_else, unwrap_or, if◌then◌else◌,
}

-- `HashMap<String, String>`, which the crate carries and never looks into.
abbrev pub UserMetadata : Type 0
UserMetadata = List (Str × Str)

-- The sidecar record. `l` and `m` are `f64` in the source: a count of bytes (32 bits on wasm) and
-- whole milliseconds, both below 2^53 and so exact.
pub record MetaRecord : Type 0 where
  pub k : Str
  pub l : ℕ
  pub m : Option ℕ
  pub e : Option Str
  pub ct : Option Str
  pub um : Option UserMetadata

pub record MetaContent : Type 0 where
  pub etag : Option Str
  pub content_type : Option Str
  pub user_metadata : Option UserMetadata

-- `MetaContent::default()`
abbrev pub no_content : MetaContent
no_content = record { etag = none; content_type = none; user_metadata = none }

-- `MetaRecord::new`
unfoldable pub meta_record : Str → ℕ → Option ℕ → Option MetaContent → MetaRecord
meta_record k l m content =
    let c = unwrap_or content no_content in
    record { k = k; l = l; m = m; e = c.etag; ct = c.content_type; um = c.user_metadata }

-- `MetaContent::from(&MetaRecord)`
unfoldable pub content_of_record : MetaRecord → MetaContent
content_of_record r = record { etag = r.e; content_type = r.ct; user_metadata = r.um }

-- `MetaContent::merge`: what the request leaves out stays, and the ETag is never taken.
unfoldable pub merge : MetaContent → MetaContent → MetaContent
merge self value = record self {
  content_type = or_else value.content_type self.content_type;
  user_metadata = or_else value.user_metadata self.user_metadata;
}

pub record EntryMeta : Type 0 where
  pub size : Option ℕ
  pub last_modified_ms : Option ℕ
  pub etag : Option Str
  pub content : Option MetaContent

-- `EntryMeta::default()`
abbrev pub no_meta : EntryMeta
no_meta = record { size = none; last_modified_ms = none; etag = none; content = none }

unfoldable pub from_size : Option ℕ → EntryMeta
from_size size = record no_meta { size = size }

unfoldable pub with_size : EntryMeta → Option ℕ → EntryMeta
with_size self size = record self { size = size }

unfoldable pub with_last_modified_ms : EntryMeta → Option ℕ → EntryMeta
with_last_modified_ms self ms = record self { last_modified_ms = ms }

unfoldable pub with_etag : EntryMeta → Option Str → EntryMeta
with_etag self etag = record self { etag = etag }

-- `EntryMeta::from(MetaRecord)`
unfoldable pub entry_of_record : MetaRecord → EntryMeta
unfolding content_of_record
entry_of_record r = record {
  size = some r.l;
  last_modified_ms = r.m;
  etag = r.e;
  content = some (content_of_record r);
}

-- `EntryMeta::from(Option<MetaRecord>)`
unfoldable pub entry_of_option : Option MetaRecord → EntryMeta
unfolding entry_of_record
entry_of_option none = no_meta
entry_of_option (some r) = entry_of_record r

-- `content.etag = etag`, where there is a content
abbrev pub set_content_etag : Option Str → Option MetaContent → Option MetaContent
set_content_etag etag none = none
set_content_etag etag (some c) = some (record c { etag = etag })

unfoldable pub entry_meta_with_etag_fallback : MetaRecord → Option Str → EntryMeta
unfolding entry_of_record
entry_meta_with_etag_fallback r etag =
    let entry = entry_of_record r in
    if is_some entry.etag
    then entry
    else record entry { etag = etag; content = set_content_etag etag entry.content }

pub record EntryInfo : Type 0 where
  pub meta : EntryMeta

pub record WriteArgs : Type 0 where
  pub append : Bool
  pub if_not_exists : Bool
  pub if_match : Option Str
  pub if_none_match : Option Str
  pub meta : Option MetaContent

pub record ReadRange : Type 0 where
  pub offset : ℕ
  pub size : Option ℕ

-- A `Timestamp` is its place on the time line; only its order is used.
abbrev pub Timestamp : Type 0
Timestamp = ℕ

pub record ReadArgs : Type 0 where
  pub if_match : Option Str
  pub if_none_match : Option Str
  pub if_modified_since : Option Timestamp
  pub if_unmodified_since : Option Timestamp
  pub range : ReadRange
