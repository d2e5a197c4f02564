-- ===== src/Meta/Check/Decides.antt =====
-- What the conditions of a request come to, for any entry.
use opendal_indexeddb.Base.{
  Str, Bool, true, false, Option, some, ℕ, ◌≡◌, ◌&&◌, Result, ok, err, condition_not_match, arith,
}
use opendal_indexeddb.Files.Model.{newer, not_newer, wanted, unwanted}
use opendal_indexeddb.Meta.Check.{check_etag, check_modified, last_modified, etag_matches}
use opendal_indexeddb.Meta.Records.{EntryInfo, Timestamp}

-- Success where the test holds, `ConditionNotMatch` where it does not.
abbrev pub IsDecided : Bool → Result (Unit {0}) → Type 0
IsDecided b (ok _) = b ≡ true
IsDecided b (err e) = (b ≡ false) × (e.kind ≡ condition_not_match)

-- The conditions on the time pass where the time of the entry is after the one and not after the
-- other; where the entry has no time, or one out of the range of timestamps, both pass.
pub check_modified_decides :
    (from_millisecond : ℕ → Option Timestamp) (info : EntryInfo) (since until : Option Timestamp)
    → IsDecided
        (newer since (last_modified from_millisecond info)
          && not_newer until (last_modified from_millisecond info))
        (check_modified from_millisecond info since until)
unfolding check_modified
check_modified_decides from_millisecond info since until = ground arith

-- The conditions on the ETag of an entry that has one pass where `if_match` is `*` or the ETag, and
-- `if_none_match` is neither.
pub check_etag_decides :
    (info : EntryInfo) (etag : Str) (if_match if_none_match : Option Str)
    → info.meta.etag ≡ some etag
    → IsDecided
        (wanted if_match (some etag) && unwanted if_none_match (some etag))
        (check_etag info if_match if_none_match)
unfolding check_etag etag_matches
check_etag_decides info etag if_match if_none_match here = ground arith
