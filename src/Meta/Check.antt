-- ===== src/Meta/Check.antt =====
-- The conditions of a request: `check_etag` and `check_modified` of src/backend/meta.rs.
pub mod Decides
use opendal_indexeddb.Base.{
  Str, lit, Bool, ◌||◌, not, Option, none, some, ℕ, error, fail_if, ◌>>◌, opt_eq, str_eq, ltb, leb,
  and_then, Result, ok, condition_not_match,
}
use opendal_indexeddb.Meta.Records.{EntryInfo, Timestamp}

-- `want == "*" || etag(info) == Some(want)`
unfoldable pub etag_matches : EntryInfo → Str → Bool
etag_matches info want = str_eq want (lit "*") || opt_eq info.meta.etag (some want)

unfoldable pub check_if_match : EntryInfo → Option Str → Result (Unit {0})
check_if_match info none = ok tt
check_if_match info (some want) =
    fail_if (not (etag_matches info want))
      (error condition_not_match "the entry's etag does not match if_match")

unfoldable pub check_if_none_match : EntryInfo → Option Str → Result (Unit {0})
check_if_none_match info none = ok tt
check_if_none_match info (some want) =
    fail_if (etag_matches info want)
      (error condition_not_match "the entry's etag matches if_none_match")

unfoldable pub check_etag : EntryInfo → Option Str → Option Str → Result (Unit {0})
unfolding check_if_match check_if_none_match
check_etag info if_match if_none_match = do
  check_if_match info if_match
  check_if_none_match info if_none_match

unfoldable pub check_since : Timestamp → Option Timestamp → Result (Unit {0})
check_since last none = ok tt
check_since last (some since) =
    fail_if (leb last since)
      (error condition_not_match "the entry has not been modified since the given time")

unfoldable pub check_until : Timestamp → Option Timestamp → Result (Unit {0})
check_until last none = ok tt
check_until last (some until) =
    fail_if (ltb until last)
      (error condition_not_match "the entry has been modified since the given time")

-- `from_millisecond` is `Timestamp::from_millisecond`, which refuses what is out of its range.
module _ (from_millisecond : ℕ → Option Timestamp) where
  unfoldable pub last_modified : EntryInfo → Option Timestamp
  last_modified info = and_then info.meta.last_modified_ms from_millisecond

  unfoldable pub check_modified :
      EntryInfo → Option Timestamp → Option Timestamp → Result (Unit {0})
  unfolding last_modified check_since check_until
  check_modified info if_modified_since if_unmodified_since = elim (last_modified info) [
    | none ↦ ok tt
    | some last ↦ check_since last if_modified_since >> check_until last if_unmodified_since
  ]
