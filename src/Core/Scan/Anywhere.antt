-- ===== src/Core/Scan/Anywhere.antt =====
-- Pages of a scan over any store, also one whose order of keys is not Rust's.
use opendal_indexeddb.Base.{
  Str, Bool, true, false, Option, none, some, ◌≤◌, ◌<◌, ◌≡◌, List, [], ◌∷◌, length, All, Result, ok,
  err,
}
use opendal_indexeddb.Core.Scan.{
  ScanPageRequest, ScanPage, ScanState, Flow, break_scan, continue_scan, page_end,
}
use opendal_indexeddb.Core.Scan.Round.{is_pushed}
use opendal_indexeddb.Meta.Records.{EntryInfo}

module _ (req : ScanPageRequest) where
  -- The key has the prefix, is behind the resumption key in Rust's order, is not the entry of the
  -- listed directory, and is not below the skipped prefix.
  abbrev pub IsListed : Str → Type 0
  IsListed k = is_pushed req k ≡ true

  -- In the loop: there is room for another key.
  record Filling (st : ScanState) : Type 0 where
    listed : All IsListed st.keys
    room : length st.keys < req.limit
    going : st.done ≡ true

  -- The keys of a page: listed, at most as many as the limit, and exactly as many where more may follow.
  abbrev pub IsPage : List Str → Bool → Type 0
  IsPage keys done =
      All IsListed keys × (length keys ≤ req.limit) × (done ≡ false → length keys ≡ req.limit)

  abbrev Flows : Flow → Type 0
  Flows (break_scan st) = IsPage st.keys st.done
  Flows (continue_scan st) = Filling st
  Flows (page_end st) = Filling st

  -- What a scan comes to, where it comes to a page.
  abbrev Yields : Result (Option ScanState) → Type 0
  Yields (ok (some st)) = IsPage st.keys st.done
  Yields (ok none) = Unit
  Yields (err e) = Unit

  -- The keys of a page's entries.
  abbrev pub entry_keys : List (Str × EntryInfo) → List Str
  entry_keys [] = []
  entry_keys ((k, info) ∷ entries) = k ∷ entry_keys entries

  abbrev pub YieldsPage : Result (Option ScanPage) → Type 0
  YieldsPage (ok (some page)) = IsPage (entry_keys page.entries) page.done
  YieldsPage (ok none) = Unit
  YieldsPage (err e) = Unit
