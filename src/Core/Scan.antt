-- ===== src/Core/Scan.antt =====
-- The paged scan of `IndexeddbCore::scan_page`, with `get_all_string_keys_in`.
pub mod Keys
pub mod Round
pub mod Lists
pub mod Pages
pub mod Entries
pub mod Resume
pub mod Anywhere
use opendal_indexeddb.Base.{
  Str, Bool, true, false, Option, none, some, ℕ, zero, suc, ◌-◌, List, [], ◌∷◌, ◌++◌, length, ◌&&◌,
  ◌||◌, and_then, ends_with_slash, starts_with, str_eq, str_lt, str_le, ltb, leb, ◌==◌,
  if◌then◌else◌, Result, ok, ◌>>=◌,
}
use opendal_indexeddb.Connection.Prefix.{prefix_upper_bound}
use opendal_indexeddb.Core.Entry.{entry_info_for_key}
use opendal_indexeddb.Idb.{StoreApi, Stores, External, JsKey, as_string}
use opendal_indexeddb.Meta.Payload.{JsValue, to_meta}
use opendal_indexeddb.Meta.Records.{MetaRecord, EntryInfo}

pub record ScanPageRequest : Type 0 where
  pub prefix : Str
  pub start_after : Option Str
  pub skip_prefix : Option Str
  pub limit : ℕ

pub record ScanPage : Type 0 where
  pub entries : List (Str × EntryInfo)
  pub next_start_after : Option Str
  pub skip_prefix : Option Str
  pub done : Bool

-- The variables of the loop `'scan`.
pub record ScanState : Type 0 where
  pub keys : List Str
  pub next_start_after : Option Str
  pub done : Bool
  pub lower : Str
  pub lower_open : Bool

-- How the loop over one fetched page ends: `break 'scan`, `continue 'scan`, or at the page's end.
pub data Flow : Type 0 where
  break_scan continue_scan page_end : ScanState → Flow

abbrev pub meta_join_min_size : ℕ
meta_join_min_size = 32

-- `filter_map(|key| key.as_string())`
abbrev pub string_keys : List JsKey → List Str
string_keys [] = []
string_keys (key ∷ keys) = elim (as_string key) [
  | none ↦ string_keys keys
  | some name ↦ name ∷ string_keys keys
]

-- The text keys, and how many keys were fetched.
unfoldable pub get_all_string_keys_in :
    (api : StoreApi) → api.Store → Str → Bool → Option Str → ℕ → Result (List Str × ℕ)
get_all_string_keys_in api store lower lower_open upper limit = do
  keys ← api.get_all_keys_in store lower lower_open upper limit
  ok (string_keys keys, length keys)

-- The key is passed over, and the next range begins behind it.
abbrev pub pass_over : Str → ScanState → ScanState
pass_over key st = record st { next_start_after = some key; lower = key; lower_open = true }

abbrev pub at_or_before : Str → Option Str → Bool
at_or_before key none = false
at_or_before key (some start_after) = str_le key start_after

-- The skipped prefix, where the key has it.
abbrev pub skip_of : Str → Option Str → Option Str
skip_of key none = none
skip_of key (some skip_prefix) = if starts_with skip_prefix key then some skip_prefix else none

-- The jump behind a skipped prefix.
unfoldable pub jump : Str → Str → ScanState → Flow
jump key skip_prefix st =
    let st' : ScanState = record st { next_start_after = some key } in
    elim (prefix_upper_bound skip_prefix) [
      | none ↦ break_scan st'
      | some next_lower ↦
          if str_lt st.lower next_lower
          then continue_scan (record st' { lower = next_lower; lower_open = false })
          else break_scan st'
    ]

-- The key is one of the page's.
unfoldable pub push_key : Str → ScanState → ScanState
push_key key st = record (pass_over key st) { keys = st.keys ++ key ∷ [] }

-- The two tests that pass a key over: it is not behind the resumption key, or it is the entry of the
-- listed directory itself.
abbrev pub passed_by : ScanPageRequest → Str → Bool
passed_by req key =
    at_or_before key req.start_after || (str_eq key req.prefix && ends_with_slash req.prefix)

-- `for key in fetched`
unfoldable pub for_keys : ScanPageRequest → List Str → ScanState → Flow
unfolding jump push_key
for_keys req [] st = page_end st
for_keys req (key ∷ fetched) st = elim (starts_with req.prefix key) [
  | false ↦ break_scan st
  | true ↦ elim (passed_by req key) [
    | true ↦ for_keys req fetched (pass_over key st)
    | false ↦ elim (skip_of key req.skip_prefix) [
      | some skip_prefix ↦ jump key skip_prefix st
      | none ↦ elim (leb req.limit (length (push_key key st).keys)) [
        | true ↦ break_scan (record (push_key key st) { done = false })
        | false ↦ for_keys req fetched (push_key key st)
      ]
    ]
  ]
]

-- `lower >= upper`, where there is an upper bound
abbrev pub past : Str → Option Str → Bool
past lower none = false
past lower (some upper) = str_le upper lower

-- The lower bound: the resumption key where it stands behind the prefix.
unfoldable pub scan_lower : ScanPageRequest → Str
scan_lower req = elim req.start_after [
  | none ↦ req.prefix
  | some start_after ↦ if str_lt req.prefix start_after then start_after else req.prefix
]

unfoldable pub scan_start : ScanPageRequest → ScanState
unfolding scan_lower
scan_start req = record {
  keys = [];
  next_start_after = req.start_after;
  done = true;
  lower = scan_lower req;
  lower_open = elim req.start_after [
    | none ↦ false
    | some start_after ↦ str_le req.prefix start_after
  ];
}

-- How the loop goes on behind one fetched page.
abbrev pub follow :
    (ScanState → Result (Option ScanState)) → Bool → Flow → Result (Option ScanState)
follow again short (break_scan st) = ok (some st)
follow again short (continue_scan st) = again st
follow again short (page_end st) = elim short [ true ↦ ok (some st) | false ↦ again st ]

-- What is left to fetch for the page.
abbrev pub remaining : ScanPageRequest → ScanState → ℕ
remaining req st = req.limit - length st.keys

-- One round of the loop, where the lower bound is not past the upper one.
unfoldable pub scan_fetched :
    ScanPageRequest
    → ScanState
    → (ScanState → Result (Option ScanState))
    → List Str × ℕ
    → Result (Option ScanState)
scan_fetched req st again (fetched, fetched_len) = elim (fetched_len == 0 || length fetched == 0) [
  | true ↦ ok (some st)
  | false ↦ follow again (ltb fetched_len (remaining req st)) (for_keys req fetched st)
]

-- The sidecars that a cursor finds between two keys.
unfoldable pub prefetched : List (JsKey × JsValue) → List (Str × MetaRecord)
prefetched [] = []
prefetched ((key, value) ∷ records) =
    let rest = prefetched records in
    elim (as_string key) [
      | none ↦ rest
      | some name ↦ elim (to_meta value) [ none ↦ rest | some meta ↦ (name, meta) ∷ rest ]
    ]

-- `metas.remove(&key)`; a cursor visits a key once, and a page lists it once.
unfoldable pub find_meta : Str → List (Str × MetaRecord) → Option MetaRecord
find_meta key [] = none
find_meta key ((name, meta) ∷ metas) = if str_eq name key then some meta else find_meta key metas

abbrev pub last_of : Str → List Str → Str
last_of key [] = key
last_of key (next ∷ keys) = last_of next keys

module _ (api : StoreApi) where
  open api use {Store}

  -- The loop `'scan`, on fuel; nothing where the fuel runs out.
  unfoldable pub scan_loop :
      ℕ → ScanPageRequest → Option Str → Store → ScanState → Result (Option ScanState)
  unfolding get_all_string_keys_in
  scan_loop zero req upper store st = ok none
  scan_loop (suc fuel) req upper store st = elim (past st.lower upper) [
    | true ↦ ok (some st)
    | false ↦
        get_all_string_keys_in api store st.lower st.lower_open upper (remaining req st)
        >>= scan_fetched req st (scan_loop fuel req upper store)
  ]

  -- A page of at least `META_JOIN_MIN_SIZE` keys joins its sidecars by one cursor.
  unfoldable pub metas_for : Store → List Str → List (Str × MetaRecord)
  unfolding prefetched
  metas_for meta_store [] = []
  metas_for meta_store (first ∷ keys) =
      if leb meta_join_min_size (length (first ∷ keys))
      then prefetched (api.open_cursor meta_store first (last_of first keys))
      else []

  unfoldable pub entries_for :
      External → Stores Store → List (Str × MetaRecord) → List Str → List (Str × EntryInfo)
  unfolding find_meta
  entries_for x s metas [] = []
  entries_for x s metas (key ∷ keys) =
      (key, entry_info_for_key api x s key (find_meta key metas)) ∷ entries_for x s metas keys

  -- The page of the keys that the loop found.
  unfoldable pub page_of : External → ScanPageRequest → Stores Store → ScanState → ScanPage
  unfolding metas_for entries_for
  page_of x req s st = record {
    entries = entries_for x s (metas_for s.meta_store st.keys) st.keys;
    next_start_after = st.next_start_after;
    skip_prefix = req.skip_prefix;
    done = st.done;
  }

  unfoldable pub scan_page_txn :
      ℕ → External → ScanPageRequest → Stores Store → Result (Option ScanPage)
  unfolding scan_start scan_loop page_of prefix_upper_bound
  scan_page_txn fuel x req s = do
    found ← scan_loop fuel req (prefix_upper_bound req.prefix) s.data_store (scan_start req)
    ok (and_then found (λ st. some (page_of x req s st)))

-- The page that is answered with no transaction.
abbrev pub no_page : ScanPageRequest → ScanPage
no_page req = record {
  entries = [];
  next_start_after = req.start_after;
  skip_prefix = req.skip_prefix;
  done = true;
}

-- Whether there is nothing to scan for: no entries are wanted, or the resumption key is behind the
-- range of the prefix.
unfoldable pub is_vacant : ScanPageRequest → Bool
unfolding scan_lower prefix_upper_bound
is_vacant req = req.limit == 0 || past (scan_lower req) (prefix_upper_bound req.prefix)
