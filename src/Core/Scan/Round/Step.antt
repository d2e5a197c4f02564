-- ===== src/Core/Scan/Round/Step.antt =====
-- One key of the loop over a fetched page, by the four tests of the source.
use opendal_indexeddb.Base.{
  Str, true, false, none, some, ◌≡◌, refl, inl, inr, List, [], ◌∷◌, length, starts_with, leb, arith,
  Option-cases,
}
use opendal_indexeddb.Core.Scan.{
  ScanPageRequest, ScanState, break_scan, page_end, pass_over, passed_by, skip_of, jump, push_key,
  for_keys,
}

module _ (req : ScanPageRequest) where
  pub skip_cases :
      (c p : Str)
      → skip_of c req.skip_prefix ≡ some p
      → (req.skip_prefix ≡ some p) × (starts_with p c ≡ true)
  skip_cases c p e = elim (Option-cases req.skip_prefix) [
    | inl no_skip ↦ ground (arith, no_skip)
    | inr (q, same) ↦ ground (arith, same)
  ]

  pub for_keys-nil : (st : ScanState) → for_keys req [] st ≡ page_end st
  unfolding for_keys
  for_keys-nil st = refl

  -- One key of the loop, by the four tests.
  module _ (c : Str) (fetched : List Str) (st : ScanState) where
    pub for_keys-past :
        starts_with req.prefix c ≡ false → for_keys req (c ∷ fetched) st ≡ break_scan st
    unfolding for_keys push_key
    for_keys-past e = ground (arith, e)

    pub for_keys-over :
        starts_with req.prefix c ≡ true
        → passed_by req c ≡ true
        → for_keys req (c ∷ fetched) st ≡ for_keys req fetched (pass_over c st)
    unfolding for_keys push_key
    for_keys-over e e' = ground (arith, e, e')

    pub for_keys-skip :
        (p : Str)
        → starts_with req.prefix c ≡ true
        → passed_by req c ≡ false
        → skip_of c req.skip_prefix ≡ some p
        → for_keys req (c ∷ fetched) st ≡ jump c p st
    unfolding for_keys push_key
    for_keys-skip p e e' e'' = ground (arith, e, e', e'')

    pub for_keys-full :
        starts_with req.prefix c ≡ true
        → passed_by req c ≡ false
        → skip_of c req.skip_prefix ≡ none
        → leb req.limit (length (push_key c st).keys) ≡ true
        → for_keys req (c ∷ fetched) st ≡ break_scan (record (push_key c st) { done = false })
    unfolding for_keys push_key
    for_keys-full e e' e'' full = ground (arith, e, e', e'', full)

    pub for_keys-push :
        starts_with req.prefix c ≡ true
        → passed_by req c ≡ false
        → skip_of c req.skip_prefix ≡ none
        → leb req.limit (length (push_key c st).keys) ≡ false
        → for_keys req (c ∷ fetched) st ≡ for_keys req fetched (push_key c st)
    unfolding for_keys push_key
    for_keys-push e e' e'' full = ground (arith, e, e', e'', full)
