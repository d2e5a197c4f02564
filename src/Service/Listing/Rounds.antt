-- ===== src/Service/Listing/Rounds.antt =====
-- The ways of one round of a lister's `next`.
use opendal_indexeddb.Base.{
  Str, true, false, none, some, ℕ, suc, ◌≡◌, List, [], ◌∷◌, ok, is_empty, ◌&&◌, arith,
  if◌then◌else◌,
}
use opendal_indexeddb.Base.Exec.{Exec, pure}
use opendal_indexeddb.Connection.Open.{Browser, World}
use opendal_indexeddb.Core.Ops
use opendal_indexeddb.Core.Scan.{ScanPage}
use opendal_indexeddb.Idb.{StoreApi, External}
use opendal_indexeddb.Io.{IndexeddbLister, Next, lister_next, listed_entry, take_page, page_request}
use opendal_indexeddb.Meta.Records.{EntryInfo}

module _ (b : Browser) (api : StoreApi) (x : External) (fuel : ℕ) where
  abbrev pub W : Type 0
  W = World b.Env api.Store

  abbrev pub nexts : ℕ → IndexeddbLister → Exec W (Next IndexeddbLister)
  nexts = lister_next b api x fuel

  -- The ways of one round.
  pub next-buffered :
      (n : ℕ) (self : IndexeddbLister) (w : W) {key : Str} {info : EntryInfo}
      {rest : List (Str × EntryInfo)}
      → self.buffer ≡ (key, info) ∷ rest
      → nexts (suc n) self w
        ≡ pure (some (some (listed_entry x self.root key info), record self { buffer = rest })) w
  unfolding lister_next
  next-buffered n self w e = ground (arith, e)

  pub next-end :
      (n : ℕ) (self : IndexeddbLister) (w : W)
      → self.buffer ≡ []
      → self.done ≡ true
      → nexts (suc n) self w ≡ pure (some (none, self)) w
  unfolding lister_next
  next-end n self w e e' = ground (arith, e, e')

  pub next-page :
      (n : ℕ) (self : IndexeddbLister) (w w' : W) (page : ScanPage)
      → self.buffer ≡ []
      → self.done ≡ false
      → Ops.scan_page b api x self.core fuel (page_request self) w ≡ (ok (some page), w')
      → nexts (suc n) self w
        ≡ (if is_empty page.entries && page.done
              then pure (some (none, take_page self page))
              else nexts n (take_page self page))
            w'
  unfolding lister_next take_page
  next-page n self w w' page e e' e'' = ground (arith, e, e', e'')

  -- Behind a page that was taken.
  unfoldable pub end_or_next : ℕ → IndexeddbLister → Exec W (Next IndexeddbLister)
  end_or_next n self =
      if is_empty self.buffer && self.done then pure (some (none, self)) else nexts n self

  pub end_or_next-end :
      (n : ℕ) (self : IndexeddbLister) (w : W)
      → self.buffer ≡ []
      → self.done ≡ true
      → end_or_next n self w ≡ pure (some (none, self)) w
  unfolding end_or_next
  end_or_next-end n self w e done = ground (arith, e, done)
