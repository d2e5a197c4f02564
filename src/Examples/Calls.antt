-- ===== src/Examples/Calls.antt =====
-- Sequences of calls on the store of one object.
use opendal_indexeddb.Base.{inl, inr}
use opendal_indexeddb.Base.{
  Str, arith, true, false, none, some, ◌≡◌, ◌++◌, refl, List, [], ◌∷◌, lit, str_eq, starts_with,
}
use opendal_indexeddb.Connection.Utf8.{is_utf8}
use opendal_indexeddb.Examples.Objects.{
  ext, etag_by, here, there, one_file, one-Represents, append_args, below_docs, from_two,
}
use opendal_indexeddb.Examples.Service.{main_core, chrome, world}
use opendal_indexeddb.Examples.Shelf.{shelf, shelf-IsStore}
use opendal_indexeddb.Examples.Working.{chrome-IsWorking}
use opendal_indexeddb.Files.Model
use opendal_indexeddb.Meta.Payload.{etag_from_bytes}
use opendal_indexeddb.Files.Model.{Files, info, written, update, old_bytes}
use opendal_indexeddb.Files.Represents.{Represents}
use opendal_indexeddb.Meta.Records.{WriteArgs}
use opendal_indexeddb.Service.Calls.{
  Call, set_call, copy_call, rename_call, delete_call, read_call, stat_call, wrote, promised,
  promised_all, perform_all, dated,
}
use opendal_indexeddb.Service.Scopes.{perform_all-elsewhere}
use opendal_indexeddb.Service.Faults.{perform_all-Obeys}
use opendal_indexeddb.Service.Obedience.{Obeys}
use opendal_indexeddb.Service.Races.{
  Writes, all_bytes, writes, all_refused, one_winner, appends_kept,
}
use opendal_indexeddb.Service.Sequences.{AreTexts, AreSmall, perform_all-Agrees}

abbrev calls : List Call
calls =
    set_call here (lit " world") append_args
    ∷ copy_call here there true none
    ∷ stat_call there
    ∷ read_call there from_two
    ∷ delete_call below_docs
    ∷ rename_call there here
    ∷ []

calls-AreTexts : AreTexts calls
unfolding is_utf8
calls-AreTexts = (tt, (tt, (tt, (tt, ((refl, (refl, tt)), (tt, tt))))))

calls-AreSmall : AreSmall ext (dated chrome shelf ext main_core calls world) one_file
unfolding promised dated Model.copy Model.write etag_from_bytes
calls-AreSmall = (tt, (tt, (tt, (omega arith, (tt, (tt, tt))))))

perform_all-Agrees_example :
    ((perform_all chrome shelf ext main_core calls world).0
      ≡ (promised_all ext (dated chrome shelf ext main_core calls world) one_file).0)
    × Represents etag_by shelf
        (perform_all chrome shelf ext main_core calls world).1.stores
        (promised_all ext (dated chrome shelf ext main_core calls world) one_file).1
perform_all-Agrees_example =
    perform_all-Agrees chrome shelf shelf-IsStore ext main_core chrome-IsWorking calls world
      one_file calls-AreTexts calls-AreSmall one-Represents

perform_all-Obeys_example :
    (g : Files) × Obeys ext
      (dated chrome shelf ext main_core calls world)
      one_file
      (perform_all chrome shelf ext main_core calls world).0
      g
    × Represents etag_by shelf (perform_all chrome shelf ext main_core calls world).1.stores g
perform_all-Obeys_example =
    perform_all-Obeys chrome shelf shelf-IsStore ext main_core calls world one_file calls-AreTexts
      one-Represents

abbrev creating : WriteArgs
creating = record append_args { append = false; if_not_exists = true; if_match = none }

abbrev appending : WriteArgs
appending = record append_args { if_match = none }

abbrev creating_by_tag : WriteArgs
creating_by_tag = record append_args {
  append = false;
  if_match = none;
  if_none_match = some (lit "*");
}

abbrev late : Writes
late = (lit "b", creating_by_tag) ∷ (lit "c", creating) ∷ []

one_winner_example :
    ((perform_all chrome shelf ext main_core
        (writes there ((lit "a", creating_by_tag) ∷ late))
        world).0
      ≡ wrote (info etag_by (written etag_by (lit "a") creating_by_tag 9 none)) ∷ all_refused late)
    × Represents etag_by shelf
        (perform_all chrome shelf ext main_core
          (writes there ((lit "a", creating_by_tag) ∷ late))
          world).1.stores
        (update one_file there (some (written etag_by (lit "a") creating_by_tag 9 none)))
one_winner_example =
    one_winner chrome shelf shelf-IsStore ext main_core chrome-IsWorking there (lit "a")
      creating_by_tag late world one_file (record { only_new = inr refl; no_tag = refl })
      (
        record { only_new = inr refl; no_tag = refl },
        (record { only_new = inl refl; no_tag = refl }, tt),
      )
      refl one-Represents

abbrev typed : WriteArgs
typed = record appending {
  meta =
      some (record { etag = none; content_type = some (lit "text/plain"); user_metadata = none });
}

abbrev two_appends : Writes
two_appends = (lit " w", appending) ∷ (lit "orld", typed) ∷ []

appends_kept_example :
    (g : Files) × Represents etag_by shelf
      (perform_all chrome shelf ext main_core (writes here two_appends) world).1.stores
      g
    × (old_bytes etag_by (g here) ≡ old_bytes etag_by (one_file here) ++ all_bytes two_appends)
    × ((k : Str) → str_eq here k ≡ false → g k ≡ one_file k)
appends_kept_example =
    appends_kept chrome shelf shelf-IsStore ext main_core chrome-IsWorking here two_appends world
      one_file
      (
        record { appends = refl; anyway = refl; any_tag = refl; no_tag = refl },
        (record { appends = refl; anyway = refl; any_tag = refl; no_tag = refl }, tt),
      )
      one-Represents

abbrev in_docs : List Call
in_docs =
    set_call there (lit "more") creating
    ∷ copy_call here (lit "docs/c") false none
    ∷ delete_call ((lit "docs/", true) ∷ [])
    ∷ rename_call there here
    ∷ []

in_docs-AreTexts : AreTexts in_docs
unfolding is_utf8
in_docs-AreTexts = (tt, (tt, ((refl, tt), (tt, tt))))

perform_all-elsewhere_example :
    (g : Files) × Represents etag_by shelf
      (perform_all chrome shelf ext main_core in_docs world).1.stores
      g
    × ((k : Str) → starts_with (lit "docs/") k ≡ false → g k ≡ one_file k)
perform_all-elsewhere_example =
    perform_all-elsewhere chrome shelf shelf-IsStore ext main_core (lit "docs/") in_docs world
      one_file (refl, (refl, ((refl, tt), ((refl, refl), tt)))) in_docs-AreTexts one-Represents
