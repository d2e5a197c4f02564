-- ===== src/Examples/Backend.antt =====
-- The handlers of a backend with the root `/`, over one object, `docs/a`.
use opendal_indexeddb.Access.{
  IndexeddbBackend, new_backend, OpStat, OpRead, OpWrite, OpCopy, read_args_of, write_args_of, stat,
  read, copy, rename,
}
use opendal_indexeddb.Access.Answers.{TellsStat, TellsRead, stat-TellsStat, read-TellsRead}
use opendal_indexeddb.Access.Roundtrip.{
  plain_read, read_back, write_read, new_object, write_read-roundtrip, copy-read, rename-read,
}
use opendal_indexeddb.Base.{
  true, false, some, none, ok, ◌≡◌, refl, lit, arith, str_eq, if◌then◌else◌,
}
use opendal_indexeddb.Base.Exec.{◌>>=◌, ◌>>◌}
use opendal_indexeddb.Core.Entry.{new_metadata}
use opendal_indexeddb.Examples.Objects.{ext, here, there, hello, one_file, one-Represents}
use opendal_indexeddb.Examples.Service.{main_core, chrome, world}
use opendal_indexeddb.Examples.Shelf.{shelf, shelf-IsStore}
use opendal_indexeddb.Examples.Working.{chrome-IsWorking, flat, flat-IsQueue, two_chunks}
use opendal_indexeddb.Idb.{dir}
use opendal_indexeddb.Meta.Records.{ReadRange}

abbrev pub backend : IndexeddbBackend
backend = record { core = main_core; root = lit "/"; info = (new_backend main_core).info }

abbrev stat_newer : OpStat
stat_newer = record {
  if_match = none;
  if_none_match = some (lit "x");
  if_modified_since = some 4;
  if_unmodified_since = none;
}

abbrev last_two : ReadRange
last_two = record { offset = 3; size = none }

abbrev read_from_three : OpRead
read_from_three = record {
  if_match = some (lit "*");
  if_none_match = none;
  if_modified_since = none;
  if_unmodified_since = none;
  offset = 3;
  size = none;
}

abbrev appending : OpWrite
appending = record {
  append = true;
  if_not_exists = false;
  if_match = some (lit "*");
  if_none_match = none;
  content_type = none;
  user_metadata = none;
}

abbrev fresh_copy : OpCopy
fresh_copy = record { if_not_exists = true; if_match = none }

stat-TellsStat_example :
    (if str_eq here (lit "")
      then (stat chrome shelf ext backend here stat_newer world ≡ (ok (new_metadata dir), world))
      else TellsStat ext here stat_newer
          (one_file here)
          ((stat chrome shelf ext backend here stat_newer world).0))
stat-TellsStat_example =
    stat-TellsStat chrome shelf shelf-IsStore ext backend chrome-IsWorking here stat_newer world
      one_file one-Represents

read-TellsRead_example :
    TellsRead ext here
      (read_args_of read_from_three)
      (one_file here)
      ((read chrome shelf ext backend here read_from_three world).0)
read-TellsRead_example =
    read-TellsRead chrome shelf shelf-IsStore ext backend chrome-IsWorking here read_from_three
      world one_file one-Represents (omega arith)

write_read-roundtrip_example :
    (write_read chrome shelf shelf-IsStore ext backend chrome-IsWorking flat here appending
      two_chunks last_two world).0
    ≡ read_back chrome shelf shelf-IsStore ext backend chrome-IsWorking here last_two (
        new_object chrome shelf shelf-IsStore ext backend chrome-IsWorking here appending two_chunks
          world one_file)
unfolding write_args_of
write_read-roundtrip_example =
    write_read-roundtrip chrome shelf shelf-IsStore ext backend chrome-IsWorking flat here appending
      two_chunks last_two world one_file flat-IsQueue one-Represents refl (omega arith)

copy-read_example :
    ((copy chrome shelf ext backend here there fresh_copy >>= λ _.
    read chrome shelf ext backend there (plain_read last_two))
      world).0
    ≡ read_back chrome shelf shelf-IsStore ext backend chrome-IsWorking there last_two
        (record hello { modified = some 9 })
copy-read_example =
    copy-read chrome shelf shelf-IsStore ext backend chrome-IsWorking here there fresh_copy last_two
      world one_file hello one-Represents refl refl refl (omega arith)

rename-read_example :
    ((rename chrome shelf ext backend here there
        >> read chrome shelf ext backend there (plain_read last_two))
      world).0
    ≡ read_back chrome shelf shelf-IsStore ext backend chrome-IsWorking there last_two hello
rename-read_example =
    rename-read chrome shelf shelf-IsStore ext backend chrome-IsWorking here there last_two world
      one_file hello one-Represents refl refl (omega arith)
