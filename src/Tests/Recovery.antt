-- ===== src/Tests/Recovery.antt =====
-- kvstore/: the theorems on file names and on opening, at a directory with one data file.
use kvraft.Base.{eq_bytes, ◌≡◌, refl, ap, true, false, some, none, [], ◌∷◌, List, codes, arith, ◌≤◌}
use kvraft.Base.Int.{pos}
use kvraft.Base.Assoc.{lookup, insert, bytes_eq}
use kvraft.Kvstore.Types.{ok, DecodedRecord}
use kvraft.Kvstore.Names.{
  max_uint64, DirEntry, data_file_name, validate_entries, validate_layout, list_data_file_ids,
  data_file_extension, hint_file_name, hint_file_extension, parse_file_id,
}
use kvraft.Kvstore.Names.RoundTrip.{file_name_roundtrip}
use kvraft.Kvstore.Names.Layout.{AreAscending, Listed, entries_of, entries_of-listed}
use kvraft.Kvstore.Scan.Replay.{replay}
use kvraft.Kvstore.Words.{le_bytes}
use kvraft.Kvstore.Codec.{encode_data_record}
use kvraft.Kvstore.Store.Files.{
  Db, create_new_active_file, ensure_open, must_read_write, append_record_locked,
}
use kvraft.Kvstore.Store.Write.{put, writable}
use kvraft.Kvstore.Store.Read.{get}
use kvraft.Kvstore.Store.Durable.View.{answer_of}
use kvraft.Kvstore.Open.{
  fresh_db, open_checked, acquire_writer_lock, open_listed, open_files, OpenIo, granted,
  open_with_options,
}
use kvraft.Kvstore.Open.Recover.{replay_segments, Recoverable, data_ids, ids_below}
use kvraft.Kvstore.Open.Recover.Reopen.{
  OpensWith, opened, torn_files, reopen_restores, crash_recovers,
}
use kvraft.Kvstore.Open.Recover.Restart.{Step, Steps, puts, restarts, stay, and_then, get-Steps}
use kvraft.Tests.Database.{k, v, db, db-IsWritable, fine, record-Fits}

-- The directory of a database with the one data file.
abbrev one_file : List Listed
one_file = record { file_id = 1; with_hint = false } ∷ []

one_id : AreAscending (1 ∷ [])
one_id = let at_most : 1 ≤ max_uint64 = omega arith in (at_most, tt, tt)

one_file_listed :
    (validate_entries true (entries_of one_file) ≡ ([], ok tt))
    × (list_data_file_ids (some (entries_of one_file)) ≡ ok (1 ∷ []))
one_file_listed = entries_of-listed true one_file one_id

abbrev calls : OpenIo
calls = record {
  directory = true;
  layout = some (entries_of one_file);
  lock_open = true;
  lock = granted;
  listing = some (entries_of one_file);
  create = fine.rotate;
  truncate = true;
  seek = true;
  sync = true;
  open_active = true;
  stat = true;
}

data_ids-db : data_ids db ≡ 1 ∷ []
unfolding ids_below
data_ids-db = refl

calls-OpensWith : OpensWith (1 ∷ []) calls
unfolding validate_layout
calls-OpensWith = record {
  directory = refl;
  layout = ap (λ x. x.1) one_file_listed.0;
  lock_open = refl;
  lock = refl;
  listing = one_file_listed.1;
  truncate = refl;
  seek = refl;
  sync = refl;
  open_active = refl;
  stat = refl;
}

db-Recoverable : Recoverable [] [] db
unfolding replay replay_segments lookup
db-Recoverable = record {
  writable = db-IsWritable;
  size_set = refl;
  sealed = tt;
  active = refl;
  listed = data_ids-db;
  fits = tt;
  next = refl;
  ascending = one_id;
  keydir = refl;
  behind = λ key e at. absurd (ground (arith, at));
}

reopen_restores_example :
    open_with_options db.opts db.data_files db.hint_files calls ≡ (opened db, ok tt)
reopen_restores_example =
    reopen_restores db [] [] calls db-Recoverable (rw data_ids-db calls-OpensWith)

-- Five of the twenty-two bytes of a record.
abbrev a_record : DecodedRecord
a_record = record { timestamp = pos 7; key = k; value = v }

crash_recovers_example :
    open_with_options db.opts (torn_files db a_record 5) db.hint_files calls ≡ (opened db, ok tt)
crash_recovers_example =
    crash_recovers db [] [] calls db-Recoverable (rw data_ids-db calls-OpensWith) a_record 5
      record-Fits (omega arith) refl

file_name_roundtrip_example :
    (parse_file_id (data_file_name 7) data_file_extension ≡ some 7)
    × (parse_file_id (hint_file_name 7) hint_file_extension ≡ some 7)
    × (parse_file_id (hint_file_name 7) data_file_extension ≡ none)
    × (parse_file_id (data_file_name 7) hint_file_extension ≡ none)
file_name_roundtrip_example = file_name_roundtrip 7 (omega arith)

-- A temporary file, which a reader refuses.
abbrev leftovers : List DirEntry
leftovers = record { name = codes "x.tmp"; is_dir = false } ∷ []

-- A new directory, a Put, and a restart.
abbrev empty_calls : OpenIo
empty_calls = record calls { layout = some []; listing = some [] }

empty_calls-OpensWith : OpensWith [] empty_calls
unfolding validate_layout validate_entries list_data_file_ids
empty_calls-OpensWith = record {
  directory = refl;
  layout = refl;
  lock_open = refl;
  lock = refl;
  listing = refl;
  truncate = refl;
  seek = refl;
  sync = refl;
  open_active = refl;
  stat = refl;
}

abbrev start : Db
start = (open_with_options db.opts (λ i. none) (λ i. none) empty_calls).0

abbrev started_put : Db
started_put = (put start k v (pos 7) fine).0

start_puts : Step [] start (insert k v []) started_put
unfolding open_with_options fresh_db open_checked acquire_writer_lock open_listed open_files
    create_new_active_file validate_layout validate_entries list_data_file_ids put writable
    ensure_open must_read_write append_record_locked eq_bytes encode_data_record le_bytes lookup
start_puts =
    let next : start.next_file_id ≡ 2 = refl in
    let offset : start.active_offset ≡ 0 = refl in
    puts k v (pos 7) fine (omega (arith, next), omega (arith, offset))
      (λ e at. absurd (ground (arith, at))) record-Fits (omega arith) refl

started_put_restarts :
    Steps
      (insert k v [])
      started_put
      (insert k v [])
      (open_with_options started_put.opts started_put.data_files started_put.hint_files calls).0
unfolding open_with_options fresh_db open_checked acquire_writer_lock open_listed open_files
    create_new_active_file validate_layout validate_entries list_data_file_ids put writable
    ensure_open must_read_write append_record_locked eq_bytes encode_data_record le_bytes ids_below
started_put_restarts =
    let ids : data_ids started_put ≡ 1 ∷ [] = refl in
    and_then (restarts calls (rw ids calls-OpensWith)) stay

-- The restarted database answers with the value of the Put.
get-Steps_example :
    (get
      (open_with_options started_put.opts started_put.data_files started_put.hint_files calls).0
      k).1
    ≡ answer_of (lookup k (insert k v []))
get-Steps_example =
    get-Steps db.opts empty_calls k refl refl empty_calls-OpensWith (refl, refl)
      (and_then start_puts started_put_restarts)
