-- ===== src/Tests/Database.antt =====
-- kvstore/: the theorems at an open database with one empty file.
use kvraft.Kvstore.Words.{le_bytes}
use kvraft.Base.{
  ◌≡◌, ◌∷◌, none, true, [], eq_bytes, refl, false, some, ◌++◌, Bytes, codes, arith, take,
  if◌then◌else◌, ◌==◌,
}
use kvraft.Base.Int.{pos}
use kvraft.Base.Assoc.{bytes_eq}
use kvraft.Kvstore.Types.{io_error, ok, err, KeyDirEntry}
use kvraft.Kvstore.Codec.{encode_data_record}
use kvraft.Kvstore.Codec.RoundTrip.{Fits}
use kvraft.Kvstore.Store.Files.{Db, AppendIo, ensure_open, must_read_write, append_record_locked}
use kvraft.Kvstore.Store.Files.Append.{IsWritable}
use kvraft.Kvstore.Store.Files.ShortWrite.{short_write_misplaces}
use kvraft.Kvstore.Store.Write.{writable, put, delete_key}

abbrev pub k : Bytes
k = codes "k"

abbrev pub v : Bytes
v = codes "v"

abbrev pub db : Db
db = record {
  opts = record { read_write = true; sync_on_put = true; max_data_file_size_bytes = pos 100 };
  keydir = [];
  active_file = true;
  active_file_id = 1;
  active_offset = 0;
  next_file_id = 2;
  readers = [];
  lock_file = true;
  is_closed = false;
  data_files = λ i. if i == 1 then some [] else none;
  hint_files = λ _. none;
}

pub db-IsWritable : IsWritable db
db-IsWritable = record {
  opened = refl;
  read_write = refl;
  active = refl;
  contents = [];
  active_is = refl;
  offset = refl;
  below = omega arith;
  no_wrap = omega arith;
  fresh = λ i h. ground (arith, h);
}

-- Every call succeeds.
abbrev pub fine : AppendIo
fine = record {
  rotate = record { sync = true; close = true; hint = true; open_file = true; stat = true };
  write = none;
  sync = true;
}

pub record-Fits : Fits (pos 7) k v
record-Fits = record {
  timestamp_fits = omega arith;
  key_fits = omega arith;
  value_fits = omega arith;
}

abbrev pub after_put : Db
after_put = (put db k v (pos 7) fine).0

pub put_runs : put db k v (pos 7) fine ≡ (after_put, ok tt)
unfolding put writable ensure_open must_read_write append_record_locked eq_bytes encode_data_record
    le_bytes
put_runs = refl

abbrev after_delete : Db
after_delete = (delete_key db k (pos 8) fine).0

delete_runs : delete_key db k (pos 8) fine ≡ (after_delete, ok tt)
unfolding delete_key writable ensure_open must_read_write append_record_locked encode_data_record
    le_bytes
delete_runs = refl

abbrev after_append : Db
after_append = (append_record_locked db (encode_data_record (pos 7) k v) (pos 7) fine).0

abbrev first : KeyDirEntry
first = record { file_id = 1; file_offset = pos 0; record_size = 22; time_stamp = pos 7 }

append_runs :
    append_record_locked db (encode_data_record (pos 7) k v) (pos 7) fine ≡ (after_append, ok first)
unfolding append_record_locked encode_data_record le_bytes
append_runs = refl

-- The write stops after one byte of three.
abbrev short : AppendIo
short = record fine { write = some 1 }

abbrev three_bytes : Bytes
three_bytes = codes "abc"

abbrev two_bytes : Bytes
two_bytes = codes "de"

abbrev after_short : Db
after_short =
    (append_record_locked (append_record_locked db three_bytes (pos 7) short).0 two_bytes (pos 8)
      fine).0

abbrev misplaced : KeyDirEntry
misplaced = record { file_id = 1; file_offset = pos 0; record_size = 2; time_stamp = pos 8 }

short_write_misplaces_example :
    ((append_record_locked db three_bytes (pos 7) short).1 ≡ err io_error)
    × (after_short.data_files 1 ≡ some ([] ++ (take 1 three_bytes ++ two_bytes)))
    × (pos 0 ≡ pos 0)
unfolding append_record_locked db-IsWritable
short_write_misplaces_example =
    short_write_misplaces db three_bytes two_bytes (pos 7) (pos 8) short fine 1 {db' = after_short}
      {entry = misplaced} db-IsWritable refl refl refl refl

-- Two keys, out of order in the map.
abbrev indexed_twice : Db
indexed_twice = record db { keydir = (v, first) ∷ (k, first) ∷ [] }
