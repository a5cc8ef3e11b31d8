-- ===== src/Kvstore/Codec/Hints.antt =====
-- An encoded hint record is read back, whatever follows it.
use native.Mathlib.Nat.{mod-eq_of_lt}
use kvraft.Base.{
  length-append, ℕ, ◌+◌, ◌%◌, ◌^◌, ◌<◌, ◌≡◌, ap, ◌∙◌, Bool, true, false, ◌++◌, Bytes, arith, length,
  ◌==◌, if◌then◌else◌, append_assoc,
}
use kvraft.Kvstore.Types.{Result, ok, HintRecord}
use kvraft.Kvstore.Words.{
  le_bytes, le_value, int64, uint64, length-le_bytes, le_value-le_bytes, int64-uint64, uint64-lt,
  IsInt64,
}
use kvraft.Kvstore.Codec.{encode_hint_record, decode_hint_record}
use kvraft.Kvstore.Codec.RoundTrip.{read_full-append}

-- A hint record that fits the format.
pub record HintFits (hr : HintRecord) : Type 0 where
  pub timestamp_fits : IsInt64 hr.timestamp
  pub record_off_fits : IsInt64 hr.record_off
  pub record_size_fits : hr.record_size < 2 ^ 32
  pub key_fits : length hr.key < 2 ^ 32

abbrev built : Bytes → Bytes → Bytes → Bytes → Bytes → Bytes → HintRecord
built ts off size tombstone key_size key = record {
  timestamp = int64 (le_value ts);
  key = key;
  record_off = int64 (le_value off);
  record_size = le_value size;
  tombstone = le_value tombstone == 1;
}

hint_parts :
    (ts off size tombstone key_size key rest : Bytes)
    → length ts ≡ 8
    → length off ≡ 8
    → length size ≡ 4
    → length tombstone ≡ 1
    → length key_size ≡ 4
    → le_value key_size ≡ length key
    → decode_hint_record (ts ++ (off ++ (size ++ (tombstone ++ (key_size ++ (key ++ rest))))))
      ≡ ok (built ts off size tombstone key_size key, 25 + length key, rest)
unfolding decode_hint_record
hint_parts ts off size tombstone key_size key rest a b c d e f =
    rw
      (read_full-append 8 ts (off ++ (size ++ (tombstone ++ (key_size ++ (key ++ rest)))))
        (omega arith))
      (rw
        (read_full-append 8 off (size ++ (tombstone ++ (key_size ++ (key ++ rest)))) (omega arith))
        (rw (read_full-append 4 size (tombstone ++ (key_size ++ (key ++ rest))) (omega arith)) (
          rw (read_full-append 1 tombstone (key_size ++ (key ++ rest)) (omega arith)) (
            rw (read_full-append 4 key_size (key ++ rest) (omega arith))
              (rw (read_full-append (le_value key_size) key rest f) (rw f))))))

abbrev reading : HintRecord → Bytes → Result (HintRecord × ℕ × Bytes)
reading hr rest = ok (hr, 25 + length hr.key, rest)

-- Reading what was encoded of a hint that fits the format gives the hint, the size of its
-- encoding, and the bytes behind it.
pub decode_hint-encode_hint :
    (hr : HintRecord) (rest : Bytes)
    → HintFits hr
    → decode_hint_record (encode_hint_record hr ++ rest) ≡ ok (hr, 25 + length hr.key, rest)
unfolding encode_hint_record
decode_hint-encode_hint hr rest fits = rw (regroup ts off size tombstone key_size hr.key rest) (
    hint_parts ts off size tombstone key_size hr.key rest (length-le_bytes 8 (uint64 hr.timestamp))
      (length-le_bytes 8 (uint64 hr.record_off)) (length-le_bytes 4 hr.record_size)
      (length-le_bytes 1 _) (length-le_bytes 4 (length hr.key % 2 ^ 32)) size_read
    ∙ ap (λ (x : HintRecord). reading x rest) same)
  where
    ts : Bytes
    ts = le_bytes 8 (uint64 hr.timestamp)

    off : Bytes
    off = le_bytes 8 (uint64 hr.record_off)

    size : Bytes
    size = le_bytes 4 hr.record_size

    tombstone : Bytes
    tombstone = le_bytes 1 (if hr.tombstone then 1 else 0)

    key_size : Bytes
    key_size = le_bytes 4 (length hr.key % 2 ^ 32)

    size_read : le_value key_size ≡ length hr.key
    size_read =
        le_value-le_bytes 4 (length hr.key % 2 ^ 32) (omega arith) ∙ mod-eq_of_lt fits.key_fits

    flag : (b : Bool) → (le_value (le_bytes 1 (if b then 1 else 0)) == 1) ≡ b
    flag true = rw (le_value-le_bytes 1 1 (omega arith))
    flag false = rw (le_value-le_bytes 1 0 (omega arith))

    same : built ts off size tombstone key_size hr.key ≡ hr
    same = λ i. record {
      timestamp =
          (ap int64 (le_value-le_bytes 8 (uint64 hr.timestamp) (uint64-lt hr.timestamp))
              ∙ int64-uint64 hr.timestamp fits.timestamp_fits)
            i;
      key = hr.key;
      record_off =
          (ap int64 (le_value-le_bytes 8 (uint64 hr.record_off) (uint64-lt hr.record_off))
              ∙ int64-uint64 hr.record_off fits.record_off_fits)
            i;
      record_size = le_value-le_bytes 4 hr.record_size fits.record_size_fits i;
      tombstone = flag hr.tombstone i;
    }

    regroup :
        (a b c d e f g : Bytes)
        → (a ++ (b ++ (c ++ (d ++ (e ++ f))))) ++ g ≡ a ++ (b ++ (c ++ (d ++ (e ++ (f ++ g)))))
    regroup a b c d e f g = simp append_assoc

pub length-encode_hint-pos : (hr : HintRecord) → 0 < length (encode_hint_record hr)
unfolding encode_hint_record
length-encode_hint-pos hr = omega (
  arith,
  length-append (le_bytes 8 (uint64 hr.timestamp)) _,
  length-le_bytes 8 (uint64 hr.timestamp),
)
