-- ===== src/Kvstore/Hint/Ends.antt =====
-- kvstore/write.go: the loop of writeHintForDataFile ends for any data file.
use kvraft.Base.{ℕ, zero, suc, ◌+◌, ◌<◌, ◌≢◌, inl, inr, none, [], ◌++◌, Bytes, arith, length}
use kvraft.Kvstore.Types.{Result-cases}
use kvraft.Kvstore.Codec.{decode_data_record, encode_hint_record}
use kvraft.Kvstore.Codec.Progress.{decode_data_record-Progress}
use kvraft.Kvstore.Hint.{hint_of, hint_loop, hint_file_of}

hint_loop-ends_any :
    (fuel offset : ℕ) (acc r : Bytes) → length r < fuel → hint_loop fuel offset acc r ≢ none
unfolding hint_loop
hint_loop-ends_any zero offset acc r h = absurd (omega arith)
hint_loop-ends_any (suc fuel) offset acc r h = elim (Result-cases (decode_data_record r)) [
  | inl ((rec, size, rest), good) ↦
      let p = decode_data_record-Progress r good in
      rw (good, hint_loop)
        (hint_loop-ends_any fuel (offset + size)
          (acc ++ encode_hint_record (hint_of offset rec size)) rest (omega (arith, p.0, p.1)))
  | inr (e, stops) ↦ rw (stops, hint_loop) (ground arith)
]

-- Whatever the bytes of the data file are, writing its hint file comes to an end within the fuel that
-- it is given, with the bytes or with an error.
pub hint_file_of-ends : (contents : Bytes) → hint_file_of contents ≢ none
unfolding hint_file_of
hint_file_of-ends contents = hint_loop-ends_any (length contents + 1) 0 [] contents (omega arith)
