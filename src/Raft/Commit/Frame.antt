-- ===== src/Raft/Commit/Frame.antt =====
-- What tryAdvanceCommitIndexLocked leaves as it is.
use kvraft.Base.{
  ℕ, zero, suc, ◌≡◌, some, ltb, get_elem?, Bool-cases, Option-cases, inl, inr, length, ◌-◌, arith,
}
use kvraft.Raft.Node.{Node, notify_commit_advance}
use kvraft.Raft.Commit.{committable, commit_loop, try_advance_commit_index_locked}

-- Only the commit index and its channel move.
pub record Committed (n m : Node) : Type 0 where
  pub index : ℕ
  pub channel : ℕ
  pub same : m ≡ record n { commit_index = index; commit_notify_ch = channel }

commit_loop-Committed : (n : Node) (hi : ℕ) {m : Node} → commit_loop n hi ≡ some m → Committed n m
unfolding commit_loop notify_commit_advance
commit_loop-Committed n zero h = record {
  index = n.commit_index;
  channel = n.commit_notify_ch;
  same = ground arith;
}
commit_loop-Committed n (suc i) {m} h = elim (Bool-cases (ltb n.commit_index (suc i))) [
  | inr past ↦ record {
    index = n.commit_index;
    channel = n.commit_notify_ch;
    same = ground (arith, past);
  }
  | inl above ↦ elim (Option-cases (get_elem? n.log (suc i))) [
    | inl missing ↦ ground (arith, above, missing)
    | inr (e, found) ↦ elim (Bool-cases (committable n (suc i) e)) [
      | inl good ↦ record {
        index = suc i;
        channel = (notify_commit_advance n).commit_notify_ch;
        same = ground (arith, above, found, good);
      }
      | inr never ↦ commit_loop-Committed n i (ground (arith, above, found, never))
    ]
  ]
]

pub try_advance_commit_index_locked-Committed :
    (n : Node) {m : Node} → try_advance_commit_index_locked n ≡ some m → Committed n m
unfolding try_advance_commit_index_locked
try_advance_commit_index_locked-Committed n h = commit_loop-Committed n (length n.log - 1) h
