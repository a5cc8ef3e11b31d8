-- ===== src/Raft/Commit.antt =====
-- raft/node.go: tryAdvanceCommitIndexLocked and one round of applyCommittedEntries.
pub mod Majority
pub mod Largest
pub mod Frame
use kvraft.Base.{
  ℕ, zero, suc, ◌+◌, ◌-◌, ◌/◌, Bool, true, false, not, ◌&&◌, Option, none, some, length, get_elem?,
  ltb, leb, ◌==◌, if◌then◌else◌, ◌>>=◌,
}
use kvraft.Base.Int.{ℤ, eq_ℤ}
use kvraft.Raft.Types.{LogEntry, ApplyMsg}
use kvraft.Raft.Node.{Node, notify_commit_advance}

-- How many of the first `k` peers, the node not counted, have the log up to place `i`.
count_matches : Node → ℕ → ℕ → ℕ
count_matches n i zero = 0
count_matches n i (suc k) =
    count_matches n i k + (if not (k == n.id) && leb i (n.match_index k) then 1 else 0)

-- `count > len(n.peers)/2`, the node counted.
unfoldable pub majority_matches : Node → ℕ → Bool
unfolding count_matches
majority_matches n i = ltb (length n.peers / 2) (1 + count_matches n i (length n.peers))

-- An entry that the loop commits: of the current term, and on a majority.
abbrev pub committable : Node → ℕ → LogEntry → Bool
committable n i e = eq_ℤ e.term n.current_term && majority_matches n i

-- The loop from place `i` down to the commit index; `none` is a panic of `n.log[N]`.
commit_loop : Node → ℕ → Option Node
commit_loop n zero = some n
commit_loop n (suc i) = elim (ltb n.commit_index (suc i)) [
  | false ↦ some n
  | true ↦ elim (get_elem? n.log (suc i)) [
    | none ↦ none
    | some e ↦ elim (committable n (suc i) e) [
      | true ↦ some (notify_commit_advance (record n { commit_index = suc i }))
      | false ↦ commit_loop n i
    ]
  ]
]

unfoldable pub try_advance_commit_index_locked : Node → Option Node
unfolding commit_loop
try_advance_commit_index_locked n = commit_loop n (length n.log - 1)

-- One round of the applier: the message for `applyCh`, if there is one, and the node.
unfoldable pub apply_next : Node → Option (Option ApplyMsg × Node)
apply_next n =
    if ltb n.last_applied n.commit_index
    then (do
      entry ← get_elem? n.log (n.last_applied + 1)
      some (
        some (record { index = entry.index; term = entry.term; command = entry.command }),
        record n { last_applied = n.last_applied + 1 },
      ))
    else some (none, n)

-- `case <-n.commitNotifyCh` in the applier, that has sent all that is committed: `none` where the
-- channel is empty.
unfoldable pub applier_wakes : Node → Option Node
applier_wakes n = elim n.commit_notify_ch [
  | zero ↦ none
  | suc k ↦ some (record n { commit_notify_ch = k })
]
