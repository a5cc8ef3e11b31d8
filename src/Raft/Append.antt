-- ===== src/Raft/Append.antt =====
-- raft/node.go: HandleAppendEntries.
pub mod Merge
pub mod Safety
pub mod Panics
use kvraft.Base.{
  ℕ, zero, suc, ◌+◌, ◌-◌, ◌≡◌, Bool, true, false, ◌&&◌, ◌||◌, not, Option, none, some, List, [],
  ◌∷◌, ◌++◌, length, get_elem?, take, leb, ltb, min, if◌then◌else◌, ◌>>=◌,
}
use kvraft.Base.Int.{ℤ, pos, negsuc, ltb_ℤ, leb_ℤ, eq_ℤ, pos_part}
use kvraft.Raft.Types.{LogEntry, AppendEntriesArgs, AppendEntriesReply}
use kvraft.Raft.Node.{Node, offer, become_follower_locked, notify_commit_advance}

-- One round of the loop, at index `idx` of the log: keep an entry of the same term, cut the log at
-- one of another term, append past the end.
unfoldable pub append_entry : List LogEntry → ℕ → LogEntry → List LogEntry
append_entry log idx entry = elim (get_elem? log idx) [
  | some old ↦ if eq_ℤ old.term entry.term then log else take idx log ++ entry ∷ []
  | none ↦ log ++ entry ∷ []
]

-- `args.PrevLogIndex + i + 1`; `none` is the panic of `n.log[idx]` at a negative index.
abbrev entry_index : ℤ → ℕ → Option ℕ
entry_index (pos p) i = some (p + i + 1)
entry_index (negsuc k) i = if leb k i then some (i - k) else none

unfoldable pub append_loop : ℤ → ℕ → List LogEntry → List LogEntry → Option (List LogEntry)
append_loop prev i log [] = some log
append_loop prev i log (entry ∷ entries) = do
  idx ← entry_index prev i
  append_loop prev (i + 1) (append_entry log idx entry) entries

-- The consistency check passes: there is no previous entry, or the log has it.
abbrev pub prev_matches : List LogEntry → ℤ → ℤ → Bool
prev_matches log (negsuc _) prev_term = true
prev_matches log (pos p) prev_term = elim (get_elem? log p) [
  | none ↦ false
  | some e ↦ eq_ℤ e.term prev_term
]

-- `if args.LeaderCommit > n.commitIndex { … }`
advance_commit : Node → ℤ → Node
unfolding notify_commit_advance
advance_commit n leader_commit =
    if ltb_ℤ (pos n.commit_index) leader_commit
    then notify_commit_advance
        (record n { commit_index = min (pos_part leader_commit) (length n.log - 1) })
    else n

-- The state once the sender is accepted as the leader of the term.
accept_leader : Node → AppendEntriesArgs → Node
unfolding become_follower_locked
accept_leader n args = record (become_follower_locked n args.term) {
  leader_id = args.leader_id;
  heartbeat_ch = offer 100 n.heartbeat_ch;
}

unfoldable pub handle_append_entries : Node → AppendEntriesArgs → Option (Node × AppendEntriesReply)
unfolding accept_leader advance_commit
handle_append_entries n args =
    if ltb_ℤ args.term n.current_term
    then some (n, record { term = n.current_term; success = false })
    else if not (prev_matches n.log args.prev_log_index args.prev_log_term)
    then some (accept_leader n args, record { term = n.current_term; success = false })
    else (do
      log ← append_loop args.prev_log_index 0 n.log args.entries
      some (
        advance_commit (record (accept_leader n args) { log = log }) args.leader_commit,
        record { term = n.current_term; success = true },
      ))
