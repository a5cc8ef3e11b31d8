-- ===== src/Raft/Append/Safety.antt =====
-- What a node promises when it answers AppendEntries.
use kvraft.Base.{
  dec_lt, get_elem?-append_left, get_elem?-append_right, get_elem?-take, get_elem?-drop, ℕ, suc,
  ◌+◌, ◌-◌, ◌≤◌, ◌<◌, ◌≡◌, sym, ap, ◌∙◌, inl, inr, true, false, some, List, [], ◌∷◌, ◌++◌, arith,
  length, get_elem?, take, drop, min, if◌then◌else◌, length-append, length-take, length-drop,
  get_elem?-lt, Bool-cases, Option-cases,
}
use kvraft.Base.Int.{ℤ, pos, ltb_ℤ, eq_ℤ, pos_part, ◌≤ℤ◌}
use kvraft.Raft.Types.{LogEntry, AppendEntriesArgs, AppendEntriesReply}
use kvraft.Raft.Node.{Node, become_follower_locked, IsValid, Indexed}
use kvraft.Raft.Indexed.{Indexed-append, Indexed-take, Indexed-drop}
use kvraft.Raft.Append.{prev_matches, handle_append_entries}
use kvraft.Raft.Append.Merge.{merge, append_loop_lem, Agrees, length-merge-le, take-merge}

pub Indexed-merge :
    (i : ℕ) (log es : List LogEntry) → Indexed i log → Indexed i es → Indexed i (merge log es)
unfolding merge
Indexed-merge i [] es hl he = he
Indexed-merge i (l ∷ log) [] hl he = hl
Indexed-merge i (l ∷ log) (e ∷ es) hl he = elim (Bool-cases (eq_ℤ l.term e.term)) [
  | inl same ↦ rw same (hl.0, Indexed-merge (suc i) log es hl.1 he.1)
  | inr other ↦ rw other he
]

-- The log after a message whose previous entry, at `p`, is in the log.
abbrev pub merged : List LogEntry → ℕ → List LogEntry → List LogEntry
merged log p entries = take (p + 1) log ++ merge (drop (p + 1) log) entries

prev_matches-lt :
    (log : List LogEntry) (p : ℕ) (t : ℤ) → prev_matches log (pos p) t ≡ true → p < length log
prev_matches-lt log p t h = elim (Option-cases (get_elem? log p)) [
  | inl missing ↦ ground arith
  | inr (e, found) ↦ get_elem?-lt log p found
]

-- Exactly the messages of a current or later term whose previous entry the log has are accepted,
-- and then the log is the merged one and the commit index follows the leader's, within the log.
pub record AppendEffect (n : Node) (args : AppendEntriesArgs) (p : ℕ) (n' : Node)
    (reply : AppendEntriesReply) : Type 0 where
  pub accepted :
      reply.success ≡ true
      → (args.term ≡ n'.current_term)
        × (p < length n.log)
        × (n'.log ≡ merged n.log p args.entries)
        × (n'.commit_index ≡ (
            if ltb_ℤ (pos n.commit_index) args.leader_commit
            then min (pos_part args.leader_commit) (length n'.log - 1)
            else n.commit_index))
  pub refused : reply.success ≡ false → (n'.log ≡ n.log) × (n'.commit_index ≡ n.commit_index)
  pub complete :
      n.current_term ≤ℤ args.term
      → prev_matches n.log (pos p) args.prev_log_term ≡ true
      → reply.success ≡ true
  pub term_grows : n.current_term ≤ℤ n'.current_term
  pub applied_kept : n'.last_applied ≡ n.last_applied

-- Every message with a previous index from 0 on that is answered has the effect of an accepted or of a
-- refused one: it is accepted, if its term is not old, just when the log has its previous entry; the
-- log becomes the merged one, or stays.
pub handle_append_entries-AppendEffect :
    (n : Node) (args : AppendEntriesArgs) (p : ℕ) {n' : Node} {reply : AppendEntriesReply}
    → args.prev_log_index ≡ pos p
    → handle_append_entries n args ≡ some (n', reply)
    → AppendEffect n args p n' reply
unfolding handle_append_entries become_follower_locked
handle_append_entries-AppendEffect n args p e h =
    ground (arith, append_loop_lem p n.log args.entries, prev_matches-lt n.log p args.prev_log_term)

module _ (log es : List LogEntry) (p c : ℕ) (inside : p < length log) (within : c < length log)
    (agrees : Agrees (c - p) (drop (p + 1) log) es) where
  lt-length-merged : c < length (merged log p es)
  lt-length-merged = omega (
    arith,
    length-append (take (p + 1) log) (merge (drop (p + 1) log) es),
    length-take (p + 1) log,
    length-drop (p + 1) log,
    length-merge-le (c - p) (drop (p + 1) log) es (omega (arith, length-drop (p + 1) log)) agrees,
  )

  -- The entries up to place `c` stay as they are.
  get_elem?-merged : (i : ℕ) → i ≤ c → get_elem? (merged log p es) i ≡ get_elem? log i
  get_elem?-merged i h = elim (dec_lt p i) [
    | no before ↦
        get_elem?-append_left (take (p + 1) log) _ i (omega (arith, length-take (p + 1) log))
        ∙ get_elem?-take (p + 1) i log (omega arith)
    | yes behind ↦
        get_elem?-append_right (take (p + 1) log) _ i (i - p - 1)
          (omega (arith, length-take (p + 1) log))
        ∙ sym (get_elem?-take (c - p) (i - p - 1) _ (omega arith))
        ∙ ap (λ (l : List LogEntry). get_elem? l (i - p - 1))
            (take-merge (c - p) (drop (p + 1) log) es (omega (arith, length-drop (p + 1) log))
              agrees)
        ∙ get_elem?-take (c - p) (i - p - 1) _ (omega arith)
        ∙ get_elem?-drop (p + 1) (i - p - 1) log
        ∙ (let e : p + 1 + (i - p - 1) ≡ i = omega arith in ap (get_elem? log) e)
  ]

Indexed-merged :
    (log es : List LogEntry) (p : ℕ)
    → p < length log
    → Indexed 0 log
    → Indexed (p + 1) es
    → Indexed 0 (merged log p es)
Indexed-merged log es p h hl he =
    Indexed-append 0 (p + 1) (take (p + 1) log) _ (omega (arith, length-take (p + 1) log))
      (Indexed-take (p + 1) 0 log hl)
      (Indexed-merge (p + 1) (drop (p + 1) log) es
        (Indexed-drop (p + 1) 0 (p + 1) log (omega arith) hl) he)

-- `commitIndex = min(args.LeaderCommit, len(n.log)-1)` stays inside the log and does not go back.
min_commit_bounds :
    (commit len : ℕ) (leader_commit : ℤ)
    → commit < len
    → let new =
        if ltb_ℤ (pos commit) leader_commit
        then min (pos_part leader_commit) (len - 1)
        else commit in
      (commit ≤ new) × (new < len)
min_commit_bounds commit len leader_commit h = ground arith

module _ {n : Node} (args : AppendEntriesArgs) {p : ℕ} {n' : Node} {reply : AppendEntriesReply}
    (v : IsValid n) (at_places : Indexed (p + 1) args.entries)
    (agrees : Agrees (n.commit_index - p) (drop (p + 1) n.log) args.entries)
    (effect : AppendEffect n args p n' reply) where
  accepted-IsValid : reply.success ≡ true → IsValid n' × (n.commit_index ≤ n'.commit_index)
  accepted-IsValid ok =
      let (_, inside, log, commit) = effect.accepted ok in
      let within = lt-length-merged n.log args.entries p n.commit_index inside v.committed agrees in
      let bounds =
        min_commit_bounds n.commit_index (length n'.log) args.leader_commit (rw log within) in
      (
        record {
          committed = rw commit bounds.1;
          applied = rw commit (omega (arith, v.applied, effect.applied_kept, bounds.0));
          indexed = rw log (Indexed-merged n.log args.entries p inside v.indexed at_places);
        },
        rw commit bounds.0,
      )

  refused-IsValid : reply.success ≡ false → IsValid n' × (n.commit_index ≤ n'.commit_index)
  refused-IsValid refused =
      let (log, commit) = effect.refused refused in
      (
        record {
          committed = rw (log, commit) v.committed;
          applied = omega (arith, v.applied, effect.applied_kept, commit);
          indexed = rw log v.indexed;
        },
        omega (arith, commit),
      )

-- A message with a previous index from 0 on keeps a well-formed node well-formed and moves its
-- commit index only forward, if its entries stand at the places that they carry and agree with
-- what the node has committed.
pub handle_append_entries-IsValid :
    (n : Node) (args : AppendEntriesArgs) (p : ℕ) {n' : Node} {reply : AppendEntriesReply}
    → IsValid n
    → args.prev_log_index ≡ pos p
    → Indexed (p + 1) args.entries
    → Agrees (n.commit_index - p) (drop (p + 1) n.log) args.entries
    → handle_append_entries n args ≡ some (n', reply)
    → IsValid n' × (n.commit_index ≤ n'.commit_index)
handle_append_entries-IsValid n args p {n'} {reply} v e at_places agrees h =
    let effect = handle_append_entries-AppendEffect n args p e h in
    elim (Bool-cases reply.success) [
      | inl accepted ↦ accepted-IsValid args v at_places agrees effect accepted
      | inr refused ↦ refused-IsValid args v at_places agrees effect refused
    ]

-- On a well-formed node, a message with a previous index from 0 on whose entries agree with what
-- the node has committed changes no entry up to the commit index.
pub handle_append_entries-committed :
    (n : Node) (args : AppendEntriesArgs) (p i : ℕ) {n' : Node} {reply : AppendEntriesReply}
    → IsValid n
    → args.prev_log_index ≡ pos p
    → Agrees (n.commit_index - p) (drop (p + 1) n.log) args.entries
    → handle_append_entries n args ≡ some (n', reply)
    → i ≤ n.commit_index
    → get_elem? n'.log i ≡ get_elem? n.log i
handle_append_entries-committed n args p i {n'} {reply} v e agrees h at_most =
    let effect = handle_append_entries-AppendEffect n args p e h in
    elim (Bool-cases reply.success) [
      | inl accepted ↦
          let (_, inside, log, _) = effect.accepted accepted in
          rw log (
            get_elem?-merged n.log args.entries p n.commit_index inside v.committed agrees i
              at_most)
      | inr refused ↦ rw ((effect.refused refused).0)
    ]
