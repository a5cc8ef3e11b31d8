-- ===== src/Raft/Append/Panics.antt =====
-- Which messages make the loop of HandleAppendEntries index the log below 0.
use kvraft.Base.{
  ℕ, zero, suc, ◌+◌, ◌-◌, ◌≤◌, ◌≡◌, ◌≢◌, ◌↔◌, refl, true, none, List, [], ◌∷◌, arith, leb,
}
use kvraft.Base.Int.{ℤ, pos, negsuc, ◌≤ℤ◌, ◌<ℤ◌}
use kvraft.Raft.Types.{LogEntry, AppendEntriesArgs}
use kvraft.Raft.Node.{Node}
use kvraft.Raft.Append.{append_entry, append_loop, handle_append_entries}

le→leb : (a b : ℕ) → a ≤ b → leb a b ≡ true
le→leb a b h = ground arith

append_loop-negative :
    (k : ℕ) (log : List LogEntry) (e : LogEntry) (es : List LogEntry)
    → append_loop (negsuc (suc k)) 0 log (e ∷ es) ≡ none
unfolding append_loop
append_loop-negative k log e es = ground arith

append_loop-total :
    (i : ℕ) (prev : ℤ) (log es : List LogEntry)
    → negsuc 0 ≤ℤ prev
    → append_loop prev i log es ≢ none
unfolding append_loop
append_loop-total i (pos p) log [] h q = cc
append_loop-total i (negsuc k) log [] h q = cc
append_loop-total i (pos p) log (e ∷ es) h q =
    append_loop-total (i + 1) (pos p) (append_entry log (p + i + 1) e) es h q
append_loop-total i (negsuc k) log (e ∷ es) h q =
    append_loop-total (i + 1) (negsuc k) (append_entry log (i - k) e) es h
      (rw (le→leb k i (omega arith)) at q)

loop_panics :
    (prev : ℤ) (log es : List LogEntry)
    → (append_loop prev 0 log es ≡ none) ↔ ((prev <ℤ negsuc 0) × (es ≢ []))
loop_panics (pos p) log es =
    (λ q. absurd (append_loop-total 0 (pos p) log es (omega arith) q), λ h. absurd (omega arith))
loop_panics (negsuc zero) log es = (
  λ q. absurd (append_loop-total 0 (negsuc zero) log es (omega arith) q),
  λ h. absurd (omega arith),
)
loop_panics (negsuc (suc k)) log [] =
    (λ q. unfold append_loop in absurd (cc), λ h. absurd (h.1 refl))
loop_panics (negsuc (suc k)) log (e ∷ es) =
    (λ q. (omega arith, λ c. cc), λ h. append_loop-negative k log e es)

module _ (n : Node) (args : AppendEntriesArgs) where
  panics_only :
      handle_append_entries n args ≡ none
      → (n.current_term ≤ℤ args.term)
        × (append_loop args.prev_log_index 0 n.log args.entries ≡ none)
  unfolding handle_append_entries
  panics_only = ground arith

  panics_there :
      (prev : ℤ)
      → args.prev_log_index ≡ prev
      → n.current_term ≤ℤ args.term
      → prev <ℤ negsuc 0
      → append_loop args.prev_log_index 0 n.log args.entries ≡ none
      → handle_append_entries n args ≡ none
  unfolding handle_append_entries
  panics_there (pos p) e current negative = absurd (omega arith)
  panics_there (negsuc k) e current negative = ground arith

-- The handler panics on one kind of message only: of a current or later term, with entries, and
-- with a previous index below -1. All others are answered.
pub handle_append_entries-panic :
    (n : Node) (args : AppendEntriesArgs)
    → (handle_append_entries n args ≡ none)
      ↔ ((n.current_term ≤ℤ args.term) × (args.prev_log_index <ℤ negsuc 0) × (args.entries ≢ []))
handle_append_entries-panic n args = (
  λ q.
      let (current, stuck) = panics_only n args q in
      let (negative, some_entry) = (loop_panics args.prev_log_index n.log args.entries).0 stuck in
      (current, negative, some_entry),
  λ (current, negative, some_entry).
      panics_there n args args.prev_log_index refl current negative
        ((loop_panics args.prev_log_index n.log args.entries).1 (negative, some_entry)),
)
