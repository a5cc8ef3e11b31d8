-- ===== src/Raft/Replication/Round.antt =====
-- One round of replication between a leader and a follower.
use kvraft.Base.{
  ℕ, zero, suc, ◌+◌, ◌-◌, ◌≤◌, ◌<◌, ◌≡◌, refl, sym, ap, ap₂, ◌∙◌, true, some, List, [], ◌∷◌, ◌++◌,
  arith, length, get_elem?, take, drop, ltb, take-append-drop, length-take, length-drop,
  take-append_add, subst, ◌≡⟨◌⟩◌, ◌∎, get_elem?-lt, >>=-eq-some,
}
use kvraft.Base.Int.{pos, ◌≤ℤ◌}
use kvraft.Raft.Types.{LogEntry, AppendEntriesArgs, AppendEntriesReply, leader}
use kvraft.Raft.Commit.Largest.{try_advance_commit_index_locked-Largest, Largest-Advanced}
use kvraft.Raft.Node.{Node, update, IsValid}
use kvraft.Raft.Append.{handle_append_entries}
use kvraft.Raft.Append.Merge.{merge, terms, terms-merge}
use kvraft.Raft.Append.Safety.{handle_append_entries-AppendEffect, merged}
use kvraft.Raft.Replication.{prepare_append, prepare_from, handle_append_reply}

-- What a leader sends: the whole rest of its log behind a place inside it, and a commit index that
-- does not reach past the entries of the message.
pub record IsFull (n : Node) (args : AppendEntriesArgs) (p : ℕ) : Type 0 where
  pub prev : args.prev_log_index ≡ pos p
  pub inside : p < length n.log
  pub rest : args.entries ≡ drop (p + 1) n.log
  pub commit_within : args.leader_commit ≤ℤ pos (p + length args.entries)
  pub current : args.term ≡ n.current_term
  pub agreed : (e : LogEntry) → get_elem? n.log p ≡ some e → args.prev_log_term ≡ e.term

prepare_from-IsFull :
    (n : Node) (next : ℕ) {args : AppendEntriesArgs}
    → IsValid n
    → prepare_from n next ≡ some args
    → IsFull n args (next - 1)
unfolding prepare_from
prepare_from-IsFull n zero v h = cc
prepare_from-IsFull n (suc p) {args} v h =
    let (e, found, sent) = >>=-eq-some (get_elem? n.log p) _ h in
    let same : suc p - 1 ≡ p = omega arith in
    let inside = get_elem?-lt n.log p found in
    let next : p + 1 ≡ suc p = omega arith in
    let commit : args.leader_commit ≡ pos n.commit_index = ground arith in
    let rest : args.entries ≡ drop (suc p) n.log = ground arith in
    subst (IsFull n args) (sym same) (record {
      prev = ground arith;
      inside = inside;
      rest = rw next rest;
      commit_within = rw (commit, rest) (omega (arith, length-drop (suc p) n.log, v.committed));
      current = ground arith;
      agreed = λ d g. ground arith;
    })

-- Every message that a well-formed leader sends to a follower has the whole rest of its log
-- behind the place before the follower's next index, that place's term, the leader's term, and a
-- commit index that does not reach past its entries.
pub prepare_append-IsFull :
    (n : Node) (peer : ℕ) {args : AppendEntriesArgs}
    → IsValid n
    → prepare_append n peer ≡ some args
    → IsFull n args (n.next_index peer - 1)
unfolding prepare_append
prepare_append-IsFull n peer v h = prepare_from-IsFull n (n.next_index peer) v (ground arith)

terms-append : (xs ys : List LogEntry) → terms (xs ++ ys) ≡ terms xs ++ terms ys
terms-append [] ys = refl
terms-append (x ∷ xs) ys = ap (◌∷◌ x.term) (terms-append xs ys)

-- A follower that accepts a message with the whole rest of the leader's log behind a place, and
-- whose log has the leader's terms up to that place, has the leader's terms at every place of the
-- leader's log afterwards.
pub round_replicates :
    (l f : Node) (args : AppendEntriesArgs) (p : ℕ) {f' : Node} {reply : AppendEntriesReply}
    → IsFull l args p
    → terms (take (p + 1) f.log) ≡ terms (take (p + 1) l.log)
    → handle_append_entries f args ≡ some (f', reply)
    → reply.success ≡ true
    → terms (take (length l.log) f'.log) ≡ terms l.log
round_replicates l f args p {f'} full agree h ok =
    let effect = handle_append_entries-AppendEffect f args p full.prev h in
    let (_, inside, log, _) = effect.accepted ok in
    let count : length l.log ≡ p + 1 + length args.entries =
      omega (arith, ap length full.rest, length-drop (p + 1) l.log, full.inside) in
    terms (take (length l.log) f'.log)
    ≡⟨ ap (λ (x : List LogEntry). terms (take (length l.log) x)) log ⟩
      terms (take (length l.log) (merged f.log p args.entries))
    ≡⟨ ap terms (
        take-append_add (length l.log) (length args.entries) (take (p + 1) f.log) _
          (omega (arith, count, length-take (p + 1) f.log))) ⟩
      terms
        (take (p + 1) f.log ++ take (length args.entries) (merge (drop (p + 1) f.log) args.entries))
    ≡⟨ terms-append (take (p + 1) f.log) _ ⟩
      terms (take (p + 1) f.log)
      ++ terms (take (length args.entries) (merge (drop (p + 1) f.log) args.entries))
    ≡⟨ ap₂ ◌++◌ agree (terms-merge (drop (p + 1) f.log) args.entries ∙ ap terms full.rest) ⟩
      terms (take (p + 1) l.log) ++ terms (drop (p + 1) l.log)
    ≡⟨ sym (terms-append (take (p + 1) l.log) _) ⟩ terms (take (p + 1) l.log ++ drop (p + 1) l.log)
    ≡⟨ ap terms (take-append-drop (p + 1) l.log) ⟩ terms l.log ∎

-- On a well-formed leader of the message's term, a reply of no newer term that accepts more than
-- was known to be replicated sets the follower's match index to the end of the message's entries
-- and its next index behind it, asks for another round where the log goes on there, and moves the
-- commit index only forward; the leader stays well-formed.
pub handle_append_reply-success :
    (n : Node) (peer p : ℕ) (args : AppendEntriesArgs) (reply : AppendEntriesReply)
    → n.state ≡ leader
    → args.term ≡ n.current_term
    → reply.term ≤ℤ n.current_term
    → reply.success ≡ true
    → args.prev_log_index ≡ pos p
    → n.match_index peer < p + length args.entries
    → IsValid n
    → (n' : Node) × (handle_append_reply n peer args reply
        ≡ some (n', ltb (p + length args.entries + 1) (length n.log)))
      × (n'.match_index peer ≡ p + length args.entries)
      × (n'.next_index peer ≡ p + length args.entries + 1)
      × (n.commit_index ≤ n'.commit_index)
      × IsValid n'
unfolding handle_append_reply
handle_append_reply-success n peer p args reply l e le ok prev new v =
    let (n', runs, largest) = try_advance_commit_index_locked-Largest m m-IsValid in
    let advanced = Largest-Advanced m m-IsValid largest in
    let next : n'.next_index peer ≡ p + length args.entries + 1 =
      ap (λ (f : ℕ → ℕ). f peer) advanced.next_index ∙ ground arith in
    (
      n',
      ground (arith, runs, next, advanced.log),
      ap (λ (f : ℕ → ℕ). f peer) advanced.match_index ∙ ground arith,
      next,
      advanced.forward,
      advanced.valid,
    )
  where
    m : Node
    m = record n {
      match_index = update n.match_index peer (p + length args.entries);
      next_index = update n.next_index peer (p + length args.entries + 1);
    }

    m-IsValid : IsValid m
    m-IsValid = record { committed = v.committed; applied = v.applied; indexed = v.indexed }
