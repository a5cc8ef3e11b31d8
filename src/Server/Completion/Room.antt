-- ===== src/Server/Completion/Room.antt =====
-- server/server.go: the place that applyCommittedEntries keeps free in the queue of completions.
use kvraft.Base.{
  subst, sym, ◌≤◌, ◌<◌, ◌≡◌, ◌≢◌, refl, inl, inr, true, false, some, List, [], ◌∷◌, arith, length,
  leb, if◌then◌else◌, Bool-cases,
}
use mathlib.Core.Logic.Or
use mathlib.Core.List.{
  Mem, Mem-prop, mem-cons, mem-cast, mem-cons_self, mem-append_left, mem-append_right,
}
use kvraft.Base.Assoc.{lookup, lookup-insert, lookup-delete}
use kvraft.Server.Types.{Answer, PendingKey, eq_key, key_eq, eq_key_iff, Waiters}
use kvraft.Server.Completion.{make_room, evict, complete, max_completed_notifications}

-- What an evicted completion leaves alone, and the room it makes.
pub record Kept (s t : Waiters) : Type 0 where
  pub same_pending : t.pending ≡ s.pending
  pub same_channels : t.channels ≡ s.channels
  pub same_next : t.next_channel ≡ s.next_channel
  pub same_closed : t.is_closed ≡ s.is_closed

evict-Kept : (s : Waiters) (q : List PendingKey) → Kept s (evict s q)
unfolding evict
evict-Kept s [] = record {
  same_pending = refl;
  same_channels = refl;
  same_next = refl;
  same_closed = refl;
}
evict-Kept s (_ ∷ _) = record {
  same_pending = refl;
  same_channels = refl;
  same_next = refl;
  same_closed = refl;
}

pub make_room-Kept : (s : Waiters) → Kept s (make_room s)
unfolding make_room
make_room-Kept s =
    elim (leb max_completed_notifications (length s.completion_q))
      as (λ b. Kept s (if b then evict s s.completion_q else s)) [
        | true ↦ evict-Kept s s.completion_q
        | false ↦ record {
          same_pending = refl;
          same_channels = refl;
          same_next = refl;
          same_closed = refl;
        }
      ]

evict-length :
    (s : Waiters) (q : List PendingKey)
    → length q ≡ max_completed_notifications
    → length (evict s q).completion_q < max_completed_notifications
unfolding evict
evict-length s [] h = ground (arith, h)
evict-length s (_ ∷ q) h = ground (arith, h)

pub make_room-length :
    (s : Waiters)
    → length s.completion_q ≤ max_completed_notifications
    → length (make_room s).completion_q < max_completed_notifications
unfolding make_room
make_room-length s h = ground (arith, evict-length s s.completion_q)

-- Each completion has its key in the queue, so that it is evicted at some time.
abbrev pub IsQueued : Waiters → List PendingKey → Type 0
IsQueued s q =
    (key : PendingKey) (answer : Answer) → lookup key s.completed ≡ some answer → Mem key q

mem_other : {k o : PendingKey} {q : List PendingKey} → k ≢ o → Mem k (o ∷ q) → Mem k q
mem_other {k} {o} {q} other m =
    Or.elim (Mem-prop {a = k} {l = q}) (mem-cons.0 m) (λ same. absurd (other same)) (λ rest. rest)

evict-IsQueued :
    (s : Waiters) (q : List PendingKey)
    → q ≡ s.completion_q
    → IsQueued s q
    → IsQueued (evict s q) (evict s q).completion_q
unfolding evict
evict-IsQueued s [] same h = subst (IsQueued s) same h
evict-IsQueued s (oldest ∷ q) same h = λ key answer found.
    mem_other {o = oldest}
      (ground (arith, found, lookup-delete oldest key s.completed, eq_key_iff oldest key))
      (h key answer (ground (arith, found, lookup-delete oldest key s.completed)))

make_room-IsQueued :
    (s : Waiters) → IsQueued s s.completion_q → IsQueued (make_room s) (make_room s).completion_q
unfolding make_room
make_room-IsQueued s h =
    elim (leb max_completed_notifications (length s.completion_q))
      as (λ b.
        IsQueued (if b then evict s s.completion_q else s)
          (if b then evict s s.completion_q else s).completion_q) [
            | true ↦ evict-IsQueued s s.completion_q refl h
            | false ↦ h
          ]

pub complete-IsQueued :
    (s : Waiters) (key : PendingKey) (answer : Answer)
    → IsQueued s s.completion_q
    → IsQueued (complete (make_room s) key answer) (complete (make_room s) key answer).completion_q
unfolding complete
complete-IsQueued s key answer h k a found = elim (Bool-cases (eq_key key k)) [
  | inl same ↦
      mem-append_right (make_room s).completion_q
        (mem-cast (sym ((eq_key_iff key k).0 same)) mem-cons_self)
  | inr other ↦ mem-append_left (key ∷ []) (
      make_room-IsQueued s h k a
        (ground (arith, found, other, lookup-insert key k answer (make_room s).completed)))
]
