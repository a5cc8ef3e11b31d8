-- ===== src/Server/Completion/Handover.antt =====
-- Every waiter gets the answer of its own command, in either order of the two sides.
use kvraft.Base.{
  ap, subst, sym, ◌∙◌, ℕ, ◌+◌, ◌≤◌, ◌<◌, ◌≡◌, refl, inl, inr, true, false, none, some, [], ◌∷◌,
  arith, length, length-append, ◌==◌, if◌then◌else◌, Option-cases,
}
use kvraft.Base.Assoc.{
  Assoc, lookup, insert, delete, lookup-insert, lookup-delete, IsDistinct, delete-IsDistinct,
  insert-IsDistinct,
}
use kvraft.Server.Types.{server_closed, Answer, PendingKey, key_eq, eq_key_iff, Waiters}
use kvraft.Server.Completion.Room.{IsQueued, make_room-Kept, make_room-length, complete-IsQueued}
use kvraft.Server.Completion.{
  register_open, make_room, complete, max_completed_notifications, send, notify_applied, answered,
  waiting, register, WakeUp, received, deadline_exceeded, context_canceled, closed_channel, wait,
}

-- A pending channel was made, holds nothing yet, and belongs to one key; the queue of completions
-- is bounded, and each completion has its key in it.
pub record IsSound (s : Waiters) : Type 0 where
  pub made : (key : PendingKey) (ch : ℕ) → lookup key s.pending ≡ some ch → ch < s.next_channel
  pub empty : (key : PendingKey) (ch : ℕ) → lookup key s.pending ≡ some ch → s.channels ch ≡ none
  pub owned :
      (a b : PendingKey) (ch : ℕ)
      → lookup a s.pending ≡ some ch
      → lookup b s.pending ≡ some ch
      → a ≡ b
  pub unmade : (ch : ℕ) → s.next_channel ≤ ch → s.channels ch ≡ none
  pub distinct : IsDistinct s.pending
  pub bounded : length s.completion_q ≤ max_completed_notifications
  pub queued : IsQueued s s.completion_q

-- What a round of the applier does to a sound server: it answers the waiter of the key and forgets
-- it, or keeps the answer as the newest completion.
pub delivered :
    (s : Waiters) (key : PendingKey) (answer : Answer) (ch : ℕ)
    → IsSound s
    → lookup key s.pending ≡ some ch
    → notify_applied s key answer
      ≡ some (record s {
        channels = λ i. if ch == i then some answer else s.channels i;
        pending = delete key s.pending;
      })
unfolding notify_applied send
delivered s key answer ch v e = rw (notify_applied, e, send, v.empty key ch e) refl

pub kept :
    (s : Waiters) (key : PendingKey) (answer : Answer)
    → lookup key s.pending ≡ none
    → notify_applied s key answer ≡ some (complete (make_room s) key answer)
unfolding notify_applied
kept s key answer e = rw (notify_applied, e) refl

pub delivered-IsSound :
    (s : Waiters) (key : PendingKey) (answer : Answer) (at : ℕ)
    → IsSound s
    → lookup key s.pending ≡ some at
    → IsSound (record s {
      channels = λ i. if at == i then some answer else s.channels i;
      pending = delete key s.pending;
    })
delivered-IsSound s key answer at v e = record {
  made = λ k ch h. ground (arith, lookup-delete key k s.pending, v.made k ch);
  empty = λ k ch h.
      ground
        (arith, lookup-delete key k s.pending, v.empty k ch, v.owned key k ch, eq_key_iff key k);
  owned = λ a b ch h g.
      ground (arith, lookup-delete key a s.pending, lookup-delete key b s.pending, v.owned a b ch);
  unmade = λ ch h. ground (arith, v.unmade ch, v.made key at e);
  distinct = delete-IsDistinct key s.pending v.distinct;
  bounded = v.bounded;
  queued = v.queued;
}

kept-IsSound :
    (s : Waiters) (key : PendingKey) (answer : Answer)
    → IsSound s
    → IsSound (complete (make_room s) key answer)
unfolding complete
kept-IsSound s key answer v =
    let k = make_room-Kept s in
    record {
      made = rw (k.same_pending, k.same_next) v.made;
      empty = rw (k.same_pending, k.same_channels) v.empty;
      owned = rw k.same_pending v.owned;
      unmade = rw (k.same_channels, k.same_next) v.unmade;
      distinct = rw k.same_pending v.distinct;
      bounded = ground (
        arith,
        make_room-length s v.bounded,
        length-append (make_room s).completion_q (key ∷ []),
      );
      queued = complete-IsQueued s key answer v.queued;
    }

-- A round of the applier keeps a sound server sound: pending channels are made, empty and each of
-- one command, the queue of completions is bounded, and each completion has its key in it.
pub notify_applied-IsSound :
    (s : Waiters) (key : PendingKey) (answer : Answer) {s' : Waiters}
    → IsSound s
    → notify_applied s key answer ≡ some s'
    → IsSound s'
notify_applied-IsSound s key answer v h = elim (Option-cases (lookup key s.pending)) [
  | inl e ↦ subst IsSound (ground (arith, kept s key answer e, h)) (kept-IsSound s key answer v)
  | inr (ch, e) ↦
      subst IsSound (ground (arith, delivered s key answer ch v e, h))
        (delivered-IsSound s key answer ch v e)
]

waiting-IsSound :
    (s : Waiters) (key : PendingKey)
    → IsSound s
    → IsSound (record s {
      next_channel = s.next_channel + 1;
      pending = insert key s.next_channel s.pending;
    })
waiting-IsSound s key v = record {
  made = λ k ch h. ground (arith, lookup-insert key k s.next_channel s.pending, v.made k ch);
  empty = λ k ch h.
      ground (arith, lookup-insert key k s.next_channel s.pending, v.empty k ch, v.unmade ch);
  owned = λ a b ch h g. ground (
    arith,
    lookup-insert key a s.next_channel s.pending,
    lookup-insert key b s.next_channel s.pending,
    v.owned a b ch,
    v.made a ch,
    v.made b ch,
    eq_key_iff key a,
    eq_key_iff key b,
  );
  unmade = λ ch h. v.unmade ch (omega (arith, h));
  distinct = insert-IsDistinct key s.next_channel s.pending v.distinct;
  bounded = v.bounded;
  queued = v.queued;
}

unused_channel-IsSound :
    (s : Waiters) (done : Assoc PendingKey Answer)
    → IsSound s
    → IsQueued (record s { completed = done }) s.completion_q
    → IsSound (record s { next_channel = s.next_channel + 1; completed = done })
unused_channel-IsSound s done v still = record {
  made = λ k ch h. ground (arith, v.made k ch h);
  empty = v.empty;
  owned = v.owned;
  unmade = λ ch h. v.unmade ch (omega (arith, h));
  distinct = v.distinct;
  bounded = v.bounded;
  queued = still;
}

open_waiting :
    (s : Waiters) (key : PendingKey)
    → lookup key s.completed ≡ none
    → register_open s key ≡ (
      record s { next_channel = s.next_channel + 1; pending = insert key s.next_channel s.pending },
      waiting s.next_channel,
    )
unfolding register_open
open_waiting s key n = rw (register_open, n) refl

registered :
    (s : Waiters) (key : PendingKey)
    → s.is_closed ≡ false
    → lookup key s.completed ≡ none
    → register s key ≡ (
      record s { next_channel = s.next_channel + 1; pending = insert key s.next_channel s.pending },
      waiting s.next_channel,
    )
unfolding register
registered s key o n =
    ap
      (λ c.
        if c
        then (record s { next_channel = s.next_channel + 1 }, answered (some server_closed))
        else register_open s key)
      o
    ∙ open_waiting s key n

-- Registering a waiter keeps a sound server sound: its channel is new, empty, and of one command.
pub register-IsSound : (s : Waiters) (key : PendingKey) → IsSound s → IsSound (register s key).0
unfolding register register_open
register-IsSound s key v =
    elim s.is_closed
      as (λ c.
        IsSound
          (if c
            then (record s { next_channel = s.next_channel + 1 }, answered (some server_closed))
            else register_open s key).0) [
              | true ↦ unused_channel-IsSound s s.completed v v.queued
              | false ↦ elim (Option-cases (lookup key s.completed)) [
                | inl e ↦ rw (register_open, e) (waiting-IsSound s key v)
                | inr (_, e) ↦
                    rw (register_open, e)
                      (unused_channel-IsSound s (delete key s.completed) v (λ k a found.
                        v.queued k a (ground (arith, found, lookup-delete key k s.completed))))
              ]
            ]

forgotten-IsSound :
    (s : Waiters) (key : PendingKey)
    → IsSound s
    → IsSound (record s { pending = delete key s.pending })
forgotten-IsSound s key v = record {
  made = λ k ch h. ground (arith, lookup-delete key k s.pending, v.made k ch);
  empty = λ k ch h. ground (arith, lookup-delete key k s.pending, v.empty k ch);
  owned = λ a b ch h g.
      ground (arith, lookup-delete key a s.pending, lookup-delete key b s.pending, v.owned a b ch);
  unmade = v.unmade;
  distinct = delete-IsDistinct key s.pending v.distinct;
  bounded = v.bounded;
  queued = v.queued;
}

received-IsSound :
    (s : Waiters) (at : ℕ)
    → IsSound s
    → IsSound (record s { channels = λ i. if at == i then none else s.channels i })
received-IsSound s at v = record {
  made = v.made;
  empty = λ k ch h. ground (arith, v.empty k ch);
  owned = v.owned;
  unmade = λ ch h. ground (arith, v.unmade ch);
  distinct = v.distinct;
  bounded = v.bounded;
  queued = v.queued;
}

-- Waking up keeps a sound server sound.
pub wait-IsSound :
    (s : Waiters) (key : PendingKey) (ch : ℕ) (w : WakeUp) {s' : Waiters} {answer : Answer}
    → IsSound s
    → wait s key ch w ≡ some (s', answer)
    → IsSound s'
unfolding wait
wait-IsSound s key ch received v h = subst IsSound (ground (arith, h)) (received-IsSound s ch v)
wait-IsSound s key ch deadline_exceeded v h =
    subst IsSound (ground (arith, h)) (forgotten-IsSound s key v)
wait-IsSound s key ch context_canceled v h =
    subst IsSound (ground (arith, h)) (forgotten-IsSound s key v)
wait-IsSound s key ch closed_channel v h =
    subst IsSound (ground (arith, h)) (forgotten-IsSound s key v)

wait_received :
    (s : Waiters) (key : PendingKey) (ch : ℕ) (answer : Answer)
    → s.channels ch ≡ some answer
    → wait s key ch received
      ≡ some (record s { channels = λ i. if ch == i then none else s.channels i }, answer)
unfolding wait
wait_received s key ch answer h = rw (wait, h) refl

-- On a sound and open server where the command is not completed yet, the waiter comes first: it
-- waits on a channel, the applier's round puts the answer there, and the waiter receives it.
pub waiter_first :
    (s : Waiters) (key : PendingKey) (answer : Answer)
    → IsSound s
    → s.is_closed ≡ false
    → lookup key s.completed ≡ none
    → (ch : ℕ) × (t : Waiters) × (u : Waiters) × ((register s key).1 ≡ waiting ch)
      × (notify_applied (register s key).0 key answer ≡ some t)
      × (wait t key ch received ≡ some (u, answer))
waiter_first s key answer v o n =
    let at = s.next_channel in
    let r = registered s key o n in
    (
      at,
      _,
      _,
      ap (λ p. p.1) r,
      ap (λ p. notify_applied p.0 key answer) r
          ∙ delivered _ key answer at (waiting-IsSound s key v)
              (ground (arith, lookup-insert key key at s.pending, eq_key_iff key key)),
      wait_received _ key at answer (ground arith),
    )

some_same : {s t : Waiters} → some s ≡ some t → s ≡ t
some_same h = ground (arith, h)

kept-answered :
    (s : Waiters) (key : PendingKey) (answer : Answer)
    → s.is_closed ≡ false
    → (register (complete (make_room s) key answer) key).1 ≡ answered answer
unfolding register register_open complete
kept-answered s key answer o =
    let k = make_room-Kept s in
    ground (
      arith,
      k.same_closed,
      o,
      lookup-insert key key answer (make_room s).completed,
      eq_key_iff key key,
    )

-- On an open server where nobody waits for the command yet, the applier comes first: a waiter
-- that registers for the command afterwards is answered at once, with the applier's answer.
pub applier_first :
    (s : Waiters) (key : PendingKey) (answer : Answer) {t : Waiters}
    → s.is_closed ≡ false
    → lookup key s.pending ≡ none
    → notify_applied s key answer ≡ some t
    → (register t key).1 ≡ answered answer
unfolding register complete
applier_first s key answer o n h =
    subst (λ t. (register t key).1 ≡ answered answer) (some_same (sym (kept s key answer n) ∙ h))
      (kept-answered s key answer o)
