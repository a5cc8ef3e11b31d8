-- ===== src/Server/Completion/Runs.antt =====
-- server/server.go: the hand-over of answers from NewRaftKVServer on, through any calls of
-- submitAndWait, rounds of applyCommittedEntries, waiters that wake up and calls of Close.
use kvraft.Base.{
  subst, ◌∙◌, ℕ, ◌≡◌, ◌≢◌, refl, inl, inr, none, some, true, [], ◌∷◌, arith, Option-cases, ◌==◌,
  if◌then◌else◌,
}
use kvraft.Base.Assoc.{Assoc, lookup, lookup-delete, delete, IsDistinct}
use kvraft.Server.Types.{server_closed, Answer, PendingKey, key_eq, eq_key_iff, Waiters}
use kvraft.Server.Completion.{
  new_waiters, register, notify_applied, WakeUp, wait, send, close_loop, close_waiters,
}
use kvraft.Server.Completion.Handover.{
  IsSound, delivered, delivered-IsSound, kept, notify_applied-IsSound, register-IsSound,
  wait-IsSound,
}

-- What may happen under the lock: a call registers its waiter, a round of the applier ends, a waiter
-- wakes up, or the server is closed.
pub data Handles : Waiters → Waiters → Type 0 where
  registers : (s : Waiters) (key : PendingKey) → Handles s (register s key).0
  notifies :
      {s t : Waiters} (key : PendingKey) (answer : Answer)
      → notify_applied s key answer ≡ some t
      → Handles s t
  wakes :
      {s t : Waiters} {answer : Answer} (key : PendingKey) (ch : ℕ) (w : WakeUp)
      → wait s key ch w ≡ some (t, answer)
      → Handles s t
  closes : {s t : Waiters} → close_waiters s ≡ some t → Handles s t

-- Any number of them after the start of the server.
pub data Reached : Waiters → Type 0 where
  started : Reached new_waiters
  next : {s t : Waiters} → Reached s → Handles s t → Reached t

new_waiters-IsSound : IsSound new_waiters
unfolding new_waiters lookup
new_waiters-IsSound = record {
  made = λ _ _ h. ground (arith, h);
  empty = λ _ _ _. refl;
  owned = λ _ _ _ h. ground (arith, h);
  unmade = λ _ _. refl;
  distinct = tt;
  bounded = omega arith;
  queued = λ _ _ h. absurd (ground (arith, h));
}

-- The bindings that Close has still to tell.
abbrev AllPending : Waiters → Assoc PendingKey ℕ → Type 0
AllPending s rest =
    (key : PendingKey) (ch : ℕ) → lookup key rest ≡ some ch → lookup key s.pending ≡ some ch

told : Waiters → PendingKey → ℕ → Waiters
told s key ch = record s {
  channels = λ i. if ch == i then some (some server_closed) else s.channels i;
  pending = delete key s.pending;
}

close_loop-told :
    (s : Waiters) (key : PendingKey) (ch : ℕ) (rest : Assoc PendingKey ℕ)
    → s.channels ch ≡ none
    → close_loop s ((key, ch) ∷ rest) ≡ close_loop (told s key ch) rest
unfolding close_loop told send
close_loop-told s key ch rest empty = rw (close_loop, send, empty) refl

close_loop-nil : (s : Waiters) → close_loop s [] ≡ some s
unfolding close_loop
close_loop-nil s = refl

AllPending-first :
    (s : Waiters) (key : PendingKey) (ch : ℕ) (rest : Assoc PendingKey ℕ)
    → AllPending s ((key, ch) ∷ rest)
    → lookup key s.pending ≡ some ch
unfolding lookup
AllPending-first s key ch rest h = h key ch (ground (arith, eq_key_iff key key))

told-AllPending :
    (s : Waiters) (key : PendingKey) (ch : ℕ) (rest : Assoc PendingKey ℕ)
    → lookup key rest ≡ none
    → AllPending s ((key, ch) ∷ rest)
    → AllPending (told s key ch) rest
unfolding told lookup
told-AllPending s key ch rest once h k c found =
    ground (arith, once, found, h k c, lookup-delete key k s.pending, eq_key_iff key k)

close_loop-IsSound :
    (s : Waiters) (rest : Assoc PendingKey ℕ)
    → IsSound s
    → IsDistinct rest
    → AllPending s rest
    → (t : Waiters) × (close_loop s rest ≡ some t) × IsSound t
unfolding told
close_loop-IsSound s [] v d h = (s, close_loop-nil s, v)
close_loop-IsSound s ((key, ch) ∷ rest) v d h =
    let here = AllPending-first s key ch rest h in
    let (t, runs, sound) =
      close_loop-IsSound (told s key ch) rest
        (delivered-IsSound s key (some server_closed) ch v here) d.1
        (told-AllPending s key ch rest d.0 h) in
    (t, close_loop-told s key ch rest (v.empty key ch here) ∙ runs, sound)

close_waiters-IsSound :
    (s : Waiters) → IsSound s → (t : Waiters) × (close_waiters s ≡ some t) × IsSound t
unfolding close_waiters
close_waiters-IsSound s v =
    close_loop-IsSound (record s { is_closed = true }) s.pending
      (record {
        made = v.made;
        empty = v.empty;
        owned = v.owned;
        unmade = v.unmade;
        distinct = v.distinct;
        bounded = v.bounded;
        queued = v.queued;
      })
      v.distinct (λ key ch h. h)

Handles-IsSound : {s t : Waiters} → IsSound s → Handles s t → IsSound t
Handles-IsSound v (registers s key) = register-IsSound s key v
Handles-IsSound {s} v (notifies key answer h) = notify_applied-IsSound s key answer v h
Handles-IsSound {s} v (wakes key ch w h) = wait-IsSound s key ch w v h
Handles-IsSound {s} v (closes h) =
    let (t, runs, sound) = close_waiters-IsSound s v in
    subst IsSound (ground (arith, runs, h)) sound

pub Reached-IsSound : {s : Waiters} → Reached s → IsSound s
Reached-IsSound started = new_waiters-IsSound
Reached-IsSound (next r h) = Handles-IsSound (Reached-IsSound r) h

notify_applied-ne-none :
    (s : Waiters) (key : PendingKey) (answer : Answer)
    → IsSound s
    → notify_applied s key answer ≢ none
notify_applied-ne-none s key answer v = elim (Option-cases (lookup key s.pending)) [
  | inl e ↦ rw (kept s key answer e) (λ h. ground (arith, h))
  | inr (ch, e) ↦ rw (delivered s key answer ch v e) (λ h. ground (arith, h))
]

close_waiters-ne-none : (s : Waiters) → IsSound s → close_waiters s ≢ none
close_waiters-ne-none s v h =
    let (_, runs, _) = close_waiters-IsSound s v in ground (arith, runs, h)

-- After any calls, rounds of the applier, waiters that wake up and Close, in any order since the
-- server started, a send under the lock finds room in its channel: neither the next round of the
-- applier, for any key and answer, nor Close blocks there.
pub sends_never_block :
    {s : Waiters} (key : PendingKey) (answer : Answer)
    → Reached s
    → (notify_applied s key answer ≢ none) × (close_waiters s ≢ none)
sends_never_block {s} key answer r =
    let v = Reached-IsSound r in (notify_applied-ne-none s key answer v, close_waiters-ne-none s v)
