-- ===== src/Raft/Cluster/Nodes.antt =====
-- The life of one node of a cluster is a run of Raft/Run: the cluster keeps what that asks of it.
use kvraft.Base.{
  ℕ, suc, ◌+◌, ◌-◌, ◌≤◌, ◌<◌, ◌≡◌, refl, sym, ap, subst, ◌∙◌, ◌⊎◌, inl, inr, some, none, Option,
  List, [], ◌∷◌, length, arith, Bytes, drop,
}
use kvraft.Raft.Types.{LogEntry, ApplyMsg, AppendEntriesArgs, AppendEntriesReply}
use kvraft.Raft.Node.{Node, IsValid, Indexed, new_node, dummy_entry}
use kvraft.Raft.Indexed.{Indexed-drop}
use kvraft.Raft.Append.{handle_append_entries}
use kvraft.Raft.Append.Merge.{Agrees}
use kvraft.Raft.Prefix.{Prefix, Prefix-refl, Prefix-trans, drop-Prefix, Prefix-Agrees}
use kvraft.Raft.Run
use kvraft.Raft.Run.{Run, done, next, emit}
use kvraft.Raft.Run.Applied.{Step-Progress, Progress, InOrder, Run-InOrder}
use kvraft.Raft.Cluster.{
  Phase, Member, Cluster, node_at, set_member, Local, accept, trigger, notified, apply, count_reply,
  new_cluster, Step, switch, wake, campaign, count, give_up, tick, stop, vote, send, append,
  replicate, alone, Reach, Steps, start, later,
}
use kvraft.Raft.Cluster.Keeps.{update-cases}
use kvraft.Raft.Cluster.Counts.{IsUnanimous}
use kvraft.Raft.Cluster.Preserved.{new_cluster-Inv, Step-Inv}
use kvraft.Raft.Cluster.Invariant.{Inv}
use kvraft.Raft.Cluster.Logs.{LogInv, FromLog}
use kvraft.Raft.Cluster.Logs.Steps.{new_cluster-LogInv}
use kvraft.Raft.Cluster.Logs.Runs.{Step-Grown}

Indexed-Prefix : (i : ℕ) (xs ys : List LogEntry) → Prefix xs ys → Indexed i ys → Indexed i xs
Indexed-Prefix i [] ys h k = tt
Indexed-Prefix i (x ∷ xs) [] h k = absurd h
Indexed-Prefix i (x ∷ xs) (y ∷ ys) h k =
    (ap (λ (e : LogEntry). e.index) h.0 ∙ k.0, Indexed-Prefix (suc i) xs ys h.1 k.1)

-- What is known of a reached state, the one log among it.
pub record Sound (size : ℕ) (c : Cluster) (log : List LogEntry) : Type 0 where
  pub inv : Inv size c
  pub logs : LogInv size c log
  pub valid : (k : ℕ) → IsValid (node_at c k)

-- What happens to a node in a step of its cluster: nothing, or one of its own events.
abbrev pub Event : Node → Node → Type 0
Event n m = (m ≡ n) ⊎ ((msg : Option ApplyMsg) × kvraft.Raft.Run.Step n msg m)

Local-Step : {n m : Node} → Local n m → Event n m
Local-Step (accept cmd) = inr (none, kvraft.Raft.Run.accept cmd)
Local-Step (trigger peer h) = inr (none, kvraft.Raft.Run.trigger peer h)
Local-Step (notified h) = inr (none, kvraft.Raft.Run.notified h)
Local-Step (apply msg h) = inr (msg, kvraft.Raft.Run.apply msg h)

module _ {size : ℕ} {c : Cluster} {log : List LogEntry} (sound : Sound size c log) where
  Indexed-log : 0 < size → Indexed 0 log
  Indexed-log some_node =
      let (h, inside, e) = sound.logs.held some_node in subst (Indexed 0) e (sound.valid h).indexed

  -- The message that a node gets has its entries at their places, and agrees with all that the
  -- node has.
  append-Event :
      (j : ℕ) (args : AppendEntriesArgs) {m : Node} {reply : AppendEntriesReply}
      → 0 < size
      → FromLog log args
      → handle_append_entries (node_at c j) args ≡ some (m, reply)
      → Event (node_at c j) m
  append-Event j args {m} {reply} some_node f h =
      let n = node_at c j in
      let at_places : Indexed (f.place + 1) args.entries = rw f.entries (
        Indexed-drop (f.place + 1) 0 (f.place + 1) f.sent (omega arith)
          (Indexed-Prefix 0 f.sent log f.begins (Indexed-log some_node))) in
      let agrees : Agrees (n.commit_index - f.place) (drop (f.place + 1) n.log) args.entries =
        rw f.entries (
          Prefix-Agrees (n.commit_index - f.place) (drop (f.place + 1) n.log)
            (drop (f.place + 1) f.sent) (drop (f.place + 1) log)
            (drop-Prefix (f.place + 1) n.log log (sound.logs.begins j))
            (drop-Prefix (f.place + 1) f.sent log f.begins)) in
      inr (none, kvraft.Raft.Run.append args reply f.place f.prev at_places agrees h)

  at_member :
      (i : ℕ) (m : Node) (p : Phase) (k : ℕ)
      → Event (node_at c i) m
      → Event (node_at c k) (node_at (set_member c i m p) k)
  at_member i m p k event =
      update-cases (λ (a : Member). Event (node_at c k) a.node) c.member i _ k
        (λ e. subst (λ j. Event (node_at c j) m) e event) (λ _. inl refl)

Step-Event :
    {peers : List Bytes} {c d : Cluster} {log : List LogEntry}
    → Sound (length peers) c log
    → Step peers c d
    → (k : ℕ) → Event (node_at c k) (node_at d k)
unfolding count_reply
Step-Event s (switch i within p) k = at_member s i _ _ k (inl refl)
Step-Event s (wake i event within p) k =
    at_member s i _ _ k (inr (none, kvraft.Raft.Run.wake event))
Step-Event s (campaign i args el within p h) k =
    at_member s i _ _ k (inr (none, kvraft.Raft.Run.campaign args el h))
Step-Event s (count i j el waiting reply within p asked among) k =
    at_member s i _ _ k (inr (none, kvraft.Raft.Run.count el reply))
Step-Event s (give_up i el waiting within p) k = at_member s i _ _ k (inl refl)
Step-Event s (tick i within p) k = at_member s i _ _ k (inr (none, kvraft.Raft.Run.tick))
Step-Event s (stop i within) k = at_member s i _ _ k (inl refl)
Step-Event s (vote i j args within other among h) k =
    at_member s j _ _ k (inr (none, kvraft.Raft.Run.vote args _ h))
Step-Event s (send i j args within to other h) k = inl refl
Step-Event s (append i j args within among h) k =
    at_member s j _ _ k (append-Event s j args (omega (arith, within)) (s.logs.appends _ among) h)
Step-Event s (replicate i j args reply again within among h) k =
    at_member s i _ _ k (inr (none, kvraft.Raft.Run.replicate j args reply again h))
Step-Event s (alone i within event) k = at_member s i _ _ k (Local-Step event)

Event-IsValid : (n m : Node) → Event n m → IsValid n → IsValid m
Event-IsValid n m (inl same) v = subst IsValid (sym same) v
Event-IsValid n m (inr (msg, step)) v = (Step-Progress v step).0.valid

pub record SoundLater (size : ℕ) (d : Cluster) (log : List LogEntry) : Type 0 where
  pub bigger : List LogEntry
  pub grows : Prefix log bigger
  pub sound : Sound size d bigger

new_node-IsValid : (i : ℕ) (peers : List Bytes) → IsValid (new_node i peers)
unfolding new_node
new_node-IsValid i peers = ground arith

pub new_cluster-Sound :
    (peers : List Bytes) → Sound (length peers) (new_cluster peers) (dummy_entry ∷ [])
unfolding new_cluster
new_cluster-Sound peers = record {
  inv = new_cluster-Inv peers;
  logs = new_cluster-LogInv peers;
  valid = λ k. new_node-IsValid k peers;
}

pub Step-Sound :
    {peers : List Bytes} {c d : Cluster} {log : List LogEntry}
    → IsUnanimous (length peers)
    → Step peers c d
    → Sound (length peers) c log
    → SoundLater (length peers) d log
Step-Sound {c} {d} u step s =
    let g = Step-Grown u step s.inv s.logs in
    record {
      bigger = g.bigger;
      grows = g.grows;
      sound = record {
        inv = Step-Inv u step s.inv;
        logs = g.logs;
        valid = λ k. Event-IsValid (node_at c k) (node_at d k) (Step-Event s step k) (s.valid k);
      };
    }

pub Steps-Sound :
    {peers : List Bytes} {c d : Cluster} {log : List LogEntry}
    → IsUnanimous (length peers)
    → Steps peers c d
    → Sound (length peers) c log
    → SoundLater (length peers) d log
Steps-Sound {log} u start s = record { bigger = log; grows = Prefix-refl log; sound = s }
Steps-Sound {log} u (later run step) s =
    let before = Steps-Sound u run s in
    let after = Step-Sound u step before.sound in
    record {
      bigger = after.bigger;
      grows = Prefix-trans log before.bigger after.bigger before.grows after.grows;
      sound = after.sound;
    }

Run-Event :
    {n m k : Node} {msgs : List ApplyMsg}
    → Run n msgs m
    → Event m k
    → (all : List ApplyMsg) × Run n all k
Run-Event {n} {msgs} run (inl same) = (msgs, subst (λ m. Run n msgs m) (sym same) run)
Run-Event done (inr (msg, step)) = (emit msg [], next step done)
Run-Event (next {msg} first run) (inr last) =
    let (all, more) = Run-Event run (inr last) in (emit msg all, next first more)

Steps-Run :
    {peers : List Bytes} {c d : Cluster} {log : List LogEntry}
    → IsUnanimous (length peers)
    → Sound (length peers) c log
    → Steps peers c d
    → (k : ℕ) → (msgs : List ApplyMsg) × Run (node_at c k) msgs (node_at d k)
Steps-Run u s start k = ([], done)
Steps-Run u s (later run step) k =
    Run-Event (Steps-Run u s run k).1 (Step-Event (Steps-Sound u run s).sound step k)

-- The cluster does what a run of a node asks of the rest of it, where at most three nodes make the
-- cluster: from any state that it reaches on, each node goes through a run of events of its own,
-- in which each message of a leader that it handles has its entries at their places and agrees with
-- what the node has committed. So the node stays well-formed, its term and commit index never
-- fall, and it applies the indices that follow the last applied one, one after another.
pub cluster_runs :
    {peers : List Bytes} {c d : Cluster}
    → length peers ≤ 3
    → Reach peers c
    → Steps peers c d
    → (k : ℕ)
    → (msgs : List ApplyMsg) × Run (node_at c k) msgs (node_at d k)
      × Progress (node_at c k) (node_at d k)
      × InOrder (node_at c k).last_applied msgs (node_at d k).last_applied
cluster_runs {peers} few reach steps k =
    let u : IsUnanimous (length peers) = omega (arith, few) in
    let s = (Steps-Sound u reach (new_cluster-Sound peers)).sound in
    let (msgs, run) = Steps-Run u s steps k in
    let (progress, order) = Run-InOrder msgs (s.valid k) run in (msgs, run, progress, order)
