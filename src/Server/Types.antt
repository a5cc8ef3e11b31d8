-- ===== src/Server/Types.antt =====
-- server/server.go: the errors of the server, its waiters, and its part of the shared state.
use kvraft.Base.{ℕ, ◌≡◌, ◌↔◌, Bool, true, ◌&&◌, Option, List, arith}
use kvraft.Base.Int.{ℤ, eq_ℤ, eq_ℤ_iff}
use kvraft.Base.Assoc.{Eq, Assoc}
use kvraft.Kvstore.Types.{Error}

pub data ServerError : Type 0 where
  not_leader commit_timeout server_closed canceled : ServerError
  store : Error → ServerError

-- What a waiter is told: no error, or one.
abbrev pub Answer : Type 0
Answer = Option ServerError

pub record PendingKey : Type 0 where
  pub index : ℤ
  pub term : ℤ

unfoldable pub eq_key : PendingKey → PendingKey → Bool
eq_key a b = eq_ℤ a.index b.index && eq_ℤ a.term b.term

pub eq_key_iff : (a b : PendingKey) → (eq_key a b ≡ true) ↔ (a ≡ b)
unfolding eq_key
eq_key_iff a b = ground (arith, eq_ℤ_iff a.index b.index, eq_ℤ_iff a.term b.term)

instance abbrev pub key_eq : Eq PendingKey
key_eq = record { beq = eq_key; beq_iff = eq_key_iff }

-- A channel is a number; its buffer holds one answer.
pub record Waiters : Type 0 where
  pub pending : Assoc PendingKey ℕ
  pub completed : Assoc PendingKey Answer
  pub completion_q : List PendingKey
  pub channels : ℕ → Option Answer
  -- `make` has made the channels below this one
  pub next_channel : ℕ
  pub is_closed : Bool
