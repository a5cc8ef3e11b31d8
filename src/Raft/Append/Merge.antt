-- ===== src/Raft/Append/Merge.antt =====
-- The loop of HandleAppendEntries against a description of the log it leaves.
use kvraft.Base.{
  ℕ, zero, suc, ◌+◌, ◌≤◌, ◌<◌, ◌≡◌, refl, ap, ap₂, inl, inr, true, some, List, [], ◌∷◌, ◌++◌, map,
  arith, length, take, drop, if◌then◌else◌, append-nil, append_assoc, length-append,
  take-append-drop, take-append_self, get_elem?-append_right, get_elem?-none, length-take,
  Bool-cases,
}
use kvraft.Base.Int.{ℤ, pos, eq_ℤ, eq_ℤ_iff}
use kvraft.Raft.Types.{LogEntry}
use kvraft.Raft.Append.{append_entry, append_loop}

-- The log behind the previous entry, after entries arrive there: what agrees is kept, and from the
-- first place of another term on the new entries stand alone.
unfoldable pub merge : List LogEntry → List LogEntry → List LogEntry
merge [] entries = entries
merge (old ∷ log) [] = old ∷ log
merge (old ∷ log) (entry ∷ entries) =
    if eq_ℤ old.term entry.term then old ∷ merge log entries else entry ∷ entries

merge-nil : (log : List LogEntry) → merge log [] ≡ log
unfolding merge
merge-nil [] = refl
merge-nil (old ∷ log) = refl

append_entry-end :
    (pre : List LogEntry) (e : LogEntry) (idx : ℕ)
    → idx ≡ length pre
    → append_entry pre idx e ≡ pre ++ e ∷ []
unfolding append_entry
append_entry-end pre e idx h = rw (get_elem?-none pre idx (omega arith), append_entry)

append_entry-inside :
    (pre suf : List LogEntry) (old e : LogEntry) (idx : ℕ)
    → idx ≡ length pre
    → append_entry (pre ++ old ∷ suf) idx e
      ≡ (if eq_ℤ old.term e.term then pre ++ old ∷ suf else pre ++ e ∷ [])
unfolding append_entry
append_entry-inside pre suf old e idx h =
    rw (get_elem?-append_right pre (old ∷ suf) idx 0 (omega arith), append_entry)
      (rw (take-append_self idx pre (old ∷ suf) h))

length-snoc :
    (pre : List LogEntry) (e : LogEntry) (p i : ℕ)
    → length pre ≡ p + i + 1
    → length (pre ++ e ∷ []) ≡ p + (i + 1) + 1
length-snoc pre e p i h = omega (arith, length-append pre (e ∷ []))

snoc_append : (pre suf : List LogEntry) (e : LogEntry) → (pre ++ e ∷ []) ++ suf ≡ pre ++ e ∷ suf
snoc_append pre suf e = append_assoc pre (e ∷ []) suf

append_loop-eq-merge :
    (p i : ℕ) (pre suf entries : List LogEntry)
    → length pre ≡ p + i + 1
    → append_loop (pos p) i (pre ++ suf) entries ≡ some (pre ++ merge suf entries)
unfolding append_loop merge
append_loop-eq-merge p i pre suf [] h = rw (merge-nil suf)
append_loop-eq-merge p i pre [] (e ∷ es) h =
    rw (append-nil pre, append_entry-end pre e (p + i + 1) (omega arith))
      (rw (append-nil (pre ++ e ∷ []), snoc_append pre es e) at
        (append_loop-eq-merge p (i + 1) (pre ++ e ∷ []) [] es (length-snoc pre e p i h)))
append_loop-eq-merge p i pre (old ∷ suf) (e ∷ es) h = elim (Bool-cases (eq_ℤ old.term e.term)) [
  | inl same ↦ rw (append_entry-inside pre suf old e (p + i + 1) (omega arith)) (
      rw same (
        rw (snoc_append pre suf old, snoc_append pre (merge suf es) old) at
          (append_loop-eq-merge p (i + 1) (pre ++ old ∷ []) suf es (length-snoc pre old p i h))))
  | inr other ↦ rw (append_entry-inside pre suf old e (p + i + 1) (omega arith)) (
      rw other (
        rw (append-nil (pre ++ e ∷ []), snoc_append pre es e) at
          (append_loop-eq-merge p (i + 1) (pre ++ e ∷ []) [] es (length-snoc pre e p i h))))
]

-- With a previous entry inside the log, the loop keeps the log up to it and merges the rest with
-- the entries of the message.
pub append_loop_lem :
    (p : ℕ) (log entries : List LogEntry)
    → p < length log
    → append_loop (pos p) 0 log entries
      ≡ some (take (p + 1) log ++ merge (drop (p + 1) log) entries)
append_loop_lem p log entries h = rw (take-append-drop (p + 1) log) at (
    append_loop-eq-merge p 0 (take (p + 1) log) (drop (p + 1) log) entries
      (omega (arith, length-take (p + 1) log)))

abbrev pub terms : List LogEntry → List ℤ
terms = map (λ e. e.term)

-- The entries of the message are in the log afterwards, up to what equal terms stand for.
pub terms-merge : (log es : List LogEntry) → terms (take (length es) (merge log es)) ≡ terms es
unfolding merge
terms-merge [] [] = refl
terms-merge [] (e ∷ es) = ap (◌∷◌ e.term) (terms-merge [] es)
terms-merge (l ∷ log) [] = refl
terms-merge (l ∷ log) (e ∷ es) = elim (Bool-cases (eq_ℤ l.term e.term)) [
  | inl same ↦ rw same (ap₂ ◌∷◌ ((eq_ℤ_iff l.term e.term).0 same) (terms-merge log es))
  | inr other ↦ rw other (ap (◌∷◌ e.term) (terms-merge [] es))
]

eq_ℤ_refl : (a : ℤ) → eq_ℤ a a ≡ true
eq_ℤ_refl a = (eq_ℤ_iff a a).1 refl

merge_self : (k : ℕ) (es : List LogEntry) → merge es (take k es) ≡ es
unfolding merge
merge_self zero es = merge-nil es
merge_self (suc k) [] = refl
merge_self (suc k) (e ∷ es) = rw (eq_ℤ_refl e.term) (ap (◌∷◌ e) (merge_self k es))

-- A message that was sent earlier and arrives later, with fewer of the entries, changes nothing.
pub merge-merge-take :
    (k : ℕ) (log es : List LogEntry) → merge (merge log es) (take k es) ≡ merge log es
unfolding merge
merge-merge-take k [] es = merge_self k es
merge-merge-take zero (l ∷ log) es = merge-nil (merge (l ∷ log) es)
merge-merge-take (suc k) (l ∷ log) [] = refl
merge-merge-take (suc k) (l ∷ log) (e ∷ es) = elim (Bool-cases (eq_ℤ l.term e.term)) [
  | inl same ↦ rw same (rw same (ap (◌∷◌ l) (merge-merge-take k log es)))
  | inr other ↦ rw other (merge_self (suc k) (e ∷ es))
]

-- Where both lists have one of the first `c` entries, the terms are equal.
abbrev pub Agrees : ℕ → List LogEntry → List LogEntry → Type 0
Agrees zero log es = Unit
Agrees (suc c) [] es = Unit
Agrees (suc c) (l ∷ log) [] = Unit
Agrees (suc c) (l ∷ log) (e ∷ es) = (l.term ≡ e.term) × Agrees c log es

-- Entries that agree with the first `c` of the log leave those as they are.
pub take-merge :
    (c : ℕ) (log es : List LogEntry)
    → c ≤ length log
    → Agrees c log es
    → take c (merge log es) ≡ take c log
unfolding merge
take-merge zero log es h a = refl
take-merge (suc c) [] es h a = elim h [ ]
take-merge (suc c) (l ∷ log) [] h a = refl
take-merge (suc c) (l ∷ log) (e ∷ es) h a =
    rw ((eq_ℤ_iff l.term e.term).1 a.0) (ap (◌∷◌ l) (take-merge c log es (omega arith) a.1))

pub length-merge-le :
    (c : ℕ) (log es : List LogEntry) → c ≤ length log → Agrees c log es → c ≤ length (merge log es)
length-merge-le c log es h a =
    omega
      (arith, ap length (take-merge c log es h a), length-take c (merge log es), length-take c log)
