-- ===== src/Raft/Prefix.antt =====
-- Logs of which one begins with the other, and what HandleAppendEntries makes of them.
use kvraft.Base.{
  ℕ, zero, suc, ◌+◌, ◌≤◌, ◌<◌, ◌≡◌, refl, sym, ap, ap₂, ◌∙◌, ◌⊎◌, inl, inr, some, List, [], ◌∷◌,
  ◌++◌, arith, length, take, drop, get_elem?, take-append-drop, dec_lt,
}
use kvraft.Base.Int.{eq_ℤ_iff}
use kvraft.Raft.Types.{LogEntry}
use kvraft.Raft.Append.Merge.{merge, Agrees}
use kvraft.Raft.Append.Safety.{merged}

-- `ys` begins with `xs`.
abbrev pub Prefix : {A : Type 0} → List A → List A → Type 0
Prefix [] ys = Unit
Prefix (x ∷ xs) [] = ⊥
Prefix (x ∷ xs) (y ∷ ys) = (x ≡ y) × Prefix xs ys

module _ {A : Type 0} where
  pub Prefix-refl : (xs : List A) → Prefix xs xs
  Prefix-refl [] = tt
  Prefix-refl (x ∷ xs) = (refl, Prefix-refl xs)

  pub Prefix-trans : (xs ys zs : List A) → Prefix xs ys → Prefix ys zs → Prefix xs zs
  Prefix-trans [] ys zs h k = tt
  Prefix-trans (x ∷ xs) [] zs h k = absurd h
  Prefix-trans (x ∷ xs) (y ∷ ys) [] h k = absurd k
  Prefix-trans (x ∷ xs) (y ∷ ys) (z ∷ zs) h k = (h.0 ∙ k.0, Prefix-trans xs ys zs h.1 k.1)

  pub Prefix-append : (xs ys : List A) → Prefix xs (xs ++ ys)
  Prefix-append [] ys = tt
  Prefix-append (x ∷ xs) ys = (refl, Prefix-append xs ys)

  pub length-Prefix : (xs ys : List A) → Prefix xs ys → length xs ≤ length ys
  length-Prefix [] ys h = omega arith
  length-Prefix (x ∷ xs) [] h = absurd h
  length-Prefix (x ∷ xs) (y ∷ ys) h = omega (arith, length-Prefix xs ys h.1)

  -- The only prefix as long as the list is the list.
  pub Prefix-whole : (xs ys : List A) → Prefix xs ys → length ys ≤ length xs → xs ≡ ys
  Prefix-whole [] [] h l = refl
  Prefix-whole [] (y ∷ ys) h l = absurd (omega arith)
  Prefix-whole (x ∷ xs) [] h l = absurd h
  Prefix-whole (x ∷ xs) (y ∷ ys) h l = ap₂ ◌∷◌ h.0 (Prefix-whole xs ys h.1 (omega arith))

  -- Of two prefixes of one list, the shorter is a prefix of the longer.
  pub Prefix-linear :
      (xs ys zs : List A) → Prefix xs zs → Prefix ys zs → length xs ≤ length ys → Prefix xs ys
  Prefix-linear [] ys zs h k l = tt
  Prefix-linear (x ∷ xs) [] zs h k l = absurd (omega arith)
  Prefix-linear (x ∷ xs) (y ∷ ys) [] h k l = absurd h
  Prefix-linear (x ∷ xs) (y ∷ ys) (z ∷ zs) h k l =
      (h.0 ∙ sym k.0, Prefix-linear xs ys zs h.1 k.1 (omega arith))

  pub Prefix-either :
      (xs ys zs : List A) → Prefix xs zs → Prefix ys zs → Prefix xs ys ⊎ Prefix ys xs
  Prefix-either xs ys zs h k = elim (dec_lt (length xs) (length ys)) [
    | yes l ↦ inl (Prefix-linear xs ys zs h k (omega arith))
    | no l ↦ inr (Prefix-linear ys xs zs k h (omega arith))
  ]

  pub get_elem?-Prefix :
      (xs ys : List A) (i : ℕ) → Prefix xs ys → i < length xs → get_elem? ys i ≡ get_elem? xs i
  get_elem?-Prefix [] ys i h l = absurd (omega arith)
  get_elem?-Prefix (x ∷ xs) [] i h l = absurd h
  get_elem?-Prefix (x ∷ xs) (y ∷ ys) zero h l = ap some (sym h.0)
  get_elem?-Prefix (x ∷ xs) (y ∷ ys) (suc i) h l = get_elem?-Prefix xs ys i h.1 (omega arith)

  pub drop-Prefix : (n : ℕ) (xs ys : List A) → Prefix xs ys → Prefix (drop n xs) (drop n ys)
  drop-Prefix zero xs ys h = h
  drop-Prefix (suc n) [] ys h = tt
  drop-Prefix (suc n) (x ∷ xs) [] h = absurd h
  drop-Prefix (suc n) (x ∷ xs) (y ∷ ys) h = drop-Prefix n xs ys h.1

  pub take-Prefix : (n : ℕ) (xs ys : List A) → Prefix xs ys → n ≤ length xs → take n xs ≡ take n ys
  take-Prefix zero xs ys h l = refl
  take-Prefix (suc n) [] ys h l = absurd (omega arith)
  take-Prefix (suc n) (x ∷ xs) [] h l = absurd h
  take-Prefix (suc n) (x ∷ xs) (y ∷ ys) h l = ap₂ ◌∷◌ h.0 (take-Prefix n xs ys h.1 (omega arith))

-- Nothing is cut where the logs do not differ.
merge-Prefix : (log es : List LogEntry) → Prefix log es → merge log es ≡ es
unfolding merge
merge-Prefix [] es h = refl
merge-Prefix (l ∷ log) [] h = absurd h
merge-Prefix (l ∷ log) (e ∷ es) h =
    rw ((eq_ℤ_iff l.term e.term).1 (ap (λ (x : LogEntry). x.term) h.0))
      (ap₂ ◌∷◌ h.0 (merge-Prefix log es h.1))

merge-longer : (log es : List LogEntry) → Prefix es log → merge log es ≡ log
unfolding merge
merge-longer [] [] h = refl
merge-longer [] (e ∷ es) h = absurd h
merge-longer (l ∷ log) [] h = refl
merge-longer (l ∷ log) (e ∷ es) h =
    rw ((eq_ℤ_iff l.term e.term).1 (ap (λ (x : LogEntry). x.term) (sym h.0)))
      (ap (◌∷◌ l) (merge-longer log es h.1))

-- A message with the entries of `sent` behind place `p` brings a log that begins it up to `sent`.
pub merged-Prefix :
    (log sent : List LogEntry) (p : ℕ)
    → p < length log
    → Prefix log sent
    → merged log p (drop (p + 1) sent) ≡ sent
merged-Prefix log sent p inside h =
    ap₂ ◌++◌ (take-Prefix (p + 1) log sent h (omega arith))
      (merge-Prefix (drop (p + 1) log) (drop (p + 1) sent) (drop-Prefix (p + 1) log sent h))
    ∙ take-append-drop (p + 1) sent

-- A log that has all of `sent` stays.
pub merged-longer :
    (log sent : List LogEntry) (p : ℕ) → Prefix sent log → merged log p (drop (p + 1) sent) ≡ log
merged-longer log sent p h =
    ap (◌++◌ (take (p + 1) log))
      (merge-longer (drop (p + 1) log) (drop (p + 1) sent) (drop-Prefix (p + 1) sent log h))
    ∙ take-append-drop (p + 1) log

-- Entries of one log agree at their places.
pub Prefix-Agrees :
    (c : ℕ) (xs ys zs : List LogEntry) → Prefix xs zs → Prefix ys zs → Agrees c xs ys
Prefix-Agrees zero xs ys zs h k = tt
Prefix-Agrees (suc c) [] ys zs h k = tt
Prefix-Agrees (suc c) (x ∷ xs) [] zs h k = tt
Prefix-Agrees (suc c) (x ∷ xs) (y ∷ ys) [] h k = absurd h
Prefix-Agrees (suc c) (x ∷ xs) (y ∷ ys) (z ∷ zs) h k =
    (ap (λ (e : LogEntry). e.term) (h.0 ∙ sym k.0), Prefix-Agrees c xs ys zs h.1 k.1)
