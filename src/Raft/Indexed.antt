-- ===== src/Raft/Indexed.antt =====
-- Logs whose entries carry their own places.
use kvraft.Base.{
  ℕ, zero, suc, ◌+◌, ◌≡◌, subst, some, List, [], ◌∷◌, ◌++◌, arith, length, get_elem?, take, drop,
}
use kvraft.Base.Int.{pos}
use kvraft.Raft.Types.{LogEntry}
use kvraft.Raft.Node.{Indexed}

pub Indexed-append :
    (i j : ℕ) (xs ys : List LogEntry)
    → j ≡ i + length xs
    → Indexed i xs
    → Indexed j ys
    → Indexed i (xs ++ ys)
Indexed-append i j [] ys e hx hy = let e' : j ≡ i = omega arith in subst (λ k. Indexed k ys) e' hy
Indexed-append i j (x ∷ xs) ys e hx hy =
    (hx.0, Indexed-append (suc i) j xs ys (omega arith) hx.1 hy)

pub Indexed-take : (n i : ℕ) (xs : List LogEntry) → Indexed i xs → Indexed i (take n xs)
Indexed-take zero i xs h = tt
Indexed-take (suc n) i [] h = tt
Indexed-take (suc n) i (x ∷ xs) h = (h.0, Indexed-take n (suc i) xs h.1)

pub Indexed-drop :
    (n i j : ℕ) (xs : List LogEntry) → j ≡ i + n → Indexed i xs → Indexed j (drop n xs)
Indexed-drop zero i j xs e h = let e' : i ≡ j = omega arith in subst (λ k. Indexed k xs) e' h
Indexed-drop (suc n) i j [] e h = tt
Indexed-drop (suc n) i j (x ∷ xs) e h = Indexed-drop n (suc i) j xs (omega arith) h.1

pub Indexed-get_elem? :
    (i j : ℕ) (xs : List LogEntry) {e : LogEntry}
    → Indexed i xs
    → get_elem? xs j ≡ some e
    → e.index ≡ pos (i + j)
Indexed-get_elem? i j [] h q = cc
Indexed-get_elem? i zero (x ∷ xs) h q = ground arith
Indexed-get_elem? i (suc j) (x ∷ xs) h q =
    let e : i + suc j ≡ suc i + j = omega arith in rw e (Indexed-get_elem? (suc i) j xs h.1 q)
