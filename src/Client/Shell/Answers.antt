-- ===== src/Client/Shell/Answers.antt =====
-- What a client reads in its shell, when the servers have answered.
use kvraft.Base.{
  ◌⊎◌, inl, inr, ◌≡◌, ◌↔◌, ◌∙◌, refl, ap, Bool, true, false, Option, none, some, List, [], ◌∷◌,
  Bytes, codes, eq_bytes, eq_bytes_iff, if◌then◌else◌, arith,
}
use kvraft.Server.Types.{ServerError, not_leader}
use kvraft.Server.Requests.{
  Server, int_eq, error_response, get_response, write_response, leader_address, is_not_leader,
}
use kvraft.Client.{KvServiceClient, ClientResponse, invoke_kv, client_response}
use kvraft.Client.Words.{fields, fields-join_words, join_words, IsWord}
use kvraft.Client.Shell.Reports.{IsReport, error_lines, error_lines-IsReport}
use kvraft.Client.Shell.{
  Line, Turn, ok, shown, failed, print_answer, print_leader_hint, run_words, run_get, run_put,
  not_leader_text,
}

-- The error texts are told apart from the one of ErrNotLeader.
abbrev pub IsText : (ServerError → Bytes) → Type 0
IsText text = (e : ServerError) → (text e ≡ not_leader_text) ↔ (e ≡ not_leader)

told_apart :
    (text : ServerError → Bytes)
    → IsText text
    → (e : ServerError) → eq_bytes (text e) not_leader_text ≡ is_not_leader e
told_apart text texts e = ground (arith, texts e, eq_bytes_iff (text e) not_leader_text)

hint_lines :
    {E : Type 0} (b : Bool) (address : Bytes)
    → ◌≡◌ {A = List (Line E)}
        (if b then print_leader_hint (if b then address else []) ∷ [] else [])
        (if b then print_leader_hint address ∷ [] else [])
hint_lines true address = refl
hint_lines false address = refl

get_letters : IsWord (codes "get")
get_letters = ground arith

put_letters : IsWord (codes "put")
put_letters = ground arith

module _ {S E : Type 0} (client : KvServiceClient S E) (text : ServerError → Bytes)
    (server : Server) where
  abbrev goes_on_with : List (Line E) → S → Turn S E
  goes_on_with lines s = record { lines = lines; servers = s; goes_on = true }

  print-error_response :
      (success : ClientResponse → Line E) (e : ServerError) (s : S)
      → IsText text
      → print_answer success (client_response (inr (error_response text server e), s))
        ≡ record { lines = error_lines text server e; servers = s; goes_on = true }
  unfolding print_answer client_response error_response
  print-error_response success e s texts =
      ap (λ (l : List (Line E)). goes_on_with (failed (text e) ∷ l) s)
        (rw (told_apart text texts e) (hint_lines (is_not_leader e) (leader_address server)))

  -- The words of a line reach the call as they are.
  get_words :
      (key : Bytes) (s : S)
      → run_words client (codes "get" ∷ key ∷ []) s
        ≡ print_answer
            (λ resp. shown resp.value)
            (client_response (client.get (record { key = key; value = [] }) s))
  unfolding run_words run_get invoke_kv eq_bytes
  get_words key s = refl

  put_words :
      (key value : Bytes) (s : S)
      → run_words client (codes "put" ∷ key ∷ value ∷ []) s
        ≡ print_answer
            (λ resp. ok)
            (client_response (client.put (record { key = key; value = value }) s))
  unfolding run_words run_put invoke_kv eq_bytes
  put_words key value s = refl

  print-get_response :
      (outcome : ServerError ⊎ Bytes) (s : S)
      → IsText text
      → print_answer
          (λ resp. shown resp.value)
          (client_response (inr (get_response text server outcome), s))
        ≡ goes_on_with
            (elim outcome [ inl e ↦ error_lines text server e | inr value ↦ shown value ∷ [] ])
            s
  unfolding get_response print_answer client_response
  print-get_response (inl e) s texts = print-error_response (λ resp. shown resp.value) e s texts
  print-get_response (inr value) s texts = refl

  print-write_response :
      (outcome : Option ServerError) (s : S)
      → IsText text
      → print_answer (λ resp. ok) (client_response (inr (write_response text server outcome), s))
        ≡ goes_on_with (elim outcome [ some e ↦ error_lines text server e | none ↦ ok ∷ [] ]) s
  unfolding write_response print_answer client_response
  print-write_response (some e) s texts = print-error_response (λ resp. ok) e s texts
  print-write_response none s texts = refl

  -- The lines for the outcome of a read, and of a write.
  abbrev pub IsReadReport : ServerError ⊎ Bytes → List (Line E) → Type 0
  IsReadReport (inl e) lines = IsReport text server e lines
  IsReadReport (inr value) lines = lines ≡ shown value ∷ []

  abbrev pub IsWriteReport : Option ServerError → List (Line E) → Type 0
  IsWriteReport (some e) lines = IsReport text server e lines
  IsWriteReport none lines = lines ≡ ok ∷ []

  read_lines :
      (outcome : ServerError ⊎ Bytes)
      → IsReadReport outcome
          (elim outcome [ inl e ↦ error_lines text server e | inr value ↦ shown value ∷ [] ])
  read_lines (inl e) = error_lines-IsReport text server e
  read_lines (inr value) = refl

  write_lines :
      (outcome : Option ServerError)
      → IsWriteReport outcome (elim outcome [ some e ↦ error_lines text server e | none ↦ ok ∷ [] ])
  write_lines (some e) = error_lines-IsReport text server e
  write_lines none = refl

  -- A line with get and a word of ASCII, where the server answers the call with the outcome of its
  -- handler and no other error has the text of ErrNotLeader, prints the value, or the text of the
  -- error and, exactly where the server is not the leader, the address of the leader that it knows,
  -- or that another node is to be tried where it knows none; then the shell goes on.
  pub get_line :
      (key : Bytes) (outcome : ServerError ⊎ Bytes) (s s' : S)
      → IsText text
      → IsWord key
      → client.get (record { key = key; value = [] }) s
        ≡ (inr (get_response text server outcome), s')
      → (lines : List (Line E)) × (run_words client (fields (join_words (codes "get" ∷ key ∷ []))) s
          ≡ record { lines = lines; servers = s'; goes_on = true })
        × IsReadReport outcome lines
  get_line key outcome s s' texts word answers = (
    _,
    ap (λ words. run_words client words s)
          (fields-join_words (codes "get" ∷ key ∷ []) (get_letters, (word, tt)))
        ∙ get_words key s
        ∙ ap (λ answer. print_answer (λ resp. shown resp.value) (client_response answer)) answers
        ∙ print-get_response outcome s' texts,
    read_lines outcome,
  )

  -- A line with put and two words of ASCII, where the server answers the call with the outcome of its
  -- handler and no other error has the text of ErrNotLeader, says that it is done, or prints the text
  -- of the error and, exactly where the server is not the leader, the address of the leader that it
  -- knows, or that another node is to be tried where it knows none; then the shell goes on.
  pub put_line :
      (key value : Bytes) (outcome : Option ServerError) (s s' : S)
      → IsText text
      → IsWord key
      → IsWord value
      → client.put (record { key = key; value = value }) s
        ≡ (inr (write_response text server outcome), s')
      → (lines : List (Line E)) × (run_words client
            (fields (join_words (codes "put" ∷ key ∷ value ∷ [])))
            s
          ≡ record { lines = lines; servers = s'; goes_on = true })
        × IsWriteReport outcome lines
  put_line key value outcome s s' texts word word' answers = (
    _,
    ap (λ words. run_words client words s)
          (fields-join_words (codes "put" ∷ key ∷ value ∷ []) (put_letters, (word, (word', tt))))
        ∙ put_words key value s
        ∙ ap (λ answer. print_answer (λ resp. ok) (client_response answer)) answers
        ∙ print-write_response outcome s' texts,
    write_lines outcome,
  )
