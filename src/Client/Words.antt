-- ===== src/Client/Words.antt =====
-- `strings.Fields`, for words between white space as `unicode.IsSpace` knows it.
use kvraft.Base.{
  ℕ, ◌<◌, ◌≡◌, ◌≢◌, ◌⊎◌, refl, arith, ap, ◌∙◌, Bool, true, false, zero, suc, ◌==◌, List, [], ◌∷◌,
  ◌++◌, Bytes, All,
}
use kvraft.Base.Spaces.{is_space, wide_space, space_width}

-- A letter in front of what is split so far: it begins the first word, or a word of its own. `joins`
-- says whether the line goes on with a word.
unfoldable pub begins_word : Bytes → Bool
unfolding space_width
begins_word [] = false
begins_word (b ∷ line) = space_width (b ∷ line) == 0

abbrev add_letter : ℕ → Bool → List Bytes → List Bytes
add_letter b joins [] = (b ∷ []) ∷ []
add_letter b true (word ∷ words) = (b ∷ word) ∷ words
add_letter b false (word ∷ words) = (b ∷ []) ∷ word ∷ words

-- The words of a line behind the rest of a rune of white space.
unfoldable pub fields_from : ℕ → Bytes → List Bytes
unfolding space_width begins_word
fields_from skip [] = []
fields_from (suc skip) (b ∷ line) = fields_from skip line
fields_from zero (b ∷ line) = elim (space_width (b ∷ line)) [
  | suc skip ↦ fields_from skip line
  | zero ↦ add_letter b (begins_word line) (fields_from 0 line)
]

unfoldable pub fields : Bytes → List Bytes
unfolding fields_from
fields line = fields_from 0 line

-- A letter of ASCII that is no white space: that is 9 to 13 and 32.
abbrev IsLetter : ℕ → Type 0
IsLetter b = (b < 128) × (b ≢ 32) × ((b < 9) ⊎ (13 < b))

-- A word: letters, and at least one.
abbrev pub IsWord : Bytes → Type 0
IsWord [] = ⊥
IsWord (b ∷ []) = IsLetter b
IsWord (b ∷ c ∷ word) = IsLetter b × IsWord (c ∷ word)

abbrev pub space : ℕ
space = 32

abbrev pub join_words : List Bytes → Bytes
join_words [] = []
join_words (word ∷ []) = word
join_words (word ∷ w ∷ words) = word ++ space ∷ join_words (w ∷ words)

letter-wide_space : (b : ℕ) (line : Bytes) → b < 128 → wide_space b line ≡ 0
letter-wide_space b [] h = refl
letter-wide_space b (c ∷ []) h = ground arith
letter-wide_space b (c ∷ d ∷ line) h = ground arith

letter-space_width : (b : ℕ) (line : Bytes) → IsLetter b → space_width (b ∷ line) ≡ 0
unfolding space_width
letter-space_width b line h =
    let narrow : is_space b ≡ false = ground (arith, h) in rw narrow (letter-wide_space b line h.0)

IsWord-head : (b : ℕ) (word : Bytes) → IsWord (b ∷ word) → IsLetter b
IsWord-head b [] h = h
IsWord-head b (c ∷ word) h = h.0

fields_lem :
    (b : ℕ) (line : Bytes)
    → IsLetter b
    → fields (b ∷ line) ≡ add_letter b (begins_word line) (fields line)
unfolding fields fields_from
fields_lem b line h = rw (fields, fields_from, letter-space_width b line h) refl

-- A letter in front of a letter joins the first word.
fields-letter :
    (b c : ℕ) (line word : Bytes) (words : List Bytes)
    → IsLetter b
    → IsLetter c
    → fields (c ∷ line) ≡ word ∷ words
    → fields (b ∷ c ∷ line) ≡ (b ∷ word) ∷ words
unfolding begins_word
fields-letter b c line word words hb hc h =
    fields_lem b (c ∷ line) hb ∙ rw (letter-space_width c line hc) (ap (add_letter b true) h)

fields-word : (word : Bytes) → IsWord word → fields word ≡ word ∷ []
unfolding fields fields_from
fields-word [] h = absurd h
fields-word (b ∷ []) h = fields_lem b [] h
fields-word (b ∷ c ∷ word) h =
    fields-letter b c word (c ∷ word) [] h.0 (IsWord-head c word h.1) (fields-word (c ∷ word) h.1)

add_letter_alone : (b : ℕ) (ws : List Bytes) → add_letter b false ws ≡ (b ∷ []) ∷ ws
add_letter_alone b [] = refl
add_letter_alone b (w ∷ ws) = refl

fields-append :
    (word line : Bytes) → IsWord word → fields (word ++ space ∷ line) ≡ word ∷ fields line
unfolding fields fields_from space_width begins_word
fields-append [] line h = absurd h
fields-append (b ∷ []) line h = fields_lem b (space ∷ line) h ∙ add_letter_alone b (fields line)
fields-append (b ∷ c ∷ word) line h =
    fields-letter b c (word ++ space ∷ line) (c ∷ word) (fields line) h.0 (IsWord-head c word h.1)
      (fields-append (c ∷ word) line h.1)

-- The words of a line that joins words of ASCII by single spaces are those words.
pub fields-join_words : (words : List Bytes) → All IsWord words → fields (join_words words) ≡ words
unfolding fields fields_from
fields-join_words [] h = refl
fields-join_words (word ∷ []) h = fields-word word h.0
fields-join_words (word ∷ w ∷ words) h =
    fields-append word (join_words (w ∷ words)) h.0
    ∙ ap (◌∷◌ word) (fields-join_words (w ∷ words) h.1)
