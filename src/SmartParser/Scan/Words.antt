-- ===== src/SmartParser/Scan/Words.antt =====
-- The token that a word makes, in `sp_scan` of src/smart-parser.c: it agrees with the union that
-- holds its value, and the text gets shorter.
use fireflymediaserver.Prelude.{
  ℕ, ◌+◌, ◌≤◌, ◌<◌, ◌≡◌, refl, sym, ◌∙◌, Bool, true, false, [], ◌∷◌, Option, none, some, arith,
  length, ◌==◌, if◌then◌else◌, Bytes, Option-cases, inl, inr,
}
use fireflymediaserver.SmartParser.Token.{
  Token, TokenData, cvalue, ivalue, tvalue, holds_string, Hint, QueryType, playlist, query,
  t_number, t_date,
}
use fireflymediaserver.SmartParser.Tables.{
  FieldLookup, sp_fields, word_terminators, string_terminators,
}
use fireflymediaserver.SmartParser.State.{Env, Cursor, upto, past_end, ParseState}
use fireflymediaserver.SmartParser.Scan.{
  skip_blanks, walk, find_field, word_token, plain_string, number_token, date_token, classify,
  end_word, unescape_token, finish_word, scan_word, place,
}
use fireflymediaserver.SmartParser.Scan.Walk.{length-walk}
use fireflymediaserver.SmartParser.Scan.Tables.{is_solid, sp_fields_lem, find_field_lem}

abbrev is_cvalue : TokenData → Bool
is_cvalue (cvalue s) = true
is_cvalue other = false

abbrev is_ivalue : TokenData → Bool
is_ivalue (ivalue n) = true
is_ivalue other = false

abbrev is_tvalue : TokenData → Bool
is_tvalue (tvalue t) = true
is_tvalue other = false

-- The union was last written through the member that the token's number tells.
abbrev pub agrees : Token → Bool
agrees t =
    if holds_string t.token_id
    then is_cvalue t.payload
    else if t.token_id == t_number
    then is_ivalue t.payload
    else if t.token_id == t_date
    then is_tvalue t.payload
    else true

-- The bytes left behind the cursor, and with those of a token that stands for some.
abbrev pub text_left : Cursor → ℕ
text_left (upto r) = length r
text_left past_end = 0

abbrev pub weight : ℕ → ℕ
weight id = if is_solid id then 1 else 0

abbrev pub left : ParseState → ℕ
left s = text_left s.current + weight s.token.token_id

pub length-skip_blanks : (s : Bytes) → length (skip_blanks s) ≤ length s
unfolding skip_blanks
length-skip_blanks [] = omega arith
length-skip_blanks (c ∷ s) = ground (arith, length-skip_blanks s)

-- The entry found for a word, if any, is a solid one, and the word is not empty.
abbrev Fits : Option (ℕ × FieldLookup) → ℕ → Type 0
Fits none n = Unit
Fits (some (k, f)) n = (is_solid f.type ≡ true) × (0 < n)

number_token-agrees :
    (o : Option Bytes) (t : Token) → agrees t ≡ true → agrees (number_token o t) ≡ true
unfolding number_token
number_token-agrees none t h = h
number_token-agrees (some s) t h = ground arith

date_token-agrees :
    (env : Env) (o : Option Bytes) (t : Token)
    → agrees t ≡ true
    → agrees (date_token env o t) ≡ true
unfolding date_token
date_token-agrees env none t h = h
date_token-agrees env (some s) t h = ground arith

word_token-agrees :
    (found : Option (ℕ × FieldLookup)) (word : Bytes) (t : Token) (n : ℕ)
    → Fits found n
    → agrees (word_token found word t) ≡ true
unfolding word_token
word_token-agrees none word t n ok = refl
word_token-agrees (some (k, f)) word t n ok = ground arith

classify-agrees :
    (env : Env) (hint : Hint) (in_string : Bool) (found : Option (ℕ × FieldLookup)) (word : Bytes)
    (t : Token) (n : ℕ)
    → Fits found n
    → agrees (classify env hint in_string found word t) ≡ true
unfolding classify
classify-agrees env hint in_string found word t n ok =
    ground (arith, word_token-agrees found word t n ok)

-- Only an entry of the table makes a solid token.
classify-solid :
    (env : Env) (hint : Hint) (in_string : Bool) (found : Option (ℕ × FieldLookup)) (word : Bytes)
    (t : Token)
    → Fits found (length word)
    → weight (classify env hint in_string found word t).token_id ≤ length word
unfolding classify word_token plain_string number_token date_token
classify-solid env hint in_string none word t ok = ground arith
classify-solid env hint in_string (some (k, f)) word t ok = ground arith

-- `s'` comes of a scan in `s` of at most `n` bytes.
pub record Scanned (s : ParseState) (n : ℕ) (s' : ParseState) : Type 0 where
  pub progress : left s' ≤ n
  pub agree : agrees s'.token ≡ true
  pub inside : s'.current ≡ past_end → s.token_list ≡ playlist
  pub same_list : s'.token_list ≡ s.token_list
  pub same_term : s'.term ≡ s.term
  pub same_tree : s'.tree ≡ s.tree
  pub same_error : s'.error ≡ s.error

unescape_token-agrees :
    (d : TokenData) (t : Token)
    → t.payload ≡ d
    → agrees t ≡ true
    → (agrees (unescape_token d t) ≡ true) × ((unescape_token d t).token_id ≡ t.token_id)
unfolding unescape_token
unescape_token-agrees (cvalue s) t e h = ground arith
unescape_token-agrees other t e h = (h, refl)

record Ended (list : QueryType) (tail : Bytes) (t : Token) (r : Cursor × Token) : Type 0 where
  ended_progress : text_left r.0 + weight (r.1).token_id ≤ length tail + weight t.token_id
  ended_agree : agrees r.1 ≡ true
  ended_inside : r.0 ≡ past_end → list ≡ playlist

end_word-Ended :
    (list : QueryType) (in_string : Bool) (tail : Bytes) (t : Token)
    → agrees t ≡ true
    → Ended list tail t (end_word list in_string tail t)
unfolding end_word
end_word-Ended query in_string tail t h = ground arith
end_word-Ended playlist false tail t h = ground arith
end_word-Ended playlist true [] t h = ground arith
end_word-Ended playlist true (c ∷ tail) t h = ground arith

finish_word-Scanned :
    (env : Env) (hint : Hint) (in_string : Bool) (found : Option (ℕ × FieldLookup))
    (word tail : Bytes) (s : ParseState)
    → Fits found (length word)
    → Scanned s (length word + length tail) (finish_word env hint in_string found (word, tail) s)
unfolding finish_word
finish_word-Scanned env hint in_string found word tail s ok =
    let t = classify env hint in_string found word s.token in
    let e =
      end_word-Ended s.token_list in_string tail t
        (classify-agrees env hint in_string found word s.token _ ok) in
    let r = end_word s.token_list in_string tail t in
    let u = unescape_token-agrees (r.1).payload r.1 refl e.ended_agree in
    record {
      progress = rw u.1 (
          omega (arith, e.ended_progress, classify-solid env hint in_string found word s.token ok));
      agree = u.0;
      inside = e.ended_inside;
      same_list = refl;
      same_term = refl;
      same_tree = refl;
      same_error = refl;
    }

find_field-Fits :
    (list : QueryType) (word : Bytes) → Fits (find_field 0 (sp_fields list) word) (length word)
find_field-Fits list word = elim (Option-cases (find_field 0 (sp_fields list) word)) [
  | inl miss ↦ rw miss tt
  | inr ((k, f), hit) ↦
      let e = find_field_lem 0 (sp_fields list) word k f (sp_fields_lem list) hit in
      rw hit (e.1, e.0)
]

-- A scan reads these parts of the state alone.
pub Scanned-of :
    (s s0 : ParseState) (n : ℕ) (s' : ParseState)
    → s0.token_list ≡ s.token_list
    → s0.term ≡ s.term
    → s0.tree ≡ s.tree
    → s0.error ≡ s.error
    → Scanned s0 n s'
    → Scanned s n s'
Scanned-of s s0 n s' list term tree error r = record {
  progress = r.progress;
  agree = r.agree;
  inside = λ e. sym list ∙ r.inside e;
  same_list = r.same_list ∙ list;
  same_term = r.same_term ∙ term;
  same_tree = r.same_tree ∙ tree;
  same_error = r.same_error ∙ error;
}

scan_word_field :
    (env : Env) (hint : Hint) (text : Bytes) (s : ParseState)
    → scan_word env hint false text s ≡ (
        let split = walk (word_terminators s.token_list) text in
        let found = find_field 0 (sp_fields s.token_list) split.0 in
        finish_word env hint false found
          (split.0, split.1)
          (record s {
            token = record (s.token) { field_id = place (sp_fields s.token_list) found };
          }))
unfolding scan_word
scan_word_field env hint text s = refl

pub scan_word-Scanned :
    (env : Env) (hint : Hint) (in_string : Bool) (text : Bytes) (s : ParseState)
    → Scanned s (length text) (scan_word env hint in_string text s)
scan_word-Scanned env hint true text s =
    rw (← length-walk (string_terminators s.token_list) text)
      (unfold scan_word in finish_word-Scanned env hint true none _ _ s tt)
scan_word-Scanned env hint false text s =
    let split = walk (word_terminators s.token_list) text in
    let found = find_field 0 (sp_fields s.token_list) split.0 in
    let s0 = record s {
      token = record (s.token) { field_id = place (sp_fields s.token_list) found };
    } in
    rw (← length-walk (word_terminators s.token_list) text, scan_word_field env hint text s)
      (Scanned-of s s0 _ _ refl refl refl refl (
        finish_word-Scanned env hint false found split.0 split.1 s0
          (find_field-Fits s.token_list split.0)))
