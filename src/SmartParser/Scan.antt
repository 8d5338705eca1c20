-- ===== src/SmartParser/Scan.antt =====
-- The scanner: `sp_isnumber`, `sp_isdate` and `sp_scan` of src/smart-parser.c. `sp_scan` returns
-- `tree->token.token_id` on every path, so only the new state is returned here.
mod Tables
pub mod Walk
pub mod Words
pub mod Invariant
pub mod Quoted
use fireflymediaserver.Prelude.{
  ℕ, ◌+◌, Bool, true, false, not, ◌&&◌, List, [], ◌∷◌, ◌++◌, Option, none, some, leb, ◌==◌,
  if◌then◌else◌, length, Bytes, codes,
}
use fireflymediaserver.Prelude.Int.{ℤ, is_zero, pos}
use fireflymediaserver.CString.{has_byte, strip_prefix, eq_nocase, atoi}
use fireflymediaserver.SmartParser.Token.{
  Token, TokenData, null, freed, cvalue, ivalue, tvalue, holds_string, Hint, no_hint, string_hint,
  int_hint, date_hint, QueryType, t_eof, t_error, t_string, t_number, t_date,
}
use fireflymediaserver.SmartParser.Tables.{
  FieldLookup, sp_symbols, sp_fields, symbols_0, symbols_1, fields_0, fields_1, word_terminators,
  string_terminators, quotes,
}
use fireflymediaserver.SmartParser.State.{
  Outcome, done, overrun, Env, Cursor, upto, past_end, ParseState, offset,
}

unfoldable pub sp_isnumber : Bytes → Bool
sp_isnumber [] = true
sp_isnumber (c ∷ s) = leb b'0' c && leb c b'9' && sp_isnumber s

-- 0 stands for "not a date", so the first second of 1970 is none.
unfoldable pub sp_isdate : Env → Bytes → ℤ
sp_isdate env s = elim (env.ymd s) [ none ↦ pos 0 | some t ↦ t ]

unfoldable pub skip_blanks : Bytes → Bytes
unfolding has_byte
skip_blanks [] = []
skip_blanks (c ∷ s) = if has_byte c (codes " \t\n\r") then skip_blanks s else c ∷ s

-- The first symbol of the table that stands at the cursor, and what follows it.
unfoldable pub find_symbol : List FieldLookup → Bytes → Option (ℕ × Bytes)
unfolding strip_prefix
find_symbol [] s = none
find_symbol (f ∷ table) s =
    let later = find_symbol table s in
    elim (strip_prefix f.name s) [ some rest ↦ some (f.type, rest) | none ↦ later ]

-- Bytes that were stepped over, in front of a word.
abbrev pub prepend : Bytes → Bytes × Bytes → Bytes × Bytes
prepend front (word, tail) = (front ++ word, tail)

-- "walk to a terminator": the word, escapes and all, and the text from its terminator on.
unfoldable pub walk : Bytes → Bytes → Bytes × Bytes
unfolding has_byte
walk stop [] = ([], [])
walk stop (c ∷ []) = if has_byte c stop then ([], c ∷ []) else (c ∷ [], [])
walk stop (c ∷ d ∷ s) =
    let plain = prepend (c ∷ []) (walk stop (d ∷ s)) in
    let escaped = prepend (c ∷ d ∷ []) (walk stop s) in
    if has_byte c stop then ([], c ∷ d ∷ s) else if c == b'\\' then escaped else plain

-- The entry whose name is the word, letter case aside, and its place in the table.
unfoldable pub find_field : ℕ → List FieldLookup → Bytes → Option (ℕ × FieldLookup)
unfolding eq_nocase
find_field i [] word = none
find_field i (f ∷ table) word =
    let later = find_field (i + 1) table word in
    if eq_nocase f.name word then some (i, f) else later

-- "escape string": a backslash gives way to the byte behind it.
unfoldable pub unescape : Bytes → Bytes
unescape [] = []
unescape (c ∷ []) = if c == b'\\' then [] else c ∷ []
unescape (c ∷ d ∷ s) =
    let plain = c ∷ unescape (d ∷ s) in
    let escaped = d ∷ unescape s in if c == b'\\' then escaped else plain

-- "if(tree->token.token_id & 0x2000)", at the entry of `sp_scan`.
unfoldable pub free_string : Token → Token
free_string t = record t { payload = if holds_string t.token_id then null else t.payload }

-- The token of a word: what the table says, or T_STRING.
unfoldable pub word_token : Option (ℕ × FieldLookup) → Bytes → Token → Token
word_token none word t = record t { token_id = t_string; payload = cvalue word }
word_token (some (i, f)) word t = record t {
  token_id = f.type;
  payload =
      if holds_string f.type then cvalue (elim f.xlat [ none ↦ word | some x ↦ x ]) else t.payload;
}

-- The text that a T_STRING token holds, if it is one outside quotes.
unfoldable pub plain_string : Bool → Token → TokenData → Option Bytes
plain_string false t (cvalue s) = if t.token_id == t_string then some s else none
plain_string in_string t other = none

abbrev pub wants_number : Hint → Bool
wants_number no_hint = true
wants_number int_hint = true
wants_number hint = false

abbrev pub wants_date : Hint → Bool
wants_date no_hint = true
wants_date date_hint = true
wants_date hint = false

unfoldable pub number_token : Option Bytes → Token → Token
unfolding sp_isnumber atoi
number_token none t = t
number_token (some s) t =
    if sp_isnumber s then record t { token_id = t_number; payload = ivalue (atoi s) } else t

unfoldable pub date_token : Env → Option Bytes → Token → Token
unfolding sp_isdate
date_token env none t = t
date_token env (some s) t =
    if is_zero (sp_isdate env s)
    then t
    else record t { token_id = t_date; payload = tvalue (sp_isdate env s) }

unfoldable pub unescape_token : TokenData → Token → Token
unfolding unescape
unescape_token (cvalue s) t =
    if t.token_id == t_string then record t { payload = cvalue (unescape s) } else t
unescape_token other t = t

-- `strchr(qstr, *current) != NULL`, which holds at the NUL too.
unfoldable pub at_quote : QueryType → Bytes → Bool
unfolding has_byte
at_quote list [] = true
at_quote list (c ∷ s) = has_byte c (quotes list)

-- `current++`.
abbrev pub advance : Bytes → Cursor
advance [] = past_end
advance (c ∷ s) = upto s

abbrev pub is_quoted : QueryType → Bool
is_quoted list = not (length (quotes list) == 0)

-- "ensure we have a quote", for a word that is in quotes.
unfoldable pub close_quote : QueryType → Bytes → Token → Cursor × Token
unfolding at_quote
close_quote list tail t = if at_quote list tail then (advance tail, t) else (
  upto tail,
  record t { token_id = t_error; payload = if holds_string t.token_id then freed else t.payload },
)

-- Behind the word: quotes are closed where the word is in some.
unfoldable pub end_word : QueryType → Bool → Bytes → Token → Cursor × Token
unfolding close_quote
end_word list in_string tail t =
    if is_quoted list && in_string then close_quote list tail t else (upto tail, t)

-- The token before the quote and the escapes are seen to.
unfoldable pub classify : Env → Hint → Bool → Option (ℕ × FieldLookup) → Bytes → Token → Token
unfolding word_token plain_string number_token date_token
classify env hint in_string found word t =
    let t1 = word_token found word t in
    let t2 =
      if wants_number hint then number_token (plain_string in_string t1 t1.payload) t1 else t1 in
    if wants_date hint then date_token env (plain_string in_string t2 t2.payload) t2 else t2

-- The walk ended: `found` is the table's entry for `word`, and `tail` what is left.
unfoldable pub finish_word :
    Env → Hint → Bool → Option (ℕ × FieldLookup) → Bytes × Bytes → ParseState → ParseState
unfolding classify end_word unescape_token
finish_word env hint in_string found (word, tail) s =
    let t = classify env hint in_string found word s.token in
    let (c, t') = end_word s.token_list in_string tail t in
    record s { in_string = in_string; current = c; token = unescape_token t'.payload t' }

-- `token.field_id`: the place where the search of the table stopped.
abbrev pub place : List FieldLookup → Option (ℕ × FieldLookup) → ℕ
place table none = length table
place table (some (i, f)) = i

-- "keyword or string!", from `text` on, in quotes or not.
unfoldable pub scan_word : Env → Hint → Bool → Bytes → ParseState → ParseState
unfolding walk find_field finish_word
scan_word env hint true text s =
    finish_word env hint true none (walk (string_terminators s.token_list) text) s
scan_word env hint false text s =
    let split = walk (word_terminators s.token_list) text in
    let found = find_field 0 (sp_fields s.token_list) split.0 in
    finish_word env hint false found split
      (record s { token = record (s.token) { field_id = place (sp_fields s.token_list) found } })

abbrev pub set_token_id : ℕ → ParseState → ParseState
set_token_id id s = record s { token = record (s.token) { token_id = id } }

abbrev pub is_string_hint : Hint → Bool
is_string_hint string_hint = true
is_string_hint hint = false

-- The opening quote, at a text `c ∷ r` where no symbol stands.
unfoldable pub scan_text : Env → Hint → ℕ → Bytes → ParseState → ParseState
unfolding has_byte scan_word
scan_text env hint c r s =
    let is_qstr = has_byte c (quotes s.token_list) in
    if is_quoted s.token_list
    then if is_string_hint hint
      then if is_qstr then scan_word env hint true r s else set_token_id t_error s
      else if is_qstr
      then scan_word env hint true r s
      else scan_word env hint false (c ∷ r) s
    else scan_word env hint (is_string_hint hint) (c ∷ r) s

-- From the first byte that is no blank.
unfoldable pub scan_from : Env → Hint → Bytes → ParseState → ParseState
unfolding find_symbol symbols_0 symbols_1 fields_0 fields_1 scan_text
scan_from env hint [] s =
    set_token_id t_eof (record s { current = upto []; token_pos = offset s.term [] })
scan_from env hint (c ∷ r) s =
    let s' = record s {
      current = upto (c ∷ r);
      token_pos = offset s.term (c ∷ r);
      in_string = is_string_hint hint;
    } in
    let text = scan_text env hint c r s' in
    if is_string_hint hint then text else elim (find_symbol (sp_symbols s.token_list) (c ∷ r)) [
      | none ↦ text
      | some (type, rest) ↦ set_token_id type (record s' { current = upto rest })
    ]

unfoldable pub scan_at : Env → Hint → Cursor → ParseState → Outcome ParseState
unfolding skip_blanks scan_from
scan_at env hint past_end s = overrun
scan_at env hint (upto r) s = done (scan_from env hint (skip_blanks r) s)

unfoldable pub sp_scan : Env → Hint → ParseState → Outcome ParseState
unfolding free_string scan_at
sp_scan env hint s =
    let s' = record s { token = free_string s.token } in
    if s.token.token_id == t_eof then done s' else scan_at env hint s.current s'
