-- ===== src/SmartParser/Scan/Quoted.antt =====
-- Strings in quotes, as `sp_scan` of src/smart-parser.c reads them from the text of a playlist.
use fireflymediaserver.Prelude.{
  append-nil, subst, ℕ, ◌≡◌, refl, Bool, true, false, ◌||◌, [], ◌∷◌, ◌++◌, none, arith, ◌==◌,
  if◌then◌else◌, Bytes, Bool-cases, inl, inr, codes,
}
use fireflymediaserver.CString.{has_byte, strip_prefix}
use fireflymediaserver.SmartParser.Token.{
  Hint, no_hint, string_hint, int_hint, date_hint, playlist, cvalue, t_string, t_eof,
}
use fireflymediaserver.SmartParser.State.{
  Env, ParseState, Cursor, offset, done, overrun, upto, past_end,
}
use fireflymediaserver.SmartParser.Scan.{
  walk, unescape, sp_scan, scan_word, finish_word, scan_at, scan_from, skip_blanks, scan_text,
  find_symbol, classify, word_token, end_word, close_quote, at_quote, unescape_token, number_token,
  date_token, plain_string, free_string, is_string_hint,
}
use fireflymediaserver.SmartParser.Scan.Invariant.{sp_scan_more}
use fireflymediaserver.SmartParser.Tables.{symbols_0}
use fireflymediaserver.SmartParser.Scan.Walk.{
  walk-stop, walk_escape, walk_plain, unescape_escape, unescape_plain,
}

-- A backslash in front of each quote and each backslash.
unfoldable pub escape : Bytes → Bytes
escape [] = []
escape (c ∷ s) =
    let rest = escape s in if c == b'"' || c == b'\\' then b'\\' ∷ c ∷ rest else c ∷ rest

abbrev stop : Bytes
stop = codes "\""

abbrev is_special : ℕ → Bool
is_special c = c == b'"' || c == b'\\'

module _ (c : ℕ) (s : Bytes) where
  escape_special : is_special c ≡ true → escape (c ∷ s) ≡ b'\\' ∷ c ∷ escape s
  unfolding escape
  escape_special h = rw h refl

  escape_plain : is_special c ≡ false → escape (c ∷ s) ≡ c ∷ escape s
  unfolding escape
  escape_plain h = rw h refl

stop_quote : has_byte b'"' stop ≡ true
unfolding has_byte
stop_quote = refl

stop_backslash : has_byte b'\\' stop ≡ false
unfolding has_byte
stop_backslash = refl

stop_plain : (c : ℕ) → is_special c ≡ false → has_byte c stop ≡ false
unfolding has_byte
stop_plain c h = ground arith

-- The walk takes an escaped string whole, up to a text where it stops at once.
walk-escape :
    (s tail : Bytes) → walk stop tail ≡ ([], tail) → walk stop (escape s ++ tail) ≡ (escape s, tail)
walk-escape [] tail h = unfold escape in h
walk-escape (c ∷ s) tail h = elim (Bool-cases (is_special c)) [
  | inl special ↦ rw (escape_special c s special) (
      rw (walk_escape stop b'\\' c (escape s ++ tail) stop_backslash refl)
        (rw (walk-escape s tail h) refl))
  | inr plain ↦ rw (escape_plain c s plain) (
      rw (walk_plain stop c (escape s ++ tail) (stop_plain c plain) (ground arith))
        (rw (walk-escape s tail h) refl))
]

unescape-escape : (s : Bytes) → unescape (escape s) ≡ s
unescape-escape [] = unfold unescape escape in refl
unescape-escape (c ∷ s) = elim (Bool-cases (is_special c)) [
  | inl special ↦
      rw (escape_special c s special)
        (rw (unescape_escape b'\\' c (escape s) refl) (rw (unescape-escape s) refl))
  | inr plain ↦
      rw (escape_plain c s plain)
        (rw (unescape_plain c (escape s) (ground arith)) (rw (unescape-escape s) refl))
]

-- The state of a playlist in front of an opening quote.
abbrev pub before_quote : ParseState → Bytes → ParseState
before_quote s text = record s { token_list = playlist; current = upto (b'"' ∷ text) }

-- The state behind the string `word`, with the cursor at `c`.
abbrev pub after_string : ParseState → Bytes → Bytes → Cursor → ParseState
after_string s text word c = record s {
  token_list = playlist;
  current = c;
  token_pos = offset s.term (b'"' ∷ text);
  in_string = true;
  token = record { token_id = t_string; field_id = s.token.field_id; payload = cvalue word };
}

abbrev opened : ParseState → Hint → Bytes → ParseState
opened s hint text = record s {
  token_list = playlist;
  current = upto (b'"' ∷ text);
  token_pos = offset s.term (b'"' ∷ text);
  in_string = is_string_hint hint;
  token = free_string s.token;
}

-- An opening quote: the walk runs up to the closing one.
scan_open_quote :
    (env : Env) (hint : Hint) (s : ParseState) (text : Bytes)
    → scan_at env hint
        (upto (b'"' ∷ text))
        (record (before_quote s text) { token = free_string s.token })
      ≡ done (finish_word env hint true none (walk stop text) (opened s hint text))
unfolding scan_at scan_from skip_blanks scan_text find_symbol symbols_0 has_byte scan_word
    strip_prefix
scan_open_quote env no_hint s text = refl
scan_open_quote env string_hint s text = refl
scan_open_quote env int_hint s text = refl
scan_open_quote env date_hint s text = refl

finish_closed :
    (env : Env) (hint : Hint) (s : ParseState) (text word rest : Bytes)
    → finish_word env hint true none (word, b'"' ∷ rest) (opened s hint text)
      ≡ after_string s text (unescape word) (upto rest)
unfolding finish_word classify word_token end_word close_quote at_quote has_byte unescape_token
    number_token date_token plain_string free_string
finish_closed env no_hint s text word rest = refl
finish_closed env string_hint s text word rest = refl
finish_closed env int_hint s text word rest = refl
finish_closed env date_hint s text word rest = refl

finish_open :
    (env : Env) (hint : Hint) (s : ParseState) (text word : Bytes)
    → finish_word env hint true none (word, []) (opened s hint text)
      ≡ after_string s text (unescape word) past_end
unfolding finish_word classify word_token end_word close_quote at_quote has_byte unescape_token
    number_token date_token plain_string free_string
finish_open env no_hint s text word = refl
finish_open env string_hint s text word = refl
finish_open env int_hint s text word = refl
finish_open env date_hint s text word = refl

-- In a playlist a string that is escaped and put in quotes is scanned, by any hint, as a T_STRING
-- token that holds the string, and the cursor stands behind the closing quote.
pub sp_scan-escape :
    (env : Env) (hint : Hint) (s : ParseState) (word rest : Bytes)
    → (s.token.token_id == t_eof) ≡ false
    → sp_scan env hint (before_quote s (escape word ++ (b'"' ∷ rest)))
      ≡ done (after_string s (escape word ++ (b'"' ∷ rest)) word (upto rest))
sp_scan-escape env hint s word rest more =
    rw (sp_scan_more env hint (before_quote s (escape word ++ (b'"' ∷ rest))) more) (
      rw (scan_open_quote env hint s (escape word ++ (b'"' ∷ rest))) (
        rw (walk-escape word (b'"' ∷ rest) (walk-stop stop b'"' rest stop_quote)) (
          rw (finish_closed env hint s (escape word ++ (b'"' ∷ rest)) (escape word) rest)
            (rw (unescape-escape word) refl))))

walk-escape_end : (s : Bytes) → walk stop (escape s) ≡ (escape s, [])
walk-escape_end s =
    subst (λ t. walk stop t ≡ (escape s, [])) (append-nil (escape s))
      (walk-escape s [] (unfold walk in refl))

after_string-overrun :
    (env : Env) (hint : Hint) (s : ParseState) (text word : Bytes)
    → sp_scan env hint (after_string s text word past_end) ≡ overrun
unfolding sp_scan scan_at
after_string-overrun env hint s text word = refl

-- In a playlist a string whose closing quote is missing is scanned as a T_STRING token like one that
-- is closed, not as T_ERROR; the cursor is then behind the text's NUL, and the next scan, by any
-- hint, reads there.
pub sp_scan-unterminated :
    (env : Env) (hint next : Hint) (s : ParseState) (word : Bytes)
    → (s.token.token_id == t_eof) ≡ false
    → (sp_scan env hint (before_quote s (escape word))
        ≡ done (after_string s (escape word) word past_end))
      × (sp_scan env next (after_string s (escape word) word past_end) ≡ overrun)
sp_scan-unterminated env hint next s word more = (
  rw (sp_scan_more env hint (before_quote s (escape word)) more) (
      rw (scan_open_quote env hint s (escape word)) (
        rw (walk-escape_end word) (
          rw (finish_open env hint s (escape word) (escape word))
            (rw (unescape-escape word) refl)))),
  after_string-overrun env next s (escape word) word,
)
