-- ===== src/SmartParser/Scan/Invariant.antt =====
-- What a scan does to the state, in src/smart-parser.c: the token and the union that holds its value
-- agree, the text gets shorter, and the cursor of a query stays inside its text.
use fireflymediaserver.Prelude.{
  ℕ, ◌+◌, ◌≤◌, ◌≡◌, refl, Bool, true, false, [], ◌∷◌, Option, none, some, arith, length, ◌==◌,
  if◌then◌else◌, Bytes, inl, inr, Bool-cases, ==_iff,
}
use fireflymediaserver.CString.{has_byte}
use fireflymediaserver.SmartParser.Token.{Token, Hint, playlist, t_eof, t_error}
use fireflymediaserver.SmartParser.Tables.{sp_symbols, quotes}
use fireflymediaserver.SmartParser.State.{
  Env, Cursor, upto, past_end, ParseState, Outcome, done, overrun, offset,
}
use fireflymediaserver.SmartParser.Scan.{
  free_string, skip_blanks, find_symbol, scan_text, scan_from, scan_at, sp_scan, is_quoted,
  set_token_id, is_string_hint,
}
use fireflymediaserver.SmartParser.Scan.Words.{
  length-skip_blanks, agrees, text_left, weight, Scanned, Scanned-of, scan_word-Scanned,
}
use fireflymediaserver.SmartParser.Scan.Tables.{sp_symbols_lem, find_symbol_lem}

Scanned-le : (s : ParseState) (n m : ℕ) (s' : ParseState) → n ≤ m → Scanned s n s' → Scanned s m s'
Scanned-le s n m s' h r = record {
  progress = omega (arith, r.progress);
  agree = r.agree;
  inside = r.inside;
  same_list = r.same_list;
  same_term = r.same_term;
  same_tree = r.same_tree;
  same_error = r.same_error;
}

-- A token with no value of its own, at a cursor inside the text.
Scanned-set_token_id :
    (s : ParseState) (id n : ℕ) (r : Bytes) (s0 : ParseState)
    → s0.current ≡ upto r
    → length r + weight id ≤ n
    → agrees (record (s0.token) { token_id = id }) ≡ true
    → s0.token_list ≡ s.token_list
    → s0.term ≡ s.term
    → s0.tree ≡ s.tree
    → s0.error ≡ s.error
    → Scanned s n (set_token_id id s0)
Scanned-set_token_id s id n r s0 at fits ok list term tree error = record {
  progress = rw at fits;
  agree = ok;
  inside = λ e. cc (at, e);
  same_list = list;
  same_term = term;
  same_tree = tree;
  same_error = error;
}

if_both {ℓ κ} :
    {A : Type ℓ} (P : A → Type κ) (b : Bool) {x y : A} → P x → P y → P (if b then x else y)
if_both P true p q = p
if_both P false p q = q

scan_text-Scanned :
    (env : Env) (hint : Hint) (c : ℕ) (r : Bytes) (s : ParseState)
    → s.current ≡ upto (c ∷ r)
    → Scanned s (length (c ∷ r)) (scan_text env hint c r s)
unfolding scan_text
scan_text-Scanned env hint c r s here =
    let P = Scanned s (length (c ∷ r)) in
    let inner = Scanned-le s _ _ _ (omega arith) (scan_word-Scanned env hint true r s) in
    let refused =
      Scanned-set_token_id s t_error _ (c ∷ r) s here (omega arith) refl refl refl refl refl in
    if_both P (is_quoted s.token_list)
      (if_both P (is_string_hint hint) (if_both P (has_byte c (quotes s.token_list)) inner refused)
        (if_both P (has_byte c (quotes s.token_list)) inner
          (scan_word-Scanned env hint false (c ∷ r) s)))
      (scan_word-Scanned env hint (is_string_hint hint) (c ∷ r) s)

scan_symbol-Scanned :
    (env : Env) (hint : Hint) (c : ℕ) (r : Bytes) (s : ParseState) (found : Option (ℕ × Bytes))
    (text : ParseState)
    → find_symbol (sp_symbols s.token_list) (c ∷ r) ≡ found
    → Scanned s (length (c ∷ r)) text
    → Scanned s (length (c ∷ r)) (elim found [
      | none ↦ text
      | some (type, rest) ↦ set_token_id type (record s { current = upto rest })
    ])
scan_symbol-Scanned env hint c r s none text e h = h
scan_symbol-Scanned env hint c r s (some (type, rest)) text e h =
    let (shorter, solid, bare) =
      find_symbol_lem (sp_symbols s.token_list) (c ∷ r) type rest (sp_symbols_lem s.token_list) e in
    Scanned-set_token_id s type _ rest (record s { current = upto rest }) refl (ground arith)
      (ground arith) refl refl refl refl

scan_from-Scanned :
    (env : Env) (hint : Hint) (r : Bytes) (s : ParseState)
    → Scanned s (length r) (scan_from env hint r s)
unfolding scan_from
scan_from-Scanned env hint [] s =
    let s0 = record s { current = upto []; token_pos = offset s.term [] } in
    Scanned-set_token_id s t_eof 0 [] s0 refl (omega arith) refl refl refl refl refl
scan_from-Scanned env hint (c ∷ r) s =
    let s' = record s {
      current = upto (c ∷ r);
      token_pos = offset s.term (c ∷ r);
      in_string = is_string_hint hint;
    } in
    let text = scan_text-Scanned env hint c r s' refl in
    let symbol = scan_symbol-Scanned env hint c r s' _ _ refl text in
    Scanned-of s s' _ _ refl refl refl refl
      (if_both (Scanned s' (length (c ∷ r))) (is_string_hint hint) text symbol)

scan_at-Scanned :
    (env : Env) (hint : Hint) (r : Bytes) (s : ParseState)
    → Scanned s (length r) (scan_from env hint (skip_blanks r) s)
scan_at-Scanned env hint r s =
    Scanned-le s _ _ _ (length-skip_blanks r) (scan_from-Scanned env hint (skip_blanks r) s)

-- A scan reads behind the text, with the cursor of a playlist there, or returns.
pub data ScanPost (s : ParseState) : Outcome ParseState → Type 0 where
  scanned : {s' : ParseState} → Scanned s (text_left s.current) s' → ScanPost s (done s')
  ran_over : s.token_list ≡ playlist → ScanPost s overrun

-- What holds of the state between two scans.
pub record Ready (s : ParseState) : Type 0 where
  pub agree : agrees s.token ≡ true
  pub inside : s.current ≡ past_end → s.token_list ≡ playlist

scan_at-ScanPost :
    (env : Env) (hint : Hint) (c : Cursor) (s0 s : ParseState)
    → s.current ≡ c
    → (s.current ≡ past_end → s.token_list ≡ playlist)
    → s0.token_list ≡ s.token_list
    → s0.term ≡ s.term
    → s0.tree ≡ s.tree
    → s0.error ≡ s.error
    → ScanPost s (scan_at env hint c s0)
unfolding scan_at
scan_at-ScanPost env hint past_end s0 s here inside list term tree error = ran_over (inside here)
scan_at-ScanPost env hint (upto r) s0 s here inside list term tree error = scanned (
    Scanned-le s (length r) _ _ (rw here (omega arith))
      (Scanned-of s s0 _ _ list term tree error (scan_at-Scanned env hint r s0)))

free_string-eof :
    (t : Token)
    → (t.token_id == t_eof) ≡ true
    → (agrees (free_string t) ≡ true) × (weight (free_string t).token_id ≡ 0)
unfolding free_string
free_string-eof t e = let id = (==_iff t.token_id t_eof).0 e in (rw id refl, rw id refl)

sp_scan_eof :
    (env : Env) (hint : Hint) (s : ParseState)
    → (s.token.token_id == t_eof) ≡ true
    → sp_scan env hint s ≡ done (record s { token = free_string s.token })
unfolding sp_scan
sp_scan_eof env hint s e = rw e

pub sp_scan_more :
    (env : Env) (hint : Hint) (s : ParseState)
    → (s.token.token_id == t_eof) ≡ false
    → sp_scan env hint s ≡ scan_at env hint s.current (record s { token = free_string s.token })
unfolding sp_scan
sp_scan_more env hint s e = rw e

-- A scan returns a state in which the token and the union that holds its value agree, with no more
-- text left than before and less by the token's own, or it reads behind the text of a playlist.
pub sp_scan-ScanPost :
    (env : Env) (hint : Hint) (s : ParseState) → Ready s → ScanPost s (sp_scan env hint s)
sp_scan-ScanPost env hint s ready = elim (Bool-cases (s.token.token_id == t_eof)) [
  | inl eof ↦ rw (sp_scan_eof env hint s eof) (
      scanned (record {
        progress = omega (arith, (free_string-eof s.token eof).1);
        agree = (free_string-eof s.token eof).0;
        inside = ready.inside;
        same_list = refl;
        same_term = refl;
        same_tree = refl;
        same_error = refl;
      }))
  | inr more ↦
      rw (sp_scan_more env hint s more)
        (scan_at-ScanPost env hint s.current _ s refl ready.inside refl refl refl refl)
]
