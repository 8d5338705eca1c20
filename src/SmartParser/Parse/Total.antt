-- ===== src/SmartParser/Parse/Total.antt =====
-- `sp_parse` of src/smart-parser.c as a whole: how every run ends.
use fireflymediaserver.Prelude.{
  if_cases, ==_iff, ℕ, ◌≤◌, ◌≡◌, refl, Bool, true, false, Option, none, some, arith, ◌==◌, Bytes,
  length,
}
use fireflymediaserver.SmartParser.Token.{QueryType, playlist, query, t_eof, t_bof, no_hint}
use fireflymediaserver.SmartParser.State.{
  Env, ParseState, Outcome, done, overrun, underrun, Node, upto, eos, sp_set_error,
}
use fireflymediaserver.SmartParser.State
use fireflymediaserver.SmartParser.Tree.{well_formed}
use fireflymediaserver.SmartParser.Scan.Words.{left, text_left}
use fireflymediaserver.SmartParser.Scan.Invariant.{Ready}
use fireflymediaserver.SmartParser.Parse.Expr.{
  end_phrase, keep_error, sp_parse_phrase, parse_text, store_tree, parse_fuel, sp_parse,
}
use fireflymediaserver.SmartParser.Parse.Contract.{
  After, After-refl, Run, Parsed, has_error, returned, over, under, Run-bind, Run-scan,
  Run-set_error,
}
use fireflymediaserver.SmartParser.Parse.Contract.Expr.{sp_parse_oexpr-Run}

-- The ends that a call of `sp_parse` on a list of tokens may come to. 1 is returned with a tree that
-- can be evaluated and the text read to its end, 0 with no tree and a message. Behind the text's NUL only a playlist is read, and
-- before a string only a query. There is no other end: not out of fuel, no E_FATAL, no bad read.
abbrev pub Settles : QueryType → Outcome (Bool × ParseState) → Type 0
Settles list (done (true, s)) =
    (e : Node) × (s.tree ≡ some e) × (well_formed e ≡ true) × (s.token.token_id ≡ t_eof)
Settles list (done (false, s)) = (s.tree ≡ none) × (has_error s.error ≡ true)
Settles list overrun = list ≡ playlist
Settles list underrun = list ≡ query
Settles list other = ⊥

-- At the end of a phrase: a tree at T_EOF, or a message.
abbrev AtEnd : Option Node → ParseState → Type 0
AtEnd none s = has_error s.error ≡ true
AtEnd (some e) s = (well_formed e ≡ true) × (s.token.token_id ≡ t_eof)

keep_error-Run :
    (o : Option Bytes) (s : ParseState)
    → s.error ≡ o
    → Ready s
    → After s (left s) (keep_error o s) × (has_error (keep_error o s).error ≡ true)
keep_error-Run none s e r = Run-set_error s eos r
keep_error-Run (some m) s e r = (After-refl s r, rw e refl)

end_phrase-Run :
    (e : Option Node) (s : ParseState)
    → Ready s
    → Parsed e s
    → Run s (left s) AtEnd (end_phrase e s)
unfolding end_phrase
end_phrase-Run none s r h = returned (keep_error-Run s.error s refl r)
end_phrase-Run (some e) s r h =
    if_cases (Run s (left s) AtEnd) (s.token.token_id == t_eof)
      (λ eof. returned (After-refl s r, (h, (==_iff s.token.token_id t_eof).0 eof)))
      (λ more. returned (keep_error-Run s.error s refl r))

-- The fuel that `sp_parse` hands out is enough for its text.
phrase-Run :
    (env : Env) (text : Bytes) (s : ParseState)
    → Ready s
    → left s ≤ length text
    → Run s (left s) AtEnd (sp_parse_phrase env (parse_fuel text) s)
unfolding sp_parse_phrase
phrase-Run env text s r h =
    Run-bind _ (sp_parse_oexpr-Run env (parse_fuel text) s r (omega arith))
      λ e s1 h1 q. end_phrase-Run e s1 h1.ready q

parse_text-Run :
    (env : Env) (text : Bytes) (s : ParseState)
    → Ready s
    → text_left s.current ≤ length text
    → Run s (text_left s.current) AtEnd (parse_text env text s)
unfolding parse_text
parse_text-Run env text s r h =
    Run-bind _ (Run-scan env no_hint s r)
      λ a s1 h1 q. phrase-Run env text s1 h1.ready (omega (arith, h1.progress))

store_tree-Settles :
    {s : ParseState} {n : ℕ} {r : Outcome (Option Node × ParseState)}
    → Run s n AtEnd r
    → Settles s.token_list (State.◌>>=◌ r (λ (e, s1). store_tree e s1))
unfolding store_tree
store_tree-Settles (returned {a = none} (h, q)) = (refl, q)
store_tree-Settles (returned {a = some e} (h, q)) = (e, refl, q.0, q.1)
store_tree-Settles (over e) = e
store_tree-Settles (under e) = e

-- Every call of `sp_parse`, on any text and in any state, settles: it returns 1 with a tree that is
-- well formed, having read the text to its end, or it returns 0 with no tree and with a message; or,
-- for a playlist, it reads behind the text's NUL; or, for a query, it reads before the first byte of
-- a string. It does nothing else: it terminates, no read of the token's union mismatches what was
-- stored there, and no E_FATAL ends the server.
pub sp_parse-Settles :
    (env : Env) (text : Bytes) (list : QueryType) (s : ParseState)
    → Settles list (sp_parse env text list s)
unfolding sp_parse
sp_parse-Settles env text list s = store_tree-Settles (
    parse_text-Run env text
      (record s {
        term = text;
        current = upto text;
        token = record (s.token) { token_id = t_bof };
        token_list = list;
        tree = none;
      })
      (record { agree = refl; inside = λ e. cc }) (omega arith))
