-- ===== src/SmartParser/Parse/Expr.antt =====
-- Expressions: `sp_parse`, `sp_parse_phrase`, `sp_parse_oexpr`, `sp_parse_aexpr` and `sp_parse_expr` of
-- src/smart-parser.c. A node that is freed is a node that is not returned. The recursion and the two
-- loops take fuel, one unit to a call.
use fireflymediaserver.Prelude.{
  ℕ, zero, suc, ◌+◌, ◌*◌, Bool, true, false, ◌||◌, Option, none, some, ◌==◌, if◌then◌else◌, length,
  Bytes,
}
use fireflymediaserver.SmartParser.Token.{
  no_hint, QueryType, t_eof, t_bof, t_greaterand, t_open_paren, t_close_paren, t_and, t_or,
}
use fireflymediaserver.SmartParser.State.{
  done, out_of_fuel, Env, upto, Node, and_or, ParseState, sp_set_error, close, eos,
}
use fireflymediaserver.SmartParser.Scan.{sp_scan}
use fireflymediaserver.SmartParser.Parse.Criteria.{sp_parse_criterion}
use fireflymediaserver.SmartParser.Parse.Monad.{Parser, pure, ◌>>=◌, ◌>>◌, scan, token_id, refuse}

-- `pnew`, which is freed where its right side is NULL.
abbrev pub join : ℕ → Node → Option Node → Option Node
join op left none = none
join op left (some right) = some (and_or left op right)

-- Behind "(" oexpr.
unfoldable pub close_paren : Env → Option Node → Parser (Option Node)
close_paren env none = refuse close
close_paren env (some e) = do
  id ← token_id
  if id == t_close_paren then (do scan env no_hint; pure (some e)) else refuse close

-- `or_rest` and `and_rest` are the loops of `sp_parse_oexpr` and `sp_parse_aexpr`.
unfoldable mutual
  unfolding sp_parse_criterion close_paren

  pub sp_parse_oexpr : Env → ℕ → Parser (Option Node)
  sp_parse_oexpr env zero s = out_of_fuel
  sp_parse_oexpr env (suc fuel) s = (do e ← sp_parse_aexpr env fuel; or_rest env fuel e) s

  pub or_rest : Env → ℕ → Option Node → Parser (Option Node)
  or_rest env zero e s = out_of_fuel
  or_rest env (suc fuel) none s = done (none, s)
  or_rest env (suc fuel) (some e) s = elim (s.token.token_id == t_or) [
    | true ↦
        (do scan env no_hint; right ← sp_parse_aexpr env fuel; or_rest env fuel (join t_or e right))
          s
    | false ↦ done (some e, s)
  ]

  pub sp_parse_aexpr : Env → ℕ → Parser (Option Node)
  sp_parse_aexpr env zero s = out_of_fuel
  sp_parse_aexpr env (suc fuel) s = (do e ← sp_parse_expr env fuel; and_rest env fuel e) s

  pub and_rest : Env → ℕ → Option Node → Parser (Option Node)
  and_rest env zero e s = out_of_fuel
  and_rest env (suc fuel) none s = done (none, s)
  and_rest env (suc fuel) (some e) s =
      elim (s.token.token_id == t_and || s.token.token_id == t_greaterand) [
        | true ↦
            (do
              scan env no_hint
              right ← sp_parse_expr env fuel
              and_rest env fuel (join t_and e right))
              s
        | false ↦ done (some e, s)
      ]

  pub sp_parse_expr : Env → ℕ → Parser (Option Node)
  sp_parse_expr env zero s = out_of_fuel
  sp_parse_expr env (suc fuel) s = elim (s.token.token_id == t_open_paren) [
    | true ↦ (do scan env no_hint; e ← sp_parse_oexpr env fuel; close_paren env e) s
    | false ↦ sp_parse_criterion s.token_list env fuel s
  ]

-- "if(!tree->error) sp_set_error": an older message stays.
abbrev pub keep_error : Option Bytes → ParseState → ParseState
keep_error none s = sp_set_error eos s
keep_error (some e) s = s

unfoldable pub end_phrase : Option Node → Parser (Option Node)
end_phrase none s = done (none, keep_error s.error s)
end_phrase (some e) s =
    if s.token.token_id == t_eof then done (some e, s) else done (none, keep_error s.error s)

unfoldable pub sp_parse_phrase : Env → ℕ → Parser (Option Node)
unfolding sp_parse_oexpr end_phrase
sp_parse_phrase env fuel = do e ← sp_parse_oexpr env fuel; end_phrase e

abbrev pub parse_fuel : Bytes → ℕ
parse_fuel term = 4 * length term + 7

-- `tree->tree ? 1 : 0`.
abbrev pub is_parsed : Option Node → Bool
is_parsed none = false
is_parsed (some e) = true

-- The first scan, and the phrase.
unfoldable pub parse_text : Env → Bytes → Parser (Option Node)
unfolding sp_parse_phrase sp_scan
parse_text env text = do scan env no_hint; sp_parse_phrase env (parse_fuel text)

-- `tree->tree = …`, and the result.
unfoldable pub store_tree : Option Node → Parser Bool
store_tree e s = done (is_parsed e, record s { tree = e })

unfoldable pub sp_parse : Env → Bytes → QueryType → Parser Bool
unfolding parse_text store_tree
sp_parse env text list s = (parse_text env text >>= store_tree) (record s {
  term = text;
  current = upto text;
  token = record (s.token) { token_id = t_bof };
  token_list = list;
  tree = none;
})
