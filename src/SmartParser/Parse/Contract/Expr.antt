-- ===== src/SmartParser/Parse/Contract/Expr.antt =====
-- The expressions of src/smart-parser.c meet their contract, with fuel above four times what is left
-- of the text.
use fireflymediaserver.Prelude.{
  ℕ, zero, suc, ◌+◌, ◌*◌, ◌<◌, ◌≡◌, refl, true, ◌||◌, Option, none, some, arith, ◌==◌,
}
use fireflymediaserver.SmartParser.Token.{
  t_or, t_and, t_greaterand, t_open_paren, t_close_paren, no_hint,
}
use fireflymediaserver.SmartParser.State.{Env, ParseState, Node, close}
use fireflymediaserver.SmartParser.Tree.{well_formed}
use fireflymediaserver.SmartParser.Scan.Words.{text_left, weight, left}
use fireflymediaserver.SmartParser.Scan.Invariant.{Ready}
use fireflymediaserver.SmartParser.Parse.Expr.{
  sp_parse_oexpr, or_rest, sp_parse_aexpr, and_rest, sp_parse_expr, close_paren, join,
}
use fireflymediaserver.SmartParser.Parse.Contract.{
  Run, Parsed, Run-le, Run-pure, Run-if, Run-elim, Run-bind, Run-scan, Run-refuse,
}
use fireflymediaserver.SmartParser.Parse.Contract.Dates.{Run-scan_le}
use fireflymediaserver.SmartParser.Parse.Contract.Criteria.{sp_parse_criterion-Run}

weight_or : (id : ℕ) → (id == t_or) ≡ true → weight id ≡ 1
weight_or id h = ground arith

weight_and : (id : ℕ) → (id == t_and || id == t_greaterand) ≡ true → weight id ≡ 1
weight_and id h = ground arith

weight_open : (id : ℕ) → (id == t_open_paren) ≡ true → weight id ≡ 1
weight_open id h = ground arith

-- A joined node is well formed; without a right side there is the right side's error.
Parsed-join :
    (op : ℕ) (e : Node) (right : Option Node) (s : ParseState)
    → (op == t_and || op == t_or) ≡ true
    → well_formed e ≡ true
    → Parsed right s
    → Parsed (join op e right) s
unfolding well_formed
Parsed-join op e none s o h q = q
Parsed-join op e (some right) s o h q = ground arith

close_paren-Run :
    (env : Env) (e : Option Node) (s : ParseState)
    → Ready s
    → Parsed e s
    → Run s (left s) Parsed (close_paren env e s)
unfolding close_paren
close_paren-Run env none s r h = Run-refuse s close r
close_paren-Run env (some e) s r h =
    Run-if (s.token.token_id == t_close_paren) _ _
      (λ t. Run-bind _ (Run-scan_le env s r) λ a s1 h1 q. Run-pure s1 h1.ready h)
      (λ f. Run-refuse s close r)

mutual
  unfolding sp_parse_oexpr

  oexpr-Run :
      (env : Env) (fuel : ℕ) (s : ParseState)
      → Ready s
      → 4 * left s + 3 < fuel
      → Run s (left s) Parsed (sp_parse_oexpr env fuel s)
  oexpr-Run env zero s r f = absurd (omega arith)
  oexpr-Run env (suc fuel) s r f =
      Run-bind _ (aexpr-Run env fuel s r (omega arith))
        λ e s1 h1 q. or_rest-Run env fuel e s1 h1.ready q (omega (arith, h1.progress))

  or_rest-Run :
      (env : Env) (fuel : ℕ) (e : Option Node) (s : ParseState)
      → Ready s
      → Parsed e s
      → 4 * left s < fuel
      → Run s (left s) Parsed (or_rest env fuel e s)
  or_rest-Run env zero e s r h f = absurd (omega arith)
  or_rest-Run env (suc fuel) none s r h f = Run-pure s r h
  or_rest-Run env (suc fuel) (some e) s r h f =
      Run-elim (s.token.token_id == t_or) _ _
        (λ t. Run-le (text_left s.current) (omega arith) (
          Run-bind _ (Run-scan env no_hint s r) λ a s1 h1 q1.
            Run-bind _
              (aexpr-Run env fuel s1 h1.ready
                (omega (arith, h1.progress, weight_or s.token.token_id t)))
              λ right s2 h2 q2.
                or_rest-Run env fuel (join t_or e right) s2 h2.ready
                  (Parsed-join t_or e right s2 refl h q2)
                  (omega (arith, h1.progress, h2.progress, weight_or s.token.token_id t))))
        (λ t. Run-pure s r h)

  aexpr-Run :
      (env : Env) (fuel : ℕ) (s : ParseState)
      → Ready s
      → 4 * left s + 2 < fuel
      → Run s (left s) Parsed (sp_parse_aexpr env fuel s)
  aexpr-Run env zero s r f = absurd (omega arith)
  aexpr-Run env (suc fuel) s r f =
      Run-bind _ (expr-Run env fuel s r (omega arith))
        λ e s1 h1 q. and_rest-Run env fuel e s1 h1.ready q (omega (arith, h1.progress))

  and_rest-Run :
      (env : Env) (fuel : ℕ) (e : Option Node) (s : ParseState)
      → Ready s
      → Parsed e s
      → 4 * left s < fuel
      → Run s (left s) Parsed (and_rest env fuel e s)
  and_rest-Run env zero e s r h f = absurd (omega arith)
  and_rest-Run env (suc fuel) none s r h f = Run-pure s r h
  and_rest-Run env (suc fuel) (some e) s r h f =
      Run-elim (s.token.token_id == t_and || s.token.token_id == t_greaterand) _ _
        (λ t. Run-le (text_left s.current) (omega arith) (
          Run-bind _ (Run-scan env no_hint s r) λ a s1 h1 q1.
            Run-bind _
              (expr-Run env fuel s1 h1.ready
                (omega (arith, h1.progress, weight_and s.token.token_id t)))
              λ right s2 h2 q2.
                and_rest-Run env fuel (join t_and e right) s2 h2.ready
                  (Parsed-join t_and e right s2 refl h q2)
                  (omega (arith, h1.progress, h2.progress, weight_and s.token.token_id t))))
        (λ t. Run-pure s r h)

  expr-Run :
      (env : Env) (fuel : ℕ) (s : ParseState)
      → Ready s
      → 4 * left s + 1 < fuel
      → Run s (left s) Parsed (sp_parse_expr env fuel s)
  expr-Run env zero s r f = absurd (omega arith)
  expr-Run env (suc fuel) s r f =
      Run-elim (s.token.token_id == t_open_paren) _ _
        (λ t. Run-le (text_left s.current) (omega arith) (
          Run-bind _ (Run-scan env no_hint s r) λ a s1 h1 q1.
            Run-bind _
              (oexpr-Run env fuel s1 h1.ready
                (omega (arith, h1.progress, weight_open s.token.token_id t)))
              λ e s2 h2 q2. close_paren-Run env e s2 h2.ready q2))
        (λ t. sp_parse_criterion-Run s.token_list env fuel s r (omega arith))

-- With fuel above four times what is left, `sp_parse_oexpr` meets its contract.
pub sp_parse_oexpr-Run :
    (env : Env) (fuel : ℕ) (s : ParseState)
    → Ready s
    → 4 * left s + 3 < fuel
    → Run s (left s) Parsed (sp_parse_oexpr env fuel s)
sp_parse_oexpr-Run = oexpr-Run
