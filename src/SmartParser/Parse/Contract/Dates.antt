-- ===== src/SmartParser/Parse/Contract/Dates.antt =====
-- The date functions of src/smart-parser.c meet their contract: `sp_parse_date` returns within fuel
-- above what is left of the text.
use fireflymediaserver.Prelude.{
  ℕ, zero, suc, ◌<◌, ◌≡◌, refl, Bool, true, false, not, ◌&&◌, Option, none, some, arith, ◌==◌,
  ==_iff,
}
use fireflymediaserver.Prelude.Int.{ℤ, is_zero}
use fireflymediaserver.SmartParser.Token.{
  Token, TokenData, ivalue, tvalue, t_number, t_date, t_today, t_before, t_after, no_hint,
}
use fireflymediaserver.SmartParser.State.{
  Env, ParseState, Outcome, done, timeinterval, number, beforeafter,
}
use fireflymediaserver.SmartParser.Scan.Words.{agrees, text_left, weight, left}
use fireflymediaserver.SmartParser.Scan.Invariant.{Ready}
use fireflymediaserver.SmartParser.Parse.Monad.{Parser, pure, scan}
use fireflymediaserver.SmartParser.Parse.Dates.{
  number_of, date_of, interval_unit, interval_of, sp_parse_date_interval, date_start, relative_date,
  sp_parse_date,
}
use fireflymediaserver.SmartParser.Parse.Contract.{
  Run, Any, Run-le, Run-pure, Run-lift, Run-if, Run-bind, Run-scan, Run-set_error, returned,
}

pub number_payload :
    (t : Token)
    → agrees t ≡ true
    → (t.token_id == t_number) ≡ true
    → (n : ℕ) × (number_of t.payload ≡ done n)
number_payload t h e = go t.payload (rw ((==_iff t.token_id t_number).0 e) at h)
  where
    go :
        (d : TokenData)
        → agrees (record { token_id = t_number; field_id = 0; payload = d }) ≡ true
        → (n : ℕ) × (number_of d ≡ done n)
    go (ivalue n) h = (n, unfold number_of in refl)
    go other h = cc

date_payload :
    (t : Token)
    → agrees t ≡ true
    → (t.token_id == t_date) ≡ true
    → (d : ℤ) × (date_of t.payload ≡ done d)
date_payload t h e = go t.payload (rw ((==_iff t.token_id t_date).0 e) at h)
  where
    go :
        (d : TokenData)
        → agrees (record { token_id = t_date; field_id = 0; payload = d }) ≡ true
        → (r : ℤ) × (date_of d ≡ done r)
    go (tvalue r) h = (r, unfold date_of in refl)
    go other h = cc

-- A scan, with what was left before it as the bound.
pub Run-scan_le : (env : Env) (s : ParseState) → Ready s → Run s (left s) Any (scan env no_hint s)
Run-scan_le env s r = Run-le (text_left s.current) (omega arith) (Run-scan env no_hint s r)

interval_of-Run :
    (env : Env) (count : ℕ) (unit : Option ℕ) (s : ParseState)
    → Ready s
    → Run s (left s) Any (interval_of env count unit s)
unfolding interval_of
interval_of-Run env count none s r = returned ((Run-set_error s timeinterval r).0, tt)
interval_of-Run env count (some k) s r =
    Run-bind _ (Run-scan_le env s r) λ a s1 h q. Run-pure s1 h.ready tt

sp_parse_date_interval-Run :
    (env : Env) (s : ParseState) → Ready s → Run s (left s) Any (sp_parse_date_interval env s)
unfolding sp_parse_date_interval
sp_parse_date_interval-Run env s r =
    Run-if (s.token.token_id == t_number) _ _
      (λ e. Run-bind _ (Run-lift s r (number_payload s.token r.agree e)) λ n s1 h q.
        Run-bind _ (Run-scan_le env s1 h.ready)
          λ a s2 h2 q2. interval_of-Run env n (interval_unit s2.token.token_id) s2 h2.ready)
      (λ e. returned ((Run-set_error s number r).0, tt))

date_start-Run : (env : Env) (s : ParseState) → Ready s → Run s (left s) Any (date_start env s)
unfolding date_start
date_start-Run env s r =
    Run-if (s.token.token_id == t_today) _ _
      (λ e. Run-bind _ (Run-scan_le env s r) λ a s1 h q. Run-pure s1 h.ready tt)
      (λ e.
        Run-if (s.token.token_id == t_date) _ _
          (λ e. Run-bind _ (Run-lift s r (date_payload s.token r.agree e)) λ d s1 h q.
            Run-bind _ (Run-scan_le env s1 h.ready) λ a s2 h2 q2. Run-pure s2 h2.ready tt)
          (λ e. Run-pure s r tt))

weight_ends : (id : ℕ) → (not (id == t_before) && not (id == t_after)) ≡ false → weight id ≡ 1
weight_ends id h = ground arith

-- `later` is called with less left than at the start.
relative_date-Run :
    (env : Env) (later : ParseState → Outcome (ℤ × ParseState)) (s : ParseState)
    → Ready s
    → ((s1 : ParseState) → Ready s1 → left s1 < left s → Run s1 (left s1) Any (later s1))
    → Run s (left s) Any (relative_date env later s)
unfolding relative_date
relative_date-Run env later s r ih =
    Run-bind _ (sp_parse_date_interval-Run env s r) λ interval s1 h q.
      Run-if (is_zero interval) _ _ (λ e. Run-pure s1 h.ready tt)
        (λ e.
          Run-if (not (s1.token.token_id == t_before) && not (s1.token.token_id == t_after)) _ _
            (λ e. returned ((Run-set_error s1 beforeafter h.ready).0, tt))
            (λ solid. Run-le (text_left s1.current) (omega arith) (
              Run-bind _ (Run-scan env no_hint s1 h.ready) λ a s2 h2 q2.
                Run-bind _
                  (ih s2 h2.ready
                    (omega (arith, h.progress, h2.progress, weight_ends s1.token.token_id solid)))
                  λ result s3 h3 q3. Run-pure s3 h3.ready tt)))

start-Run :
    (env : Env) (later : ParseState → Outcome (ℤ × ParseState)) (b : Bool) (result : ℤ)
    (s : ParseState)
    → Ready s
    → ((s1 : ParseState) → Ready s1 → left s1 < left s → Run s1 (left s1) Any (later s1))
    → Run s
        (left s)
        Any
        ((elim b as (λ x. Parser ℤ) [ true ↦ relative_date env later | false ↦ pure result ]) s)
start-Run env later true result s r ih = relative_date-Run env later s r ih
start-Run env later false result s r ih = Run-pure s r tt

-- With fuel above what is left, `sp_parse_date` returns, or reads behind the text of a playlist.
pub sp_parse_date-Run :
    (env : Env) (fuel : ℕ) (s : ParseState)
    → Ready s
    → left s < fuel
    → Run s (left s) Any (sp_parse_date env fuel s)
unfolding sp_parse_date
sp_parse_date-Run env zero s r h = absurd (omega arith)
sp_parse_date-Run env (suc fuel) s r h = Run-bind _ (date_start-Run env s r) λ result s1 h1 q.
    start-Run env (sp_parse_date env fuel) (is_zero result) result s1 h1.ready
      λ s2 r2 less. sp_parse_date-Run env fuel s2 r2 (omega (arith, h1.progress))
