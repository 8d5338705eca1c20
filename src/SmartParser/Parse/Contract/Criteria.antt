-- ===== src/SmartParser/Parse/Contract/Criteria.antt =====
-- The functions for one criterion in src/smart-parser.c meet their contract: a node that they return
-- is well formed, and for NULL they set an error.
use fireflymediaserver.Prelude.{
  ℕ, ◌<◌, ◌≡◌, refl, Bool, true, [], ◌∷◌, Option, none, some, arith, ◌==◌, Bytes, ==_iff,
}
use fireflymediaserver.Prelude.Int.{is_zero}
use fireflymediaserver.SmartParser.Token.{
  Token, TokenData, cvalue, holds_string, QueryType, playlist, query, t_number, t_not, t_string,
  t_string_field, t_int_field, t_date_field, t_exprquote, string_hint, int_hint,
}
use fireflymediaserver.SmartParser.State.{
  Env, ParseState, Outcome, done, Node, strcmp, openquote, intcmp, number, datecmp, field,
  exprquote, criterion, date, int, string,
}
use fireflymediaserver.SmartParser.State
use fireflymediaserver.SmartParser.Tree.{well_formed, is_match, is_compare, is_order}
use fireflymediaserver.SmartParser.Scan.Words.{agrees, text_left, left}
use fireflymediaserver.SmartParser.Scan.Invariant.{Ready}
use fireflymediaserver.SmartParser.Parse.Monad.{Parser, lift}
use fireflymediaserver.SmartParser.Parse.Dates.{string_of}
use fireflymediaserver.SmartParser.Parse.Criteria.{
  parse_not, is_string_op, int_op, date_op, leading_star, trailing_star, wildcards, string_value,
  sp_parse_string_criterion, int_value, int_compare, sp_parse_int_criterion, date_compare,
  sp_parse_date_criterion, criterion_body, expect_exprquote, sp_parse_criterion,
}
use fireflymediaserver.SmartParser.Parse.Contract.{
  After, Run, Any, Parsed, Run-le, Run-pure, Run-lift, Run-if, Run-bind, Run-scan, Run-refuse,
  returned, under, After-refl, Parsed-After,
}
use fireflymediaserver.SmartParser.Parse.Contract.Dates.{
  Run-scan_le, number_payload, sp_parse_date-Run,
}

string_payload :
    (t : Token) (k : ℕ)
    → holds_string k ≡ true
    → agrees t ≡ true
    → (t.token_id == k) ≡ true
    → (w : Bytes) × (string_of t.payload ≡ done w)
string_payload t k holds h e = go t.payload (rw ((==_iff t.token_id k).0 e) at h)
  where
    go :
        (d : TokenData)
        → agrees (record { token_id = k; field_id = 0; payload = d }) ≡ true
        → (w : Bytes) × (string_of d ≡ done w)
    go (cvalue w) h = (w, unfold string_of in refl)
    go other h = absurd (ground arith)

parse_not-Run : (env : Env) (s : ParseState) → Ready s → Run s (left s) Any (parse_not env s)
unfolding parse_not
parse_not-Run env s r =
    Run-if (s.token.token_id == t_not) _ _
      (λ e. Run-bind _ (Run-scan_le env s r) λ a s1 h q. Run-pure s1 h.ready tt)
      (λ e. Run-pure s r tt)

trailing_star-Run :
    (s : ParseState) (op : ℕ) (text : Bytes)
    → Ready s
    → s.token_list ≡ query
    → is_match op ≡ true
    → Run s (left s) (λ r s'. is_match r.0 ≡ true) (lift (trailing_star op text) s)
unfolding trailing_star
trailing_star-Run s op [] r l h = under l
trailing_star-Run s op (c ∷ text) r l h = returned (After-refl s r, ground arith)

leading_star-is_match :
    (op : ℕ) (text : Bytes) → is_match op ≡ true → is_match (leading_star op text).0 ≡ true
unfolding leading_star
leading_star-is_match op [] h = h
leading_star-is_match op (c ∷ text) h = ground arith

wildcards-Run :
    (list : QueryType) (s : ParseState) (op : ℕ) (text : Bytes)
    → Ready s
    → s.token_list ≡ list
    → is_match op ≡ true
    → Run s (left s) (λ r s'. is_match r.0 ≡ true) (lift (wildcards list op text) s)
wildcards-Run playlist s op text r l h = unfold wildcards in returned (After-refl s r, h)
wildcards-Run query s op text r l h =
    unfold wildcards in
    trailing_star-Run s (leading_star op text).0 (leading_star op text).1 r l
      (leading_star-is_match op text h)

string_value-Run :
    (name : Bytes) (k : ℕ) (negated : Bool) (op : ℕ) (env : Env) (s : ParseState)
    → Ready s
    → is_match op ≡ true
    → Run s (left s) Parsed (string_value name k negated op env s)
unfolding string_value
string_value-Run name k negated op env s r h =
    Run-if (s.token.token_id == t_string) _ _
      (λ e.
        Run-bind _ (Run-lift s r (string_payload s.token t_string refl r.agree e)) λ text s1 h1 q.
          Run-bind _ (wildcards-Run s.token_list s1 op text h1.ready h1.same_list h)
            λ (op', text') s2 h2 q2.
              Run-bind _ (Run-scan_le env s2 h2.ready)
                λ a s3 h3 q3. Run-pure s3 h3.ready (unfold well_formed in q2))
      (λ e. Run-refuse s openquote r)

string_op-is_match : (op : ℕ) → is_string_op op ≡ true → is_match op ≡ true
unfolding is_string_op
string_op-is_match op h = ground arith

sp_parse_string_criterion-Run :
    (env : Env) (s : ParseState)
    → Ready s
    → (s.token.token_id == t_string_field) ≡ true
    → Run s (left s) Parsed (sp_parse_string_criterion env s)
unfolding sp_parse_string_criterion
sp_parse_string_criterion-Run env s r e =
    Run-bind _ (Run-lift s r (string_payload s.token t_string_field refl r.agree e)) λ name s1 h1 q.
      Run-bind _ (Run-scan_le env s1 h1.ready) λ a s2 h2 q2.
        Run-bind _ (parse_not-Run env s2 h2.ready) λ negated s3 h3 q3.
          Run-if (is_string_op s3.token.token_id) _ _
            (λ op. Run-le (text_left s3.current) (omega arith) (
              Run-bind _ (Run-scan env string_hint s3 h3.ready) λ a s4 h4 q4.
                string_value-Run name s.token.field_id negated s3.token.token_id env s4 h4.ready
                  (string_op-is_match s3.token.token_id op)))
            (λ bad. Run-refuse s3 strcmp h3.ready)

int_value-Run :
    (name : Bytes) (k : ℕ) (negated : Bool) (op : ℕ) (env : Env) (s : ParseState)
    → Ready s
    → is_compare op ≡ true
    → Run s (left s) Parsed (int_value name k negated op env s)
unfolding int_value
int_value-Run name k negated op env s r h =
    Run-if (s.token.token_id == t_number) _ _
      (λ e. Run-bind _ (Run-lift s r (number_payload s.token r.agree e)) λ n s1 h1 q.
        Run-bind _ (Run-scan_le env s1 h1.ready)
          λ a s2 h2 q2. Run-pure s2 h2.ready (unfold well_formed in h))
      (λ e. Run-refuse s number r)

-- The operators that are stored are those that the evaluation knows.
abbrev Stores : (ℕ → Bool) → Option ℕ → Type 0
Stores known none = Unit
Stores known (some op) = known op ≡ true

int_op-Stores : (id : ℕ) → Stores is_compare (int_op id)
unfolding int_op
int_op-Stores id = ground arith

date_op-Stores : (id : ℕ) → Stores is_order (date_op id)
unfolding date_op
date_op-Stores id = ground arith

int_compare-Run :
    (name : Bytes) (k : ℕ) (negated : Bool) (op : Option ℕ) (env : Env) (s : ParseState)
    → Ready s
    → Stores is_compare op
    → Run s (left s) Parsed (int_compare name k negated op env s)
unfolding int_compare
int_compare-Run name k negated none env s r h = Run-refuse s intcmp r
int_compare-Run name k negated (some op) env s r h = Run-le (text_left s.current) (omega arith) (
    Run-bind _ (Run-scan env int_hint s r)
      λ a s1 h1 q. int_value-Run name k negated op env s1 h1.ready h)

sp_parse_int_criterion-Run :
    (env : Env) (s : ParseState)
    → Ready s
    → (s.token.token_id == t_int_field) ≡ true
    → Run s (left s) Parsed (sp_parse_int_criterion env s)
unfolding sp_parse_int_criterion
sp_parse_int_criterion-Run env s r e =
    Run-bind _ (Run-lift s r (string_payload s.token t_int_field refl r.agree e)) λ name s1 h1 q.
      Run-bind _ (Run-scan_le env s1 h1.ready) λ a s2 h2 q2.
        Run-bind _ (parse_not-Run env s2 h2.ready) λ negated s3 h3 q3.
          int_compare-Run name s.token.field_id negated _ env s3 h3.ready
            (int_op-Stores s3.token.token_id)

date_compare-Run :
    (name : Bytes) (k : ℕ) (negated : Bool) (op : Option ℕ) (env : Env) (fuel : ℕ) (s : ParseState)
    → Ready s
    → Stores is_order op
    → left s < fuel
    → Run s (left s) Parsed (date_compare name k negated op env fuel s)
unfolding date_compare
date_compare-Run name k negated none env fuel s r h f = Run-refuse s datecmp r
date_compare-Run name k negated (some op) env fuel s r h f =
    Run-bind _ (Run-scan_le env s r) λ a s1 h1 q.
      Run-bind _ (sp_parse_date-Run env fuel s1 h1.ready (omega (arith, h1.progress))) λ t s2 h2 q2.
        Run-if (is_zero t) _ _ (λ e. Run-refuse s2 State.date h2.ready)
          (λ e. Run-pure s2 h2.ready (unfold well_formed in h))

sp_parse_date_criterion-Run :
    (env : Env) (fuel : ℕ) (s : ParseState)
    → Ready s
    → (s.token.token_id == t_date_field) ≡ true
    → left s < fuel
    → Run s (left s) Parsed (sp_parse_date_criterion env fuel s)
unfolding sp_parse_date_criterion
sp_parse_date_criterion-Run env fuel s r e f =
    Run-bind _ (Run-lift s r (string_payload s.token t_date_field refl r.agree e)) λ name s1 h1 q.
      Run-bind _ (Run-scan_le env s1 h1.ready) λ a s2 h2 q2.
        Run-bind _ (parse_not-Run env s2 h2.ready) λ negated s3 h3 q3.
          date_compare-Run name s.token.field_id negated _ env fuel s3 h3.ready
            (date_op-Stores s3.token.token_id)
            (omega (arith, h1.progress, h2.progress, h3.progress))

criterion_body-Run :
    (env : Env) (fuel : ℕ) (s : ParseState)
    → Ready s
    → left s < fuel
    → Run s (left s) Parsed (criterion_body env fuel s)
unfolding criterion_body
criterion_body-Run env fuel s r f =
    Run-if (s.token.token_id == t_string_field) _ _ (sp_parse_string_criterion-Run env s r) (λ e.
      Run-if (s.token.token_id == t_int_field) _ _ (sp_parse_int_criterion-Run env s r) (λ e.
        Run-if (s.token.token_id == t_date_field) _ _
          (λ e. sp_parse_date_criterion-Run env fuel s r e f) (λ e. Run-refuse s field r)))

expect_exprquote-Run :
    (env : Env) (next : Parser (Option Node)) (s : ParseState)
    → Ready s
    → ((s1 : ParseState) → After s (left s) s1 → Run s1 (left s1) Parsed (next s1))
    → Run s (left s) Parsed (expect_exprquote env next s)
unfolding expect_exprquote
expect_exprquote-Run env next s r k =
    Run-if (s.token.token_id == t_exprquote) _ _
      (λ e. Run-bind _ (Run-scan_le env s r) λ a s1 h1 q. k s1 h1) (λ e. Run-refuse s exprquote r)

-- With fuel above what is left, `sp_parse_criterion` meets its contract.
pub sp_parse_criterion-Run :
    (list : QueryType) (env : Env) (fuel : ℕ) (s : ParseState)
    → Ready s
    → left s < fuel
    → Run s (left s) Parsed (sp_parse_criterion list env fuel s)
sp_parse_criterion-Run playlist env fuel s r f =
    unfold sp_parse_criterion in criterion_body-Run env fuel s r f
sp_parse_criterion-Run query env fuel s r f =
    unfold sp_parse_criterion in
    expect_exprquote-Run env _ s r λ s1 h1.
      Run-bind _ (criterion_body-Run env fuel s1 h1.ready (omega (arith, h1.progress)))
        λ e s2 h2 q2.
          expect_exprquote-Run env _ s2 h2.ready
            λ s3 h3. Run-pure s3 h3.ready (Parsed-After e h3 q2)
