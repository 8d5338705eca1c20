-- ===== src/SmartParser/Parse/Criteria.antt =====
-- One criterion: `sp_parse_criterion` and the functions for strings, numbers and dates, of
-- src/smart-parser.c.
pub mod Wildcards
use fireflymediaserver.Prelude.{
  ℕ, Bool, true, false, ◌||◌, [], ◌∷◌, Option, none, some, ◌==◌, if◌then◌else◌, Bytes,
}
use fireflymediaserver.Prelude.Int.{is_zero}
use fireflymediaserver.SmartParser.Token.{
  cvalue, ivalue, tvalue, no_hint, string_hint, int_hint, QueryType, playlist, query, t_string,
  t_number, t_before, t_after, t_not, t_equal, t_includes, t_startswith, t_endswith, t_less,
  t_lessequal, t_greater, t_greaterequal, t_greaterand, t_string_field, t_int_field, t_date_field,
  t_exprquote,
}
use fireflymediaserver.SmartParser.State.{
  Outcome, done, underrun, Env, Node, criterion, string, int, date, field, strcmp, openquote,
  intcmp, number, datecmp, exprquote,
}
use fireflymediaserver.SmartParser.Parse.Dates.{string_of, number_of, sp_parse_date}
use fireflymediaserver.SmartParser.State
use fireflymediaserver.SmartParser.Parse.Monad.{
  Parser, pure, lift, get, ◌>>=◌, ◌>>◌, scan, token_id, refuse,
}

-- A T_NOT in front of the operator.
unfoldable pub parse_not : Env → Parser Bool
parse_not env = do
  id ← token_id
  if id == t_not then (do scan env no_hint; pure true) else pure false

unfoldable pub is_string_op : ℕ → Bool
is_string_op id = id == t_equal || id == t_includes || id == t_startswith || id == t_endswith

-- The operator that an int criterion stores.
unfoldable pub int_op : ℕ → Option ℕ
int_op id =
    if id == t_lessequal || id == t_less || id == t_greaterequal || id == t_greater || id == t_equal
    then some id
    else if id == t_greaterand
    then some t_greater
    else none

-- The operator that a date criterion stores.
unfoldable pub date_op : ℕ → Option ℕ
date_op id =
    if id == t_lessequal || id == t_less || id == t_greaterequal || id == t_greater
    then some id
    else if id == t_greaterand
    then some t_greater
    else if id == t_before
    then some t_less
    else if id == t_after
    then some t_greater
    else none

-- `s[strlen(s) - 1]` of the string `c ∷ s`, and the string without it.
unfoldable pub last_byte : ℕ → Bytes → ℕ
last_byte c [] = c
last_byte c (d ∷ s) = last_byte d s

unfoldable pub drop_last : ℕ → Bytes → Bytes
drop_last c [] = []
drop_last c (d ∷ s) = c ∷ drop_last d s

unfoldable pub leading_star : ℕ → Bytes → ℕ × Bytes
leading_star op [] = (op, [])
leading_star op (c ∷ s) = if c == b'*' then (t_endswith, s) else (op, c ∷ s)

-- On the empty string the code reads, and may write, the byte in front of it.
unfoldable pub trailing_star : ℕ → Bytes → Outcome (ℕ × Bytes)
unfolding last_byte drop_last
trailing_star op [] = underrun
trailing_star op (c ∷ s) = done (
    if last_byte c s == b'*'
    then (if op == t_endswith then t_includes else t_startswith, drop_last c s)
    else (op, c ∷ s))

-- The wildcards of a query's string.
unfoldable pub wildcards : QueryType → ℕ → Bytes → Outcome (ℕ × Bytes)
unfolding leading_star trailing_star
wildcards playlist op text = done (op, text)
wildcards query op text = let (op', text') = leading_star op text in trailing_star op' text'

-- The value of a string criterion, behind the scan with SP_HINT_STRING.
unfoldable pub string_value : Bytes → ℕ → Bool → ℕ → Env → Parser (Option Node)
unfolding string_of wildcards
string_value name id negated op env = do
  s ← get
  if s.token.token_id == t_string
      then (do
        text ← lift (string_of s.token.payload)
        (op', text') ← lift (wildcards s.token_list op text)
        scan env no_hint
        pure (some (criterion name op' string negated id (cvalue text'))))
      else refuse openquote

unfoldable pub sp_parse_string_criterion : Env → Parser (Option Node)
unfolding string_of parse_not is_string_op string_value
sp_parse_string_criterion env = do
  s ← get
  name ← lift (string_of s.token.payload)
  scan env no_hint
  negated ← parse_not env
  op ← token_id
  if is_string_op op
      then (do scan env string_hint; string_value name s.token.field_id negated op env)
      else refuse strcmp

unfoldable pub int_value : Bytes → ℕ → Bool → ℕ → Env → Parser (Option Node)
unfolding number_of
int_value name id negated op env = do
  s ← get
  if s.token.token_id == t_number
      then (do
        n ← lift (number_of s.token.payload)
        scan env no_hint
        pure (some (criterion name op int negated id (ivalue n))))
      else refuse number

unfoldable pub int_compare : Bytes → ℕ → Bool → Option ℕ → Env → Parser (Option Node)
unfolding int_value
int_compare name id negated none env = refuse intcmp
int_compare name id negated (some op) env = do scan env int_hint; int_value name id negated op env

unfoldable pub sp_parse_int_criterion : Env → Parser (Option Node)
unfolding string_of parse_not int_op int_compare
sp_parse_int_criterion env = do
  s ← get
  name ← lift (string_of s.token.payload)
  scan env no_hint
  negated ← parse_not env
  id ← token_id
  int_compare name s.token.field_id negated (int_op id) env

unfoldable pub date_compare : Bytes → ℕ → Bool → Option ℕ → Env → ℕ → Parser (Option Node)
unfolding sp_parse_date
date_compare name id negated none env fuel = refuse datecmp
date_compare name id negated (some op) env fuel = do
  scan env no_hint
  t ← sp_parse_date env fuel
  if is_zero t
      then refuse State.date
      else pure (some (criterion name op date negated id (tvalue t)))

unfoldable pub sp_parse_date_criterion : Env → ℕ → Parser (Option Node)
unfolding string_of parse_not date_op date_compare
sp_parse_date_criterion env fuel = do
  s ← get
  name ← lift (string_of s.token.payload)
  scan env no_hint
  negated ← parse_not env
  id ← token_id
  date_compare name s.token.field_id negated (date_op id) env fuel

-- The switch of `sp_parse_criterion`. No case takes T_INT64_FIELD.
unfoldable pub criterion_body : Env → ℕ → Parser (Option Node)
unfolding sp_parse_string_criterion sp_parse_int_criterion sp_parse_date_criterion
criterion_body env fuel = do
  id ← token_id
  if id == t_string_field
      then sp_parse_string_criterion env
      else if id == t_int_field
      then sp_parse_int_criterion env
      else if id == t_date_field
      then sp_parse_date_criterion env fuel
      else refuse field

-- The quote before, or behind, a criterion of a query, and `next` after it.
unfoldable pub expect_exprquote : Env → Parser (Option Node) → Parser (Option Node)
expect_exprquote env next = do
  id ← token_id
  if id == t_exprquote then (do scan env no_hint; next) else refuse exprquote

unfoldable pub sp_parse_criterion : QueryType → Env → ℕ → Parser (Option Node)
unfolding criterion_body expect_exprquote
sp_parse_criterion playlist env fuel = criterion_body env fuel
sp_parse_criterion query env fuel =
    expect_exprquote env do e ← criterion_body env fuel; expect_exprquote env (pure e)
