-- ===== src/SmartParser/Parse/Dates.antt =====
-- Date values: `sp_parse_date` and `sp_parse_date_interval` of src/smart-parser.c. The recursion of
-- `sp_parse_date` takes one unit of fuel to a call.
use fireflymediaserver.Prelude.{
  ℕ, zero, suc, ◌*◌, Bool, true, false, not, ◌&&◌, Option, none, some, ◌==◌, if◌then◌else◌, Bytes,
}
use fireflymediaserver.Prelude.Int.{ℤ, pos, ◌+ℤ◌, ◌-ℤ◌, is_zero, to_int32}
use fireflymediaserver.SmartParser.Token.{
  TokenData, cvalue, ivalue, tvalue, no_hint, t_number, t_date, t_today, t_day, t_week, t_month,
  t_year, t_before, t_after,
}
use fireflymediaserver.SmartParser.State.{
  Outcome, done, bad_read, out_of_fuel, Env, number, beforeafter, timeinterval,
}
use fireflymediaserver.SmartParser.Parse.Monad.{
  Parser, pure, lift, get, ◌>>=◌, ◌>>◌, scan, token_id, set_error,
}

-- Reads of the members of `token.data`.
unfoldable pub string_of : TokenData → Outcome Bytes
string_of (cvalue s) = done s
string_of other = bad_read

unfoldable pub number_of : TokenData → Outcome ℕ
number_of (ivalue n) = done n
number_of other = bad_read

unfoldable pub date_of : TokenData → Outcome ℤ
date_of (tvalue t) = done t
date_of other = bad_read

-- The seconds of T_DAY, T_WEEK, T_MONTH and T_YEAR.
unfoldable pub interval_unit : ℕ → Option ℕ
interval_unit id =
    if id == t_day
    then some (3600 * 24)
    else if id == t_week
    then some (3600 * 24 * 7)
    else if id == t_month
    then some (3600 * 24 * 30)
    else if id == t_year
    then some (3600 * 24 * 365)
    else none

-- The switch of `sp_parse_date_interval`. The product is one of `int`s, with 32 bits.
unfoldable pub interval_of : Env → ℕ → Option ℕ → Parser ℤ
interval_of env count none = do set_error timeinterval; pure (pos 0)
interval_of env count (some seconds) = do scan env no_hint; pure (to_int32 (count * seconds))

unfoldable pub sp_parse_date_interval : Env → Parser ℤ
unfolding number_of interval_unit interval_of
sp_parse_date_interval env = do
  id ← token_id
  if id == t_number
      then (do
        s ← get
        count ← lift (number_of s.token.payload)
        scan env no_hint
        unit ← token_id
        interval_of env count (interval_unit unit))
      else do set_error number; pure (pos 0)

-- The switch of `sp_parse_date`: T_TODAY, T_DATE, or no result.
unfoldable pub date_start : Env → Parser ℤ
unfolding date_of
date_start env = do
  s ← get
  if s.token.token_id == t_today
      then (do scan env no_hint; pure (env.now s.token_pos))
      else if s.token.token_id == t_date
      then (do t ← lift (date_of s.token.payload); scan env no_hint; pure t)
      else pure (pos 0)

-- `result -= interval` or `result += interval`.
unfoldable pub shift_date : Bool → ℤ → ℤ → ℤ
unfolding ◌+ℤ◌ ◌-ℤ◌
shift_date before interval result =
    if is_zero result then pos 0 else if before then result -ℤ interval else result +ℤ interval

-- "must be an interval": `later` is the recursive call.
unfoldable pub relative_date : Env → Parser ℤ → Parser ℤ
unfolding sp_parse_date_interval shift_date
relative_date env later = do
  interval ← sp_parse_date_interval env
  id ← token_id
  if is_zero interval
      then pure (pos 0)
      else if not (id == t_before) && not (id == t_after)
      then (do set_error beforeafter; pure (pos 0))
      else do scan env no_hint; result ← later; pure (shift_date (id == t_before) interval result)

unfoldable pub sp_parse_date : Env → ℕ → Parser ℤ
unfolding date_start relative_date
sp_parse_date env zero s = out_of_fuel
sp_parse_date env (suc fuel) s =
    (date_start env >>= λ result. elim (is_zero result) [
      | true ↦ relative_date env (sp_parse_date env fuel)
      | false ↦ pure result
    ])
      s
