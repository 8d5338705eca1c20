-- ===== src/SmartParser/State.antt =====
-- The parser's state (PARSESTRUCT), its outcomes and its error message, of src/smart-parser.c.
-- The indentation `level`, which only the log reads, is left out.
use fireflymediaserver.Prelude.{
  ℕ, ◌≡◌, refl, ◌+◌, ◌-◌, ◌/◌, Bool, false, [], ◌++◌, Option, none, some, length, Bytes, codes,
}
use fireflymediaserver.Prelude.Int.{ℤ}
use fireflymediaserver.CString.{decimal}
use fireflymediaserver.SmartParser.Token.{Token, TokenData, null, QueryType, playlist}

-- A run: it returns; it reads behind the text's NUL (`overrun`) or before the first byte of a string
-- (`underrun`); it reads through NULL, or a member at a type other than its own (`bad_read`); it ends
-- the server by a message of level E_FATAL; or the fuel of the model runs out.
pub data Outcome {ℓ} (A : Type ℓ) : Type ℓ where
  done : A → Outcome A
  overrun underrun bad_read fatal out_of_fuel : Outcome A

infixl 5 ◌>>=◌
abbrev pub ◌>>=◌ {ℓ κ} : {A : Type ℓ} {B : Type κ} → Outcome A → (A → Outcome B) → Outcome B
done a >>= f = f a
overrun >>= f = overrun
underrun >>= f = underrun
bad_read >>= f = bad_read
fatal >>= f = fatal
out_of_fuel >>= f = out_of_fuel

-- A chain that returns: its first part does, and then the rest.
pub done_bind :
    {A B : Type 0} (m : Outcome A) (f : A → Outcome B) (b : B)
    → (m >>= f) ≡ done b
    → (a : A) × (m ≡ done a) × (f a ≡ done b)
done_bind (done a) f b h = (a, refl, h)
done_bind overrun f b h = cc
done_bind underrun f b h = cc
done_bind bad_read f b h = cc
done_bind fatal f b h = cc
done_bind out_of_fuel f b h = cc

-- What the C library and the clock answer: `time(NULL)` at the token of each offset, and `strptime`
-- by "%Y-%m-%d" followed by `timegm`, where it accepts the string.
pub record Env : Type 0 where
  pub now : ℕ → ℤ
  pub ymd : Bytes → Option ℤ

-- `current`: at a byte of `term` (or at its NUL, where nothing is left), or behind the NUL.
pub data Cursor : Type 0 where
  upto : Bytes → Cursor
  past_end : Cursor

-- SP_NODE: an inner node (SP_OPTYPE_ANDOR) or a criterion, whose `op_type` is one of the others.
pub data OpType : Type 0 where
  invalid string int int64 date : OpType

pub data Node : Type 0 where
  and_or : Node → ℕ → Node → Node
  criterion : Bytes → ℕ → OpType → Bool → ℕ → TokenData → Node

pub record ParseState : Type 0 where
  pub in_string : Bool
  pub token_list : QueryType
  pub term : Bytes
  pub current : Cursor
  pub token : Token
  pub token_pos : ℕ
  pub tree : Option Node
  pub error : Option Bytes

-- `current - term`.
abbrev pub offset : Bytes → Bytes → ℕ
offset term rest = length term - length rest

-- SP_E_SUCCESS to SP_E_UNKNOWN, and their texts.
pub data SpError : Type 0 where
  success close field strcmp closequote literal openquote intcmp : SpError
  number datecmp beforeafter timeinterval date exprquote eos unknown : SpError

unfoldable pub sp_errorstrings : SpError → Bytes
sp_errorstrings success = codes "Success"
sp_errorstrings close = codes "Expecting ')'"
sp_errorstrings field = codes "Expecting field name"
sp_errorstrings strcmp = codes "Expecting string comparison operator (=, includes)"
sp_errorstrings closequote = codes "Expecting '\"' (closing quote)"
sp_errorstrings literal = codes "Expecting literal string"
sp_errorstrings openquote = codes "Expecting '\"' (opening quote)"
sp_errorstrings intcmp = codes "Expecting integer comparison operator (=,<,>, etc)"
sp_errorstrings number = codes "Expecting integer"
sp_errorstrings datecmp = codes "Expecting date comparison operator (<,<=,>,>=)"
sp_errorstrings beforeafter = codes "Expecting interval comparison (before, after)"
sp_errorstrings timeinterval = codes "Expecting time interval (days, weeks, months, years)"
sp_errorstrings date = codes "Expecting date"
sp_errorstrings exprquote = codes "Expecting ' (single quote)\n"
sp_errorstrings eos = codes "Expecting end of statement\n"
sp_errorstrings unknown = codes "Unknown Error.  Help?\n"

-- The bytes that `sp_set_error` allocates for its message, the NUL included.
unfoldable pub error_size : ℕ → SpError → ℕ
unfolding sp_errorstrings
error_size token_pos e = 10 + token_pos / 10 + 1 + length (sp_errorstrings e) + 1

-- The bytes that `sp_set_error` prints there, the NUL not included.
unfoldable pub error_text : ℕ → SpError → Bytes
unfolding sp_errorstrings decimal
error_text token_pos e =
    codes "Offset " ++ (decimal (token_pos + 1) ++ (codes ":  " ++ sp_errorstrings e))

unfoldable pub sp_set_error : SpError → ParseState → ParseState
unfolding error_text
sp_set_error e s = record s { error = some (error_text s.token_pos e) }

-- `sp_get_error`: the message, with SP_E_UNKNOWN for none.
unfoldable pub error_of : Option Bytes → ParseState → ParseState × Option Bytes
unfolding sp_set_error
error_of (some e) s = (s, some e)
error_of none s = let s' = sp_set_error unknown s in (s', s'.error)

unfoldable pub sp_get_error : ParseState → ParseState × Option Bytes
unfolding error_of
sp_get_error s = error_of s.error s

-- `sp_init`: all of the structure zeroed. `term` and `current` are NULL until `sp_parse`.
abbrev pub sp_init : ParseState
sp_init = record {
  in_string = false;
  token_list = playlist;
  term = [];
  current = upto [];
  token = record { token_id = 0; field_id = 0; payload = null };
  token_pos = 0;
  tree = none;
  error = none;
}
