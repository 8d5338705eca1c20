-- ===== src/SmartParser/Token.antt =====
-- Token numbers, tokens and hints of src/smart-parser.c.
use fireflymediaserver.Prelude.{ℕ, Bool, not, ◌==◌, bit_and, Bytes}
use fireflymediaserver.Prelude.Int.{ℤ}

abbrev pub t_string : ℕ
t_string = 0x2001

abbrev pub t_int_field : ℕ
t_int_field = 0x2002

abbrev pub t_int64_field : ℕ
t_int64_field = 0x2003

abbrev pub t_string_field : ℕ
t_string_field = 0x2004

abbrev pub t_date_field : ℕ
t_date_field = 0x2005

abbrev pub t_open_paren : ℕ
t_open_paren = 0x0005

abbrev pub t_close_paren : ℕ
t_close_paren = 0x0006

abbrev pub t_less : ℕ
t_less = 0x0007

abbrev pub t_lessequal : ℕ
t_lessequal = 0x0008

abbrev pub t_greater : ℕ
t_greater = 0x0009

abbrev pub t_greaterequal : ℕ
t_greaterequal = 0x000a

abbrev pub t_equal : ℕ
t_equal = 0x000b

abbrev pub t_or : ℕ
t_or = 0x000c

abbrev pub t_and : ℕ
t_and = 0x000d

abbrev pub t_quote : ℕ
t_quote = 0x000e

abbrev pub t_number : ℕ
t_number = 0x000f

abbrev pub t_includes : ℕ
t_includes = 0x0010

abbrev pub t_before : ℕ
t_before = 0x0011

abbrev pub t_after : ℕ
t_after = 0x0012

abbrev pub t_ago : ℕ
t_ago = 0x0013

abbrev pub t_today : ℕ
t_today = 0x0014

abbrev pub t_the : ℕ
t_the = 0x0015

abbrev pub t_day : ℕ
t_day = 0x0016

abbrev pub t_week : ℕ
t_week = 0x0017

abbrev pub t_month : ℕ
t_month = 0x0018

abbrev pub t_year : ℕ
t_year = 0x0019

abbrev pub t_date : ℕ
t_date = 0x001a

abbrev pub t_not : ℕ
t_not = 0x001b

abbrev pub t_startswith : ℕ
t_startswith = 0x001c

abbrev pub t_endswith : ℕ
t_endswith = 0x001d

abbrev pub t_last : ℕ
t_last = 0x001e

abbrev pub t_greaterand : ℕ
t_greaterand = 0x001f

abbrev pub t_exprquote : ℕ
t_exprquote = 0x0020

abbrev pub t_eof : ℕ
t_eof = 0x00fd

abbrev pub t_bof : ℕ
t_bof = 0x00fe

abbrev pub t_error : ℕ
t_error = 0x00ff

-- `token_id & 0x2000`: the token holds a string that the scanner allocated.
abbrev pub holds_string : ℕ → Bool
holds_string id = not (bit_and id 0x2000 == 0)

-- The union `data`: the member last written. `null` is a cleared `cvalue`, `freed` one that was
-- released and not cleared.
pub data TokenData : Type 0 where
  null freed : TokenData
  cvalue : Bytes → TokenData
  ivalue : ℕ → TokenData
  tvalue : ℤ → TokenData

pub record Token : Type 0 where
  pub token_id : ℕ
  pub field_id : ℕ
  pub payload : TokenData

-- SP_HINT_NONE, SP_HINT_STRING, SP_HINT_INT, SP_HINT_DATE.
pub data Hint : Type 0 where
  no_hint string_hint int_hint date_hint : Hint

-- SP_TYPE_PLAYLIST and SP_TYPE_QUERY, the two token lists.
pub data QueryType : Type 0 where
  playlist query : QueryType
