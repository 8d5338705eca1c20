-- ===== src/SmartParser/Match.antt =====
-- The evaluation of a parse tree on a song: `sp_node_matches` of src/smart-parser.c, with
-- `sp_matches_native` and `sp_matches_string`.
pub mod Text
pub mod Relations
pub mod Meaning
pub mod Negation
pub mod AsRead
use fireflymediaserver.Prelude.{
  ℕ, ◌+◌, ◌-◌, ◌^◌, Bool, true, false, Option, none, some, leb, ltb, ◌==◌, if◌then◌else◌, length,
  drop, Bytes,
}
use fireflymediaserver.Prelude.Int.{ℤ, leb_ℤ, ltb_ℤ, eqb_ℤ}
use fireflymediaserver.CString.{contains_nocase, starts_nocase, eq_nocase}
use fireflymediaserver.SmartParser.Token.{
  TokenData, cvalue, ivalue, tvalue, t_includes, t_startswith, t_endswith, t_equal, t_lessequal,
  t_less, t_greaterequal, t_greater, t_and,
}
use fireflymediaserver.SmartParser.State.{
  Outcome, done, bad_read, fatal, ◌>>=◌, Node, and_or, criterion, OpType, invalid, string, int,
  int64, date, ParseState,
}
use fireflymediaserver.SmartParser.Media.{
  Media, native, strings, FieldValue, val_string, val_uint32, val_uint64, val_date,
}

-- "offset >= 0", and the comparison of the last `strlen(want)` bytes.
unfoldable pub ends_nocase : Bytes → Bytes → Bool
unfolding starts_nocase
ends_nocase val want =
    if leb (length want) (length val)
    then starts_nocase (drop (length val - length want) val) want
    else false

-- The switch on a string operator.
unfoldable pub string_matches : ℕ → Bytes → Bytes → Outcome Bool
unfolding contains_nocase starts_nocase ends_nocase eq_nocase
string_matches op val want =
    if op == t_includes
    then done (contains_nocase val want)
    else if op == t_startswith
    then done (if leb (length want) (length val) then starts_nocase val want else false)
    else if op == t_endswith
    then done (ends_nocase val want)
    else if op == t_equal
    then done (eq_nocase val want)
    else fatal

-- The switch on a comparison, which stands three times in the code, over its tests.
unfoldable pub compare_by : ℕ → Bool → Bool → Bool → Outcome Bool
compare_by op less_equal less equal =
    if op == t_lessequal
    then done less_equal
    else if op == t_less
    then done less
    else if op == t_greaterequal
    then done (if less then false else true)
    else if op == t_greater
    then done (if less_equal then false else true)
    else if op == t_equal
    then done equal
    else fatal

unfoldable pub int_matches : ℕ → ℕ → ℕ → Outcome Bool
unfolding compare_by
int_matches op a b = compare_by op (leb a b) (ltb a b) (a == b)

unfoldable pub date_matches : ℕ → ℤ → ℤ → Outcome Bool
unfolding compare_by
date_matches op a b = compare_by op (leb_ℤ a b) (ltb_ℤ a b) (eqb_ℤ a b)

-- The `int` member `ivalue64`, widened to compare with a `uint64_t`.
abbrev pub widen : ℕ → ℕ
widen n = if ltb n (2 ^ 31) then n else 2 ^ 64 - 2 ^ 32 + n

unfoldable pub criterion_matches : Media → ℕ → OpType → ℕ → TokenData → Outcome Bool
unfolding string_matches int_matches date_matches val_string val_uint32 val_uint64 val_date
criterion_matches song op string k (cvalue want) = do
  v ← val_string song k
  string_matches op v want
criterion_matches song op int k (ivalue n) = do v ← val_uint32 song k; int_matches op v n
criterion_matches song op int64 k (ivalue n) = do v ← val_uint64 song k; int_matches op v (widen n)
criterion_matches song op date k (tvalue t) = do v ← val_date song k; date_matches op v t
criterion_matches song op invalid k right = done false
criterion_matches song op type k right = bad_read

-- The right side is evaluated first, and the left one only where it decides. `not_flag` is not read.
unfoldable pub sp_node_matches : Media → Node → Outcome Bool
unfolding criterion_matches
sp_node_matches song (and_or left op right) =
    let l = sp_node_matches song left in
    do
      r ← sp_node_matches song right
      if op == t_and then (if r then l else done false) else if r then done true else l
sp_node_matches song (criterion name op type negated k right) =
    criterion_matches song op type k right

abbrev pub tree_matches : Media → Option Node → Outcome Bool
tree_matches song none = bad_read
tree_matches song (some e) = sp_node_matches song e

unfoldable pub sp_matches_native : ParseState → (ℕ → FieldValue) → Outcome Bool
unfolding sp_node_matches
sp_matches_native s song = tree_matches (native song) s.tree

unfoldable pub sp_matches_string : ParseState → (ℕ → Option Bytes) → Outcome Bool
unfolding sp_node_matches
sp_matches_string s song = tree_matches (strings song) s.tree
