-- ===== src/SmartParser/Tree.antt =====
-- The trees that src/smart-parser.c can evaluate: every operator is one of its type's, and the union
-- `right` holds a value of that type.
use fireflymediaserver.Prelude.{ℕ, Bool, false, ◌&&◌, ◌||◌, ◌==◌}
use fireflymediaserver.SmartParser.Token.{
  TokenData, cvalue, ivalue, tvalue, t_includes, t_startswith, t_endswith, t_equal, t_less,
  t_lessequal, t_greater, t_greaterequal, t_and, t_or,
}
use fireflymediaserver.SmartParser.State.{Node, and_or, criterion, OpType, string, int, date}

abbrev pub is_order : ℕ → Bool
is_order op = op == t_lessequal || op == t_less || op == t_greaterequal || op == t_greater

abbrev pub is_compare : ℕ → Bool
is_compare op = is_order op || op == t_equal

abbrev pub is_match : ℕ → Bool
is_match op = op == t_includes || op == t_startswith || op == t_endswith || op == t_equal

abbrev pub well_typed : ℕ → OpType → TokenData → Bool
well_typed op string (cvalue s) = is_match op
well_typed op int (ivalue n) = is_compare op
well_typed op date (tvalue t) = is_order op
well_typed op type other = false

unfoldable pub well_formed : Node → Bool
well_formed (and_or left op right) =
    (op == t_and || op == t_or) && well_formed left && well_formed right
well_formed (criterion name op type negated k right) = well_typed op type right
