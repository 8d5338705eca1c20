-- ===== src/SmartParser/Match/Negation.antt =====
-- What `not_flag` of a criterion does to `sp_node_matches` of src/smart-parser.c.
use fireflymediaserver.Prelude.{false, ◌≡◌, refl}
use fireflymediaserver.SmartParser.State.{Node, and_or, criterion}
use fireflymediaserver.SmartParser.Media.{Media}
use fireflymediaserver.SmartParser.Match.{sp_node_matches}

-- The tree with the flags of all its criteria cleared.
unfoldable pub without_not : Node → Node
without_not (and_or left op right) = and_or (without_not left) op (without_not right)
without_not (criterion name op type negated k right) = criterion name op type false k right

-- A criterion under NOT is decided like the one without it.
pub sp_node_matches-without_not :
    (song : Media) (e : Node) → sp_node_matches song (without_not e) ≡ sp_node_matches song e
unfolding sp_node_matches without_not
sp_node_matches-without_not song (criterion name op type negated k right) = refl
sp_node_matches-without_not song (and_or left op right) =
    rw (sp_node_matches-without_not song left, sp_node_matches-without_not song right) refl
