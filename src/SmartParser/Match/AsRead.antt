-- ===== src/SmartParser/Match/AsRead.antt =====
-- What `sp_node_matches` of src/smart-parser.c answers on a tree with NOT, and with names whose place in
-- `field_id` is that of another member: what it would on the tree that it takes it for.
use fireflymediaserver.Prelude.{
  ℕ, ◌<◌, ◌≡◌, ◌∙◌, refl, subst, true, false, none, some, ◌==◌, ==_iff, [], get_elem?, Bytes,
}
use fireflymediaserver.Prelude.Bounded.{all_below, all_below_at}
use fireflymediaserver.CString.{eq_nocase}
use fireflymediaserver.SmartParser.State.{Node, and_or, criterion}
use fireflymediaserver.SmartParser.Tree.{well_formed}
use fireflymediaserver.SmartParser.Media.{Media, ff_field_data}
use fireflymediaserver.SmartParser.Match.{sp_node_matches}
use fireflymediaserver.SmartParser.Match.Relations.{Decides}
use fireflymediaserver.SmartParser.Match.Meaning.{
  place_of, Holds, KeepsNames, Readable, sp_node_matches_iff,
}

-- The name of the member at a place.
unfoldable pub name_at : ℕ → Bytes
name_at k = elim (get_elem? ff_field_data k) [ none ↦ [] | some e ↦ e.name ]

-- The tree without NOT, where each criterion names the member that stands at its `field_id`.
unfoldable pub as_read : Node → Node
as_read (and_or left op right) = and_or (as_read left) op (as_read right)
as_read (criterion name op type negated k right) = criterion (name_at k) op type false k right

-- The criteria have places of the table.
unfoldable pub InTable : Node → Type 0
InTable (and_or left op right) = InTable left × InTable right
InTable (criterion name op type negated k right) = k < 41

all_named : all_below 41 (λ k. place_of (name_at k) ff_field_data == k) ≡ true
unfolding all_below name_at place_of ff_field_data eq_nocase
all_named = refl

place_of-name_at : (k : ℕ) → k < 41 → place_of (name_at k) ff_field_data ≡ k
place_of-name_at k lt =
    (==_iff (place_of (name_at k) ff_field_data) k).0
      (all_below_at 41 k (λ i. place_of (name_at i) ff_field_data == i) all_named lt)

as_read-KeepsNames : (e : Node) → InTable e → KeepsNames (as_read e)
unfolding as_read InTable KeepsNames
as_read-KeepsNames (and_or left op right) (p, q) =
    (as_read-KeepsNames left p, as_read-KeepsNames right q)
as_read-KeepsNames (criterion name op type negated k right) lt = (refl, place_of-name_at k lt)

well_formed-as_read : (e : Node) → well_formed (as_read e) ≡ well_formed e
unfolding as_read well_formed
well_formed-as_read (and_or left op right) =
    rw (well_formed-as_read left, well_formed-as_read right) refl
well_formed-as_read (criterion name op type negated k right) = refl

as_read-Readable : (song : Media) (e : Node) → Readable song e → Readable song (as_read e)
unfolding as_read Readable
as_read-Readable song (and_or left op right) (p, q) =
    (as_read-Readable song left p, as_read-Readable song right q)
as_read-Readable song (criterion name op type negated k right) r = r

sp_node_matches-read :
    (song : Media) (e : Node) → sp_node_matches song (as_read e) ≡ sp_node_matches song e
unfolding sp_node_matches as_read
sp_node_matches-read song (criterion name op type negated k right) = refl
sp_node_matches-read song (and_or left op right) =
    rw (sp_node_matches-read song left, sp_node_matches-read song right) refl

-- A tree that is well formed, with places of the table, on a song that can be read at its criteria, is
-- decided with no fatal message and no bad read, and the answer is what the tree asks that has no NOT
-- and names at each criterion the member at its place, instead of the one that was named.
pub sp_node_matches-as_read :
    (song : Media) (e : Node)
    → well_formed e ≡ true
    → InTable e
    → Readable song e
    → Decides (sp_node_matches song e) (Holds song (as_read e))
sp_node_matches-as_read song e h inside r =
    subst (λ o. Decides o (Holds song (as_read e))) (sp_node_matches-read song e)
      (sp_node_matches_iff song (as_read e) (well_formed-as_read e ∙ h)
        (as_read-KeepsNames e inside) (as_read-Readable song e r))
