-- ===== src/SmartParser/Evaluate.antt =====
-- Parsing and evaluation together: `sp_parse`, then `sp_matches_string` or `sp_matches_native`, of
-- src/smart-parser.c.
use fireflymediaserver.Prelude.{
  ℕ, ◌≡◌, ◌↔◌, refl, sym, ◌∙◌, subst, true, Option, some, get_elem?, Bytes,
}
use fireflymediaserver.SmartParser.Token.{QueryType}
use fireflymediaserver.SmartParser.State.{
  Env, ParseState, done, Node, and_or, criterion, OpType, string, int, date,
}
use fireflymediaserver.SmartParser.Tree.{well_formed}
use fireflymediaserver.SmartParser.Media.{
  Media, native, strings, FieldValue, int32, int64, text, FieldEntry, ft_int32, ff_field_data,
  IsTyped, type_of, val_string, val_uint32, val_date, read_int32, not_null,
}
use fireflymediaserver.SmartParser.Media
use fireflymediaserver.SmartParser.Parse.Expr.{sp_parse}
use fireflymediaserver.SmartParser.Parse.Total.{Settles, sp_parse-Settles}
use fireflymediaserver.SmartParser.Match.{tree_matches, sp_matches_native, sp_matches_string}
use fireflymediaserver.SmartParser.Match.Relations.{Decides}
use fireflymediaserver.SmartParser.Match.Meaning.{
  Holds, KeepsNames, Readable, ReadableField, sp_node_matches_iff,
}

-- A record of strings, none of them NULL.
abbrev pub all_strings : (ℕ → Bytes) → ℕ → Option Bytes
all_strings song k = some (song k)

strings-ReadableField :
    (song : ℕ → Bytes) (type : OpType) (k : ℕ) → ReadableField (strings (all_strings song)) type k
unfolding val_string val_uint32 val_date not_null
strings-ReadableField song string k = (_, refl)
strings-ReadableField song int k = (_, refl)
strings-ReadableField song date k = (_, refl)
strings-ReadableField song type k = tt

strings-Readable : (song : ℕ → Bytes) (e : Node) → Readable (strings (all_strings song)) e
unfolding Readable
strings-Readable song (and_or left op right) =
    (strings-Readable song left, strings-Readable song right)
strings-Readable song (criterion name op type negated k right) = strings-ReadableField song type k

-- An accepted text leaves a tree that is well formed.
accepted :
    (env : Env) (input : Bytes) (list : QueryType) (s s' : ParseState)
    → sp_parse env input list s ≡ done (true, s')
    → (e : Node) × (s'.tree ≡ some e) × (well_formed e ≡ true)
accepted env input list s s' h =
    let (e, at, ok, end) = subst (Settles list) h (sp_parse-Settles env input list s) in (e, at, ok)

accepted_at :
    (env : Env) (input : Bytes) (list : QueryType) (s s' : ParseState) (e : Node)
    → sp_parse env input list s ≡ done (true, s')
    → s'.tree ≡ some e
    → well_formed e ≡ true
accepted_at env input list s s' e h at =
    let (e', at', ok) = accepted env input list s s' h in
    subst (λ x. well_formed x ≡ true) (same e' e (sym at' ∙ at)) ok
  where
    same : (a b : Node) → some a ≡ some b → a ≡ b
    same a b p = cc

tree_matches-Decides :
    (song : Media) (o : Option Node) (e : Node)
    → o ≡ some e
    → well_formed e ≡ true
    → KeepsNames e
    → Readable song e
    → Decides (tree_matches song o) (Holds song e)
tree_matches-Decides song o e at ok names r =
    subst (λ x. Decides (tree_matches song x) (Holds song e)) (sym at)
      (sp_node_matches_iff song e ok names r)

-- A text that `sp_parse` accepts, into a tree without NOT whose criteria have the place of their own
-- name, can be checked against every record of strings, none NULL, and the answer is what the tree asks
-- of the members that it names: no message of level E_FATAL, no bad read.
pub sp_matches_string-accepted :
    (env : Env) (input : Bytes) (list : QueryType) (s s' : ParseState) (song : ℕ → Bytes) (e : Node)
    → sp_parse env input list s ≡ done (true, s')
    → s'.tree ≡ some e
    → KeepsNames e
    → Decides (sp_matches_string s' (all_strings song)) (Holds (strings (all_strings song)) e)
unfolding sp_matches_string
sp_matches_string-accepted env input list s s' song e h at names =
    tree_matches-Decides (strings (all_strings song)) s'.tree e at
      (accepted_at env input list s s' e h at) names (strings-Readable song e)

-- A text that `sp_parse` accepts, into a tree without NOT whose criteria have the place of their own
-- name, can be checked against a native record whose members can be read as the criteria read them, and
-- the answer is what the tree asks of the members that it names.
pub sp_matches_native-accepted :
    (env : Env) (input : Bytes) (list : QueryType) (s s' : ParseState) (song : ℕ → FieldValue)
    (e : Node)
    → sp_parse env input list s ≡ done (true, s')
    → s'.tree ≡ some e
    → KeepsNames e
    → Readable (native song) e
    → Decides (sp_matches_native s' song) (Holds (native song) e)
unfolding sp_matches_native
sp_matches_native-accepted env input list s s' song e h at names r =
    tree_matches-Decides (native song) s'.tree e at (accepted_at env input list s s' e h at) names r

read_int32_iff : (v : FieldValue) → ((n : ℕ) × (read_int32 v ≡ done n)) ↔ (type_of v ≡ ft_int32)
unfolding read_int32
read_int32_iff (int32 n) = (λ h. refl, λ h. (n, refl))
read_int32_iff (Media.int64 n) = (λ (m, h). cc, λ h. cc)
read_int32_iff (text s) = (λ (m, h). cc, λ h. cc)

-- On a native record whose members have the types of the table, a number criterion reads its member
-- as a number of 32 bits exactly at the fields that the table gives that type.
pub val_uint32_iff :
    (song : ℕ → FieldValue) (k : ℕ) (e : FieldEntry)
    → IsTyped song
    → get_elem? ff_field_data k ≡ some e
    → ((n : ℕ) × (val_uint32 (native song) k ≡ done n)) ↔ (e.type ≡ ft_int32)
unfolding val_uint32
val_uint32_iff song k e typed at =
    let (to, from) = read_int32_iff (song k) in
    (λ h. sym (typed k e at) ∙ to h, λ h. from (typed k e at ∙ h))
