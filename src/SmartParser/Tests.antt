-- ===== src/SmartParser/Tests.antt =====
-- The model of src/smart-parser.c at concrete inputs.
use fireflymediaserver.Prelude.{
  ℕ, ◌≡◌, refl, ap, ◌∙◌, Bool, true, false, [], ◌∷◌, ◌++◌, Option, none, some, Bytes, codes,
  get_elem?, arith, if◌then◌else◌, ◌==◌,
}
use fireflymediaserver.Prelude.Int.{pos}
use fireflymediaserver.SmartParser.Token.{
  t_eof, no_hint, string_hint, playlist, query, cvalue, ivalue, tvalue, t_and, t_or, t_includes,
  t_startswith, t_endswith, t_greater, t_equal, t_int_field,
}
use fireflymediaserver.SmartParser.Tables.{FieldLookup, fields_0}
use fireflymediaserver.SmartParser.State.{
  Env, ParseState, Outcome, done, overrun, underrun, Node, and_or, criterion, string, int, date,
  sp_init, sp_set_error, upto,
}
use fireflymediaserver.CString.{eq_nocase}
use fireflymediaserver.SmartParser.Tree.{well_formed}
use fireflymediaserver.SmartParser.Media
use fireflymediaserver.SmartParser.Media.{
  native, strings, FieldValue, FieldType, int32, text, FieldEntry, ft_int32, ft_int64, ft_string,
  ff_field_data, IsTyped, type_of, val_string, val_uint32, read_text, read_int32,
}
use fireflymediaserver.SmartParser.Scan.{sp_scan}
use fireflymediaserver.SmartParser.Scan.Invariant.{Ready, ScanPost, sp_scan-ScanPost}
use fireflymediaserver.SmartParser.Scan.Quoted.{escape, before_quote, after_string, sp_scan-escape}
use fireflymediaserver.SmartParser.Parse.Criteria.{last_byte, wildcards}
use fireflymediaserver.SmartParser.Parse.Criteria.Wildcards.{is_bare, wildcards_lem}
use fireflymediaserver.SmartParser.Parse.Expr.{sp_parse}
use fireflymediaserver.SmartParser.Parse.Total.{Settles, sp_parse-Settles}
use fireflymediaserver.SmartParser.Match.{sp_node_matches, sp_matches_native, sp_matches_string}
use fireflymediaserver.SmartParser.Match.Relations.{Decides}
use fireflymediaserver.SmartParser.Match.Meaning.{
  Holds, KeepsNames, place_of, Readable, sp_node_matches_iff,
}
use fireflymediaserver.SmartParser.Match.AsRead.{InTable, as_read, sp_node_matches-as_read}
use fireflymediaserver.SmartParser.Match.Negation.{without_not, sp_node_matches-without_not}
use fireflymediaserver.SmartParser.Evaluate.{
  all_strings, sp_matches_string-accepted, sp_matches_native-accepted,
}

abbrev example_env : Env
example_env = record { now = λ k. pos 5000000; ymd = λ s. none }

abbrev outcome : Outcome (Bool × ParseState) → Outcome (Option Node)
outcome (done (b, s)) = done s.tree
outcome overrun = overrun
outcome underrun = underrun
outcome other = Outcome.fatal

parses_playlist :
    outcome (sp_parse example_env (codes "artist includes \"a\" and year > 2000") playlist sp_init)
    ≡ done (
        some (
          and_or
            (criterion (codes "artist") t_includes string false 4 (cvalue (codes "a")))
            t_and
            (criterion (codes "year") t_greater int false 17 (ivalue 2000))))
unfolding sp_parse
parses_playlist = refl

overruns : outcome (sp_parse example_env (codes "artist includes \"a") playlist sp_init) ≡ overrun
unfolding sp_parse
overruns = refl

parses_query :
    outcome (sp_parse example_env (codes "('dmap.itemname:*x*')+'daap.songyear:3'") query sp_init)
    ≡ done (
        some (
          and_or
            (criterion (codes "title") t_includes string false 0 (cvalue (codes "x")))
            t_and
            (criterion (codes "year") t_equal int false 23 (ivalue 3))))
unfolding sp_parse
parses_query = refl

parses_date :
    outcome (sp_parse example_env (codes "time_added after 3 days before today") playlist sp_init)
    ≡ done (some (criterion (codes "time_added") t_greater date false 29 (tvalue (pos 4740800))))
unfolding sp_parse
parses_date = refl

underruns : outcome (sp_parse example_env (codes "'dmap.itemname:*'") query sp_init) ≡ underrun
unfolding sp_parse
underruns = refl

refuses_size : outcome (sp_parse example_env (codes "'daap.songsize:3'") query sp_init) ≡ done none
unfolding sp_parse sp_set_error
refuses_size = refl

abbrev sample_text : Bytes
sample_text = codes "(artist includes \"a\" or id > 2000)"

abbrev sample_tree : Node
sample_tree =
    and_or (criterion (codes "artist") t_includes string false 4 (cvalue (codes "a"))) t_or
      (criterion (codes "id") t_greater int false 0 (ivalue 2000))

abbrev sample_state : ParseState
sample_state = record {
  in_string = false;
  token_list = playlist;
  term = sample_text;
  current = upto [];
  token = record { token_id = t_eof; field_id = 59; payload = ivalue 2000 };
  token_pos = 34;
  tree = some sample_tree;
  error = none;
}

sample_parsed : sp_parse example_env sample_text playlist sp_init ≡ done (true, sample_state)
unfolding sp_parse
sample_parsed = refl

sample_stored : sample_state.tree ≡ some sample_tree
sample_stored = refl

abbrev sample_song : ℕ → Bytes
sample_song k = if k == 4 then codes "Abba" else codes "1999"

abbrev sample_native : ℕ → FieldValue
sample_native k = if k == 4 then text (some (codes "Abba")) else int32 7

sample-Readable : Readable (native sample_native) sample_tree
unfolding Readable val_string val_uint32 read_text read_int32
sample-Readable = ((_, refl), (_, refl))

sample-KeepsNames : KeepsNames sample_tree
unfolding KeepsNames place_of ff_field_data eq_nocase
sample-KeepsNames = ((refl, refl), (refl, refl))

sample_formed : well_formed sample_tree ≡ true
unfolding well_formed
sample_formed = refl

-- A record of the types that the table gives.
abbrev typed_value : Option FieldEntry → FieldValue
typed_value none = text none
typed_value (some e) = elim e.type [
  | ft_int32 ↦ int32 5
  | ft_int64 ↦ Media.int64 5
  | ft_string ↦ text none
]

abbrev typed_song : ℕ → FieldValue
unfolding ff_field_data
typed_song k = typed_value (get_elem? ff_field_data k)

typed_entry : (d : FieldEntry) → type_of (typed_value (some d)) ≡ d.type
typed_entry d = typed d.type
  where
    typed :
        (t : FieldType)
        → type_of (elim t [ ft_int32 ↦ int32 5 | ft_int64 ↦ Media.int64 5 | ft_string ↦ text none ])
          ≡ t
    typed ft_int32 = refl
    typed ft_int64 = refl
    typed ft_string = refl

typed_value_lem :
    (o : Option FieldEntry) (e : FieldEntry) → o ≡ some e → type_of (typed_value o) ≡ e.type
typed_value_lem none e h = cc
typed_value_lem (some d) e h = typed_entry d ∙ ap (λ x. x.type) (same d e h)
  where
    same : (a b : FieldEntry) → some a ≡ some b → a ≡ b
    same a b h = cc

typed_song_lem : IsTyped typed_song
unfolding typed_song ff_field_data
typed_song_lem k e h = typed_value_lem (get_elem? ff_field_data k) e h

abbrev bitrate_field : FieldLookup
bitrate_field = record { type = t_int_field; name = codes "bitrate"; xlat = none }

abbrev url_entry : FieldEntry
url_entry = record { name = codes "url"; type = ft_string }

bitrate_at : get_elem? fields_0 13 ≡ some bitrate_field
unfolding fields_0
bitrate_at = refl

url_at : get_elem? ff_field_data 13 ≡ some url_entry
unfolding ff_field_data
url_at = refl

sp_parse-Settles_example : Settles playlist (sp_parse example_env sample_text playlist sp_init)
sp_parse-Settles_example = sp_parse-Settles example_env sample_text playlist sp_init

sp_matches_string-accepted_example :
    Decides
      (sp_matches_string sample_state (all_strings sample_song))
      (Holds (strings (all_strings sample_song)) sample_tree)
sp_matches_string-accepted_example =
    sp_matches_string-accepted example_env sample_text playlist sp_init sample_state sample_song
      sample_tree sample_parsed sample_stored sample-KeepsNames

sp_matches_native-accepted_example :
    Decides
      (sp_matches_native sample_state sample_native)
      (Holds (native sample_native) sample_tree)
sp_matches_native-accepted_example =
    sp_matches_native-accepted example_env sample_text playlist sp_init sample_state sample_native
      sample_tree sample_parsed sample_stored sample-KeepsNames sample-Readable

sp_node_matches_iff_example :
    Decides
      (sp_node_matches (native sample_native) sample_tree)
      (Holds (native sample_native) sample_tree)
sp_node_matches_iff_example =
    sp_node_matches_iff (native sample_native) sample_tree sample_formed sample-KeepsNames
      sample-Readable

abbrev sample_start : ParseState
sample_start = record sp_init { term = sample_text; current = upto sample_text }

sample_start-Ready : Ready sample_start
sample_start-Ready = record { agree = refl; inside = λ e. refl }

sp_scan-ScanPost_example : ScanPost sample_start (sp_scan example_env no_hint sample_start)
sp_scan-ScanPost_example = sp_scan-ScanPost example_env no_hint sample_start sample_start-Ready

sp_scan-escape_example :
    sp_scan example_env string_hint
      (before_quote sample_start (escape (codes "a\"b") ++ (b'"' ∷ codes " or")))
    ≡ done (
        after_string sample_start
          (escape (codes "a\"b") ++ (b'"' ∷ codes " or"))
          (codes "a\"b")
          (upto (codes " or")))
sp_scan-escape_example =
    sp_scan-escape example_env string_hint sample_start (codes "a\"b") (codes " or") refl

bare_ab : is_bare (codes "ab") ≡ true
unfolding last_byte
bare_ab = refl

wildcards_example :
    (wildcards query t_equal (codes "ab") ≡ done (t_equal, codes "ab"))
    × (wildcards query t_equal (codes "ab*") ≡ done (t_startswith, codes "ab"))
    × (wildcards query t_equal (codes "*ab") ≡ done (t_endswith, codes "ab"))
    × (wildcards query t_equal (codes "*ab*") ≡ done (t_includes, codes "ab"))
wildcards_example = wildcards_lem t_equal b'a' (codes "b") bare_ab (λ e. absurd (omega arith))

abbrev negated_tree : Node
negated_tree = criterion (codes "artist") t_includes string true 4 (cvalue (codes "a"))

sp_node_matches-without_not_example :
    sp_node_matches (strings (all_strings sample_song)) (without_not negated_tree)
    ≡ sp_node_matches (strings (all_strings sample_song)) negated_tree
sp_node_matches-without_not_example =
    sp_node_matches-without_not (strings (all_strings sample_song)) negated_tree

-- A query for titles that do not include "x", and a song with its title at place 3 and "x" at place 0.
abbrev negated_query : Node
negated_query = criterion (codes "title") t_includes string true 0 (cvalue (codes "x"))

abbrev named_song : ℕ → Bytes
named_song k = if k == 3 then codes "Abba" else codes "x"

negated_query-formed : well_formed negated_query ≡ true
unfolding well_formed
negated_query-formed = refl

negated_query-InTable : InTable negated_query
unfolding InTable
negated_query-InTable = omega arith

negated_query-Readable : Readable (strings (all_strings named_song)) negated_query
unfolding Readable val_string
negated_query-Readable = (_, refl)

sp_node_matches-as_read_example :
    Decides
      (sp_node_matches (strings (all_strings named_song)) negated_query)
      (Holds (strings (all_strings named_song)) (as_read negated_query))
sp_node_matches-as_read_example =
    sp_node_matches-as_read (strings (all_strings named_song)) negated_query negated_query-formed
      negated_query-InTable negated_query-Readable
