-- ===== src/SmartParser/Tables.antt =====
-- The tables of src/smart-parser.c: symbols, field names and keywords, terminators.
use Prim.Native.String.{String}
use fireflymediaserver.Prelude.{ℕ, List, [], ◌∷◌, Option, none, some, Bytes, codes}
use fireflymediaserver.SmartParser.Token.{
  QueryType, playlist, query, t_after, t_ago, t_and, t_before, t_close_paren, t_date_field, t_day,
  t_endswith, t_equal, t_exprquote, t_greater, t_greaterand, t_greaterequal, t_includes,
  t_int64_field, t_int_field, t_less, t_lessequal, t_month, t_not, t_open_paren, t_or, t_startswith,
  t_string_field, t_the, t_today, t_week, t_year,
}

pub record FieldLookup : Type 0 where
  pub type : ℕ
  pub name : Bytes
  pub xlat : Option Bytes

abbrev plain : ℕ → String → FieldLookup
plain type name = record { type = type; name = codes name; xlat = none }

abbrev renamed : ℕ → String → String → FieldLookup
renamed type name xlat = record { type = type; name = codes name; xlat = some (codes xlat) }

unfoldable pub symbols_0 : List FieldLookup
symbols_0 =
    plain t_or "||"
    ∷ plain t_and "&&"
    ∷ plain t_equal "="
    ∷ plain t_lessequal "<="
    ∷ plain t_less "<"
    ∷ plain t_greaterequal ">="
    ∷ plain t_greater ">"
    ∷ plain t_open_paren "("
    ∷ plain t_close_paren ")"
    ∷ plain t_not "!"
    ∷ []

unfoldable pub symbols_1 : List FieldLookup
symbols_1 =
    plain t_open_paren "("
    ∷ plain t_close_paren ")"
    ∷ plain t_exprquote "'"
    ∷ plain t_greaterand "+"
    ∷ plain t_greaterand " "
    ∷ plain t_less "-"
    ∷ plain t_or ","
    ∷ plain t_equal ":"
    ∷ plain t_not "!"
    ∷ []

unfoldable pub fields_0 : List FieldLookup
fields_0 =
    plain t_int_field "id"
    ∷ plain t_string_field "path"
    ∷ plain t_string_field "fname"
    ∷ plain t_string_field "title"
    ∷ plain t_string_field "artist"
    ∷ plain t_string_field "album"
    ∷ plain t_string_field "genre"
    ∷ plain t_string_field "comment"
    ∷ plain t_string_field "type"
    ∷ plain t_string_field "composer"
    ∷ plain t_string_field "orchestra"
    ∷ plain t_string_field "grouping"
    ∷ plain t_string_field "url"
    ∷ plain t_int_field "bitrate"
    ∷ plain t_int_field "samplerate"
    ∷ plain t_int_field "song_length"
    ∷ plain t_int_field "file_size"
    ∷ plain t_int_field "year"
    ∷ plain t_int_field "track"
    ∷ plain t_int_field "total_tracks"
    ∷ plain t_int_field "disc"
    ∷ plain t_int_field "total_discs"
    ∷ plain t_int_field "bpm"
    ∷ plain t_int_field "compilation"
    ∷ plain t_int_field "rating"
    ∷ plain t_int_field "play_count"
    ∷ plain t_int_field "data_kind"
    ∷ plain t_int_field "item_kind"
    ∷ plain t_string_field "description"
    ∷ plain t_date_field "time_added"
    ∷ plain t_date_field "time_modified"
    ∷ plain t_date_field "time_played"
    ∷ plain t_int_field "sample_count"
    ∷ plain t_int_field "force_update"
    ∷ plain t_string_field "codectype"
    ∷ plain t_int_field "idx"
    ∷ plain t_int_field "has_video"
    ∷ plain t_int_field "contentrating"
    ∷ plain t_int_field "bits_per_sample"
    ∷ plain t_string_field "album_artist"
    ∷ plain t_or "or"
    ∷ plain t_and "and"
    ∷ plain t_includes "includes"
    ∷ plain t_before "before"
    ∷ plain t_after "after"
    ∷ plain t_ago "ago"
    ∷ plain t_today "today"
    ∷ plain t_the "the"
    ∷ plain t_day "days"
    ∷ plain t_day "day"
    ∷ plain t_week "weeks"
    ∷ plain t_week "week"
    ∷ plain t_month "months"
    ∷ plain t_month "month"
    ∷ plain t_year "years"
    ∷ plain t_year "year"
    ∷ plain t_not "not"
    ∷ plain t_startswith "startswith"
    ∷ plain t_endswith "endswith"
    ∷ []

unfoldable pub fields_1 : List FieldLookup
fields_1 =
    renamed t_string_field "dmap.itemname" "title"
    ∷ renamed t_int_field "dmap.itemid" "id"
    ∷ renamed t_string_field "daap.songalbum" "album"
    ∷ renamed t_string_field "daap.songartist" "artist"
    ∷ renamed t_int_field "daap.songbitrate" "bitrate"
    ∷ renamed t_string_field "daap.songcomment" "comment"
    ∷ renamed t_int_field "daap.songcompilation" "compilation"
    ∷ renamed t_string_field "daap.songcomposer" "composer"
    ∷ renamed t_int_field "daap.songdatakind" "data_kind"
    ∷ renamed t_string_field "daap.songdataurl" "url"
    ∷ renamed t_int_field "daap.songdateadded" "time_added"
    ∷ renamed t_int_field "daap.songdatemodified" "time_modified"
    ∷ renamed t_string_field "daap.songdescription" "description"
    ∷ renamed t_int_field "daap.songdisccount" "total_discs"
    ∷ renamed t_int_field "daap.songdiscnumber" "disc"
    ∷ renamed t_string_field "daap.songformat" "type"
    ∷ renamed t_string_field "daap.songgenre" "genre"
    ∷ renamed t_int_field "daap.songsamplerate" "samplerate"
    ∷ renamed t_int64_field "daap.songsize" "file_size"
    ∷ renamed t_int_field "daap.songstoptime" "song_length"
    ∷ renamed t_int_field "daap.songtime" "song_length"
    ∷ renamed t_int_field "daap.songtrackcount" "total_tracks"
    ∷ renamed t_int_field "daap.songtracknumber" "track"
    ∷ renamed t_int_field "daap.songyear" "year"
    ∷ []

abbrev pub sp_symbols : QueryType → List FieldLookup
sp_symbols playlist = symbols_0
sp_symbols query = symbols_1

abbrev pub sp_fields : QueryType → List FieldLookup
sp_fields playlist = fields_0
sp_fields query = fields_1

-- The columns of `sp_terminators`: outside a string, inside a string, and the quotes. The third
-- column, the escapes, is read nowhere.
abbrev pub word_terminators : QueryType → Bytes
word_terminators playlist = codes " \t\n\r\"<>=()|&!"
word_terminators query = codes "()'+: -,"

abbrev pub string_terminators : QueryType → Bytes
string_terminators playlist = codes "\""
string_terminators query = codes "'"

abbrev pub quotes : QueryType → Bytes
quotes playlist = codes "\""
quotes query = codes ""
