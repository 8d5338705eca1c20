-- ===== src/SmartParser/Media.antt =====
-- The song records that a criterion is checked against: the field table `ff_field_data` of src/db.c,
-- and reads of the two forms of a record (MEDIA_NATIVE and MEDIA_STRING of src/ff-dbstruct.h).
use Prim.Native.String.{String}
use fireflymediaserver.Prelude.{
  ℕ, ◌+◌, ◌-◌, ◌*◌, ◌%◌, ◌^◌, ◌≡◌, min, ◌&&◌, ◌||◌, List, [], ◌∷◌, Option, none, some, leb, ltb,
  ◌==◌, if◌then◌else◌, get_elem?, Bytes, codes,
}
use fireflymediaserver.Prelude.Int.{ℤ, pos, negsuc}
use fireflymediaserver.SmartParser.State.{Outcome, done, bad_read, ◌>>=◌}

-- FT_INT32, FT_INT64 and FT_STRING.
pub data FieldType : Type 0 where
  ft_int32 ft_int64 ft_string : FieldType

pub record FieldEntry : Type 0 where
  pub name : Bytes
  pub type : FieldType

abbrev entry : String → FieldType → FieldEntry
entry name type = record { name = codes name; type = type }

unfoldable pub ff_field_data : List FieldEntry
ff_field_data =
    entry "id" ft_int32
    ∷ entry "path" ft_string
    ∷ entry "fname" ft_string
    ∷ entry "title" ft_string
    ∷ entry "artist" ft_string
    ∷ entry "album" ft_string
    ∷ entry "genre" ft_string
    ∷ entry "comment" ft_string
    ∷ entry "type" ft_string
    ∷ entry "composer" ft_string
    ∷ entry "orchestra" ft_string
    ∷ entry "conductor" ft_string
    ∷ entry "grouping" ft_string
    ∷ entry "url" ft_string
    ∷ entry "bitrate" ft_int32
    ∷ entry "samplerate" ft_int32
    ∷ entry "song_length" ft_int32
    ∷ entry "file_size" ft_int64
    ∷ entry "year" ft_int32
    ∷ entry "track" ft_int32
    ∷ entry "total_tracks" ft_int32
    ∷ entry "disc" ft_int32
    ∷ entry "total_discs" ft_int32
    ∷ entry "bpm" ft_int32
    ∷ entry "compilation" ft_int32
    ∷ entry "rating" ft_int32
    ∷ entry "play_count" ft_int32
    ∷ entry "data_kind" ft_int32
    ∷ entry "item_kind" ft_int32
    ∷ entry "description" ft_string
    ∷ entry "time_added" ft_int32
    ∷ entry "time_modified" ft_int32
    ∷ entry "time_played" ft_int32
    ∷ entry "disabled" ft_int32
    ∷ entry "sample_count" ft_int64
    ∷ entry "codectype" ft_string
    ∷ entry "idx" ft_int32
    ∷ entry "has_video" ft_int32
    ∷ entry "contentrating" ft_int32
    ∷ entry "bits_per_sample" ft_int32
    ∷ entry "album_artist" ft_string
    ∷ []

-- A member of MEDIA_NATIVE.
pub data FieldValue : Type 0 where
  int32 int64 : ℕ → FieldValue
  text : Option Bytes → FieldValue

abbrev pub type_of : FieldValue → FieldType
type_of (int32 n) = ft_int32
type_of (int64 n) = ft_int64
type_of (text s) = ft_string

-- A record, by the place of each member in `ff_field_data` (which gives its offset): typed members,
-- or the strings of MEDIA_STRING, which is an array of pointers.
pub data Media : Type 0 where
  native : (ℕ → FieldValue) → Media
  strings : (ℕ → Option Bytes) → Media

-- The members have the types that the table gives them.
abbrev pub IsTyped : (ℕ → FieldValue) → Type 0
IsTyped song =
    (k : ℕ) (e : FieldEntry) → get_elem? ff_field_data k ≡ some e → type_of (song k) ≡ e.type

abbrev pub or_empty : Option Bytes → Bytes
or_empty none = []
or_empty (some s) = s

-- The digits that `strtoul` reads, onto the value before them.
unfoldable pub leading_digits : ℕ → Bytes → ℕ
leading_digits acc [] = acc
leading_digits acc (c ∷ s) =
    let rest = leading_digits (acc * 10 + (c - b'0')) s in
    if leb b'0' c && leb c b'9' then rest else acc

-- `strtoul(s, NULL, 10)` and `strtoull`: blanks, a sign, digits; ULONG_MAX for a larger value.
unfoldable pub unsigned_value : Bytes → ℕ
unfolding leading_digits
unsigned_value s = min (leading_digits 0 s) (2 ^ 64 - 1)

unfoldable pub signed_value : Bytes → ℕ
unfolding unsigned_value
signed_value [] = 0
signed_value (c ∷ s) =
    if c == b'-'
    then (2 ^ 64 - unsigned_value s) % 2 ^ 64
    else if c == b'+'
    then unsigned_value s
    else unsigned_value (c ∷ s)

unfoldable pub strtoul : Bytes → ℕ
unfolding signed_value
strtoul [] = 0
strtoul (c ∷ s) =
    let rest = strtoul s in if c == b' ' || leb 9 c && leb c 13 then rest else signed_value (c ∷ s)

-- A `time_t` of 64 bits.
abbrev pub to_int64 : ℕ → ℤ
to_int64 n = if ltb n (2 ^ 63) then pos n else negsuc (2 ^ 64 - 1 - n)

unfoldable pub read_text : FieldValue → Outcome Bytes
read_text (text s) = done (or_empty s)
read_text other = bad_read

unfoldable pub read_int32 : FieldValue → Outcome ℕ
read_int32 (int32 n) = done n
read_int32 other = bad_read

unfoldable pub read_int64 : FieldValue → Outcome ℕ
read_int64 (int64 n) = done n
read_int64 other = bad_read

-- A string that is read with no test for NULL.
unfoldable pub not_null : Option Bytes → Outcome Bytes
not_null none = bad_read
not_null (some s) = done s

-- `val_string`, `val_uint32`, `val_uint64` and `val_date` of `sp_node_matches`.
unfoldable pub val_string : Media → ℕ → Outcome Bytes
unfolding read_text
val_string (native song) k = read_text (song k)
val_string (strings song) k = done (or_empty (song k))

unfoldable pub val_uint32 : Media → ℕ → Outcome ℕ
unfolding read_int32 strtoul
val_uint32 (native song) k = read_int32 (song k)
val_uint32 (strings song) k = done (elim (song k) [ none ↦ 0 | some s ↦ strtoul s % 2 ^ 32 ])

unfoldable pub val_uint64 : Media → ℕ → Outcome ℕ
unfolding read_int64 not_null strtoul
val_uint64 (native song) k = read_int64 (song k)
val_uint64 (strings song) k = do s ← not_null (song k); done (strtoul s)

unfoldable pub val_date : Media → ℕ → Outcome ℤ
unfolding read_int32 not_null strtoul
val_date (native song) k = do n ← read_int32 (song k); done (pos n)
val_date (strings song) k = do s ← not_null (song k); done (to_int64 (strtoul s))
