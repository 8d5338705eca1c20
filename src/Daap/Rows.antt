-- ===== src/Daap/Rows.antt =====
-- Rows and the writing of one field of src/plugins/out-daap-proto.c. `atoi` is the C library's, and gives
-- the 32 bits of its `int`.
use fireflymediaserver.Prelude.{
  ℕ, ◌+◌, ◌-◌, ◌*◌, ◌/◌, ◌%◌, ◌^◌, Bool, true, false, not, List, [], ◌∷◌, ◌++◌, Option, none, some,
  ◌==◌, ltb, if◌then◌else◌, length, Bytes, bit_and,
}
use fireflymediaserver.SmartParser.State.{Outcome, done, bad_read, ◌>>=◌}
use fireflymediaserver.Dmap.{
  Tag, string_bytes, dmap_add_char, dmap_add_short, dmap_add_int, dmap_add_string, dmap_add_literal,
}
use fireflymediaserver.Daap.Fields.{sg_bitrate, sg_samplerate}

-- What PRIVINFO holds of the request.
pub record Privinfo : Type 0 where
  pub meta : ℕ
  pub empty_strings : Bool

-- `valarray`: by its column, a string or NULL.
abbrev pub Row : Type 0
Row = ℕ → Option Bytes

unfoldable pub daap_wantsmeta : ℕ → ℕ → Bool
daap_wantsmeta meta field = not (bit_and meta (2 ^ field) == 0)

unfoldable pub wants : Privinfo → ℕ → Bool
unfolding daap_wantsmeta
wants p field = daap_wantsmeta p.meta field

-- "(a) && strlen((a))", EMIT and DMAPLEN.
abbrev pub has_text : Option Bytes → Bool
has_text none = false
has_text (some s) = not (length s == 0)

abbrev pub emit : Privinfo → Option Bytes → Bool
emit p a = if p.empty_strings then true else has_text a

abbrev pub dmaplen : Privinfo → Option Bytes → ℕ
dmaplen p a = if has_text a then 8 + length (string_bytes a) else if p.empty_strings then 8 else 0

abbrev pub is_four : Option Bytes → Bool
is_four none = false
is_four (some s) = length s == 4

abbrev pub count : Bool → ℕ → ℕ
count b n = if b then n else 0

abbrev pub total : List ℕ → ℕ
total [] = 0
total (n ∷ ns) = n + total ns

abbrev pub text_of : Option Bytes → Outcome Bytes
text_of none = bad_read
text_of (some s) = done s

-- A block that is written under a condition.
abbrev pub when : Bool → Outcome Bytes → Outcome Bytes
when b piece = if b then piece else done []

-- Blocks written one behind the other.
abbrev pub written : List (Outcome Bytes) → Outcome Bytes
written [] = done []
written (piece ∷ pieces) = let rest = written pieces in do b ← piece; bs ← rest; done (b ++ bs)

abbrev pub tag : ℕ → ℕ → ℕ → ℕ → Tag
tag b0 b1 b2 b3 = record { b0 = b0; b1 = b1; b2 = b2; b3 = b3 }

unfoldable pub string_field : Tag → Option Bytes → Outcome Bytes
unfolding dmap_add_string
string_field t v = done (dmap_add_string t v).0

unfoldable pub literal_field : Tag → Option Bytes → Outcome Bytes
unfolding dmap_add_literal
literal_field t none = bad_read
literal_field t (some v) = done (dmap_add_literal t v).0

-- "(short)(samplerate / 250 * 8)", where the quotient is cut towards 0.
unfoldable pub guess_bit_rate : ℕ → ℕ
guess_bit_rate n =
    if ltb n (2 ^ 31)
    then n / 250 * 8 % 2 ^ 16
    else (2 ^ 16 - (2 ^ 32 - n) / 250 * 8 % 2 ^ 16) % 2 ^ 16

module _ (atoi : Bytes → ℕ) where
  -- "valarray[k] && atoi(valarray[k])".
  abbrev pub is_set : Option Bytes → Bool
  is_set none = false
  is_set (some s) = not (atoi s == 0)

  -- `atoi(valarray[k])`.
  abbrev pub number : Option Bytes → Outcome ℕ
  number none = bad_read
  number (some s) = done (atoi s)

  unfoldable pub char_field : Tag → Option Bytes → Outcome Bytes
  unfolding dmap_add_char
  char_field t v = do n ← number v; done (dmap_add_char t (n % 2 ^ 8)).0

  unfoldable pub short_field : Tag → Option Bytes → Outcome Bytes
  unfolding dmap_add_short
  short_field t v = do n ← number v; done (dmap_add_short t (n % 2 ^ 16)).0

  unfoldable pub int_field : Tag → Option Bytes → Outcome Bytes
  unfolding dmap_add_int
  int_field t v = do n ← number v; done (dmap_add_int t n).0

  abbrev pub rate_of : Option Bytes → ℕ
  rate_of none = 0
  rate_of (some s) = atoi s

  -- The bit rate, or a guess from the sample rate.
  unfoldable pub bit_rate_field : Bool → Row → Outcome Bytes
  unfolding dmap_add_short guess_bit_rate
  bit_rate_field transcode row =
      if transcode
      then if rate_of (row sg_samplerate) == 0
        then done []
        else done
            (dmap_add_short (tag b'a' b's' b'b' b'r')
              (guess_bit_rate (rate_of (row sg_samplerate)))).0
      else short_field (tag b'a' b's' b'b' b'r') (row sg_bitrate)

  -- "valarray[PL_TYPE] && (atoi(valarray[PL_TYPE])==1)", and "atoi(valarray[PL_ID])==1".
  abbrev pub is_smart : Option Bytes → Bool
  is_smart none = false
  is_smart (some s) = atoi s == 1
