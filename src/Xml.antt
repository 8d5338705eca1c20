-- ===== src/Xml.antt =====
-- Entities of XML: `xml_entity_encode` of src/xml-rpc.c, which writes them, and `rxml_decode_string` of
-- src/rxml.c, which reads them.
pub mod RoundTrip
pub mod Answer
mod Tests
use fireflymediaserver.Prelude.{
  ℕ, zero, suc, ◌%◌, Bool, true, false, [], ◌∷◌, ◌++◌, Option, none, some, ◌==◌, if◌then◌else◌,
  length, Bytes, codes,
}
use fireflymediaserver.CString.{strip_prefix}
use fireflymediaserver.SmartParser.State.{Outcome, done, overrun, out_of_fuel, ◌>>=◌}

-- The switch on a character.
unfoldable pub entity : ℕ → Bytes
entity c =
    if c == b'>'
    then codes "&gt;"
    else if c == b'<'
    then codes "&lt;"
    else if c == b'"'
    then codes "&quot;"
    else if c == b'\''
    then codes "&apos;"
    else if c == b'&'
    then codes "&amp;"
    else c ∷ []

unfoldable pub xml_entity_encode : Bytes → Bytes
unfolding entity
xml_entity_encode [] = []
xml_entity_encode (c ∷ s) = entity c ++ xml_entity_encode s

-- What stands behind a text, with the character that the text is for.
abbrev pub found : Bytes → ℕ → Bytes → Option (ℕ × Bytes)
found name c s = elim (strip_prefix name s) [ none ↦ none | some rest ↦ some (c, rest) ]

abbrev pub or_else : Option (ℕ × Bytes) → Option (ℕ × Bytes) → Option (ℕ × Bytes)
or_else none other = other
or_else (some x) other = some x

-- The five named entities, at an "&".
unfoldable pub named : Bytes → Option (ℕ × Bytes)
unfolding strip_prefix
named s = or_else (found (codes "&gt;") b'>' s) (
    or_else (found (codes "&lt;") b'<' s) (
      or_else (found (codes "&amp;") b'&' s)
        (or_else (found (codes "&quot;") b'"' s) (found (codes "&apos;") b'\'' s))))

-- The tests on `src[3]`, `src[4]` and `src[5]`, where the text starts at `src[2]`.
unfoldable pub semicolon : Bytes → Outcome (Option Bytes)
semicolon (x ∷ c3 ∷ []) = if c3 == b';' then done (some []) else overrun
semicolon (x ∷ c3 ∷ c4 ∷ []) =
    if c3 == b';' then done (some (c4 ∷ [])) else if c4 == b';' then done (some []) else done none
semicolon (x ∷ c3 ∷ c4 ∷ c5 ∷ s) =
    if c3 == b';'
    then done (some (c4 ∷ c5 ∷ s))
    else if c4 == b';'
    then done (some (c5 ∷ s))
    else if c5 == b';'
    then done (some s)
    else done none
semicolon s = overrun

abbrev pub behind : ℕ → Outcome (Option Bytes) → Outcome (Option Bytes)
behind c rest = do r ← rest; elim r [ none ↦ done none | some s ↦ done (some (c ∷ s)) ]

module _ (sscanf : ℕ → Bytes → Option ℕ) where
  -- `sscanf(text,"%d;",&cval)` gives `none` for 0, and else what `cval` holds then.
  unfoldable pub numbered : ℕ → Bytes → Outcome (Option (ℕ × Bytes))
  unfolding semicolon
  numbered cval (amp ∷ x ∷ text) = elim (sscanf cval text) [
    | none ↦ done none
    | some value ↦ do
      rest ← semicolon text
      elim rest [ none ↦ done none | some s ↦ done (some (value, s)) ]
  ]
  numbered cval s = overrun

  -- The loop. A round reads at least one character, so their number is fuel enough.
  unfoldable pub decode_from : ℕ → ℕ → Bytes → Outcome (Option Bytes)
  unfolding named numbered
  decode_from fuel cval [] = done (some [])
  decode_from zero cval (c ∷ s) = out_of_fuel
  decode_from (suc fuel) cval (c ∷ s) =
      let next = decode_from fuel in
      if c == b'&'
      then elim (named (c ∷ s)) [
        | some (d, rest) ↦ behind d (next cval rest)
        | none ↦ do
          r ← numbered cval (c ∷ s)
          elim r [ none ↦ done none | some (d, rest) ↦ behind (d % 256) (next d rest) ]
      ]
      else behind c (next cval s)

  -- `cval` starts with what the stack holds. The result is the string, or `none` for FALSE.
  unfoldable pub rxml_decode_string : ℕ → Bytes → Outcome (Option Bytes)
  unfolding decode_from
  rxml_decode_string cval string = decode_from (length string) cval string
