-- ===== src/Xml/Tests.antt =====
-- Entities of src/xml-rpc.c and src/rxml.c at concrete texts.
use fireflymediaserver.Prelude.{
  ℕ, ◌+◌, ◌*◌, ◌<◌, ◌≡◌, refl, ◌∷◌, Option, none, some, length, Bytes, codes, if◌then◌else◌, ◌==◌,
  ◌&&◌,
}
use fireflymediaserver.SmartParser.State.{done}
use fireflymediaserver.Xml.{xml_entity_encode, rxml_decode_string}
use fireflymediaserver.Xml.RoundTrip.{rxml_decode_string-xml_entity_encode}

-- A scanner that finds "38" and nothing else.
abbrev scan_38 : ℕ → Bytes → Option ℕ
scan_38 cval (a ∷ b ∷ s) = if a == b'3' && b == b'8' then some 38 else none
scan_38 cval s = none

decodes_number : rxml_decode_string scan_38 0 (codes "a&#38;b") ≡ done (some (codes "a&b"))
unfolding rxml_decode_string
decodes_number = refl

xml_round_trip_example :
    (rxml_decode_string scan_38 0 (xml_entity_encode (codes "Rock & \"Roll\""))
      ≡ done (some (codes "Rock & \"Roll\"")))
    × (length (xml_entity_encode (codes "Rock & \"Roll\""))
        < 6 * length (codes "Rock & \"Roll\"") + 1)
xml_round_trip_example = rxml_decode_string-xml_entity_encode scan_38 0 (codes "Rock & \"Roll\"")
