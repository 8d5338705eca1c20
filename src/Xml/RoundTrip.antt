-- ===== src/Xml/RoundTrip.antt =====
-- Texts with their special characters as entities, through src/xml-rpc.c and src/rxml.c.
use fireflymediaserver.Prelude.{
  ℕ, zero, suc, ◌+◌, ◌*◌, ◌≤◌, ◌<◌, ◌≡◌, ◌∙◌, refl, ap, true, false, [], ◌∷◌, ◌++◌, Option, some,
  ◌==◌, ==_iff, length, length-append, subst, sym, append_assoc, Bytes, codes, arith, if_cases,
}
use fireflymediaserver.CString.{strip_prefix}
use fireflymediaserver.SmartParser.State.{done, overrun}
use fireflymediaserver.Xml.{
  entity, xml_entity_encode, named, numbered, decode_from, behind, rxml_decode_string,
}

-- A character, as an entity or as itself.
data Entity : ℕ → Bytes → Type 0 where
  gt : Entity b'>' (codes "&gt;")
  lt : Entity b'<' (codes "&lt;")
  quot : Entity b'"' (codes "&quot;")
  apos : Entity b'\'' (codes "&apos;")
  amp : Entity b'&' (codes "&amp;")
  plain : {c : ℕ} → (c == b'&') ≡ false → Entity c (c ∷ [])

is_code : (c d : ℕ) (b : Bytes) → Entity d b → (c == d) ≡ true → Entity c b
is_code c d b h e = subst (λ x. Entity x b) (sym ((==_iff c d).0 e)) h

entity-Entity : (c : ℕ) → Entity c (entity c)
unfolding entity
entity-Entity c = if_cases (Entity c) (c == b'>') (is_code c b'>' _ gt) (λ a.
    if_cases (Entity c) (c == b'<') (is_code c b'<' _ lt) (λ b.
      if_cases (Entity c) (c == b'"') (is_code c b'"' _ quot) (λ d.
        if_cases (Entity c) (c == b'\'') (is_code c b'\'' _ apos)
          (λ e. if_cases (Entity c) (c == b'&') (is_code c b'&' _ amp) plain))))

length-entity : (c : ℕ) → (1 ≤ length (entity c)) × (length (entity c) ≤ 6)
unfolding entity
length-entity c = (ground arith, ground arith)

length-xml_entity_encode :
    (s : Bytes)
    → (length s ≤ length (xml_entity_encode s)) × (length (xml_entity_encode s) ≤ 6 * length s)
unfolding xml_entity_encode
length-xml_entity_encode [] = (omega arith, omega arith)
length-xml_entity_encode (c ∷ s) =
    let (l1, u1) = length-entity c in
    let (l, u) = length-xml_entity_encode s in
    (
      omega (arith, length-append (entity c) (xml_entity_encode s)),
      omega (arith, length-append (entity c) (xml_entity_encode s)),
    )

module _ (sscanf : ℕ → Bytes → Option ℕ) where
  decode-Entity :
      (fuel cval c : ℕ) (b s : Bytes)
      → Entity c b
      → decode_from sscanf (suc fuel) cval (b ++ s) ≡ behind c (decode_from sscanf fuel cval s)
  unfolding decode_from named strip_prefix
  decode-Entity fuel cval _ _ s gt = refl
  decode-Entity fuel cval _ _ s lt = refl
  decode-Entity fuel cval _ _ s quot = refl
  decode-Entity fuel cval _ _ s apos = refl
  decode-Entity fuel cval _ _ s amp = refl
  decode-Entity fuel cval c _ s (plain h) = rw h refl

  decode-encode :
      (fuel cval : ℕ) (s : Bytes)
      → length s ≤ fuel
      → decode_from sscanf fuel cval (xml_entity_encode s) ≡ done (some s)
  unfolding xml_entity_encode decode_from
  decode-encode fuel cval [] h = refl
  decode-encode zero cval (c ∷ s) h = absurd (omega arith)
  decode-encode (suc fuel) cval (c ∷ s) h =
      decode-Entity fuel cval c (entity c) (xml_entity_encode s) (entity-Entity c)
      ∙ ap (behind c) (decode-encode fuel cval s (omega arith))

  -- A text that `xml_entity_encode` wrote, which fits in the memory that it allocated, is decoded to
  -- itself.
  pub rxml_decode_string-xml_entity_encode :
      (cval : ℕ) (s : Bytes)
      → (rxml_decode_string sscanf cval (xml_entity_encode s) ≡ done (some s))
        × (length (xml_entity_encode s) < 6 * length s + 1)
  unfolding rxml_decode_string
  rxml_decode_string-xml_entity_encode cval s =
      let (l, u) = length-xml_entity_encode s in
      (decode-encode (length (xml_entity_encode s)) cval s l, omega arith)

  decode-cut :
      (fuel cval : ℕ) (s : Bytes)
      → length s < fuel
      → decode_from sscanf fuel cval (xml_entity_encode s ++ codes "&") ≡ overrun
  unfolding xml_entity_encode decode_from named strip_prefix numbered
  decode-cut zero cval s h = absurd (omega arith)
  decode-cut (suc fuel) cval [] h = refl
  decode-cut (suc fuel) cval (c ∷ s) h =
      rw (append_assoc (entity c) (xml_entity_encode s) (codes "&")) (
        decode-Entity fuel cval c (entity c) (xml_entity_encode s ++ codes "&") (entity-Entity c)
        ∙ ap (behind c) (decode-cut fuel cval s (omega arith)))

  -- A text that ends in an "&" is read behind its NUL.
  pub rxml_decode_string-cut :
      (cval : ℕ) (s : Bytes)
      → rxml_decode_string sscanf cval (xml_entity_encode s ++ codes "&") ≡ overrun
  unfolding rxml_decode_string
  rxml_decode_string-cut cval s =
      let (l, u) = length-xml_entity_encode s in
      decode-cut (length (xml_entity_encode s ++ codes "&")) cval s
        (omega (arith, length-append (xml_entity_encode s) (codes "&")))
