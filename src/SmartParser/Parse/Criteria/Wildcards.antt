-- ===== src/SmartParser/Parse/Criteria/Wildcards.antt =====
-- The wildcards of a query's string, in `sp_parse_string_criterion` of src/smart-parser.c.
use fireflymediaserver.Prelude.{
  ℕ, ◌≡◌, ◌≢◌, ◌↔◌, ◌⊎◌, inl, inr, refl, sym, ◌∙◌, true, false, [], ◌∷◌, ◌++◌, arith, ◌==◌, ==_iff,
  if◌then◌else◌, Bytes, Bool-cases, Bool, ap, codes,
}
use fireflymediaserver.SmartParser.Token.{query, t_includes, t_startswith, t_endswith}
use fireflymediaserver.SmartParser.State.{done, underrun}
use fireflymediaserver.SmartParser.Parse.Criteria.{
  last_byte, drop_last, leading_star, trailing_star, wildcards,
}

-- A string that neither starts nor ends by a star and has a byte.
abbrev pub is_bare : Bytes → Bool
is_bare [] = false
is_bare (c ∷ s) = if c == b'*' then false else if last_byte c s == b'*' then false else true

last_byte-append : (c d : ℕ) (s : Bytes) → last_byte c (s ++ (d ∷ [])) ≡ d
unfolding last_byte
last_byte-append c d [] = refl
last_byte-append c d (e ∷ s) = last_byte-append e d s

drop_last-append : (c d : ℕ) (s : Bytes) → drop_last c (s ++ (d ∷ [])) ≡ c ∷ s
unfolding drop_last
drop_last-append c d [] = refl
drop_last-append c d (e ∷ s) = ap (◌∷◌ c) (drop_last-append e d s)

wildcards_leading :
    (op : ℕ) (text : Bytes) → wildcards query op (b'*' ∷ text) ≡ trailing_star t_endswith text
unfolding wildcards leading_star
wildcards_leading op text = refl

module _ (op c : ℕ) (s : Bytes) where
  wildcards_plain : (c == b'*') ≡ false → wildcards query op (c ∷ s) ≡ trailing_star op (c ∷ s)
  unfolding wildcards leading_star
  wildcards_plain h = rw h refl

  trailing_star_plain :
      (last_byte c s == b'*') ≡ false → trailing_star op (c ∷ s) ≡ done (op, c ∷ s)
  unfolding trailing_star
  trailing_star_plain h = rw h refl

  trailing_star_star :
      trailing_star op (c ∷ (s ++ codes "*"))
      ≡ done (if op == t_endswith then t_includes else t_startswith, c ∷ s)
  unfolding trailing_star
  trailing_star_star = rw (last_byte-append c b'*' s, drop_last-append c b'*' s) refl

  trailing_star-done : trailing_star op (c ∷ s) ≢ underrun
  unfolding trailing_star
  trailing_star-done h = cc

-- The text of a query, without stars at its ends, is what the criterion looks for: `x` by the
-- operator as it is, `x*` as a start, `*x` as an end, and `*x*` as a part.
pub wildcards_lem :
    (op c : ℕ) (s : Bytes)
    → is_bare (c ∷ s) ≡ true
    → op ≢ t_endswith
    → (wildcards query op (c ∷ s) ≡ done (op, c ∷ s))
      × (wildcards query op (c ∷ (s ++ codes "*")) ≡ done (t_startswith, c ∷ s))
      × (wildcards query op (b'*' ∷ c ∷ s) ≡ done (t_endswith, c ∷ s))
      × (wildcards query op (b'*' ∷ c ∷ (s ++ codes "*")) ≡ done (t_includes, c ∷ s))
wildcards_lem op c s bare ne =
    let first : (c == b'*') ≡ false = ground arith in
    let last : (last_byte c s == b'*') ≡ false = ground arith in
    let other : (op == t_endswith) ≡ false = ground arith in
    (
      wildcards_plain op c s first ∙ trailing_star_plain op c s last,
      wildcards_plain op c (s ++ codes "*") first ∙ (trailing_star_star op c s ∙ rw other refl),
      wildcards_leading op (c ∷ s) ∙ trailing_star_plain t_endswith c s last,
      wildcards_leading op (c ∷ (s ++ codes "*")) ∙ trailing_star_star t_endswith c s,
    )

-- The empty string and a single star leave nothing behind the leading star, and the code then looks at the byte in
-- front of the string; no other string does that.
pub wildcards-underrun_iff :
    (op : ℕ) (text : Bytes)
    → (wildcards query op text ≡ underrun) ↔ ((text ≡ []) ⊎ (text ≡ codes "*"))
wildcards-underrun_iff op [] =
    (λ h. inl refl, λ h. unfold wildcards leading_star trailing_star in refl)
wildcards-underrun_iff op (c ∷ []) = (
  λ h. elim (Bool-cases (c == b'*')) [
    | inl star ↦ inr (ap (λ x. x ∷ []) ((==_iff c b'*').0 star))
    | inr plain ↦ absurd (trailing_star-done op c [] (sym (wildcards_plain op c [] plain) ∙ h))
  ],
  λ h. elim h [ inl e ↦ cc | inr e ↦ rw e (unfold wildcards leading_star trailing_star in refl) ],
)
wildcards-underrun_iff op (c ∷ d ∷ s) = (
  λ h. elim (Bool-cases (c == b'*')) [
    | inl star ↦ absurd (
        trailing_star-done t_endswith d s (
          sym (
            ap (λ x. wildcards query op (x ∷ d ∷ s)) ((==_iff c b'*').0 star)
            ∙ wildcards_leading op (d ∷ s))
          ∙ h))
    | inr plain ↦
        absurd (trailing_star-done op c (d ∷ s) (sym (wildcards_plain op c (d ∷ s) plain) ∙ h))
  ],
  λ h. elim h [ inl e ↦ cc | inr e ↦ cc ],
)
