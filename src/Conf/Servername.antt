-- ===== src/Conf/Servername.antt =====
-- conf_get_servername of src/conf.c: the name's template, with the host name for `%h` and the version
-- for `%v`. A `%` that ends the template makes both loops read behind the template's NUL.
use fireflymediaserver.Prelude.{
  ℕ, zero, suc, ◌+◌, ◌≤◌, ◌≡◌, refl, sym, ap, true, false, ◌⊎◌, inl, inr, [], ◌∷◌, ◌++◌, Option,
  none, some, Bytes, codes, if◌then◌else◌, ltb, ◌==◌, ==_iff, arith, length, length-append,
  Bool-cases,
}
use fireflymediaserver.CString.{tolower}
use fireflymediaserver.SmartParser.State.{Outcome, done, overrun, ◌>>=◌}
use fireflymediaserver.Conf.Tree.{Conf, conf_alloc_string}

-- The name up to its first dot, in lower case.
unfoldable pub short_host : Bytes → Bytes
unfolding tolower
short_host [] = []
short_host (c ∷ s) = let rest = short_host s in if c == b'.' then [] else tolower c ∷ rest

-- What `%` and the byte behind it stand for.
abbrev pub percent_value : Bytes → Bytes → ℕ → Bytes
percent_value host version d =
    if d == b'h' then host else if d == b'v' then version else b'%' ∷ d ∷ []

-- The first loop, which adds up `len`.
unfoldable pub name_length : Bytes → Bytes → Bytes → Outcome ℕ
name_length host version [] = done 0
name_length host version (c ∷ []) = if c == b'%' then overrun else done 1
name_length host version (c ∷ d ∷ s) =
    let behind = name_length host version s in
    let next = name_length host version (d ∷ s) in
    if c == b'%'
    then (do
      n ← behind
      done (if d == b'h' then length host + n else if d == b'v' then length version + n else 2 + n))
    else (do n ← next; done (1 + n))

-- The second loop, which fills the buffer.
unfoldable pub expand : Bytes → Bytes → Bytes → Outcome Bytes
expand host version [] = done []
expand host version (c ∷ []) = if c == b'%' then overrun else done (c ∷ [])
expand host version (c ∷ d ∷ s) =
    let behind = expand host version s in
    let next = expand host version (d ∷ s) in
    if c == b'%'
    then (do out ← behind; done (percent_value host version d ++ out))
    else (do out ← next; done (c ∷ out))

unfoldable pub take : ℕ → Bytes → Bytes
take zero s = []
take (suc n) [] = []
take (suc n) (c ∷ s) = c ∷ take n s

-- A name longer than MAX_REND_LEN ends in three dots.
unfoldable pub shorten : Bytes → Bytes
unfolding take
shorten name = if ltb 62 (length name) then take 59 name ++ codes "..." else name

abbrev or_default : Bytes → Option Bytes → Bytes
or_default dflt none = dflt
or_default dflt (some s) = s

unfoldable pub servername_from : Bytes → Bytes → Bytes → Outcome (ℕ × Bytes)
unfolding name_length expand shorten short_host
servername_from host version template = do
  len ← name_length (short_host host) version template
  out ← expand (short_host host) version template
  done (len + 1, shorten out)

-- The size of the buffer, and the name. `host` is what gethostname gives, `version` is VERSION.
unfoldable pub conf_get_servername : Bytes → Bytes → Conf → Outcome (ℕ × Bytes)
unfolding servername_from conf_alloc_string
conf_get_servername host version conf = servername_from host version (
    or_default (codes "firefly %v on %h") (
      conf_alloc_string (codes "general") (codes "servername") (some (codes "firefly %v on %h"))
        conf))

length-take : (n : ℕ) (s : Bytes) → length (take n s) ≤ n
unfolding take
length-take zero s = omega arith
length-take (suc n) [] = omega arith
length-take (suc n) (c ∷ s) = omega (arith, length-take n s)

length-shorten :
    (name : Bytes) → (length (shorten name) ≤ 62) × (length name ≤ 62 → shorten name ≡ name)
unfolding shorten
length-shorten name = elim (Bool-cases (ltb 62 (length name))) [
  | inl e ↦ rw e (
    omega (arith, length-append (take 59 name) (codes "..."), length-take 59 name),
    λ h. ground arith,
  )
  | inr e ↦ rw e ((ground arith), λ h. refl)
]

-- Both loops fill the same bytes, or both leave the template, whose last byte is then `%`.
data Loops (host version template : Bytes) : Type 0 where
  filled :
      (out : Bytes)
      → name_length host version template ≡ done (length out)
      → expand host version template ≡ done out
      → Loops host version template
  left :
      (before : Bytes)
      → template ≡ before ++ codes "%"
      → name_length host version template ≡ overrun
      → Loops host version template

length-percent_value :
    (host version out : Bytes) (d : ℕ)
    → (if d == b'h'
        then length host + length out
        else if d == b'v'
        then length version + length out
        else 2 + length out)
      ≡ length (percent_value host version d ++ out)
length-percent_value host version out d = elim (Bool-cases (d == b'h')) [
  | inl e ↦ rw e (sym (length-append host out))
  | inr e ↦ elim (Bool-cases (d == b'v')) [
    | inl i ↦ rw (e, i) (sym (length-append version out))
    | inr i ↦ rw (e, i) (omega arith)
  ]
]

Loops-percent :
    (host version : Bytes) (c d : ℕ) (s : Bytes)
    → (c == b'%') ≡ true
    → Loops host version s
    → Loops host version (c ∷ d ∷ s)
unfolding name_length expand
Loops-percent host version c d s h (filled out n e) =
    filled (percent_value host version d ++ out)
      (rw (name_length, h, n) (ap done (length-percent_value host version out d)))
      (rw (expand, h, e) refl)
Loops-percent host version c d s h (left before e n) =
    left (c ∷ d ∷ before) (ap (λ t. c ∷ d ∷ t) e) (rw (name_length, h, n) refl)

Loops-plain :
    (host version : Bytes) (c d : ℕ) (s : Bytes)
    → (c == b'%') ≡ false
    → Loops host version (d ∷ s)
    → Loops host version (c ∷ d ∷ s)
unfolding name_length expand
Loops-plain host version c d s h (filled out n e) =
    let one : 1 + length out ≡ suc (length out) = omega arith in
    filled (c ∷ out) (rw (name_length, h, n) (ap done one)) (rw (expand, h, e) refl)
Loops-plain host version c d s h (left before e n) =
    left (c ∷ before) (ap (◌∷◌ c) e) (rw (name_length, h, n) refl)

loops : (host version template : Bytes) → Loops host version template
unfolding name_length expand
loops host version [] = filled [] refl refl
loops host version (c ∷ []) = elim (Bool-cases (c == b'%')) [
  | inl e ↦ left [] (ap (λ x. x ∷ []) ((==_iff c b'%').0 e)) (rw e refl)
  | inr e ↦ filled (c ∷ []) (rw e refl) (rw e refl)
]
loops host version (c ∷ d ∷ s) = elim (Bool-cases (c == b'%')) [
  | inl e ↦ Loops-percent host version c d s e (loops host version s)
  | inr e ↦ Loops-plain host version c d s e (loops host version (d ∷ s))
]

-- From a template that does not end in `%`, the name is filled into a buffer that is exactly as long as
-- the text with its NUL; the name has at most 62 bytes, and is the whole text where that has no more.
-- Where the loops leave the template instead, it ends in `%`.
pub servername_from_lem :
    (host version template : Bytes)
    → ((out : Bytes) × (expand (short_host host) version template ≡ done out)
        × (servername_from host version template ≡ done (length out + 1, shorten out))
        × (length (shorten out) ≤ 62)
        × (length out ≤ 62 → shorten out ≡ out))
      ⊎ ((before : Bytes) × (template ≡ before ++ codes "%")
          × (servername_from host version template ≡ overrun))
unfolding servername_from
servername_from_lem host version template = elim (loops (short_host host) version template) [
  | filled out n e ↦
      let (small, whole) = length-shorten out in inl (out, e, rw (n, e) refl, small, whole)
  | left before e n ↦ inr (before, e, rw n refl)
]
