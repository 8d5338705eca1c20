-- ===== src/Util/RoundTrip.antt =====
-- Strings that are joined with a delimiter, and util_split of src/util.c.
use fireflymediaserver.Prelude.{
  ℕ, suc, ◌≡◌, refl, ap, Bool, true, false, List, [], ◌∷◌, ◌++◌, Option, none, some, length, ◌∙◌,
  append-nil, ◌==◌, if◌then◌else◌, Bytes, Bool-cases, inl, inr, arith,
}
use fireflymediaserver.Util.{has, skip_leading, count_from, cut, fix, tokens, argv, util_split}

-- A token as it must be written: each delimiter twice.
unfoldable pub escape : Bytes → Bytes → Bytes
escape delimiters [] = []
escape delimiters (c ∷ t) =
    let rest = escape delimiters t in if has delimiters c then c ∷ c ∷ rest else c ∷ rest

-- The tokens behind the first, each with the separator in front.
unfoldable pub joined_rest : Bytes → ℕ → List Bytes → Bytes
unfolding escape
joined_rest delimiters sep [] = []
joined_rest delimiters sep (t ∷ ts) = sep ∷ escape delimiters t ++ joined_rest delimiters sep ts

-- A token that is not empty and starts with a byte that passes the test.
abbrev pub StartsWith : (ℕ → Bool) → Bytes → Type 0
StartsWith test t = (c : ℕ) × (rest : Bytes) × (t ≡ c ∷ rest) × (test c ≡ false)

unfoldable pub AllStart : (ℕ → Bool) → List Bytes → Type 0
AllStart test [] = Unit
AllStart test (t ∷ ts) = StartsWith test t × AllStart test ts

cut_plain :
    (delimiters : Bytes) (c : ℕ) (r : Bytes)
    → has delimiters c ≡ false
    → cut delimiters (c ∷ r) ≡ (c ∷ (cut delimiters r).0, (cut delimiters r).1)
unfolding cut
cut_plain delimiters c [] h = rw h refl
cut_plain delimiters c (e ∷ r) h = rw h refl

==-refl : (c : ℕ) → (c == c) ≡ true
==-refl c = ground arith

cut_pair :
    (delimiters : Bytes) (c : ℕ) (r : Bytes)
    → has delimiters c ≡ true
    → cut delimiters (c ∷ c ∷ r) ≡ (c ∷ c ∷ (cut delimiters r).0, (cut delimiters r).1)
unfolding cut
cut_pair delimiters c r h = rw (h, ==-refl c) refl

cut-escape :
    (delimiters t r : Bytes)
    → cut delimiters (escape delimiters t ++ r)
      ≡ (escape delimiters t ++ (cut delimiters r).0, (cut delimiters r).1)
unfolding escape
cut-escape delimiters [] r = refl
cut-escape delimiters (c ∷ t) r = elim (Bool-cases (has delimiters c)) [
  | inl h ↦
      rw h (rw (cut_pair delimiters c (escape delimiters t ++ r) h, cut-escape delimiters t r) refl)
  | inr h ↦
      rw h
        (rw (cut_plain delimiters c (escape delimiters t ++ r) h, cut-escape delimiters t r) refl)
]

fix_plain :
    (delimiters : Bytes) (c : ℕ) (r : Bytes)
    → has delimiters c ≡ false
    → fix delimiters (c ∷ r) ≡ c ∷ fix delimiters r
unfolding fix
fix_plain delimiters c [] h = refl
fix_plain delimiters c (e ∷ r) h = rw h refl

fix_pair :
    (delimiters : Bytes) (c : ℕ) (r : Bytes)
    → has delimiters c ≡ true
    → fix delimiters (c ∷ c ∷ r) ≡ c ∷ fix delimiters r
unfolding fix
fix_pair delimiters c r h = rw (h, ==-refl c) refl

fix-escape : (delimiters t : Bytes) → fix delimiters (escape delimiters t) ≡ t
unfolding escape fix
fix-escape delimiters [] = refl
fix-escape delimiters (c ∷ t) = elim (Bool-cases (has delimiters c)) [
  | inl h ↦ rw h (rw (fix_pair delimiters c (escape delimiters t) h, fix-escape delimiters t) refl)
  | inr h ↦ rw h (rw (fix_plain delimiters c (escape delimiters t) h, fix-escape delimiters t) refl)
]

count_plain :
    (delimiters : Bytes) (c : ℕ) (r : Bytes)
    → has delimiters c ≡ false
    → count_from delimiters (c ∷ r) ≡ count_from delimiters r
unfolding count_from
count_plain delimiters c [] h = rw h refl
count_plain delimiters c (e ∷ r) h = rw h refl

count_pair :
    (delimiters : Bytes) (c : ℕ) (r : Bytes)
    → has delimiters c ≡ true
    → count_from delimiters (c ∷ c ∷ r) ≡ count_from delimiters r
unfolding count_from
count_pair delimiters c r h = rw (h, ==-refl c) refl

count-escape :
    (delimiters t r : Bytes)
    → count_from delimiters (escape delimiters t ++ r) ≡ count_from delimiters r
unfolding escape
count-escape delimiters [] r = refl
count-escape delimiters (c ∷ t) r = elim (Bool-cases (has delimiters c)) [
  | inl h ↦
      rw h (rw (count_pair delimiters c (escape delimiters t ++ r) h) (count-escape delimiters t r))
  | inr h ↦
      rw h
        (rw (count_plain delimiters c (escape delimiters t ++ r) h) (count-escape delimiters t r))
]

cut_sep :
    (delimiters : Bytes) (sep e : ℕ) (s : Bytes)
    → has delimiters sep ≡ true
    → (e == sep) ≡ false
    → cut delimiters (sep ∷ e ∷ s) ≡ ([], some (e ∷ s))
unfolding cut
cut_sep delimiters sep e s h other = rw (h, other) refl

count_sep :
    (delimiters : Bytes) (sep e : ℕ) (s : Bytes)
    → has delimiters sep ≡ true
    → (e == sep) ≡ false
    → count_from delimiters (sep ∷ e ∷ s) ≡ suc (count_from delimiters (e ∷ s))
unfolding count_from
count_sep delimiters sep e s h other = rw (h, other) refl

-- The written token starts as the token does.
pub escape_start :
    (delimiters : Bytes) (c : ℕ) (t r : Bytes)
    → (more : Bytes) × (escape delimiters (c ∷ t) ++ r ≡ c ∷ more)
unfolding escape
escape_start delimiters c t r = elim (Bool-cases (has delimiters c)) [
  | inl h ↦ (c ∷ escape delimiters t ++ r, rw h refl)
  | inr h ↦ (escape delimiters t ++ r, rw h refl)
]

cut-joined_rest :
    (delimiters : Bytes) (sep : ℕ) (t : Bytes) (ts : List Bytes)
    → has delimiters sep ≡ true
    → StartsWith (λ c. c == sep) t
    → cut delimiters (joined_rest delimiters sep (t ∷ ts))
      ≡ ([], some (escape delimiters t ++ joined_rest delimiters sep ts))
unfolding joined_rest
cut-joined_rest delimiters sep t ts h (c, rest, e, other) =
    let (more, start) = escape_start delimiters c rest (joined_rest delimiters sep ts) in
    rw e (rw start (cut_sep delimiters sep c more h other))

count-joined_rest :
    (delimiters : Bytes) (sep : ℕ) (ts : List Bytes)
    → has delimiters sep ≡ true
    → AllStart (λ c. c == sep) ts
    → count_from delimiters (joined_rest delimiters sep ts) ≡ length ts
unfolding joined_rest AllStart count_from
count-joined_rest delimiters sep [] h u = refl
count-joined_rest delimiters sep (t ∷ ts) h ((c, rest, e, other), all) =
    let (more, start) = escape_start delimiters c rest (joined_rest delimiters sep ts) in
    let n : count_from delimiters (escape delimiters (c ∷ rest) ++ joined_rest delimiters sep ts)
        ≡ length ts =
      count-escape delimiters (c ∷ rest) (joined_rest delimiters sep ts)
      ∙ count-joined_rest delimiters sep ts h all in
    rw e (rw start (count_sep delimiters sep c more h other ∙ ap suc (rw start at n)))

tokens-none : (delimiters : Bytes) → tokens delimiters 0 none ≡ some []
unfolding tokens
tokens-none delimiters = refl

tokens_of_cut :
    (delimiters : Bytes) (n : ℕ) (s t : Bytes) (rest : Option Bytes) (args : List Bytes)
    → cut delimiters s ≡ (escape delimiters t, rest)
    → tokens delimiters n rest ≡ some args
    → tokens delimiters (suc n) (some s) ≡ some (t ∷ args)
unfolding tokens
tokens_of_cut delimiters n s t rest args e later =
    let token : (cut delimiters s).0 ≡ escape delimiters t = ap (λ r. r.0) e in
    let behind : (cut delimiters s).1 ≡ rest = ap (λ r. r.1) e in
    rw behind (rw later (rw token (rw (fix-escape delimiters t) refl)))

cut_last :
    (delimiters t : Bytes) (sep : ℕ)
    → cut delimiters (escape delimiters t ++ joined_rest delimiters sep [])
      ≡ (escape delimiters t, none)
unfolding joined_rest cut
cut_last delimiters t sep = rw (cut-escape delimiters t [], append-nil (escape delimiters t)) refl

cut_inner :
    (delimiters : Bytes) (sep : ℕ) (t t' : Bytes) (ts : List Bytes)
    → has delimiters sep ≡ true
    → StartsWith (λ c. c == sep) t'
    → cut delimiters (escape delimiters t ++ joined_rest delimiters sep (t' ∷ ts))
      ≡ (escape delimiters t, some (escape delimiters t' ++ joined_rest delimiters sep ts))
cut_inner delimiters sep t t' ts h start =
    rw (cut-escape delimiters t (joined_rest delimiters sep (t' ∷ ts)))
      (rw (cut-joined_rest delimiters sep t' ts h start, append-nil (escape delimiters t)) refl)

tokens-joined :
    (delimiters : Bytes) (sep : ℕ) (t : Bytes) (ts : List Bytes)
    → has delimiters sep ≡ true
    → AllStart (λ c. c == sep) ts
    → tokens delimiters
        (suc (length ts))
        (some (escape delimiters t ++ joined_rest delimiters sep ts))
      ≡ some (t ∷ ts)
unfolding AllStart
tokens-joined delimiters sep t [] h u =
    tokens_of_cut delimiters 0 _ t none [] (cut_last delimiters t sep) (tokens-none delimiters)
tokens-joined delimiters sep t (t' ∷ ts) h (start, all) =
    tokens_of_cut delimiters (suc (length ts)) _ t _ (t' ∷ ts)
      (cut_inner delimiters sep t t' ts h start) (tokens-joined delimiters sep t' ts h all)

skip_start :
    (delimiters t r : Bytes)
    → StartsWith (has delimiters) t
    → skip_leading delimiters (escape delimiters t ++ r) ≡ escape delimiters t ++ r
unfolding skip_leading
skip_start delimiters t r (c, rest, e, other) =
    let (more, start) = escape_start delimiters c rest r in rw e (rw start (rw other refl))

-- Tokens that are written with each delimiter doubled and with one and the same delimiter between them
-- come back from util_split as they were, where none of them is empty, the first one starts with no
-- delimiter and none of the others starts with that delimiter.
pub util_split-joined :
    (delimiters : Bytes) (sep : ℕ) (t : Bytes) (ts : List Bytes)
    → has delimiters sep ≡ true
    → StartsWith (has delimiters) t
    → AllStart (λ c. c == sep) ts
    → util_split (some (escape delimiters t ++ joined_rest delimiters sep ts)) (some delimiters)
      ≡ argv (t ∷ ts)
unfolding util_split
util_split-joined delimiters sep t ts h start all =
    rw
      (
        skip_start delimiters t (joined_rest delimiters sep ts) start,
        count-escape delimiters t (joined_rest delimiters sep ts),
        count-joined_rest delimiters sep ts h all,
        tokens-joined delimiters sep t ts h all,
      )
      refl
