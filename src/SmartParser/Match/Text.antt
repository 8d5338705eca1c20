-- ===== src/SmartParser/Match/Text.antt =====
-- What the string tests of `sp_node_matches` in src/smart-parser.c decide: a part of the value, letter
-- case aside.
use mathlib.Core.List.{map}
use fireflymediaserver.SmartParser.Match.{ends_nocase}
use fireflymediaserver.Prelude.{
  ℕ, zero, suc, append-nil, ◌+◌, ◌-◌, ◌≤◌, ◌≡◌, ◌↔◌, refl, sym, ap, ◌∙◌, true, ◌||◌, [], ◌∷◌, ◌++◌,
  arith, length, length-append, drop, Bytes, Bool-cases, inl, inr,
}
use fireflymediaserver.CString.{tolower, starts_nocase, contains_nocase, eq_nocase}

abbrev pub lower : Bytes → Bytes
lower s = map tolower s

abbrev pub Includes : Bytes → Bytes → Type 0
Includes val want = (before after : Bytes) × (lower val ≡ before ++ (lower want ++ after))

abbrev pub StartsWith : Bytes → Bytes → Type 0
StartsWith val want = (after : Bytes) × (lower val ≡ lower want ++ after)

abbrev pub EndsWith : Bytes → Bytes → Type 0
EndsWith val want = (before : Bytes) × (lower val ≡ before ++ lower want)

abbrev pub Equals : Bytes → Bytes → Type 0
Equals val want = lower val ≡ lower want

pub eq_nocase_iff : (a b : Bytes) → (eq_nocase a b ≡ true) ↔ Equals a b
unfolding eq_nocase
eq_nocase_iff [] [] = (λ h. refl, λ h. refl)
eq_nocase_iff [] (y ∷ b) = (λ h. cc, λ h. cc)
eq_nocase_iff (x ∷ a) [] = (λ h. cc, λ h. cc)
eq_nocase_iff (x ∷ a) (y ∷ b) =
    (λ h. ground (arith, (eq_nocase_iff a b).0), λ h. ground (arith, (eq_nocase_iff a b).1))

starts→StartsWith : (val want : Bytes) → starts_nocase val want ≡ true → StartsWith val want
unfolding starts_nocase
starts→StartsWith val [] h = (lower val, refl)
starts→StartsWith [] (p ∷ want) h = cc
starts→StartsWith (c ∷ val) (p ∷ want) h =
    let (after, e) = starts→StartsWith val want (ground arith) in (after, ground arith)

StartsWith→starts :
    (val want after : Bytes) → lower val ≡ lower want ++ after → starts_nocase val want ≡ true
unfolding starts_nocase
StartsWith→starts [] [] after h = refl
StartsWith→starts (c ∷ val) [] after h = refl
StartsWith→starts [] (p ∷ want) after h = cc
StartsWith→starts (c ∷ val) (p ∷ want) after h = ground (arith, StartsWith→starts val want after)

pub starts_nocase_iff : (val want : Bytes) → (starts_nocase val want ≡ true) ↔ StartsWith val want
starts_nocase_iff val want =
    (starts→StartsWith val want, λ (after, e). StartsWith→starts val want after e)

contains_step :
    (c : ℕ) (val want : Bytes)
    → contains_nocase (c ∷ val) want ≡ (starts_nocase (c ∷ val) want || contains_nocase val want)
unfolding contains_nocase
contains_step c val want = refl

contains→Includes : (val want : Bytes) → contains_nocase val want ≡ true → Includes val want
contains→Includes [] want h =
    let (after, e) = starts→StartsWith [] want (unfold contains_nocase in h) in ([], after, e)
contains→Includes (c ∷ val) want h = elim (Bool-cases (starts_nocase (c ∷ val) want)) [
  | inl here ↦ let (after, e) = starts→StartsWith (c ∷ val) want here in ([], after, e)
  | inr later ↦
      let (before, after, e) =
        contains→Includes val want (ground (arith, contains_step c val want)) in
      (tolower c ∷ before, after, ap (◌∷◌ (tolower c)) e)
]

Includes→contains :
    (val want before after : Bytes)
    → lower val ≡ before ++ (lower want ++ after)
    → contains_nocase val want ≡ true
Includes→contains [] want [] after e = unfold contains_nocase in StartsWith→starts [] want after e
Includes→contains [] want (b ∷ before) after e = cc
Includes→contains (c ∷ val) want [] after e =
    rw (contains_step c val want, StartsWith→starts (c ∷ val) want after e) refl
Includes→contains (c ∷ val) want (b ∷ before) after e =
    ground (arith, contains_step c val want, Includes→contains val want before after)

pub contains_nocase_iff : (val want : Bytes) → (contains_nocase val want ≡ true) ↔ Includes val want
contains_nocase_iff val want =
    (contains→Includes val want, λ (before, after, e). Includes→contains val want before after e)

pub length-lower : (s : Bytes) → length (lower s) ≡ length s
length-lower [] = refl
length-lower (c ∷ s) = ap suc (length-lower s)

-- A text without its first `k` bytes is an end of it.
lower-drop :
    (k : ℕ) (val : Bytes)
    → k ≤ length val
    → (before : Bytes) × (lower val ≡ before ++ lower (drop k val))
      × (length (drop k val) + k ≡ length val)
lower-drop zero val h = ([], refl, omega arith)
lower-drop (suc k) [] h = absurd (omega arith)
lower-drop (suc k) (c ∷ val) h =
    let (before, e, n) = lower-drop k val (omega arith) in
    (tolower c ∷ before, ap (◌∷◌ (tolower c)) e, omega (arith, n))

drop-lower :
    (before val rest : Bytes) → lower val ≡ before ++ rest → lower (drop (length before) val) ≡ rest
drop-lower [] val rest e = e
drop-lower (b ∷ before) [] rest e = cc
drop-lower (b ∷ before) (c ∷ val) rest e = drop-lower before val rest (ground arith)

nil_of_length : (s : Bytes) → length s ≡ 0 → s ≡ []
nil_of_length [] h = refl
nil_of_length (c ∷ s) h = absurd (omega arith)

ends_nocase_parts :
    (val want : Bytes)
    → (ends_nocase val want ≡ true)
      ↔ (length want ≤ length val)
        × (starts_nocase (drop (length val - length want) val) want ≡ true)
unfolding ends_nocase
ends_nocase_parts val want = (λ h. ground arith, λ h. ground arith)

-- A beginning that is as long as the whole is the whole.
StartsWith-whole :
    (val want : Bytes) → length val ≡ length want → StartsWith val want → lower val ≡ lower want
StartsWith-whole val want n (after, e) =
    let short : length after ≡ 0 = omega (
      arith,
      n,
      ap length e,
      length-append (lower want) after,
      length-lower want,
      length-lower val,
    ) in
    e ∙ rw (nil_of_length after short) (append-nil (lower want))

ends→EndsWith : (val want : Bytes) → ends_nocase val want ≡ true → EndsWith val want
ends→EndsWith val want h =
    let (le, s) = (ends_nocase_parts val want).0 h in
    let (before, e, n) = lower-drop (length val - length want) val (omega arith) in
    let tail = drop (length val - length want) val in
    let whole = StartsWith-whole tail want (omega (arith, n, le)) (starts→StartsWith tail want s) in
    (before, e ∙ ap (◌++◌ before) whole)

EndsWith→ends :
    (val want before : Bytes) → lower val ≡ before ++ lower want → ends_nocase val want ≡ true
EndsWith→ends val want before e =
    let n : length val ≡ length before + length want = omega (
      arith,
      ap length e,
      length-append before (lower want),
      length-lower want,
      length-lower val,
    ) in
    let k : length val - length want ≡ length before = omega (arith, n) in
    let starts =
      StartsWith→starts (drop (length before) val) want []
        (drop-lower before val (lower want) e ∙ sym (append-nil (lower want))) in
    (ends_nocase_parts val want).1 (omega (arith, n), rw k starts)

pub ends_nocase_iff : (val want : Bytes) → (ends_nocase val want ≡ true) ↔ EndsWith val want
ends_nocase_iff val want = (ends→EndsWith val want, λ (before, e). EndsWith→ends val want before e)
