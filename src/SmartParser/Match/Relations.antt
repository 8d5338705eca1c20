-- ===== src/SmartParser/Match/Relations.antt =====
-- The relations that the operators of a criterion stand for, and that `sp_node_matches` of
-- src/smart-parser.c tests them.
use fireflymediaserver.Prelude.{
  ℕ, ◌+◌, ◌≤◌, ◌<◌, ◌≡◌, ◌↔◌, ◌⊎◌, refl, sym, ◌∙◌, Bool, true, false, arith, if◌then◌else◌, Bytes,
  inl, inr, subst, ap, leb, length, length-append,
}
use fireflymediaserver.Prelude.Int.{ℤ, pos_part, neg_part}
use fireflymediaserver.SmartParser.Token.{
  t_includes, t_startswith, t_endswith, t_equal, t_lessequal, t_less, t_greaterequal, t_greater,
}
use fireflymediaserver.SmartParser.State.{Outcome, done}
use fireflymediaserver.SmartParser.Tree.{is_match, is_compare, is_order}
use fireflymediaserver.CString.{contains_nocase, starts_nocase, eq_nocase}
use fireflymediaserver.SmartParser.Match.{
  ends_nocase, string_matches, int_matches, date_matches, compare_by,
}
use fireflymediaserver.SmartParser.Match.Text.{
  lower, length-lower, Includes, StartsWith, EndsWith, Equals, contains_nocase_iff,
  starts_nocase_iff, ends_nocase_iff, eq_nocase_iff,
}

-- The relation that a string operator stands for: letter case does not count.
abbrev pub TextHolds : ℕ → Bytes → Bytes → Type 0
TextHolds op val want =
    ((op ≡ t_includes) × Includes val want)
    ⊎ (((op ≡ t_startswith) × StartsWith val want)
        ⊎ (((op ≡ t_endswith) × EndsWith val want) ⊎ ((op ≡ t_equal) × Equals val want)))

-- The relation that a comparison stands for.
abbrev pub NumberHolds : ℕ → ℕ → ℕ → Type 0
NumberHolds op a b =
    ((op ≡ t_lessequal) × (a ≤ b))
    ⊎ (((op ≡ t_less) × (a < b))
        ⊎ (((op ≡ t_greaterequal) × (b ≤ a))
            ⊎ (((op ≡ t_greater) × (b < a)) ⊎ ((op ≡ t_equal) × (a ≡ b)))))

-- On dates, which are signed, both sides are moved by the negative parts.
abbrev pub DateHolds : ℕ → ℤ → ℤ → Type 0
DateHolds op a b = NumberHolds op (pos_part a + neg_part b) (pos_part b + neg_part a)

-- The outcome is a Boolean that tells whether `P`.
abbrev pub Decides : Outcome Bool → Type 0 → Type 0
Decides r P = (b : Bool) × (r ≡ done b) × ((b ≡ true) ↔ P)

-- What holds of each operator of a kind holds of any operator of that kind.
order_split {ℓ} :
    (P : ℕ → Type ℓ)
    → P t_lessequal
    → P t_less
    → P t_greaterequal
    → P t_greater
    → (op : ℕ) → is_order op ≡ true
    → P op
order_split P p q r s op h =
    let which : (op ≡ t_lessequal) ⊎ ((op ≡ t_less) ⊎ ((op ≡ t_greaterequal) ⊎ (op ≡ t_greater))) =
      ground arith in
    elim which [
      | inl e ↦ subst P (sym e) p
      | inr (inl e) ↦ subst P (sym e) q
      | inr (inr (inl e)) ↦ subst P (sym e) r
      | inr (inr (inr e)) ↦ subst P (sym e) s
    ]

compare_split {ℓ} :
    (P : ℕ → Type ℓ)
    → P t_lessequal
    → P t_less
    → P t_greaterequal
    → P t_greater
    → P t_equal
    → (op : ℕ) → is_compare op ≡ true
    → P op
compare_split P p q r s t op h =
    let which : (is_order op ≡ true) ⊎ (op ≡ t_equal) = ground arith in
    elim which [ inl e ↦ order_split P p q r s op e | inr e ↦ subst P (sym e) t ]

match_split {ℓ} :
    (P : ℕ → Type ℓ)
    → P t_includes
    → P t_startswith
    → P t_endswith
    → P t_equal
    → (op : ℕ) → is_match op ≡ true
    → P op
match_split P p q r s op h =
    let which : (op ≡ t_includes) ⊎ ((op ≡ t_startswith) ⊎ ((op ≡ t_endswith) ⊎ (op ≡ t_equal))) =
      ground arith in
    elim which [
      | inl e ↦ subst P (sym e) p
      | inr (inl e) ↦ subst P (sym e) q
      | inr (inr (inl e)) ↦ subst P (sym e) r
      | inr (inr (inr e)) ↦ subst P (sym e) s
    ]

pub int_matches-Decides :
    (op a b : ℕ) → is_compare op ≡ true → Decides (int_matches op a b) (NumberHolds op a b)
unfolding int_matches compare_by
int_matches-Decides op a b h =
    compare_split (λ o. Decides (int_matches o a b) (NumberHolds o a b)) (_, refl, ground arith)
      (_, refl, ground arith) (_, refl, ground arith) (_, refl, ground arith)
      (_, refl, ground arith) op h

pub date_matches-Decides :
    (op : ℕ) (a b : ℤ) → is_order op ≡ true → Decides (date_matches op a b) (DateHolds op a b)
unfolding date_matches compare_by
date_matches-Decides op a b h =
    order_split (λ o. Decides (date_matches o a b) (DateHolds o a b)) (_, refl, ground arith)
      (_, refl, ground arith) (_, refl, ground arith) (_, refl, ground arith) op h

bounded_starts_iff :
    (val want : Bytes)
    → ((if leb (length want) (length val) then starts_nocase val want else false) ≡ true)
      ↔ StartsWith val want
bounded_starts_iff val want = (
  λ h. (starts_nocase_iff val want).0 (ground arith),
  λ h.
      let (after, e) = h in
      let starts : starts_nocase val want ≡ true = (starts_nocase_iff val want).1 h in
      let n : length (lower val) ≡ length (lower want) + length after =
        ap length e ∙ length-append (lower want) after in
      ground (arith, length-lower val, length-lower want),
)

pub string_matches-Decides :
    (op : ℕ) (val want : Bytes)
    → is_match op ≡ true
    → Decides (string_matches op val want) (TextHolds op val want)
unfolding string_matches
string_matches-Decides op val want h =
    let includes : (contains_nocase val want ≡ true) ↔ Includes val want =
      contains_nocase_iff val want in
    let starts : ((if leb (length want) (length val) then starts_nocase val want else false) ≡ true)
        ↔ StartsWith val want =
      bounded_starts_iff val want in
    let ends : (ends_nocase val want ≡ true) ↔ EndsWith val want = ends_nocase_iff val want in
    let equals : (eq_nocase val want ≡ true) ↔ Equals val want = eq_nocase_iff val want in
    match_split (λ o. Decides (string_matches o val want) (TextHolds o val want))
      (
        _,
        refl,
        (
          λ t. inl (refl, includes.0 t),
          λ p. elim p [
            | inl (e, x) ↦ includes.1 x
            | inr (inl (e, x)) ↦ absurd (omega arith)
            | inr (inr (inl (e, x))) ↦ absurd (omega arith)
            | inr (inr (inr (e, x))) ↦ absurd (omega arith)
          ],
        ),
      )
      (
        _,
        refl,
        (
          λ t. inr (inl (refl, starts.0 t)),
          λ p. elim p [
            | inl (e, x) ↦ absurd (omega arith)
            | inr (inl (e, x)) ↦ starts.1 x
            | inr (inr (inl (e, x))) ↦ absurd (omega arith)
            | inr (inr (inr (e, x))) ↦ absurd (omega arith)
          ],
        ),
      )
      (
        _,
        refl,
        (
          λ t. inr (inr (inl (refl, ends.0 t))),
          λ p. elim p [
            | inl (e, x) ↦ absurd (omega arith)
            | inr (inl (e, x)) ↦ absurd (omega arith)
            | inr (inr (inl (e, x))) ↦ ends.1 x
            | inr (inr (inr (e, x))) ↦ absurd (omega arith)
          ],
        ),
      )
      (
        _,
        refl,
        (
          λ t. inr (inr (inr (refl, equals.0 t))),
          λ p. elim p [
            | inl (e, x) ↦ absurd (omega arith)
            | inr (inl (e, x)) ↦ absurd (omega arith)
            | inr (inr (inl (e, x))) ↦ absurd (omega arith)
            | inr (inr (inr (e, x))) ↦ equals.1 x
          ],
        ),
      )
      op h
