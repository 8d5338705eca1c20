-- ===== src/Util/Inside.antt =====
-- When util_split of src/util.c stays inside its copy of the string.
use fireflymediaserver.Prelude.{
  ℕ, zero, suc, ◌≤◌, ◌<◌, ◌≡◌, refl, ap, List, [], ◌∷◌, Option, none, some, length, arith, ◌==◌,
  Bytes, Bool-cases, inl, inr,
}
use fireflymediaserver.Util.{
  has, skip_leading, count_from, cut, fix, tokens, overrun, argv, split_result, util_split,
}

-- The delimiters that are counted from where `tmp` points, with the one in front of it.
abbrev rest_count : Bytes → Option Bytes → ℕ
rest_count delimiters none = 0
rest_count delimiters (some s) = suc (count_from delimiters s)

count-cut :
    (delimiters s : Bytes) → rest_count delimiters (cut delimiters s).1 ≡ count_from delimiters s
unfolding cut count_from
count-cut delimiters [] = refl
count-cut delimiters (c ∷ []) = elim (Bool-cases (has delimiters c)) [
  | inl e ↦ rw e refl
  | inr e ↦ rw e refl
]
count-cut delimiters (c ∷ e ∷ s) = elim (Bool-cases (has delimiters c)) [
  | inl h ↦ elim (Bool-cases (e == c)) [
    | inl same ↦ rw (h, same) (count-cut delimiters s)
    | inr other ↦ rw (h, other) refl
  ]
  | inr h ↦ rw h (count-cut delimiters (e ∷ s))
]

-- As many tokens are there as delimiters are counted, and one.
Counted : Bytes → ℕ → Option Bytes → ℕ → Type 0
Counted delimiters n tmp count =
    (n ≤ count → (args : List Bytes) × (tokens delimiters n tmp ≡ some args) × (length args ≡ n))
    × (count < n → tokens delimiters n tmp ≡ none)

tokens_next :
    (delimiters : Bytes) (n count : ℕ) (s : Bytes)
    → Counted delimiters n (cut delimiters s).1 count
    → Counted delimiters (suc n) (some s) (suc count)
unfolding Counted tokens
tokens_next delimiters n count s (enough, few) = (
  λ h.
      (let (args, e, l) = enough (omega arith) in
        (fix delimiters (cut delimiters s).0 ∷ args, rw e refl, ap suc l)),
  λ h. (let e = few (omega arith) in rw e refl),
)

tokens-Counted :
    (delimiters : Bytes) (n : ℕ) (tmp : Option Bytes)
    → Counted delimiters n tmp (rest_count delimiters tmp)
unfolding Counted tokens
tokens-Counted delimiters zero tmp = (λ h. ([], refl, refl), λ h. absurd (omega arith))
tokens-Counted delimiters (suc n) none = (λ h. absurd (omega arith), λ h. refl)
tokens-Counted delimiters (suc n) (some s) =
    let after : Counted delimiters n (cut delimiters s).1
        (rest_count delimiters (cut delimiters s).1) =
      tokens-Counted delimiters n (cut delimiters s).1 in
    let later : Counted delimiters n (cut delimiters s).1 (count_from delimiters s) =
      rw (count-cut delimiters s) at after in
    tokens_next delimiters n (count_from delimiters s) s later

-- A string is cut into one token more than it has delimiters, two equal ones side by side not counted,
-- where the delimiters that are skipped at its start do not count among them. Where they do, the array
-- gets more tokens than the copy has, and the function reads and writes behind the end of the copy.
pub util_split-inside :
    (s delimiters : Bytes)
    → (count_from delimiters s ≤ count_from delimiters (skip_leading delimiters s)
        → (args : List Bytes) × (util_split (some s) (some delimiters) ≡ argv args)
          × (length args ≡ suc (count_from delimiters s)))
      × (count_from delimiters (skip_leading delimiters s) < count_from delimiters s
          → util_split (some s) (some delimiters) ≡ overrun)
unfolding util_split Counted
util_split-inside s delimiters =
    let (enough, few) =
      tokens-Counted delimiters (suc (count_from delimiters s))
        (some (skip_leading delimiters s)) in
    (
      λ h. (let (args, e, l) = enough (omega arith) in (args, ap split_result e, l)),
      λ h. ap split_result (few (omega arith)),
    )
