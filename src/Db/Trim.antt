-- ===== src/Db/Trim.antt =====
-- What db_trim_string of src/db.c takes off a string.
use fireflymediaserver.Prelude.{
  ℕ, zero, suc, ◌≡◌, ◌≤◌, refl, sym, ap, ◌∙◌, false, inl, inr, [], ◌∷◌, ◌++◌, some, ◌==◌, ==_iff,
  Bytes, length, arith, Bool-cases, append_assoc, append-nil,
}
use fireflymediaserver.Db.{last_byte, drop_last, trim_from, db_trim_string}

unfoldable pub spaces : ℕ → Bytes
spaces zero = []
spaces (suc k) = b' ' ∷ spaces k

-- The string does not end in a space.
abbrev pub NoSpaceBehind : Bytes → Type 0
NoSpaceBehind [] = Unit
NoSpaceBehind (c ∷ t) = (last_byte c t == b' ') ≡ false

abbrev pub Trimmed : Bytes → Bytes → Type 0
Trimmed s t = NoSpaceBehind t × (k : ℕ) × (s ≡ t ++ spaces k)

drop_last_lem : (c : ℕ) (s : Bytes) → c ∷ s ≡ drop_last (c ∷ s) ++ (last_byte c s ∷ [])
unfolding drop_last last_byte
drop_last_lem c [] = refl
drop_last_lem c (d ∷ s) = ap (◌∷◌ c) (drop_last_lem d s)

length-drop_last : (c : ℕ) (s : Bytes) → length (drop_last (c ∷ s)) ≡ length s
unfolding drop_last
length-drop_last c [] = refl
length-drop_last c (d ∷ s) = ap suc (length-drop_last d s)

spaces-append : (k : ℕ) → spaces k ++ (b' ' ∷ []) ≡ spaces (suc k)
unfolding spaces
spaces-append zero = refl
spaces-append (suc k) = ap (◌∷◌ b' ') (spaces-append k)

no_spaces : (s : Bytes) → s ≡ s ++ spaces 0
unfolding spaces
no_spaces s = sym (append-nil s)

one_more-Trimmed :
    (c : ℕ) (s t : Bytes) → last_byte c s ≡ b' ' → Trimmed (drop_last (c ∷ s)) t → Trimmed (c ∷ s) t
one_more-Trimmed c s t e (clean, k, shorter) = (
  clean,
  suc k,
  drop_last_lem c s
      ∙ ap (λ xs. xs ++ (last_byte c s ∷ [])) shorter
      ∙ ap (λ b. (t ++ spaces k) ++ (b ∷ [])) e
      ∙ append_assoc t (spaces k) (b' ' ∷ [])
      ∙ ap (λ xs. t ++ xs) (spaces-append k),
)

trim_from-Trimmed : (fuel : ℕ) (s : Bytes) → length s ≤ fuel → Trimmed s (trim_from fuel s)
unfolding trim_from
trim_from-Trimmed zero [] h = (tt, 0, no_spaces [])
trim_from-Trimmed zero (c ∷ s) h = absurd (omega arith)
trim_from-Trimmed (suc fuel) [] h = (tt, 0, no_spaces [])
trim_from-Trimmed (suc fuel) (c ∷ s) h =
    let shorter =
      trim_from-Trimmed fuel (drop_last (c ∷ s)) (omega (arith, length-drop_last c s)) in
    elim (Bool-cases (last_byte c s == b' ')) [
      | inl e ↦ rw e (one_more-Trimmed c s _ ((==_iff (last_byte c s) b' ').0 e) shorter)
      | inr e ↦ rw e (e, 0, no_spaces (c ∷ s))
    ]

-- The loop comes to its end, and takes the spaces that end the string, all of them and nothing else.
pub db_trim_string_lem :
    (s : Bytes) → (t : Bytes) × (db_trim_string (some s) ≡ some t) × Trimmed s t
unfolding db_trim_string
db_trim_string_lem s = (trim_from (length s) s, refl, trim_from-Trimmed (length s) s (omega arith))
