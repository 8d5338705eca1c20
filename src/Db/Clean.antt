-- ===== src/Db/Clean.antt =====
-- What db_utf8_validate_string of src/db.c makes of a string.
use fireflymediaserver.Prelude.{
  ◌≤◌, ◌<◌, leb, ltb, not, ==_iff, subst, ℕ, zero, suc, ◌≡◌, refl, sym, ap, ◌∙◌, Bool, true, false,
  ◌&&◌, ◌⊎◌, inl, inr, [], ◌∷◌, some, ◌==◌, if◌then◌else◌, Bytes, length, arith, Bool-cases,
}
use fireflymediaserver.Prelude.Bounded.{all_below, all_below_at}
use fireflymediaserver.Db.{
  is_high, is_more, run_of, follow, checked, validate_from, db_utf8_validate_string,
}

-- How many bytes a lead byte announces, by the ranges of the byte; 0 for a byte that is none.
unfoldable pub lead_count : ℕ → ℕ
lead_count c =
    if ltb c 0xC0
    then 0
    else if ltb c 0xE0
    then 1
    else if ltb c 0xF0
    then 2
    else if ltb c 0xF8
    then 3
    else 0

-- Text in which each lead byte has the bytes behind it that it announces; the number counts those that
-- are still to come. Overlong forms, surrogates and numbers above 0x10FFFF are not excluded.
pub data Valid : ℕ → Bytes → Type 0 where
  end : Valid 0 []
  ascii : {s : Bytes} (c : ℕ) → c < 0x80 → Valid 0 s → Valid 0 (c ∷ s)
  lead : {s : Bytes} (c n : ℕ) → lead_count c ≡ suc n → Valid (suc n) s → Valid 0 (c ∷ s)
  more : {s : Bytes} (c n : ℕ) → 0x80 ≤ c → c < 0xC0 → Valid n s → Valid (suc n) (c ∷ s)

-- Numbers of 8 bits.
abbrev pub AllOctets : Bytes → Type 0
AllOctets [] = Unit
AllOctets (c ∷ s) = (c < 256) × AllOctets s

and_parts : (a b : Bool) → (a && b) ≡ true → (a ≡ true) × (b ≡ true)
and_parts true true h = (refl, refl)
and_parts true false h = cc
and_parts false b h = cc

true_ne : true ≡ false → ⊥
true_ne h = cc

abbrev same_bool : Bool → Bool → Bool
same_bool true b = b
same_bool false b = not b

same_bool_lem : (a b : Bool) → same_bool a b ≡ true → a ≡ b
same_bool_lem true true h = refl
same_bool_lem true false h = cc
same_bool_lem false true h = cc
same_bool_lem false false h = refl

-- The masks of the code against the ranges of a byte.
abbrev masks_agree : ℕ → Bool
masks_agree c =
    same_bool (is_high c) (leb 0x80 c)
    && (same_bool (is_more c) (leb 0x80 c && ltb c 0xC0) && run_of c == lead_count c)

all_masks_agree : all_below 256 masks_agree ≡ true
unfolding all_below lead_count
all_masks_agree = refl

masks :
    (c : ℕ)
    → c < 256
    → (is_high c ≡ leb 0x80 c)
      × (is_more c ≡ (leb 0x80 c && ltb c 0xC0))
      × (run_of c ≡ lead_count c)
masks c lt =
    let (h, rest) = and_parts _ _ (all_below_at 256 c masks_agree all_masks_agree lt) in
    let (m, k) = and_parts _ _ rest in
    (same_bool_lem _ _ h, same_bool_lem _ _ m, (==_iff (run_of c) (lead_count c)).0 k)

low_byte : (c : ℕ) → c < 0x80 → is_high c ≡ false
low_byte c lt = (masks c (omega arith)).0 ∙ ground arith

low_range : (c : ℕ) → c < 256 → is_high c ≡ false → c < 0x80
low_range c lt h = (let e : leb 0x80 c ≡ false = sym (masks c lt).0 ∙ h in ground arith)

more_byte : (c : ℕ) → 0x80 ≤ c → c < 0xC0 → is_more c ≡ true
more_byte c ge lt = (masks c (omega arith)).1 ∙ ground arith

more_range : (c : ℕ) → c < 256 → is_more c ≡ true → (0x80 ≤ c) × (c < 0xC0)
more_range c lt h =
    let e : (leb 0x80 c && ltb c 0xC0) ≡ true = sym (masks c lt).1 ∙ h in
    (ground arith, ground arith)

lead_range : (c n : ℕ) → lead_count c ≡ suc n → (0xC0 ≤ c) × (c < 256)
unfolding lead_count
lead_range c n h = (ground arith, ground arith)

-- Text that is valid behind a lead has the bytes that follow it.
Valid-follow : (n : ℕ) (s : Bytes) → Valid n s → follow n s ≡ true
unfolding follow
Valid-follow zero s v = refl
Valid-follow (suc n) _ (more c _ g h v) = rw (more_byte c g h) (Valid-follow n _ v)

-- What a byte that is passed says of the text: it is left as it is, or replaced in text that is not
-- valid.
abbrev pub Cleaned : ℕ → Bytes → Bytes × Bool → Type 0
Cleaned n s (t, changed) =
    Valid n t
    × (length t ≡ length s)
    × (((changed ≡ false) × (t ≡ s) × Valid n s) ⊎ ((changed ≡ true) × (Valid n s → ⊥)))

lead_high : (c n : ℕ) → lead_count c ≡ suc n → (is_high c ≡ true) × (run_of c ≡ suc n)
lead_high c n h =
    let (ge, lt) = lead_range c n h in
    let (high, other, run) = masks c lt in (high ∙ ground arith, run ∙ h)

ascii_only : (c : ℕ) (s : Bytes) → is_high c ≡ false → Valid 0 (c ∷ s) → Valid 0 s
ascii_only c s h (ascii _ i v) = v
ascii_only c s h (lead _ n r v) = absurd (true_ne (sym (lead_high c n r).0 ∙ h))

no_lead : (c : ℕ) (s : Bytes) → is_high c ≡ true → run_of c ≡ 0 → Valid 0 (c ∷ s) → ⊥
no_lead c s h z (ascii _ i v) = true_ne (sym h ∙ low_byte c i)
no_lead c s h z (lead _ n r v) = (let e : 0 ≡ suc n = sym z ∙ (lead_high c n r).1 in omega arith)

after_lead :
    (c n : ℕ) (s : Bytes) → is_high c ≡ true → run_of c ≡ suc n → Valid 0 (c ∷ s) → Valid (suc n) s
after_lead c n s h r (ascii _ i v) = absurd (true_ne (sym h ∙ low_byte c i))
after_lead c n s h r (lead _ m q v) =
    let e : suc m ≡ suc n = sym (lead_high c m q).1 ∙ r in subst (λ k. Valid k s) e v

after_more : (c n : ℕ) (s : Bytes) → Valid (suc n) (c ∷ s) → Valid n s
after_more c n s (more _ _ g h v) = v

-- A byte in front of cleaned text: kept where that is valid in front of valid text only, or replaced
-- where nothing valid starts with it.
keep-Cleaned :
    (c n : ℕ) (s : Bytes) (r : Bytes × Bool)
    → ((t : Bytes) → Valid n t → Valid 0 (c ∷ t))
    → (Valid 0 (c ∷ s) → Valid n s)
    → Cleaned n s r
    → Cleaned 0 (c ∷ s) (c ∷ r.0, r.1)
keep-Cleaned c n s (t, changed) add strip (v, l, inl (e, same, i)) =
    (add t v, ap suc l, inl (e, ap (◌∷◌ c) same, add s i))
keep-Cleaned c n s (t, changed) add strip (v, l, inr (e, bad)) =
    (add t v, ap suc l, inr (e, λ w. bad (strip w)))

replace-Cleaned :
    (c : ℕ) (s : Bytes) (r : Bytes × Bool)
    → (Valid 0 (c ∷ s) → ⊥)
    → Cleaned 0 s r
    → Cleaned 0 (c ∷ s) (b'?' ∷ r.0, true)
replace-Cleaned c s (t, changed) bad (v, l, rest) =
    (ascii b'?' (omega arith) v, ap suc l, inr (refl, bad))

checked_ascii : (c : ℕ) (s : Bytes) → is_high c ≡ false → checked c s ≡ (c, 0, false)
unfolding checked
checked_ascii c s h = rw h refl

checked_stray :
    (c : ℕ) (s : Bytes) → is_high c ≡ true → run_of c ≡ 0 → checked c s ≡ (b'?', 0, true)
unfolding checked
checked_stray c s h z = rw (h, z) refl

suc_nonzero : (n : ℕ) → (suc n == 0) ≡ false
suc_nonzero n = ground arith

checked_lead :
    (c n : ℕ) (s : Bytes)
    → is_high c ≡ true
    → run_of c ≡ suc n
    → checked c s ≡ (if follow (suc n) s then (c, suc n, false) else (b'?', 0, true))
unfolding checked
checked_lead c n s h r = rw (h, r) (rw (suc_nonzero n) refl)

run_cases : (n : ℕ) → (n ≡ 0) ⊎ ((m : ℕ) × (n ≡ suc m))
run_cases zero = inl refl
run_cases (suc m) = inr (m, refl)

follow-nil : (n : ℕ) → follow (suc n) [] ≡ true → ⊥
unfolding follow
follow-nil n h = true_ne (sym h)

follow-cons :
    (n c : ℕ) (s : Bytes) → follow (suc n) (c ∷ s) ≡ true → (is_more c ≡ true) × (follow n s ≡ true)
unfolding follow
follow-cons n c s h = and_parts (is_more c) (follow n s) h

follow-zero : (s : Bytes) → follow 0 s ≡ true
unfolding follow
follow-zero s = refl

-- The loop at a byte that it looks at.
step-Cleaned :
    (c : ℕ) (s : Bytes)
    → c < 256
    → ((n : ℕ) → follow n s ≡ true → Cleaned n s (validate_from n s))
    → Cleaned 0 (c ∷ s) (validate_from 0 (c ∷ s))
unfolding validate_from
step-Cleaned c s lt rest = elim (Bool-cases (is_high c)) [
  | inr low ↦ rw (checked_ascii c s low) (
      keep-Cleaned c 0 s (validate_from 0 s) (λ t v. ascii c (low_range c lt low) v)
        (ascii_only c s low) (rest 0 (follow-zero s)))
  | inl high ↦ elim (run_cases (run_of c)) [
    | inl z ↦
        rw (checked_stray c s high z)
          (replace-Cleaned c s (validate_from 0 s) (no_lead c s high z) (rest 0 (follow-zero s)))
    | inr (n, r) ↦ elim (Bool-cases (follow (suc n) s)) [
      | inl f ↦
          rw (checked_lead c n s high r, f)
            (keep-Cleaned c (suc n) s (validate_from (suc n) s)
              (λ t v. lead c n (sym (masks c lt).2 ∙ r) v) (after_lead c n s high r)
              (rest (suc n) f))
      | inr f ↦
          rw (checked_lead c n s high r, f)
            (replace-Cleaned c s (validate_from 0 s)
              (λ v. true_ne (sym (Valid-follow (suc n) s (after_lead c n s high r v)) ∙ f))
              (rest 0 (follow-zero s)))
    ]
  ]
]

more-Cleaned :
    (c n : ℕ) (s : Bytes) (r : Bytes × Bool)
    → (0x80 ≤ c) × (c < 0xC0)
    → Cleaned n s r
    → Cleaned (suc n) (c ∷ s) (c ∷ r.0, r.1)
more-Cleaned c n s (t, changed) (g, h) (v, l, inl (e, same, i)) =
    (more c n g h v, ap suc l, inl (e, ap (◌∷◌ c) same, more c n g h i))
more-Cleaned c n s (t, changed) (g, h) (v, l, inr (e, bad)) =
    (more c n g h v, ap suc l, inr (e, λ w. bad (after_more c n s w)))

-- The loop at a byte that it passes over.
over-Cleaned :
    (c n : ℕ) (s : Bytes)
    → c < 256
    → is_more c ≡ true
    → Cleaned n s (validate_from n s)
    → Cleaned (suc n) (c ∷ s) (validate_from (suc n) (c ∷ s))
unfolding validate_from
over-Cleaned c n s lt h k = more-Cleaned c n s (validate_from n s) (more_range c lt h) k

end-Cleaned : Cleaned 0 [] (validate_from 0 [])
unfolding validate_from
end-Cleaned = (end, refl, inl (refl, refl, end))

validate_from-Cleaned :
    (s : Bytes) (n : ℕ) → AllOctets s → follow n s ≡ true → Cleaned n s (validate_from n s)
validate_from-Cleaned [] zero o h = end-Cleaned
validate_from-Cleaned [] (suc n) o h = absurd (follow-nil n h)
validate_from-Cleaned (c ∷ s) zero (lt, o) h =
    step-Cleaned c s lt (λ n f. validate_from-Cleaned s n o f)
validate_from-Cleaned (c ∷ s) (suc n) (lt, o) h =
    let (here, later) = follow-cons n c s h in
    over-Cleaned c n s lt here (validate_from-Cleaned s n o later)

-- In a string of bytes that is left by a call, each lead byte has the bytes behind it that it announces
-- by its range, and no such byte, and no byte from 0xF8 on, stands alone. The string is as long as
-- before. The result is 0 exactly for a string that was so before, and then nothing is changed.
pub db_utf8_validate_string_lem :
    (s : Bytes)
    → AllOctets s
    → (t : Bytes) × (changed : Bool) × (db_utf8_validate_string (some s) ≡ (some t, changed))
      × Cleaned 0 s (t, changed)
unfolding db_utf8_validate_string
db_utf8_validate_string_lem s o = (
  (validate_from 0 s).0,
  (validate_from 0 s).1,
  refl,
  validate_from-Cleaned s 0 o (follow-zero s),
)
