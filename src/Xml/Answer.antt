-- ===== src/Xml/Answer.antt =====
-- The fuel of `rxml_decode_string` of src/rxml.c.
use fireflymediaserver.Prelude.{
  ℕ, zero, suc, ◌+◌, ◌≤◌, ◌<◌, ◌≡◌, ◌⊎◌, inl, inr, refl, [], ◌∷◌, Option, none, some, Option-cases,
  ◌==◌, length, Bytes, codes, arith, ◌%◌, if_cases,
}
use fireflymediaserver.CString.{strip_prefix}
use fireflymediaserver.SmartParser.State.{Outcome, done, overrun, ◌>>=◌}
use fireflymediaserver.Xml.{
  named, found, or_else, semicolon, numbered, decode_from, behind, rxml_decode_string,
}

-- It returns, or reads behind the NUL, where the model stops and the code goes on.
abbrev pub HasAnswer : {A : Type 0} → Outcome A → Type 0
HasAnswer {A = A} o = ((r : A) × (o ≡ done r)) ⊎ (o ≡ overrun)

length-strip_prefix : (p s r : Bytes) → strip_prefix p s ≡ some r → length s ≡ length p + length r
unfolding strip_prefix
length-strip_prefix [] s r h = ground arith
length-strip_prefix (x ∷ p) [] r h = cc
length-strip_prefix (x ∷ p) (c ∷ s) r h = ground (arith, length-strip_prefix p s r)

length-found :
    (x : ℕ) (p s r : Bytes) (c d : ℕ) → found (x ∷ p) c s ≡ some (d, r) → length r < length s
length-found x p s r c d h = elim (Option-cases (strip_prefix (x ∷ p) s)) [
  | inl e ↦ ground (arith, e)
  | inr (t, e) ↦ ground (arith, e, length-strip_prefix (x ∷ p) s t e)
]

or_gives :
    {P : Type 0} (a b : Option (ℕ × Bytes)) (x : ℕ × Bytes)
    → or_else a b ≡ some x
    → (a ≡ some x → P)
    → (b ≡ some x → P)
    → P
or_gives none b x h f g = g h
or_gives (some y) b x h f g = f h

length-named : (s r : Bytes) (d : ℕ) → named s ≡ some (d, r) → length r < length s
unfolding named
length-named s r d h =
    or_gives (found (codes "&gt;") b'>' s) _ (d, r) h (length-found b'&' (codes "gt;") s r b'>' d)
      (λ h1.
        or_gives (found (codes "&lt;") b'<' s) _ (d, r) h1
          (length-found b'&' (codes "lt;") s r b'<' d)
          (λ h2.
            or_gives (found (codes "&amp;") b'&' s) _ (d, r) h2
              (length-found b'&' (codes "amp;") s r b'&' d)
              (λ h3.
                or_gives (found (codes "&quot;") b'"' s) _ (d, r) h3
                  (length-found b'&' (codes "quot;") s r b'"' d)
                  (length-found b'&' (codes "apos;") s r b'\'' d))))

semicolon-HasAnswer : (s : Bytes) → HasAnswer (semicolon s)
unfolding semicolon
semicolon-HasAnswer [] = inr refl
semicolon-HasAnswer (a ∷ []) = inr refl
semicolon-HasAnswer (a ∷ b ∷ []) =
    if_cases HasAnswer (b == b';') (λ e. inl (_, refl)) (λ e. inr refl)
semicolon-HasAnswer (a ∷ b ∷ c ∷ []) =
    if_cases HasAnswer (b == b';') (λ e. inl (_, refl))
      (λ e. if_cases HasAnswer (c == b';') (λ f. inl (_, refl)) (λ f. inl (_, refl)))
semicolon-HasAnswer (a ∷ b ∷ c ∷ d ∷ s) =
    if_cases HasAnswer (b == b';') (λ e. inl (_, refl))
      (λ e.
        if_cases HasAnswer (c == b';') (λ f. inl (_, refl))
          (λ f. if_cases HasAnswer (d == b';') (λ g. inl (_, refl)) (λ g. inl (_, refl))))

length-semicolon : (s r : Bytes) → semicolon s ≡ done (some r) → length r ≤ length s
unfolding semicolon
length-semicolon [] r h = cc
length-semicolon (a ∷ []) r h = cc
length-semicolon (a ∷ b ∷ []) r h = ground arith
length-semicolon (a ∷ b ∷ c ∷ []) r h = ground arith
length-semicolon (a ∷ b ∷ c ∷ d ∷ s) r h = ground arith

behind-HasAnswer : (c : ℕ) (o : Outcome (Option Bytes)) → HasAnswer o → HasAnswer (behind c o)
behind-HasAnswer c o (inl (none, e)) = inl (none, rw e refl)
behind-HasAnswer c o (inl (some s, e)) = inl (some (c ∷ s), rw e refl)
behind-HasAnswer c o (inr e) = inr (rw e refl)

abbrev after_number :
    (ℕ → Bytes → Outcome (Option Bytes)) → Option (ℕ × Bytes) → Outcome (Option Bytes)
after_number next none = done none
after_number next (some (d, r)) = behind (d % 256) (next d r)

abbrev after_amp :
    (ℕ → Bytes → Outcome (Option Bytes))
    → ℕ
    → Outcome (Option (ℕ × Bytes))
    → Option (ℕ × Bytes)
    → Outcome (Option Bytes)
after_amp next cval m none = m >>= after_number next
after_amp next cval m (some (d, r)) = behind d (next cval r)

-- An "&", where the loop answers on every shorter text.
amp-HasAnswer :
    (next : ℕ → Bytes → Outcome (Option Bytes)) (cval n : ℕ) (m : Outcome (Option (ℕ × Bytes)))
    (o : Option (ℕ × Bytes))
    → ((v : ℕ) (r : Bytes) → length r < n → HasAnswer (next v r))
    → ((d : ℕ) (r : Bytes) → o ≡ some (d, r) → length r < n)
    → ((d : ℕ) × (r : Bytes) × (m ≡ done (some (d, r))) × (length r < n))
      ⊎ ((m ≡ done none) ⊎ (m ≡ overrun))
    → HasAnswer (after_amp next cval m o)
amp-HasAnswer next cval n m (some (d, r)) rec short num =
    behind-HasAnswer d (next cval r) (rec cval r (short d r refl))
amp-HasAnswer next cval n m none rec short (inl (d, r, e, l)) =
    rw e (behind-HasAnswer (d % 256) (next d r) (rec d r l))
amp-HasAnswer next cval n m none rec short (inr (inl e)) = inl (none, rw e refl)
amp-HasAnswer next cval n m none rec short (inr (inr e)) = inr (rw e refl)

module _ (sscanf : ℕ → Bytes → Option ℕ) where
  numbered-HasAnswer :
      (cval : ℕ) (s : Bytes)
      → ((d : ℕ) × (r : Bytes) × (numbered sscanf cval s ≡ done (some (d, r)))
          × (length r < length s))
        ⊎ ((numbered sscanf cval s ≡ done none) ⊎ (numbered sscanf cval s ≡ overrun))
  unfolding numbered
  numbered-HasAnswer cval [] = inr (inr refl)
  numbered-HasAnswer cval (a ∷ []) = inr (inr refl)
  numbered-HasAnswer cval (a ∷ x ∷ text) = elim (Option-cases (sscanf cval text)) [
    | inl e ↦ inr (inl (rw (numbered, e) refl))
    | inr (value, e) ↦ elim (semicolon-HasAnswer text) [
      | inl (none, f) ↦ inr (inl (rw (numbered, e, f) refl))
      | inl (some r, f) ↦
          inl (value, r, rw (numbered, e, f) refl, omega (arith, length-semicolon text r f))
      | inr f ↦ inr (inr (rw (numbered, e, f) refl))
    ]
  ]

  decode_from-HasAnswer :
      (fuel cval : ℕ) (s : Bytes) → length s ≤ fuel → HasAnswer (decode_from sscanf fuel cval s)
  unfolding decode_from
  decode_from-HasAnswer fuel cval [] h = inl (some [], refl)
  decode_from-HasAnswer zero cval (c ∷ s) h = absurd (omega arith)
  decode_from-HasAnswer (suc fuel) cval (c ∷ s) h =
      if_cases HasAnswer (c == b'&')
        (λ e.
          amp-HasAnswer (decode_from sscanf fuel) cval (suc (length s))
            (numbered sscanf cval (c ∷ s)) (named (c ∷ s))
            (λ v r l. decode_from-HasAnswer fuel v r (omega arith))
            (λ d r n. length-named (c ∷ s) r d n) (numbered-HasAnswer cval (c ∷ s)))
        (λ e.
          behind-HasAnswer c (decode_from sscanf fuel cval s)
            (decode_from-HasAnswer fuel cval s (omega arith)))

  -- The model does not run out of fuel: it returns, or stops at a read behind the NUL.
  pub rxml_decode_string-HasAnswer :
      (cval : ℕ) (s : Bytes) → HasAnswer (rxml_decode_string sscanf cval s)
  unfolding rxml_decode_string
  rxml_decode_string-HasAnswer cval s = decode_from-HasAnswer (length s) cval s (omega arith)
