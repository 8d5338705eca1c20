-- ===== src/SmartParser/Scan/Walk.antt =====
-- The walk to a terminator and the removal of escapes, of `sp_scan` in src/smart-parser.c.
use fireflymediaserver.Prelude.{
  ◌+◌, ◌≡◌, refl, true, false, [], ◌∷◌, arith, length, ◌==◌, Bytes, inl, inr, Bool-cases, ℕ,
}
use fireflymediaserver.CString.{has_byte}
use fireflymediaserver.SmartParser.Scan.{walk, prepend, unescape}

module _ (stop : Bytes) (c : ℕ) where
  pub walk-stop : (s : Bytes) → has_byte c stop ≡ true → walk stop (c ∷ s) ≡ ([], c ∷ s)
  unfolding walk
  walk-stop [] h = rw h
  walk-stop (d ∷ s) h = rw h

  pub walk_escape :
      (d : ℕ) (s : Bytes)
      → has_byte c stop ≡ false
      → (c == b'\\') ≡ true
      → walk stop (c ∷ d ∷ s) ≡ prepend (c ∷ d ∷ []) (walk stop s)
  unfolding walk
  walk_escape d s h e = rw h (rw e)

  pub walk_plain :
      (s : Bytes)
      → has_byte c stop ≡ false
      → (c == b'\\') ≡ false
      → walk stop (c ∷ s) ≡ prepend (c ∷ []) (walk stop s)
  unfolding walk
  walk_plain [] h e = rw h
  walk_plain (d ∷ s) h e = rw h (rw e)

pub unescape_escape :
    (c d : ℕ) (s : Bytes) → (c == b'\\') ≡ true → unescape (c ∷ d ∷ s) ≡ d ∷ unescape s
unfolding unescape
unescape_escape c d s e = rw e

pub unescape_plain : (c : ℕ) (s : Bytes) → (c == b'\\') ≡ false → unescape (c ∷ s) ≡ c ∷ unescape s
unfolding unescape
unescape_plain c [] e = rw e
unescape_plain c (d ∷ s) e = rw e

-- The word and what is left make up the text.
pub length-walk : (stop s : Bytes) → length (walk stop s).0 + length (walk stop s).1 ≡ length s
length-walk stop [] = unfold walk in refl
length-walk stop (c ∷ []) = unfold walk in ground arith
length-walk stop (c ∷ d ∷ s) = elim (Bool-cases (has_byte c stop)) [
  | inl end ↦ rw (walk-stop stop c (d ∷ s) end) (omega arith)
  | inr more ↦ elim (Bool-cases (c == b'\\')) [
    | inl escape ↦ rw (walk_escape stop c d s more escape) (omega (arith, length-walk stop s))
    | inr plain ↦
        rw (walk_plain stop c (d ∷ s) more plain) (omega (arith, length-walk stop (d ∷ s)))
  ]
]
