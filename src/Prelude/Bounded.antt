-- ===== src/Prelude/Bounded.antt =====
-- Tests that are made for each number below a bound.
use fireflymediaserver.Prelude.{
  ℕ, zero, suc, ◌<◌, ◌≡◌, refl, sym, subst, Bool, true, false, ◌&&◌, ◌==◌, ==_iff, arith,
  Bool-cases, inl, inr,
}

both : (a b : Bool) → (a && b) ≡ true → (a ≡ true) × (b ≡ true)
both true true h = (refl, refl)
both true false h = cc
both false b h = cc

unfoldable pub all_below : ℕ → (ℕ → Bool) → Bool
all_below zero p = true
all_below (suc n) p = p n && all_below n p

pub all_below_at : (n c : ℕ) (p : ℕ → Bool) → all_below n p ≡ true → c < n → p c ≡ true
unfolding all_below
all_below_at zero c p h lt = absurd (omega arith)
all_below_at (suc n) c p h lt =
    let (here, below) = both (p n) (all_below n p) h in
    elim (Bool-cases (c == n)) [
      | inl e ↦ subst (λ x. p x ≡ true) (sym ((==_iff c n).0 e)) here
      | inr e ↦ all_below_at n c p below (ground arith)
    ]
