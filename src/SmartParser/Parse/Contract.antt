-- ===== src/SmartParser/Parse/Contract.antt =====
-- Contracts for the functions of src/smart-parser.c that read tokens: how they leave the state, how
-- they may fail, and rules for their steps.
pub mod Dates
pub mod Criteria
pub mod Expr
use fireflymediaserver.Prelude.{
  ℕ, ◌+◌, ◌≤◌, ◌<◌, ◌≡◌, refl, sym, ◌∙◌, Bool, true, false, Option, none, some, arith, ◌==◌,
  if◌then◌else◌, Bytes, ==_iff,
}
use fireflymediaserver.SmartParser.Token.{
  Token, TokenData, null, freed, cvalue, ivalue, tvalue, holds_string, Hint, QueryType, playlist,
  query, t_number, t_date,
}
use fireflymediaserver.SmartParser.State
use fireflymediaserver.SmartParser.State.{
  Env, Node, past_end, ParseState, SpError, sp_set_error, Outcome, done, overrun, underrun,
}
use fireflymediaserver.SmartParser.Tree.{well_formed}
use fireflymediaserver.SmartParser.Scan.{sp_scan}
use fireflymediaserver.SmartParser.Scan.Words.{agrees, text_left, weight, left, Scanned}
use fireflymediaserver.SmartParser.Scan.Invariant.{
  Ready, ScanPost, scanned, ran_over, sp_scan-ScanPost,
}
use fireflymediaserver.SmartParser.Parse.Monad.{Parser, pure, lift, ◌>>=◌, scan, refuse}

abbrev pub has_error : Option Bytes → Bool
has_error none = false
has_error (some e) = true

-- `s'` comes after `s`, with at most `n` bytes left.
pub record After (s : ParseState) (n : ℕ) (s' : ParseState) : Type 0 where
  pub progress : left s' ≤ n
  pub ready : Ready s'
  pub same_list : s'.token_list ≡ s.token_list
  pub same_term : s'.term ≡ s.term
  pub same_tree : s'.tree ≡ s.tree
  pub keeps_error : has_error s.error ≡ true → has_error s'.error ≡ true

-- The outcome of a function: it returns and `P` holds; or it reads behind the text of a playlist; or
-- it reads before a string of a query. It does nothing else.
pub data Meets {ℓ} {A : Type ℓ} (list : QueryType) (P : A → ParseState → Type 0)
    : Outcome (A × ParseState) → Type ℓ where
  returned : {a : A} {s' : ParseState} → P a s' → Meets list P (done (a, s'))
  over : list ≡ playlist → Meets list P overrun
  under : list ≡ query → Meets list P underrun

-- The contract of a run `r` from `s`, with `Q` of its result.
abbrev pub Run {ℓ} :
    {A : Type ℓ} → ParseState → ℕ → (A → ParseState → Type 0) → Outcome (A × ParseState) → Type ℓ
Run s n Q r = Meets s.token_list (λ a s'. After s n s' × Q a s') r

abbrev pub Any {ℓ} : {A : Type ℓ} → A → ParseState → Type 0
Any a s = Unit {0}

-- A node that is returned is well formed, and for NULL there is an error.
abbrev pub Parsed : Option Node → ParseState → Type 0
Parsed none s = has_error s.error ≡ true
Parsed (some e) s = well_formed e ≡ true

pub After-trans :
    {s : ParseState} {n : ℕ} {s1 : ParseState} {m : ℕ} {s2 : ParseState}
    → After s n s1
    → m ≤ n
    → After s1 m s2
    → After s n s2
After-trans a h b = record {
  progress = omega (arith, b.progress);
  ready = b.ready;
  same_list = b.same_list ∙ a.same_list;
  same_term = b.same_term ∙ a.same_term;
  same_tree = b.same_tree ∙ a.same_tree;
  keeps_error = λ e. b.keeps_error (a.keeps_error e);
}

pub After-refl : (s : ParseState) → Ready s → After s (left s) s
After-refl s r = record {
  progress = omega arith;
  ready = r;
  same_list = refl;
  same_term = refl;
  same_tree = refl;
  keeps_error = λ e. e;
}

pub Parsed-After :
    (e : Option Node) {s : ParseState} {n : ℕ} {s' : ParseState}
    → After s n s'
    → Parsed e s
    → Parsed e s'
Parsed-After none a h = a.keeps_error h
Parsed-After (some e) a h = h

module _ {ℓ} {A : Type ℓ} where
  pub Run-After :
      {s : ParseState} {n : ℕ} {s1 : ParseState} (m : ℕ) {Q : A → ParseState → Type 0}
      {r : Outcome (A × ParseState)}
      → After s n s1
      → m ≤ n
      → Run s1 m Q r
      → Run s n Q r
  Run-After m a h (returned (b, q)) = returned (After-trans a h b, q)
  Run-After m a h (over e) = over (sym a.same_list ∙ e)
  Run-After m a h (under e) = under (sym a.same_list ∙ e)

  pub Run-le :
      {s : ParseState} {n : ℕ} (m : ℕ) {Q : A → ParseState → Type 0} {r : Outcome (A × ParseState)}
      → m ≤ n
      → Run s m Q r
      → Run s n Q r
  Run-le m h (returned (b, q)) = returned (
    record {
      progress = omega (arith, b.progress);
      ready = b.ready;
      same_list = b.same_list;
      same_term = b.same_term;
      same_tree = b.same_tree;
      keeps_error = b.keeps_error;
    },
    q,
  )
  Run-le m h (over e) = over e
  Run-le m h (under e) = under e

  pub Run-pure :
      (s : ParseState) {a : A} {Q : A → ParseState → Type 0}
      → Ready s
      → Q a s
      → Run s (left s) Q (pure a s)
  Run-pure s r q = returned (After-refl s r, q)

  -- A member of the union that the token's number tells.
  pub Run-lift :
      (s : ParseState) {r : Outcome A}
      → Ready s
      → (a : A) × (r ≡ done a)
      → Run s (left s) Any (lift r s)
  Run-lift s ready (a, e) = rw e (returned (After-refl s ready, tt))

  pub Run-if :
      {s : ParseState} {n : ℕ} {Q : A → ParseState → Type 0} (b : Bool) (p q : Parser A)
      → (b ≡ true → Run s n Q (p s))
      → (b ≡ false → Run s n Q (q s))
      → Run s n Q ((if b then p else q) s)
  Run-if true p q h k = h refl
  Run-if false p q h k = k refl

-- The same for a test whose branches are recursive calls.
pub Run-elim {ℓ} :
    {A : Type ℓ} {s : ParseState} {n : ℕ} {Q : A → ParseState → Type 0} (b : Bool)
    (p q : Outcome (A × ParseState))
    → (b ≡ true → Run s n Q p)
    → (b ≡ false → Run s n Q q)
    → Run s n Q (elim b [ true ↦ p | false ↦ q ])
Run-elim true p q h k = h refl
Run-elim false p q h k = k refl

module _ {ℓ κ} {A : Type ℓ} {B : Type κ} where
  pub Run-bind :
      {s : ParseState} {n : ℕ} {Q : A → ParseState → Type 0} {R : B → ParseState → Type 0}
      {r : Outcome (A × ParseState)} (g : A × ParseState → Outcome (B × ParseState))
      → Run s n Q r
      → ((a : A) (s1 : ParseState) → After s n s1 → Q a s1 → Run s1 (left s1) R (g (a, s1)))
      → Run s n R (State.◌>>=◌ r g)
  Run-bind g (returned {a} {s' = s1} (h, q)) k = Run-After (left s1) h h.progress (k a s1 h q)
  Run-bind g (over e) k = over e
  Run-bind g (under e) k = under e

Run-of_scan :
    {s : ParseState} {o : Outcome ParseState}
    → ScanPost s o
    → Run {0} s (text_left s.current) Any (State.◌>>=◌ o λ s'. done (tt, s'))
Run-of_scan (scanned h) = returned (
  record {
    progress = h.progress;
    ready = record { agree = h.agree; inside = λ e. h.same_list ∙ h.inside e };
    same_list = h.same_list;
    same_term = h.same_term;
    same_tree = h.same_tree;
    keeps_error = λ e. rw h.same_error e;
  },
  tt,
)
Run-of_scan (ran_over e) = over e

-- A scan leaves less than what was left, by the weight of the token that it leaves behind.
pub Run-scan :
    (env : Env) (hint : Hint) (s : ParseState)
    → Ready s
    → Run s (text_left s.current) Any (scan env hint s)
Run-scan env hint s r = Run-of_scan (sp_scan-ScanPost env hint s r)

pub Run-set_error :
    (s : ParseState) (e : SpError)
    → Ready s
    → After s (left s) (sp_set_error e s) × (has_error (sp_set_error e s).error ≡ true)
unfolding sp_set_error
Run-set_error s e r = (
  record {
    progress = omega arith;
    ready = record { agree = r.agree; inside = r.inside };
    same_list = refl;
    same_term = refl;
    same_tree = refl;
    keeps_error = λ h. refl;
  },
  refl,
)

pub Run-refuse : (s : ParseState) (e : SpError) → Ready s → Run s (left s) Parsed (refuse e s)
Run-refuse s e r = returned (Run-set_error s e r)
