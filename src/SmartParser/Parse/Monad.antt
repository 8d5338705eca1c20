-- ===== src/SmartParser/Parse/Monad.antt =====
-- The functions of src/smart-parser.c that read tokens, as state transformers.
use fireflymediaserver.Prelude.{ℕ, Option, none}
use fireflymediaserver.SmartParser.Token.{Hint}
use fireflymediaserver.SmartParser.State
use fireflymediaserver.SmartParser.State.{Outcome, done, Env, ParseState, SpError, sp_set_error}
use fireflymediaserver.SmartParser.Scan.{sp_scan}

abbrev pub Parser {ℓ} : Type ℓ → Type ℓ
Parser A = ParseState → Outcome (A × ParseState)

module _ {ℓ κ} {A : Type ℓ} {B : Type κ} where
  infixl 5 ◌>>=◌ ◌>>◌
  abbrev pub ◌>>=◌ : Parser A → (A → Parser B) → Parser B
  p >>= f = λ s. State.◌>>=◌ (p s) λ (a, s'). f a s'

  abbrev pub ◌>>◌ : Parser A → Parser B → Parser B
  p >> q = p >>= λ _. q

abbrev pub pure {ℓ} : {A : Type ℓ} → A → Parser A
pure a s = done (a, s)

-- A step that looks at no state.
abbrev pub lift {ℓ} : {A : Type ℓ} → Outcome A → Parser A
lift r s = State.◌>>=◌ r λ a. done (a, s)

abbrev pub get : Parser ParseState
get s = done (s, s)

abbrev pub token_id : Parser ℕ
token_id s = done (s.token.token_id, s)

abbrev pub scan : Env → Hint → Parser (Unit {0})
scan env hint s = State.◌>>=◌ (sp_scan env hint s) λ s'. done (tt, s')

abbrev pub set_error : SpError → Parser (Unit {0})
set_error e s = done (tt, sp_set_error e s)

-- An error is set and NULL is returned.
abbrev pub refuse {ℓ} : {A : Type ℓ} → SpError → Parser (Option A)
refuse e s = done (none, sp_set_error e s)
