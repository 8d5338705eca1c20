-- ===== src/Password/Refusal.antt =====
-- What `ws_decodepassword` of src/webserver.c does with a header that holds no text in base 64.
use fireflymediaserver.Prelude.{
  ℕ, ◌≡◌, refl, Bool, false, ◌||◌, [], ◌∷◌, ◌++◌, some, ◌==◌, Bytes, codes, arith,
}
use fireflymediaserver.SmartParser.State.{overrun}
use fireflymediaserver.Password.{skip_spaces, behind_space, ws_decodepassword}

abbrev pub has_space : Bytes → Bool
has_space [] = false
has_space (c ∷ s) = c == b' ' || has_space s

behind_last : (w : Bytes) → has_space w ≡ false → behind_space (w ++ codes " ") ≡ some []
unfolding behind_space
behind_last [] h = refl
behind_last (c ∷ w) h = ground (arith, behind_last w)

-- A header of one word and a space makes the server read behind an empty buffer.
pub ws_decodepassword-empty :
    (signed : Bool) (c : ℕ) (w : Bytes)
    → has_space (c ∷ w) ≡ false
    → ws_decodepassword signed ((c ∷ w) ++ codes " ") ≡ overrun
unfolding ws_decodepassword
ws_decodepassword-empty signed c w h =
    let first : skip_spaces ((c ∷ w) ++ codes " ") ≡ (c ∷ w) ++ codes " " = ground arith in
    rw (ws_decodepassword, first, behind_last (c ∷ w) h) refl
