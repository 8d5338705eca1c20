-- ===== src/Password/Tests.antt =====
-- Headers through `ws_decodepassword` of src/webserver.c.
use fireflymediaserver.Prelude.{◌≡◌, refl, true, false, [], ◌∷◌, ◌++◌, none, some, codes, arith}
use fireflymediaserver.SmartParser.State.{done}
use fireflymediaserver.Password.{ws_decodepassword}
use fireflymediaserver.Password.RoundTrip.{base64, AllBytes, ws_decodepassword-base64}

-- "a:bc" in base 64 is "YTpiYw==".
encodes : base64 (codes "a:bc") ≡ codes "YTpiYw=="
unfolding base64
encodes = refl

password-AllBytes : AllBytes (codes "a:bc")
password-AllBytes = (
  omega arith,
  omega arith,
  (omega arith, omega arith, (omega arith, omega arith, (omega arith, omega arith, tt))),
)

password_example :
    ws_decodepassword false (codes "Basic " ++ base64 (codes "a" ++ (b':' ∷ codes "bc")))
    ≡ done (some (codes "a", some (codes "bc")))
password_example = ws_decodepassword-base64 false (codes "a") (codes "bc") password-AllBytes refl

no_space : ws_decodepassword true (codes "Basic") ≡ done none
unfolding ws_decodepassword
no_space = refl

-- Characters that are no digits are decoded, where a `char` is signed.
accepts_garbage :
    ws_decodepassword true (codes "Basic ****") ≡ done (some (255 ∷ 255 ∷ 255 ∷ [], none))
unfolding ws_decodepassword
accepts_garbage = refl

refuses_garbage : ws_decodepassword false (codes "Basic ****") ≡ done none
unfolding ws_decodepassword
refuses_garbage = refl
