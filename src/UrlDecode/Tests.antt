-- ===== src/UrlDecode/Tests.antt =====
-- `ws_urldecode` of src/webserver.c at concrete inputs.
use fireflymediaserver.Prelude.{◌≡◌, refl, true, codes, none}
use fireflymediaserver.UrlDecode.{ws_urldecode, hex_digit}
use fireflymediaserver.UrlDecode.RoundTrip.{encode, all_bytes, ws_urldecode-encode}

decodes : ws_urldecode (codes "a+b%3D%2f") true ≡ codes "a b=/"
unfolding ws_urldecode
decodes = refl

bytes_of_text : all_bytes (codes "a b=c") ≡ true
unfolding all_bytes
bytes_of_text = refl

no_digit : hex_digit b'z' ≡ none
unfolding hex_digit
no_digit = refl

ws_urldecode-encode_example : ws_urldecode (encode true (codes "a b=c")) true ≡ codes "a b=c"
ws_urldecode-encode_example = ws_urldecode-encode (codes "a b=c") true bytes_of_text
