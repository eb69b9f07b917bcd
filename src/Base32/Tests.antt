-- ===== src/Base32/Tests.antt =====
-- Tests and instances for src/utils/base32.js.
use metrice.Base.{[], ◌∷◌, ◌≡◌, refl, codes, arith}
use metrice.Base32.RoundTrip.{decode-encode}
use metrice.Base32.{encode, encode_padded, decode}

encode_foobar : encode (codes "foobar") ≡ codes "mzxw6ytboi"
unfolding encode
encode_foobar = refl

encode_padded_foob : encode_padded (codes "foob") ≡ codes "mzxw6yq="
unfolding encode_padded
encode_padded_foob = refl

decode_foob : decode (codes "MZXW6YQ=") ≡ codes "foob"
unfolding decode
decode_foob = refl

decode-encode_example : decode (encode (0 ∷ 255 ∷ 16 ∷ [])) ≡ 0 ∷ 255 ∷ 16 ∷ []
decode-encode_example = decode-encode (0 ∷ 255 ∷ 16 ∷ []) (omega arith)
