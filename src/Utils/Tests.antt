-- ===== src/Utils/Tests.antt =====
-- The utilities at concrete inputs.
use loglite.Prelude.{[], codes, refl, ◌∷◌, ◌≡◌}
use loglite.Utils.{url_decode}
use loglite.Utils.Decode.{done, escape, plain, space, url_decode-Encodes}

url_decode-Encodes_example : url_decode (codes "a%2B+") ≡ codes "a+ "
url_decode-Encodes_example =
    url_decode-Encodes
      (plain b'a' refl refl (escape b'2' b'B' 2 11 refl refl refl refl (space refl refl done)))

-- An escape whose first digit alone is one is not skipped.
url_decode_half_escape : url_decode (codes "%4g") ≡ 4 ∷ []
unfolding url_decode
url_decode_half_escape = refl
