-- ===== src/Base64/Examples.antt =====
-- base64_e() and base64_d() at known texts.
use radmind.Base.{◌≡◌, refl, [], ◌∷◌, ◌++◌, codes, some, arith}
use radmind.Base64.Tables.{
  etab_high6, etab_high24, etab_low42, etab_low6, dtab_high6, dtab_high2, dtab_high4, dtab_low4,
  dtab_low2, dtab_low6,
}
use radmind.Base64.{base64_e, base64_d}
use radmind.Base64.RoundTrip.{padded, base64_d-base64_e}

encode_foobar : base64_e (codes "foobar") ≡ codes "Zm9vYmFy"
unfolding base64_e etab_high6 etab_high24 etab_low42 etab_low6
encode_foobar = refl

encode_fooba : base64_e (codes "fooba") ≡ codes "Zm9vYmE="
unfolding base64_e etab_high6 etab_high24 etab_low42 etab_low6
encode_fooba = refl

decode_high_byte : base64_d (codes "Zm9" ++ 200 ∷ []) ≡ some (102 ∷ 111 ∷ 64 ∷ [])
unfolding base64_d dtab_high6 dtab_high2 dtab_high4 dtab_low4 dtab_low2 dtab_low6
decode_high_byte = refl

base64_d-base64_e_example : base64_d (base64_e (codes "f\no")) ≡ some (padded (codes "f\no"))
base64_d-base64_e_example = base64_d-base64_e (codes "f\no") (omega arith)
