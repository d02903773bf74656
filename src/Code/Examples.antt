-- ===== src/Code/Examples.antt =====
-- Runs of encode() and decode(), and their theorems at concrete paths.
use radmind.Base.{
  ℕ, zero, suc, ◌≡◌, refl, ap, ◌↔◌, ◌<◌, true, false, [], ◌∷◌, Bytes, codes, length, All,
  max_path_len, arith,
}
use radmind.Code.{value, null, overrun, overread, encode_internal, decode}
use radmind.Code.RoundTrip.{IsSpecial, decode-encode, encode-overrun_iff, decode-encode_overrun}

abbrev cleared : ℕ → ℕ
cleared i = 0

encode_blank : encode_internal (codes "a b\\") false ≡ value (codes "a\\bb\\\\")
unfolding encode_internal
encode_blank = refl

decode_trailing_backslash : decode cleared (codes "ab\\") ≡ overread
unfolding decode
decode_trailing_backslash = refl

-- An unknown escape keeps the byte of an earlier call.
decode_stale : decode (λ i. b'z') (codes "a\\qc") ≡ value (codes "azc")
unfolding decode
decode_stale = refl

decode-encode_example :
    (e : Bytes) × (encode_internal (codes "a b\tc\\") true ≡ value e)
    × (decode cleared e ≡ value (codes "a b\tc\\"))
decode-encode_example = decode-encode cleared (codes "a b\tc\\") true (omega arith) (omega arith)

encode-overrun_iff_example :
    ((encode_internal (codes "a b") false ≡ null) ↔ (max_path_len < length (codes "a b")))
    × ((encode_internal (codes "a b") false ≡ overrun)
        ↔ ((length (codes "a b") ≡ max_path_len) × All IsSpecial (codes "a b")))
encode-overrun_iff_example = encode-overrun_iff (codes "a b") false

letters : ℕ → Bytes
letters zero = []
letters (suc n) = b'a' ∷ letters n

length-letters : (n : ℕ) → length (letters n) ≡ n
unfolding letters
length-letters zero = refl
length-letters (suc n) = ap suc (length-letters n)

letters-not-IsSpecial : (n : ℕ) → ¬ All IsSpecial (letters (suc n))
unfolding letters
letters-not-IsSpecial n h = ground (arith, h.0)

decode-encode_overrun_example :
    (e : Bytes) × (encode_internal (letters max_path_len) false ≡ value e)
    × (decode cleared e ≡ overrun)
decode-encode_overrun_example =
    decode-encode_overrun cleared (letters max_path_len) false (length-letters max_path_len)
      (letters-not-IsSpecial 4095)
