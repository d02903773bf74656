-- ===== src/Base64/RoundTrip.antt =====
-- What base64_e() writes, base64_d() reads back.
use Prim.Native.Nat.{bit_and, bit_or}
use radmind.Base.{
  ℕ, ◌+◌, ◌*◌, ◌/◌, ◌%◌, ◌<◌, ◌≡◌, refl, [], ◌∷◌, some, Bytes, All, get_or, arith, ap,
}
use radmind.Base64.Tables.{
  etab_high6, etab_high24, etab_low42, etab_low6, dtab_high6, dtab_high2, dtab_high4, dtab_low4,
  dtab_low2, dtab_low6,
}
use radmind.Base64.{base64_e, look_up, join_parts, store_three, base64_d}
use radmind.Base64.Parts.{
  high6, high2, high4, low4, low2, low6, and_03, and_f0, and_0f, and_c0, or_4, or_16, or_64,
  or_pair_4, or_pair_16,
}

module _ (a b : ℕ) (ha : a < 256) (hb : b < 256) where
  -- The index of the second character, and of the third.
  index24 : bit_or (bit_and a 0x03) (bit_and b 0xF0) ≡ a % 4 + 16 * (b / 16)
  index24 = rw (and_03 a ha, and_f0 b hb) (or_pair_4 (a % 4) (b / 16) (omega arith) (omega arith))

  index42 : bit_or (bit_and a 0x0F) (bit_and b 0xC0) ≡ a % 16 + 64 * (b / 64)
  index42 = rw (and_0f a ha, and_c0 b hb) (or_pair_16 (a % 16) (b / 64) (omega arith) (omega arith))

  first_byte :
      join_parts
        (look_up dtab_high6 (get_or etab_high6 a 0))
        (look_up dtab_high2 (get_or etab_high24 (bit_or (bit_and a 0x03) (bit_and b 0xF0)) 0))
      ≡ some a
  unfolding join_parts
  first_byte =
      let i = a % 4 + 16 * (b / 16) in
      let e : i % 4 ≡ a % 4 = omega arith in
      rw (index24, high6 a ha, high2 i (omega arith), e) (ap some (or_4 a ha))

second_byte :
    (a b c : ℕ) (ha : a < 256) (hb : b < 256) (hc : c < 256)
    → join_parts
        (look_up dtab_high4 (get_or etab_high24 (bit_or (bit_and a 0x03) (bit_and b 0xF0)) 0))
        (look_up dtab_low4 (get_or etab_low42 (bit_or (bit_and b 0x0F) (bit_and c 0xC0)) 0))
      ≡ some b
unfolding join_parts
second_byte a b c ha hb hc =
    let i = a % 4 + 16 * (b / 16) in
    let j = b % 16 + 64 * (c / 64) in
    let e : i / 16 ≡ b / 16 = omega arith in
    let f : j % 16 ≡ b % 16 = omega arith in
    rw (index24 a b ha hb, index42 b c hb hc, high4 i (omega arith), low4 j (omega arith), e, f)
      (ap some (or_16 b hb))

third_byte :
    (b c : ℕ) (hb : b < 256) (hc : c < 256)
    → join_parts
        (look_up dtab_low2 (get_or etab_low42 (bit_or (bit_and b 0x0F) (bit_and c 0xC0)) 0))
        (look_up dtab_low6 (get_or etab_low6 c 0))
      ≡ some c
unfolding join_parts
third_byte b c hb hc =
    let j = b % 16 + 64 * (c / 64) in
    let f : j / 64 ≡ c / 64 = omega arith in
    rw (index42 b c hb hc, low2 j (omega arith), low6 c hc, f) (ap some (or_64 c hc))

-- The last group, of two bytes or of one.
pad_second :
    (a b : ℕ)
    → a < 256
    → b < 256
    → join_parts
        (look_up dtab_high4 (get_or etab_high24 (bit_or (bit_and a 0x03) (bit_and b 0xF0)) 0))
        (look_up dtab_low4 (get_or etab_low42 (bit_and b 0x0F) 0))
      ≡ some b
unfolding join_parts
pad_second a b ha hb =
    let i = a % 4 + 16 * (b / 16) in
    let e : i / 16 ≡ b / 16 = omega arith in
    let f : b % 16 % 16 ≡ b % 16 = omega arith in
    rw (index24 a b ha hb, and_0f b hb, high4 i (omega arith), low4 (b % 16) (omega arith), e, f)
      (ap some (or_16 b hb))

pad_third :
    (b : ℕ)
    → b < 256
    → join_parts (look_up dtab_low2 (get_or etab_low42 (bit_and b 0x0F) 0)) (look_up dtab_low6 b'=')
      ≡ some 0
unfolding join_parts look_up dtab_low6
pad_third b hb =
    let f : b % 16 / 64 ≡ 0 = omega arith in rw (and_0f b hb, low2 (b % 16) (omega arith), f) refl

alone_first :
    (a : ℕ)
    → a < 256
    → join_parts
        (look_up dtab_high6 (get_or etab_high6 a 0))
        (look_up dtab_high2 (get_or etab_high24 (bit_and a 0x03) 0))
      ≡ some a
unfolding join_parts
alone_first a ha =
    let f : a % 4 % 4 ≡ a % 4 = omega arith in
    rw (and_03 a ha, high6 a ha, high2 (a % 4) (omega arith), f) (ap some (or_4 a ha))

alone_second :
    (a : ℕ)
    → a < 256
    → join_parts
        (look_up dtab_high4 (get_or etab_high24 (bit_and a 0x03) 0))
        (look_up dtab_low4 b'=')
      ≡ some 0
unfolding join_parts look_up dtab_low4
alone_second a ha =
    let f : a % 4 / 16 ≡ 0 = omega arith in rw (and_03 a ha, high4 (a % 4) (omega arith), f) refl

alone_third : join_parts (look_up dtab_low2 b'=') (look_up dtab_low6 b'=') ≡ some 0
unfolding join_parts look_up dtab_low2 dtab_low6
alone_third = refl

-- The bytes decoded from the padding are zeros.
abbrev pub padded : Bytes → Bytes
padded (a ∷ b ∷ c ∷ d) = a ∷ b ∷ c ∷ padded d
padded (a ∷ b ∷ []) = a ∷ b ∷ 0 ∷ []
padded (a ∷ []) = a ∷ 0 ∷ 0 ∷ []
padded [] = []

-- Decoding an encoded block of bytes gives the bytes, and zeros for the padding of the last group.
pub base64_d-base64_e : (d : Bytes) → All (λ c. c < 256) d → base64_d (base64_e d) ≡ some (padded d)
unfolding base64_d base64_e store_three
base64_d-base64_e (a ∷ b ∷ c ∷ d) h =
    rw
      (
        first_byte a b h.0 h.1.0,
        second_byte a b c h.0 h.1.0 h.1.1.0,
        third_byte b c h.1.0 h.1.1.0,
        base64_d-base64_e d h.1.1.1,
      )
      refl
base64_d-base64_e (a ∷ b ∷ []) h =
    rw (first_byte a b h.0 h.1.0, pad_second a b h.0 h.1.0, pad_third b h.1.0) refl
base64_d-base64_e (a ∷ []) h = rw (alone_first a h.0, alone_second a h.0, alone_third) refl
base64_d-base64_e [] h = refl
