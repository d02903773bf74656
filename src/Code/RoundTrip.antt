-- ===== src/Code/RoundTrip.antt =====
-- encode() and decode(): the round trip, and exactly where their buffers are too small.
use radmind.Base.{
  ℕ, ◌+◌, ◌*◌, ◌≤◌, ◌<◌, ◌≡◌, ◌↔◌, ◌⊎◌, inl, inr, Bool, true, false, [], ◌∷◌, ◌++◌, leb, Bytes,
  IsCString, All, length, length-append, max_path_len, arith, until_nul-IsCString, Bool-cases,
}
use radmind.Code.{
  value, null, overrun, backslash, escape_byte, escape, encode_internal, push, decode_from, decode,
}

-- The bytes that encode() gives two bytes.
abbrev pub IsSpecial : ℕ → Type 0
IsSpecial c = (c ≡ b' ') ⊎ (c ≡ b'\t') ⊎ (c ≡ b'\n') ⊎ (c ≡ b'\r') ⊎ (c ≡ backslash)

length-escape_byte :
    (c : ℕ) (sp : Bool)
    → (length (escape_byte c sp) ≡ 2) × IsSpecial c
      ⊎ (length (escape_byte c sp) ≡ 1) × ¬ IsSpecial c
unfolding escape_byte
length-escape_byte c true = ground arith
length-escape_byte c false = ground arith

pub length-escape :
    (s : Bytes) (sp : Bool)
    → (length s ≤ length (escape s sp)) × (length (escape s sp) ≤ 2 * length s)
unfolding escape
length-escape [] sp = omega arith
length-escape (c ∷ s) sp = omega (
  arith,
  length-escape s sp,
  length-escape_byte c sp,
  length-append (escape_byte c sp) (escape s sp),
)

escape_full : (s : Bytes) (sp : Bool) → (2 * length s ≤ length (escape s sp)) ↔ All IsSpecial s
unfolding escape
escape_full [] sp = (λ h. tt, λ h. omega arith)
escape_full (c ∷ s) sp =
    let joined = length-append (escape_byte c sp) (escape s sp) in
    let bounds = length-escape s sp in
    elim (length-escape_byte c sp) [
      | inl (two, special) ↦ (
        λ h. (special, (escape_full s sp).0 (omega arith)),
        λ h. omega (arith, (escape_full s sp).1 h.1),
      )
      | inr (one, plain) ↦ (λ h. absurd (omega arith), λ h. absurd (plain h.0))
    ]

decode_from-escape_byte :
    (old : ℕ → ℕ) (i c : ℕ) (sp : Bool) (rest : Bytes)
    → i < max_path_len
    → decode_from old i (escape_byte c sp ++ rest) ≡ push c (decode_from old (i + 1) rest)
unfolding escape_byte decode_from
decode_from-escape_byte old i c true [] h = ground arith
decode_from-escape_byte old i c false [] h = ground arith
decode_from-escape_byte old i c true (d ∷ rest) h = ground arith
decode_from-escape_byte old i c false (d ∷ rest) h = ground arith

decode_from-escape :
    (old : ℕ → ℕ) (i : ℕ) (s : Bytes) (sp : Bool)
    → i + length s < max_path_len
    → decode_from old i (escape s sp) ≡ value s
unfolding escape
decode_from-escape old i [] sp h = unfold decode_from in ground arith
decode_from-escape old i (c ∷ s) sp h =
    rw (decode_from-escape_byte old i c sp (escape s sp) (omega arith))
      (rw (decode_from-escape old (i + 1) s sp (omega arith)))

encode-value :
    (s : Bytes) (sp : Bool) → length s < max_path_len → encode_internal s sp ≡ value (escape s sp)
unfolding encode_internal
encode-value s sp h = ground (arith, length-escape s sp)

pub decode-escape :
    (old : ℕ → ℕ) (s : Bytes) (sp : Bool)
    → IsCString s
    → length s < max_path_len
    → decode old (escape s sp) ≡ value s
unfolding decode
decode-escape old s sp hs h =
    ground (arith, length-escape s sp, decode_from-escape old 0 s sp, until_nul-IsCString s hs)

-- A path shorter than MAXPATHLEN is encoded, and decoding what encode() or encode_space() gave
-- yields the path again, whatever the decode buffer held before.
pub decode-encode :
    (old : ℕ → ℕ) (s : Bytes) (sp : Bool)
    → IsCString s
    → length s < max_path_len
    → (e : Bytes) × (encode_internal s sp ≡ value e) × (decode old e ≡ value s)
decode-encode old s sp hs h = (escape s sp, encode-value s sp h, decode-escape old s sp hs h)

-- encode() refuses a path longer than MAXPATHLEN, and writes past the end of its buffer exactly at a
-- path of MAXPATHLEN bytes that are all escaped.
pub encode-overrun_iff :
    (s : Bytes) (sp : Bool)
    → ((encode_internal s sp ≡ null) ↔ (max_path_len < length s))
      × ((encode_internal s sp ≡ overrun) ↔ ((length s ≡ max_path_len) × All IsSpecial s))
unfolding encode_internal
encode-overrun_iff s sp = (
  ground (arith, length-escape s sp),
  (
    λ h. (
      ground (arith, length-escape s sp),
      (escape_full s sp).0 (ground (arith, length-escape s sp)),
    ),
    λ h. ground (arith, length-escape s sp, (escape_full s sp).1 h.1),
  ),
)

decode_from-escape_long :
    (old : ℕ → ℕ) (i : ℕ) (s : Bytes) (sp : Bool)
    → i + length s ≡ max_path_len
    → decode_from old i (escape s sp) ≡ overrun
unfolding escape
decode_from-escape_long old i [] sp h = unfold decode_from in ground arith
decode_from-escape_long old i (c ∷ s) sp h =
    rw (decode_from-escape_byte old i c sp (escape s sp) (omega arith))
      (rw (decode_from-escape_long old (i + 1) s sp (omega arith)))

-- A path of MAXPATHLEN bytes, which encode() accepts unless all of it is escaped, sends decode()
-- past the end of its buffer: the test in the loop leaves no room for the NUL.
pub decode-encode_overrun :
    (old : ℕ → ℕ) (s : Bytes) (sp : Bool)
    → length s ≡ max_path_len
    → ¬ All IsSpecial s
    → (e : Bytes) × (encode_internal s sp ≡ value e) × (decode old e ≡ overrun)
unfolding decode encode_internal
decode-encode_overrun old s sp h n = (
  escape s sp,
  elim (Bool-cases (leb (2 * max_path_len) (length (escape s sp)))) [
    | inl full ↦ absurd (n ((escape_full s sp).0 (ground arith)))
    | inr room ↦ ground arith
  ],
  ground (arith, length-escape s sp, decode_from-escape_long old 0 s sp),
)
