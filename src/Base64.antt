-- ===== src/Base64.antt =====
-- base64.c: checksums and Finder information as text. Plain char is taken as unsigned, as in PathCmp,
-- so that a byte of the text is its index in a table of 256 entries.
pub mod Tables
pub mod Parts
pub mod RoundTrip
pub mod Bounds
mod Examples
use Prim.Native.Nat.{bit_and, bit_or}
use radmind.Base.{ℕ, Bool, List, [], ◌∷◌, ◌++◌, Option, none, some, Bytes, get_elem?, get_or}
use Tables.{
  etab_high6, etab_high24, etab_low42, etab_low6, dtab_high6, dtab_high2, dtab_high4, dtab_low4,
  dtab_low2, dtab_low6,
}

-- base64_e(): the text without its NUL. The loop takes three bytes, the switch what is left.
unfoldable pub base64_e : Bytes → Bytes
base64_e (d0 ∷ d1 ∷ d2 ∷ d) =
    get_or etab_high6 d0 0
    ∷ get_or etab_high24 (bit_or (bit_and d0 0x03) (bit_and d1 0xF0)) 0
    ∷ get_or etab_low42 (bit_or (bit_and d1 0x0F) (bit_and d2 0xC0)) 0
    ∷ get_or etab_low6 d2 0
    ∷ base64_e d
base64_e (d0 ∷ d1 ∷ []) =
    get_or etab_high6 d0 0
    ∷ get_or etab_high24 (bit_or (bit_and d0 0x03) (bit_and d1 0xF0)) 0
    ∷ get_or etab_low42 (bit_and d1 0x0F) 0
    ∷ b'='
    ∷ []
base64_e (d0 ∷ []) =
    get_or etab_high6 d0 0 ∷ get_or etab_high24 (bit_and d0 0x03) 0 ∷ b'=' ∷ b'=' ∷ []
base64_e [] = []

-- `dtab[ (int)e ]`; `none` is a read behind the table.
unfoldable pub look_up : Bytes → ℕ → Option ℕ
look_up dtab e = get_elem? dtab e

-- Two parts of a byte, joined.
unfoldable pub join_parts : Option ℕ → Option ℕ → Option ℕ
join_parts (some a) (some b) = some (bit_or a b)
join_parts (some a) none = none
join_parts none b = none

unfoldable pub store_three : Option ℕ → Option ℕ → Option ℕ → Option Bytes → Option Bytes
store_three (some a) (some b) (some c) (some d) = some (a ∷ b ∷ c ∷ d)
store_three _ _ _ _ = none

-- base64_d(): elen / 4 rounds, whatever is left over.
unfoldable pub base64_d : Bytes → Option Bytes
unfolding look_up join_parts store_three
base64_d (e0 ∷ e1 ∷ e2 ∷ e3 ∷ e) =
    store_three (join_parts (look_up dtab_high6 e0) (look_up dtab_high2 e1))
      (join_parts (look_up dtab_high4 e1) (look_up dtab_low4 e2))
      (join_parts (look_up dtab_low2 e2) (look_up dtab_low6 e3)) (base64_d e)
base64_d _ = some []
