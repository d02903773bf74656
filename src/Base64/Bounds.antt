-- ===== src/Base64/Bounds.antt =====
-- base64_d() reads inside its tables.
use Prim.Native.Nat.{bit_or}
use mathlib.Core.Bool.{false≢true}
use radmind.Base.{
  Option-cases, inl, inr, length, ℕ, ◌*◌, ◌/◌, ◌<◌, ◌≡◌, refl, Bool, true, [], ◌∷◌, Option, none,
  some, Bytes, All, check_entries, entry_passes, arith,
}
use radmind.Base64.Tables.{dtab_high6, dtab_high2, dtab_high4, dtab_low4, dtab_low2, dtab_low6}
use radmind.Base64.{look_up, join_parts, store_three, base64_d}

is_found : Option ℕ → Bool
is_found (some b) = true
is_found none = Bool.false

all_found : Bytes → Bool
unfolding check_entries look_up is_found
all_found dtab = check_entries (λ e. is_found (look_up dtab e)) 256

look_up-some :
    (dtab : Bytes) (e : ℕ) → all_found dtab ≡ true → e < 256 → (b : ℕ) × (look_up dtab e ≡ some b)
unfolding all_found is_found
look_up-some dtab e found h = elim (Option-cases (look_up dtab e)) [
  | inr r ↦ r
  | inl missing ↦
      absurd
        (false≢true (rw missing at (entry_passes (λ e. is_found (look_up dtab e)) 256 e h found)))
]

joined_some :
    (dtab dtab' : Bytes) (e e' : ℕ)
    → all_found dtab ≡ true
    → all_found dtab' ≡ true
    → e < 256
    → e' < 256
    → (b : ℕ) × (join_parts (look_up dtab e) (look_up dtab' e') ≡ some b)
unfolding join_parts
joined_some dtab dtab' e e' f f' h h' =
    let (b, r) = look_up-some dtab e f h in
    let (b', r') = look_up-some dtab' e' f' h' in (bit_or b b', rw (r, r') refl)

-- A text of bytes is decoded without a read outside the tables, three bytes for each
-- four characters, the rest of the division left alone.
pub base64_d-length :
    (e : Bytes)
    → All (λ c. c < 256) e
    → (d : Bytes) × (base64_d e ≡ some d) × (length d ≡ 3 * (length e / 4))
unfolding base64_d store_three all_found dtab_high6 dtab_high2 dtab_high4 dtab_low4 dtab_low2
    dtab_low6
base64_d-length (e0 ∷ e1 ∷ e2 ∷ e3 ∷ e) h =
    let (a, ra) = joined_some dtab_high6 dtab_high2 e0 e1 refl refl h.0 h.1.0 in
    let (b, rb) = joined_some dtab_high4 dtab_low4 e1 e2 refl refl h.1.0 h.1.1.0 in
    let (c, rc) = joined_some dtab_low2 dtab_low6 e2 e3 refl refl h.1.1.0 h.1.1.1.0 in
    let (d, rd, same) = base64_d-length e h.1.1.1.1 in
    (a ∷ b ∷ c ∷ d, rw (ra, rb, rc, rd) refl, omega arith)
base64_d-length (e0 ∷ e1 ∷ e2 ∷ []) h = ([], refl, omega arith)
base64_d-length (e0 ∷ e1 ∷ []) h = ([], refl, omega arith)
base64_d-length (e0 ∷ []) h = ([], refl, omega arith)
base64_d-length [] h = ([], refl, omega arith)
