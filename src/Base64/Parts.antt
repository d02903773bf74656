-- ===== src/Base64/Parts.antt =====
-- The tables entry by entry, and the parts of a byte that the codec takes apart and joins.
use Prim.Native.Nat.{bit_and, bit_or}
use radmind.Base.{
  ℕ, ◌+◌, ◌*◌, ◌/◌, ◌%◌, ◌<◌, ◌≡◌, refl, Bool, true, Option, none, some, ◌==◌, ==_iff, Bytes,
  get_or, check_entries, entry_passes, arith, ap,
}
use radmind.Base64.Tables.{
  etab_high6, etab_high24, etab_low42, etab_low6, dtab_high6, dtab_high2, dtab_high4, dtab_low4,
  dtab_low2, dtab_low6,
}
use radmind.Base64.{look_up}

-- One entry of an encoding table, looked up in a decoding table.
through : Bytes → Bytes → ℕ → Option ℕ
unfolding look_up
through etab dtab i = look_up dtab (get_or etab i 0)

is_some_of : ℕ → Option ℕ → Bool
is_some_of n (some m) = m == n
is_some_of n none = Bool.false

is_some_of-eq : (n : ℕ) (o : Option ℕ) → is_some_of n o ≡ true → o ≡ some n
unfolding is_some_of
is_some_of-eq n (some m) h = ap some ((==_iff m n).0 h)
is_some_of-eq n none h = cc

-- Each pair of tables, over the whole byte.
module _ (etab dtab : Bytes) (part : ℕ → ℕ) where
  through-part :
      (i : ℕ)
      → i < 256
      → check_entries (λ x. is_some_of (part x) (through etab dtab x)) 256 ≡ true
      → through etab dtab i ≡ some (part i)
  through-part i h table = is_some_of-eq (part i) _ (entry_passes _ 256 i h table)

module _ (i : ℕ) (h : i < 256) where
  pub high6 : look_up dtab_high6 (get_or etab_high6 i 0) ≡ some (4 * (i / 4))
  unfolding through check_entries is_some_of etab_high6 dtab_high6
  high6 = through-part etab_high6 dtab_high6 (λ x. 4 * (x / 4)) i h refl

  pub high2 : look_up dtab_high2 (get_or etab_high24 i 0) ≡ some (i % 4)
  unfolding through check_entries is_some_of etab_high24 dtab_high2
  high2 = through-part etab_high24 dtab_high2 (λ x. x % 4) i h refl

  pub high4 : look_up dtab_high4 (get_or etab_high24 i 0) ≡ some (16 * (i / 16))
  unfolding through check_entries is_some_of etab_high24 dtab_high4
  high4 = through-part etab_high24 dtab_high4 (λ x. 16 * (x / 16)) i h refl

  pub low4 : look_up dtab_low4 (get_or etab_low42 i 0) ≡ some (i % 16)
  unfolding through check_entries is_some_of etab_low42 dtab_low4
  low4 = through-part etab_low42 dtab_low4 (λ x. x % 16) i h refl

  pub low2 : look_up dtab_low2 (get_or etab_low42 i 0) ≡ some (64 * (i / 64))
  unfolding through check_entries is_some_of etab_low42 dtab_low2
  low2 = through-part etab_low42 dtab_low2 (λ x. 64 * (x / 64)) i h refl

  pub low6 : look_up dtab_low6 (get_or etab_low6 i 0) ≡ some (i % 64)
  unfolding through check_entries is_some_of etab_low6 dtab_low6
  low6 = through-part etab_low6 dtab_low6 (λ x. x % 64) i h refl

module _ (f g : ℕ → ℕ) where
  same_below : (n i : ℕ) → i < n → check_entries (λ x. f x == g x) n ≡ true → f i ≡ g i
  same_below n i h table = (==_iff (f i) (g i)).0 (entry_passes _ n i h table)

module _ (i : ℕ) (h : i < 256) where
  pub and_03 : bit_and i 0x03 ≡ i % 4
  unfolding check_entries
  and_03 = same_below (λ x. bit_and x 0x03) (λ x. x % 4) 256 i h refl

  pub and_f0 : bit_and i 0xF0 ≡ 16 * (i / 16)
  unfolding check_entries
  and_f0 = same_below (λ x. bit_and x 0xF0) (λ x. 16 * (x / 16)) 256 i h refl

  pub and_0f : bit_and i 0x0F ≡ i % 16
  unfolding check_entries
  and_0f = same_below (λ x. bit_and x 0x0F) (λ x. x % 16) 256 i h refl

  pub and_c0 : bit_and i 0xC0 ≡ 64 * (i / 64)
  unfolding check_entries
  and_c0 = same_below (λ x. bit_and x 0xC0) (λ x. 64 * (x / 64)) 256 i h refl

  pub or_4 : bit_or (4 * (i / 4)) (i % 4) ≡ i
  unfolding check_entries
  or_4 = same_below (λ x. bit_or (4 * (x / 4)) (x % 4)) (λ x. x) 256 i h refl

  pub or_16 : bit_or (16 * (i / 16)) (i % 16) ≡ i
  unfolding check_entries
  or_16 = same_below (λ x. bit_or (16 * (x / 16)) (x % 16)) (λ x. x) 256 i h refl

  pub or_64 : bit_or (64 * (i / 64)) (i % 64) ≡ i
  unfolding check_entries
  or_64 = same_below (λ x. bit_or (64 * (x / 64)) (x % 64)) (λ x. x) 256 i h refl

-- Parts of two bytes side by side; `n` numbers the pair.
or_low_4 : (n : ℕ) → n < 64 → bit_or (n % 4) (16 * (n / 4)) ≡ n % 4 + 16 * (n / 4)
unfolding check_entries
or_low_4 n h =
    same_below (λ x. bit_or (x % 4) (16 * (x / 4))) (λ x. x % 4 + 16 * (x / 4)) 64 n h refl

or_low_16 : (n : ℕ) → n < 64 → bit_or (n % 16) (64 * (n / 16)) ≡ n % 16 + 64 * (n / 16)
unfolding check_entries
or_low_16 n h =
    same_below (λ x. bit_or (x % 16) (64 * (x / 16))) (λ x. x % 16 + 64 * (x / 16)) 64 n h refl

pub or_pair_4 : (r q : ℕ) → r < 4 → q < 16 → bit_or r (16 * q) ≡ r + 16 * q
or_pair_4 r q hr hq =
    let e : (r + 4 * q) % 4 ≡ r = omega arith in
    let f : (r + 4 * q) / 4 ≡ q = omega arith in rw (e, f) at (or_low_4 (r + 4 * q) (omega arith))

pub or_pair_16 : (r q : ℕ) → r < 16 → q < 4 → bit_or r (64 * q) ≡ r + 64 * q
or_pair_16 r q hr hq =
    let e : (r + 16 * q) % 16 ≡ r = omega arith in
    let f : (r + 16 * q) / 16 ≡ q = omega arith in
    rw (e, f) at (or_low_16 (r + 16 * q) (omega arith))
