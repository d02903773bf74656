-- ===== src/Base/Lists.antt =====
-- Lists with native indices, predicates on their items, and C strings as lists of bytes.
use Prim.Native.Nat.{ℕ, zero, suc, ◌+◌, ◌<◌}
use Prim.Native.Char.{code}
use Prim.Native.String.{String}
use mathlib.Core.Path.{◌≡◌, refl}
use mathlib.Core.List.{List, [], ◌∷◌, ◌++◌}
use mathlib.Core.Option.{Option, none, some}
use native.Mathlib.Omega.{arith}
use radmind.Base.Tests.{◌==◌, if◌then◌else◌}

module _ {ℓ} {A : Type ℓ} where
  abbrev pub length : List A → ℕ
  length [] = 0
  length (x ∷ xs) = suc (length xs)

  abbrev pub get_elem? : List A → ℕ → Option A
  get_elem? [] i = none
  get_elem? (x ∷ xs) zero = some x
  get_elem? (x ∷ xs) (suc i) = get_elem? xs i

  abbrev pub get_or : List A → ℕ → A → A
  get_or [] i d = d
  get_or (x ∷ xs) zero d = x
  get_or (x ∷ xs) (suc i) d = get_or xs i d

  abbrev pub tail : List A → List A
  tail [] = []
  tail (x ∷ xs) = xs

  abbrev pub take : ℕ → List A → List A
  take zero xs = []
  take (suc n) [] = []
  take (suc n) (x ∷ xs) = x ∷ take n xs

  abbrev pub drop : ℕ → List A → List A
  drop zero xs = xs
  drop (suc n) [] = []
  drop (suc n) (x ∷ xs) = drop n xs

  pub length-append : (xs ys : List A) → length (xs ++ ys) ≡ length xs + length ys
  length-append [] ys = omega arith
  length-append (x ∷ xs) ys = omega (arith, length-append xs ys)

abbrev pub All {ℓ κ} : {A : Type ℓ} → (A → Type κ) → List A → Type κ
All P [] = Unit
All P (x ∷ xs) = P x × All P xs

pub All-append {ℓ κ} :
    {A : Type ℓ} (P : A → Type κ) (xs ys : List A) → All P xs → All P ys → All P (xs ++ ys)
All-append P [] ys h k = k
All-append P (x ∷ xs) ys h k = (h.0, All-append P xs ys h.1 k)

abbrev pub Bytes : Type 0
Bytes = List ℕ

-- The bytes of a C string: the terminating NUL is the end of the list.
abbrev pub IsCString : Bytes → Type 0
IsCString = All (λ c. 0 < c)

-- `*p`: the NUL at the end.
abbrev pub peek : Bytes → ℕ
peek [] = 0
peek (c ∷ s) = c

abbrev pub codes : String → Bytes
codes String.[] = []
codes (String.◌∷◌ c s) = code c ∷ codes s

-- The C string at the start of a buffer: the bytes up to the first NUL.
unfoldable pub until_nul : Bytes → Bytes
until_nul [] = []
until_nul (c ∷ s) = if c == 0 then [] else c ∷ until_nul s

pub until_nul-IsCString : (s : Bytes) → IsCString s → until_nul s ≡ s
unfolding until_nul
until_nul-IsCString [] h = refl
until_nul-IsCString (c ∷ s) h = ground (arith, until_nul-IsCString s h.1)

pub until_nul-append : (s rest : Bytes) → IsCString s → until_nul (s ++ 0 ∷ rest) ≡ s
unfolding until_nul
until_nul-append [] rest h = refl
until_nul-append (c ∷ s) rest h = ground (arith, until_nul-append s rest h.1)
