-- ===== src/Apply/Settled/Order.antt =====
-- A line's path: it is a C string, and the test of the order lets the invariant go on to it.
use radmind.Base.{
  ◌≡◌, refl, ◌||◌, Bool, true, false, List, [], ◌∷◌, Option, none, some, Bytes, IsCString, All, ℕ,
  ◌*◌, arith, length, ltb, until_nul, max_path_len, Bool-cases, inl, inr,
}
use radmind.PathCmp.{ischildcase, pathcasecmp}
use radmind.PathCmp.Order.{lex, key, lex_le_trans, lex_swap, sign-pathcasecmp}
use radmind.PathCmp.Subtree.{IsUpTo, between_two-ischildcase}
use radmind.Code.{Coded, value, null, overrun, overread, as_string, decode_from, decode}
use radmind.Apply.{Node, State, M, set_buf, coded, decode_word}
use radmind.Apply.Main.{set_prepath, ensure, is_positive, is_nil, decoded_path}
use radmind.Apply.Keeps.{set_buf-Keeps}
use radmind.Apply.Settled.{AllRemoved-map, IsGone, IsListed, Inv}
use radmind.Apply.Settled.Hoare.{Hoare, AnyInv, Hoare-Keeps_any, Hoare-seq}

until_nul_result : (s : Bytes) → IsCString (until_nul s)
unfolding until_nul
until_nul_result [] = tt
until_nul_result (c ∷ s) = ground (arith, until_nul_result s)

abbrev OfCoded : Coded → Type 0
OfCoded (value t) = IsCString t
OfCoded null = Unit
OfCoded overrun = Unit
OfCoded overread = Unit

abbrev pub OfWord : Option Bytes → Type 0
OfWord none = Unit
OfWord (some t) = IsCString t

as_string-OfCoded : (c : Coded) → OfCoded (as_string c)
unfolding until_nul
as_string-OfCoded (value s) = until_nul_result s
as_string-OfCoded null = tt
as_string-OfCoded overrun = tt
as_string-OfCoded overread = tt

decode-OfCoded : (old : ℕ → ℕ) (line : Bytes) → OfCoded (decode old line)
unfolding decode
decode-OfCoded old line = elim (Bool-cases (ltb (2 * max_path_len) (length line))) [
  | inl e ↦ rw e tt
  | inr e ↦ rw e (as_string-OfCoded (decode_from old 0 line))
]

module _ {cs : Bool} where
  coded-Hoare :
      (c : Coded) → OfCoded c → Hoare cs (AnyInv cs) (λ o s. OfWord o × AnyInv cs s) (coded c)
  unfolding coded
  coded-Hoare (value t) k = record { at = λ s h. (k, h) }
  coded-Hoare null k = record { at = λ s h. (tt, h) }
  coded-Hoare overrun k = record { at = λ s h. h.1.settled }
  coded-Hoare overread k = record { at = λ s h. h.1.settled }

  pub decode_word-Hoare :
      (w : Bytes) → Hoare cs (AnyInv cs) (λ o s. OfWord o × AnyInv cs s) (decode_word w)
  unfolding decode_word
  decode_word-Hoare w = record {
    at = λ s h.
        (Hoare-seq (AnyInv cs) (AnyInv cs) _ (set_buf w) (coded (decode s.buf w))
            (Hoare-Keeps_any _ (set_buf-Keeps w))
            (coded-Hoare (decode s.buf w) (decode-OfCoded s.buf w))).at
          s h;
  }

  pub decoded_path-Hoare :
      (o : Option Bytes)
      → Hoare cs (λ s. OfWord o × AnyInv cs s) (λ p s. IsCString p × AnyInv cs s) (decoded_path o)
  unfolding decoded_path
  decoded_path-Hoare none = record { at = λ s h. h.1.1.settled }
  decoded_path-Hoare (some p) = record { at = λ s h. h }

  pub ensure-Hoare :
      (x : Bytes) (b : Bool) → Hoare cs (Inv cs x) (λ u s. (b ≡ true) × Inv cs x s) (ensure b)
  unfolding ensure
  ensure-Hoare x true = record { at = λ s h. (refl, h) }
  ensure-Hoare x false = record { at = λ s h. h.settled }

  pub Hoare-fact {ℓ} :
      {A : Type ℓ} (F : Type 0) (P : State → Type 0) (R : A → State → Type 0) (m : M A)
      → (F → Hoare cs P R m)
      → Hoare cs (λ s. F × P s) R m
  Hoare-fact F P R m f = record { at = λ s h. (f h.0).at s h.1 }

-- The test of the order says so.
pub in_order :
    (cs : Bool) (x path : Bytes)
    → IsCString x
    → IsCString path
    → (is_nil x || is_positive (pathcasecmp path x cs)) ≡ true
    → IsUpTo cs x path
unfolding is_nil is_positive lex
in_order cs [] [] hx hp h = ground arith
in_order cs [] (d ∷ path) hx hp h = ground arith
in_order cs (c ∷ x) path hx hp h =
    ground (arith, sign-pathcasecmp path (c ∷ x) cs hp hx, lex_swap (key cs path) (key cs (c ∷ x)))

IsGone-later :
    (cs : Bool) (x y p : Bytes)
    → IsCString x
    → IsCString y
    → IsUpTo cs x y
    → IsGone cs x p
    → IsGone cs y p
IsGone-later cs x y p hx hy le k = (
  k.0,
  (
    lex_le_trans (key cs p) (key cs x) (key cs y) k.1.0 le,
    elim (Bool-cases (ischildcase y (some p) cs)) [
      | inl e ↦
          absurd (ground (arith, between_two-ischildcase p x y cs k.0 hx hy k.1.0 le e, k.1.1))
      | inr e ↦ e
    ],
  ),
)

IsListed-later :
    (cs : Bool) (x y : Bytes) (nodes : List Node)
    → IsUpTo cs x y
    → All (λ n. IsListed cs x n) nodes
    → All (λ n. IsListed cs y n) nodes
IsListed-later cs x y [] le h = tt
IsListed-later cs x y (n ∷ nodes) le h = (
  (h.0.0, lex_le_trans (key cs n.path) (key cs x) (key cs y) h.0.1 le),
  IsListed-later cs x y nodes le h.1,
)

pub set_prepath-Hoare :
    (cs : Bool) (x y : Bytes)
    → IsCString y
    → IsUpTo cs x y
    → Hoare cs (Inv cs x) (λ u. Inv cs y) (set_prepath y)
unfolding set_prepath
set_prepath-Hoare cs x y hy le = record {
  at = λ s h. record {
    at_path = refl;
    cstring = hy;
    listed = IsListed-later cs x y s.head le h.listed;
    nested = h.nested;
    gone = AllRemoved-map _ _ s.events (λ p k. IsGone-later cs x y p h.cstring hy le k) h.gone;
    settled = h.settled;
  };
}
