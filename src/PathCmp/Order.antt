-- ===== src/PathCmp/Order.antt =====
-- pathcasecmp() is a lexicographic comparison in which '/' is the least byte.
use radmind.Base.{
  ℕ, ◌+◌, ◌<◌, ◌≡◌, refl, ◌≢◌, ◌↔◌, Bool, true, false, List, [], ◌∷◌, map, compare, Ordering, ℤ,
  pos, sign, ◌==◌, if◌then◌else◌, Bytes, IsCString, arith,
}
use radmind.PathCmp.{fold, compare_heads, pathcasecmp, pathcmp}

-- The place of a byte in the order: NUL, then '/', then the other bytes.
unfoldable pub rank : Bool → ℕ → ℕ
unfolding fold
rank case_sensitive c = if c == 0 then 0 else (if c == b'/' then 1 else fold case_sensitive c + 1)

-- The lexicographic order.
unfoldable pub lex : List ℕ → List ℕ → Ordering
lex [] [] = Ordering.eq
lex [] (y ∷ ys) = Ordering.lt
lex (x ∷ xs) [] = Ordering.gt
lex (x ∷ xs) (y ∷ ys) = elim (compare x y) [
  | Ordering.lt ↦ Ordering.lt
  | Ordering.gt ↦ Ordering.gt
  | Ordering.eq ↦ lex xs ys
]

sign-compare_heads :
    (c1 c2 : ℕ) (cs : Bool) (next : ℤ)
    → sign (compare_heads c1 c2 cs next) ≡ (elim (compare (rank cs c1) (rank cs c2)) [
      | Ordering.lt ↦ Ordering.lt
      | Ordering.gt ↦ Ordering.gt
      | Ordering.eq ↦ sign next
    ])
unfolding compare_heads rank
sign-compare_heads c1 c2 true next = ground arith
sign-compare_heads c1 c2 false next = ground arith

abbrev pub key : Bool → Bytes → List ℕ
key case_sensitive p = map (rank case_sensitive) p

rank_zero : (cs : Bool) → rank cs 0 ≡ 0
unfolding rank
rank_zero cs = refl

rank-eq-zero : (cs : Bool) (c : ℕ) → 0 < c → 0 < rank cs c
unfolding rank
rank-eq-zero true c h = ground arith
rank-eq-zero false c h = ground arith

-- The sign of pathcasecmp() is the lexicographic order of the ranks of the bytes: '/' comes first,
-- then the other bytes by their value, or by that of their lower case letters.
pub sign-pathcasecmp :
    (p q : Bytes) (cs : Bool)
    → IsCString p
    → IsCString q
    → sign (pathcasecmp p q cs) ≡ lex (key cs p) (key cs q)
unfolding pathcasecmp lex
sign-pathcasecmp [] [] cs hp hq = rw (sign-compare_heads) (unfold rank in refl)
sign-pathcasecmp [] (d ∷ q) cs hp hq =
    ground (arith, sign-compare_heads 0 d cs (pos 0), rank-eq-zero cs d, rank_zero cs)
sign-pathcasecmp (c ∷ p) [] cs hp hq =
    ground (arith, sign-compare_heads c 0 cs (pathcasecmp p [] cs), rank-eq-zero cs c, rank_zero cs)
sign-pathcasecmp (c ∷ p) (d ∷ q) cs hp hq =
    ground
      (arith, sign-compare_heads c d cs (pathcasecmp p q cs), sign-pathcasecmp p q cs hp.1 hq.1)

-- The lexicographic order is total.
pub lex_refl : (xs : List ℕ) → lex xs xs ≡ Ordering.eq
unfolding lex
lex_refl [] = refl
lex_refl (x ∷ xs) = ground (arith, lex_refl xs)

pub lex-eq : (xs ys : List ℕ) → lex xs ys ≡ Ordering.eq → xs ≡ ys
unfolding lex
lex-eq [] [] h = refl
lex-eq [] (y ∷ ys) h = cc
lex-eq (x ∷ xs) [] h = cc
lex-eq (x ∷ xs) (y ∷ ys) h = ground (arith, lex-eq xs ys)

abbrev pub swapped : Ordering → Ordering
swapped Ordering.lt = Ordering.gt
swapped Ordering.eq = Ordering.eq
swapped Ordering.gt = Ordering.lt

pub lex_swap : (xs ys : List ℕ) → lex ys xs ≡ swapped (lex xs ys)
unfolding lex
lex_swap [] [] = refl
lex_swap [] (y ∷ ys) = refl
lex_swap (x ∷ xs) [] = refl
lex_swap (x ∷ xs) (y ∷ ys) = ground (arith, lex_swap xs ys)

pub lex_trans :
    (xs ys zs : List ℕ)
    → lex xs ys ≡ Ordering.lt
    → lex ys zs ≡ Ordering.lt
    → lex xs zs ≡ Ordering.lt
unfolding lex
lex_trans [] [] zs h k = cc
lex_trans [] (y ∷ ys) [] h k = cc
lex_trans [] (y ∷ ys) (z ∷ zs) h k = refl
lex_trans (x ∷ xs) [] zs h k = cc
lex_trans (x ∷ xs) (y ∷ ys) [] h k = cc
lex_trans (x ∷ xs) (y ∷ ys) (z ∷ zs) h k = ground (arith, lex_trans xs ys zs)

pub lex_le_trans :
    (xs ys zs : List ℕ)
    → lex xs ys ≢ Ordering.gt
    → lex ys zs ≢ Ordering.gt
    → lex xs zs ≢ Ordering.gt
unfolding lex
lex_le_trans [] ys [] h k = cc
lex_le_trans [] ys (z ∷ zs) h k = cc
lex_le_trans (x ∷ xs) [] zs h k = absurd (h refl)
lex_le_trans (x ∷ xs) (y ∷ ys) [] h k = absurd (k refl)
lex_le_trans (x ∷ xs) (y ∷ ys) (z ∷ zs) h k = ground (arith, lex_le_trans xs ys zs)

pub lex_lt_le_trans :
    (xs ys zs : List ℕ)
    → lex xs ys ≡ Ordering.lt
    → lex ys zs ≢ Ordering.gt
    → lex xs zs ≡ Ordering.lt
unfolding lex
lex_lt_le_trans [] [] zs h k = cc
lex_lt_le_trans [] (y ∷ ys) [] h k = absurd (k refl)
lex_lt_le_trans [] (y ∷ ys) (z ∷ zs) h k = refl
lex_lt_le_trans (x ∷ xs) [] zs h k = cc
lex_lt_le_trans (x ∷ xs) (y ∷ ys) [] h k = absurd (k refl)
lex_lt_le_trans (x ∷ xs) (y ∷ ys) (z ∷ zs) h k = ground (arith, lex_lt_le_trans xs ys zs)

rank_injective : (c d : ℕ) → rank true c ≡ rank true d → c ≡ d
unfolding rank
rank_injective c d h = ground arith

key_injective : (p q : Bytes) → key true p ≡ key true q → p ≡ q
key_injective [] [] h = refl
key_injective [] (d ∷ q) h = cc
key_injective (c ∷ p) [] h = cc
key_injective (c ∷ p) (d ∷ q) h = ground (arith, rank_injective c d, key_injective p q)

-- Two paths compare equal exactly when they are the same path, and the sign swaps with the arguments.
pub pathcmp_antisymm :
    (p q : Bytes)
    → IsCString p
    → IsCString q
    → (sign (pathcmp q p) ≡ swapped (sign (pathcmp p q)))
      × ((sign (pathcmp p q) ≡ Ordering.eq) ↔ (p ≡ q))
unfolding pathcmp
pathcmp_antisymm p q hp hq =
    rw (sign-pathcasecmp p q true hp hq, sign-pathcasecmp q p true hq hp)
      (
        lex_swap (key true p) (key true q),
        (
          λ h. key_injective p q (lex-eq (key true p) (key true q) h),
          λ e. rw e (lex_refl (key true q)),
        ),
      )

-- The order of paths is transitive, in either case mode.
pub pathcasecmp_trans :
    (p q r : Bytes) (cs : Bool)
    → IsCString p
    → IsCString q
    → IsCString r
    → sign (pathcasecmp p q cs) ≡ Ordering.lt
    → sign (pathcasecmp q r cs) ≡ Ordering.lt
    → sign (pathcasecmp p r cs) ≡ Ordering.lt
pathcasecmp_trans p q r cs hp hq hr =
    rw (sign-pathcasecmp p q cs hp hq, sign-pathcasecmp q r cs hq hr, sign-pathcasecmp p r cs hp hr)
      (lex_trans (key cs p) (key cs q) (key cs r))
