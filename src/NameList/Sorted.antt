-- ===== src/NameList/Sorted.antt =====
-- Insertion into a name list: sorted, and the same names with the new one.
use mathlib.Core.List.{Perm}
use mathlib.Core.List.Perm
use radmind.Base.{
  ℕ, ◌<◌, ◌≡◌, refl, ◌≢◌, inl, inr, Bool, true, false, List, [], ◌∷◌, Bytes, IsCString, All,
  Ordering, ℤ, sign, arith, Bool-cases, map,
}
use radmind.PathCmp.{fold}
use radmind.PathCmp.Order.{lex, lex_le_trans, lex_swap}
use radmind.NameList.{str_compare, at_most_zero, ll_insert_by, ll_insert, ll_insert_case}

abbrev pub folded : Bool → Bytes → List ℕ
folded cs a = map (fold cs) a

fold_pos : (cs : Bool) (c : ℕ) → 0 < c → 0 < fold cs c
unfolding fold
fold_pos true c h = ground arith
fold_pos false c h = ground arith

fold_zero : (cs : Bool) → fold cs 0 ≡ 0
unfolding fold
fold_zero true = refl
fold_zero false = refl

-- strcmp() and strcasecmp() are the lexicographic order of the bytes, folded or not.
pub sign-str_compare :
    (a b : Bytes) (cs : Bool)
    → IsCString a
    → IsCString b
    → sign (str_compare a b cs) ≡ lex (folded cs a) (folded cs b)
unfolding str_compare lex
sign-str_compare [] [] cs ha hb = ground (arith, fold_zero cs)
sign-str_compare [] (d ∷ b) cs ha hb = ground (arith, fold_pos cs d)
sign-str_compare (c ∷ a) [] cs ha hb = ground (arith, fold_zero cs, fold_pos cs c)
sign-str_compare (c ∷ a) (d ∷ b) cs ha hb = ground (arith, sign-str_compare a b cs ha.1 hb.1)

abbrev pub NotAfter : Bool → Bytes → Bytes → Type 0
NotAfter cs a b = lex (folded cs a) (folded cs b) ≢ Ordering.gt

abbrev pub IsSorted : Bool → List Bytes → Type 0
IsSorted cs [] = Unit
IsSorted cs (a ∷ rest) = All (NotAfter cs a) rest × IsSorted cs rest

module _ (cs : Bool) where
  abbrev cmp : Bytes → Bytes → ℤ
  cmp a b = str_compare a b cs

  below-All :
      (new a : Bytes) (names : List Bytes)
      → NotAfter cs new a
      → All (NotAfter cs a) names
      → All (NotAfter cs new) names
  below-All new a [] h k = tt
  below-All new a (b ∷ names) h k =
      (lex_le_trans (folded cs new) (folded cs a) (folded cs b) h k.0, below-All new a names h k.1)

  All-ll_insert_by :
      (P : Bytes → Type 0) (new : Bytes) (names : List Bytes)
      → P new
      → All P names
      → All P (ll_insert_by cmp names new)
  unfolding ll_insert_by
  All-ll_insert_by P new [] h k = (h, tt)
  All-ll_insert_by P new (a ∷ names) h k = elim (Bool-cases (at_most_zero (cmp new a))) [
    | inl here ↦ rw here (h, k)
    | inr later ↦ rw later (k.0, All-ll_insert_by P new names h k.1)
  ]

  ll_insert_by-IsSorted :
      (names : List Bytes) (new : Bytes)
      → IsCString new
      → All IsCString names
      → IsSorted cs names
      → IsSorted cs (ll_insert_by cmp names new)
  unfolding ll_insert_by
  ll_insert_by-IsSorted [] new hn h s = (tt, tt)
  ll_insert_by-IsSorted (a ∷ names) new hn h s =
      let signs = sign-str_compare new a cs hn h.0 in
      elim (Bool-cases (at_most_zero (cmp new a))) [
        | inl here ↦
            let le : NotAfter cs new a = ground arith in
            rw here ((le, below-All new a names le s.0), s)
        | inr later ↦
            let le : NotAfter cs a new = ground (arith, lex_swap (folded cs new) (folded cs a)) in
            rw later (
              All-ll_insert_by (NotAfter cs a) new names le s.0,
              ll_insert_by-IsSorted names new hn h.1 s.1,
            )
      ]

  ll_insert_by-Perm :
      (names : List Bytes) (new : Bytes) → Perm (ll_insert_by cmp names new) (new ∷ names)
  unfolding ll_insert_by
  ll_insert_by-Perm [] new = Perm.refl (new ∷ [])
  ll_insert_by-Perm (a ∷ names) new = elim (Bool-cases (at_most_zero (cmp new a))) [
    | inl here ↦ rw here (Perm.refl (new ∷ a ∷ names))
    | inr later ↦
        rw later (Perm.trans (Perm.cons a (ll_insert_by-Perm names new)) (Perm.swap new a names))
  ]

-- ll_insert() keeps a list of names sorted as strcmp() orders them; the names are the old ones and
-- the new one, as often as each stood there.
pub ll_insert-IsSorted :
    (names : List Bytes) (new : Bytes)
    → IsCString new
    → All IsCString names
    → IsSorted true names
    → IsSorted true (ll_insert names new) × Perm (ll_insert names new) (new ∷ names)
unfolding ll_insert
ll_insert-IsSorted names new hn h s =
    (ll_insert_by-IsSorted true names new hn h s, ll_insert_by-Perm true names new)

-- ll_insert_case() keeps a list of names sorted as strcasecmp() orders them; the names are the old
-- ones and the new one, as often as each stood there.
pub ll_insert_case-IsSorted :
    (names : List Bytes) (new : Bytes)
    → IsCString new
    → All IsCString names
    → IsSorted false names
    → IsSorted false (ll_insert_case names new) × Perm (ll_insert_case names new) (new ∷ names)
unfolding ll_insert_case
ll_insert_case-IsSorted names new hn h s =
    (ll_insert_by-IsSorted false names new hn h s, ll_insert_by-Perm false names new)
