-- ===== src/PathCmp/Subtree.antt =====
-- ischildcase() against its meaning, and why a sorted transcript keeps each subtree together.
use radmind.Base.{
  ℕ, zero, suc, ◌≤◌, ◌<◌, ◌≡◌, refl, ◌≢◌, ◌↔◌, ◌⊎◌, inl, inr, Bool, true, false, [], ◌∷◌, ◌++◌,
  Ordering, sign, ◌==◌, Bytes, IsCString, peek, arith, Bool-cases, ==_iff, length, get_or, drop,
  some, append-nil, All-append, length-append,
}
use radmind.PathCmp.{fold, tolower, pathcasecmp, prefix_eq, ischildcase, ischild}
use radmind.PathCmp.Order.{rank, lex, key, sign-pathcasecmp}

-- The bytes of the parent, and where the name goes on.
abbrev Under : Bool → Bytes → Bytes → Type 0
Under cs child parent =
    (prefix_eq parent child cs ≡ true)
    × (length parent ≤ length child)
    × ((b'/' ≡ get_or child (length parent) 0) ⊎ (0 ≡ get_or child (length parent) 0))

abbrev root_path : Bytes
root_path = b'/' ∷ []

-- An Under child of the root begins with '/', as the root's own case asks.
Under-root : (child : Bytes) (cs : Bool) → Under cs child root_path → (b'/' == peek child) ≡ true
unfolding prefix_eq
Under-root child true u = ground arith
Under-root child false u = ground arith

Under-ischildcase :
    (child parent : Bytes) (cs : Bool)
    → Under cs child parent
    → ischildcase child (some parent) cs ≡ true
unfolding ischildcase
Under-ischildcase child [] cs u = ground arith
Under-ischildcase child (c ∷ []) cs u = ground (arith, Under-root child cs)
Under-ischildcase child (c ∷ d ∷ parent) cs u = ground arith

fold_of_rank : (cs : Bool) (c d : ℕ) → rank cs c ≡ rank cs d → fold cs c ≡ fold cs d
unfolding rank
fold_of_rank true c d h = ground arith
fold_of_rank false c d h = ground arith

rank_slash : (cs : Bool) (c : ℕ) → 0 < c → rank cs c ≤ rank cs b'/' → c ≡ b'/'
unfolding rank
rank_slash true c p h = ground arith
rank_slash false c p h = ground arith

between-Under :
    (p q r : Bytes) (cs : Bool)
    → IsCString p
    → IsCString q
    → lex (key cs p) (key cs q) ≢ Ordering.gt
    → lex (key cs q) (key cs (p ++ b'/' ∷ r)) ≢ Ordering.gt
    → Under cs q p
unfolding lex prefix_eq
between-Under [] [] r cs hp hq lo hi = ground arith
between-Under [] (d ∷ q) r cs hp hq lo hi = ground (arith, rank_slash cs d)
between-Under (c ∷ p) [] r cs hp hq lo hi = ground arith
between-Under (c ∷ p) (d ∷ q) r cs hp hq lo hi =
    ground (arith, fold_of_rank cs c d, between-Under p q r cs hp.1 hq.1)

-- Every path that sorts from a directory up to something below that directory is itself the
-- directory or below it, in either case mode: a sorted transcript keeps each subtree together.
pub between-ischildcase :
    (p q r : Bytes) (cs : Bool)
    → IsCString p
    → IsCString q
    → IsCString r
    → sign (pathcasecmp p q cs) ≢ Ordering.gt
    → sign (pathcasecmp q (p ++ b'/' ∷ r) cs) ≢ Ordering.gt
    → ischildcase q (some p) cs ≡ true
between-ischildcase p q r cs hp hq hr lo hi =
    let below = All-append (λ c. 0 < c) p (b'/' ∷ r) hp (omega arith, hr) in
    Under-ischildcase q p cs (
      between-Under p q r cs hp hq (rw (sign-pathcasecmp p q cs hp hq) at lo)
        (rw (sign-pathcasecmp q (p ++ b'/' ∷ r) cs hq below) at hi))

prefix_eq-drop :
    (parent child : Bytes)
    → IsCString parent
    → prefix_eq parent child true ≡ true
    → child ≡ parent ++ drop (length parent) child
unfolding prefix_eq fold
prefix_eq-drop [] child h e = refl
prefix_eq-drop (c ∷ parent) [] h e = ground arith
prefix_eq-drop (c ∷ parent) (d ∷ child) h e = ground (arith, prefix_eq-drop parent child h.1)

get_or-drop : (n : ℕ) (s : Bytes) → get_or s n 0 ≡ peek (drop n s)
get_or-drop zero [] = refl
get_or-drop zero (c ∷ s) = refl
get_or-drop (suc n) [] = refl
get_or-drop (suc n) (c ∷ s) = get_or-drop n s

drop-IsCString : (n : ℕ) (s : Bytes) → IsCString s → IsCString (drop n s)
drop-IsCString zero s h = h
drop-IsCString (suc n) [] h = h
drop-IsCString (suc n) (c ∷ s) h = drop-IsCString n s h.1

-- What stands below a directory, or is the directory.
abbrev pub IsBelow : Bytes → Bytes → Type 0
IsBelow child parent = (child ≡ parent) ⊎ ((r : Bytes) × (child ≡ parent ++ b'/' ∷ r))

rest-IsBelow :
    (parent rest : Bytes)
    → IsCString rest
    → (b'/' ≡ peek rest) ⊎ (0 ≡ peek rest)
    → IsBelow (parent ++ rest) parent
rest-IsBelow parent [] h e = inl (append-nil parent)
rest-IsBelow parent (c ∷ rest) h (inl e) = inr (rest, rw e refl)
rest-IsBelow parent (c ∷ rest) h (inr e) = absurd (omega arith)

prefix_eq-append : (parent rest : Bytes) (cs : Bool) → prefix_eq parent (parent ++ rest) cs ≡ true
unfolding prefix_eq
prefix_eq-append [] rest cs = refl
prefix_eq-append (c ∷ parent) rest cs = ground (arith, prefix_eq-append parent rest cs)

get_or-append : (parent rest : Bytes) → get_or (parent ++ rest) (length parent) 0 ≡ peek rest
get_or-append [] [] = refl
get_or-append [] (c ∷ rest) = refl
get_or-append (c ∷ parent) rest = get_or-append parent rest

append-Under :
    (parent rest : Bytes) (cs : Bool)
    → (b'/' ≡ peek rest) ⊎ (0 ≡ peek rest)
    → Under cs (parent ++ rest) parent
append-Under parent rest cs e = (
  prefix_eq-append parent rest cs,
  omega (arith, length-append parent rest),
  rw (get_or-append parent rest) e,
)

IsBelow-Under : (child parent : Bytes) (cs : Bool) → IsBelow child parent → Under cs child parent
IsBelow-Under child parent cs (inl e) =
    rw e (rw (append-nil parent) at (append-Under parent [] cs (inr refl)))
IsBelow-Under child parent cs (inr (r, e)) = rw e (append-Under parent (b'/' ∷ r) cs (inl refl))

ischild-Under :
    (child parent : Bytes)
    → parent ≢ root_path
    → ischildcase child (some parent) true ≡ true
    → Under true child parent
unfolding ischildcase
ischild-Under child [] ne h = ground arith
ischild-Under child (c ∷ []) ne h = ground arith
ischild-Under child (c ∷ d ∷ parent) ne h = ground arith

-- With case, ischild() says that the path is the parent or lies below it, for any parent but "/".
pub ischild_iff :
    (child parent : Bytes)
    → IsCString child
    → IsCString parent
    → parent ≢ root_path
    → (ischild child (some parent) ≡ true) ↔ IsBelow child parent
unfolding ischild
ischild_iff child parent hc hp ne = (
  λ h.
      let (same, _, next) = ischild-Under child parent ne h in
      let n = length parent in
      rw (prefix_eq-drop parent child hp same) (
        rest-IsBelow parent (drop n child) (drop-IsCString n child hc)
          (rw (get_or-drop n child) at next)),
  λ b. Under-ischildcase child parent true (IsBelow-Under child parent true b),
)

rank_of_fold : (cs : Bool) (c d : ℕ) → 0 < c → 0 < d → fold cs c ≡ fold cs d → rank cs c ≡ rank cs d
unfolding rank fold tolower
rank_of_fold true c d hc hd h = ground arith
rank_of_fold false c d hc hd h = ground arith

between_two-Under :
    (p q x : Bytes) (cs : Bool)
    → IsCString p
    → IsCString q
    → IsCString x
    → lex (key cs p) (key cs q) ≢ Ordering.gt
    → lex (key cs q) (key cs x) ≢ Ordering.gt
    → Under cs x p
    → Under cs q p
unfolding lex prefix_eq
between_two-Under [] [] x cs hp hq hx lo hi u = ground arith
between_two-Under [] (d ∷ q) [] cs hp hq hx lo hi u = ground arith
between_two-Under [] (d ∷ q) (e ∷ x) cs hp hq hx lo hi u = ground (arith, rank_slash cs d)
between_two-Under (c ∷ p) [] x cs hp hq hx lo hi u = ground arith
between_two-Under (c ∷ p) (d ∷ q) [] cs hp hq hx lo hi u = ground arith
between_two-Under (c ∷ p) (d ∷ q) (e ∷ x) cs hp hq hx lo hi u =
    ground
      (arith, fold_of_rank cs c d, rank_of_fold cs c e, between_two-Under p q x cs hp.1 hq.1 hx.1)

ischildcase-Under :
    (child parent : Bytes) (cs : Bool)
    → parent ≢ root_path
    → ischildcase child (some parent) cs ≡ true
    → Under cs child parent
unfolding ischildcase
ischildcase-Under child [] cs ne h = ground arith
ischildcase-Under child (c ∷ []) cs ne h = ground arith
ischildcase-Under child (c ∷ d ∷ parent) cs ne h = ground arith

between_root :
    (q x : Bytes) (cs : Bool)
    → IsCString q
    → lex (key cs root_path) (key cs q) ≢ Ordering.gt
    → lex (key cs q) (key cs x) ≢ Ordering.gt
    → ischildcase x (some root_path) cs ≡ true
    → ischildcase q (some root_path) cs ≡ true
unfolding lex ischildcase
between_root [] x cs hq lo hi h = ground arith
between_root (d ∷ q) [] cs hq lo hi h = ground arith
between_root (d ∷ q) (e ∷ x) cs hq lo hi h = ground (arith, rank_slash cs d)

-- The order of sorted paths, in which a path may be as another one.
abbrev pub IsUpTo : Bool → Bytes → Bytes → Type 0
IsUpTo cs p q = lex (key cs p) (key cs q) ≢ Ordering.gt

between_other :
    (p q x : Bytes) (cs : Bool)
    → p ≢ root_path
    → IsCString p
    → IsCString q
    → IsCString x
    → IsUpTo cs p q
    → IsUpTo cs q x
    → ischildcase x (some p) cs ≡ true
    → ischildcase q (some p) cs ≡ true
between_other p q x cs ne hp hq hx lo hi h =
    Under-ischildcase q p cs
      (between_two-Under p q x cs hp hq hx lo hi (ischildcase-Under x p cs ne h))

-- A path that sorts from p up to a path in the subtree of p is in that subtree as well, where the
-- subtree and the order are those of either case mode.
pub between_two-ischildcase :
    (p q x : Bytes) (cs : Bool)
    → IsCString p
    → IsCString q
    → IsCString x
    → IsUpTo cs p q
    → IsUpTo cs q x
    → ischildcase x (some p) cs ≡ true
    → ischildcase q (some p) cs ≡ true
between_two-ischildcase [] q x cs hp hq hx lo hi h =
    between_other [] q x cs (λ e. cc) hp hq hx lo hi h
between_two-ischildcase (c ∷ []) q x cs hp hq hx lo hi h = elim (Bool-cases (c == b'/')) [
  | inl e ↦
      let is_slash = (==_iff c b'/').0 e in
      rw is_slash (between_root q x cs hq (rw is_slash at lo) hi (rw is_slash at h))
  | inr e ↦ between_other (c ∷ []) q x cs (λ r. ground (arith, r, e)) hp hq hx lo hi h
]
between_two-ischildcase (c ∷ d ∷ p) q x cs hp hq hx lo hi h =
    between_other (c ∷ d ∷ p) q x cs (λ e. cc) hp hq hx lo hi h
