-- ===== src/Transcript/Chain/Numbers.antt =====
-- The numbers of a chain's transcripts go down, so that each has one of its own.

use radmind.Base.{
  ◌≡◌, ℕ, ◌+◌, ◌<◌, Bool, true, false, List, [], ◌∷◌, Option, Bytes, All, if◌then◌else◌, arith,
}
use radmind.Transcript.{Tran, TranType, null_tran, Run, ok, stop, ◌>>=◌, Settings}
use radmind.Transcript.Chain.{same_type, next_num, t_new, cons_ok, t_remove}

abbrev pub IsDescending : List Tran → Type 0
IsDescending [] = Unit
IsDescending (t ∷ trans) = All (λ u. u.t_num < t.t_num) trans × IsDescending trans

-- The chains that calls of t_new() and t_remove() make of an empty one, with any files.
pub data Reached (g : Settings) : List Tran → Type 0 where
  empty : Reached g []
  added :
      (type : TranType) (fullname shortname kfile : Bytes) (file : Option Bytes)
      (trans trans' : List Tran)
      → t_new g type fullname shortname kfile file trans ≡ ok trans'
      → Reached g trans
      → Reached g trans'
  taken :
      (type : TranType) (shortname : Bytes) (trans trans' : List Tran)
      → t_remove type shortname trans ≡ ok trans'
      → Reached g trans
      → Reached g trans'

All-below :
    (trans : List Tran) (m n : ℕ)
    → m < n
    → All (λ u. u.t_num < m) trans
    → All (λ u. u.t_num < n) trans
All-below [] m n lt h = tt
All-below (t ∷ trans) m n lt h = (omega (arith, lt, h.0), All-below trans m n lt h.1)

next_num-All : (trans : List Tran) → IsDescending trans → All (λ u. u.t_num < next_num trans) trans
unfolding next_num
next_num-All [] h = tt
next_num-All (t ∷ trans) h = (omega arith, All-below trans t.t_num (t.t_num + 1) (omega arith) h.0)

-- What holds of a result, if there is one.
abbrev Yields : (List Tran → Type 0) → Run (List Tran) → Type 0
Yields R (ok trans) = R trans
Yields R (stop e) = Unit

yield :
    (R : List Tran → Type 0) (x : Run (List Tran)) (trans : List Tran)
    → Yields R x
    → x ≡ ok trans
    → R trans
yield R x trans h e = rw e at h

new-Yields :
    (trans : List Tran) (x : Run Tran)
    → IsDescending trans
    → Yields IsDescending (x >>= λ new. ok (record new { t_num = next_num trans } ∷ trans))
new-Yields trans (ok new) h = (next_num-All trans h, h)
new-Yields trans (stop e) h = tt

cons_ok-Yields :
    (P : Tran → Type 0) (t : Tran) (x : Run (List Tran))
    → P t
    → Yields (All P) x
    → Yields (All P) (cons_ok t x)
cons_ok-Yields P t (ok trans) p h = (p, h)
cons_ok-Yields P t (stop e) p h = tt

if-Yields :
    (R : List Tran → Type 0) (b : Bool) (x y : Run (List Tran))
    → Yields R x
    → Yields R y
    → Yields R (if b then x else y)
if-Yields R true x y hx hy = hx
if-Yields R false x y hx hy = hy

t_remove-All :
    (P : Tran → Type 0) (type : TranType) (shortname : Bytes) (trans : List Tran)
    → All P trans
    → Yields (All P) (t_remove type shortname trans)
unfolding t_remove
t_remove-All P type shortname [] h = tt
t_remove-All P type shortname (t ∷ trans) h =
    let rest = t_remove-All P type shortname trans h.1 in
    if-Yields (All P) (same_type t.t_type null_tran) _ _ h
      (if-Yields (All P) _ _ _ rest (cons_ok-Yields P t (t_remove type shortname trans) h.0 rest))

cons_ok-IsDescending :
    (t : Tran) (x : Run (List Tran))
    → Yields (All (λ u. u.t_num < t.t_num)) x
    → Yields IsDescending x
    → Yields IsDescending (cons_ok t x)
cons_ok-IsDescending t (ok trans) p h = (p, h)
cons_ok-IsDescending t (stop e) p h = tt

t_remove-IsDescending :
    (type : TranType) (shortname : Bytes) (trans : List Tran)
    → IsDescending trans
    → Yields IsDescending (t_remove type shortname trans)
unfolding t_remove
t_remove-IsDescending type shortname [] h = tt
t_remove-IsDescending type shortname (t ∷ trans) h =
    let rest = t_remove-IsDescending type shortname trans h.1 in
    if-Yields IsDescending (same_type t.t_type null_tran) _ _ h (
      if-Yields IsDescending _ _ _ rest (
        cons_ok-IsDescending t (t_remove type shortname trans)
          (t_remove-All (λ u. u.t_num < t.t_num) type shortname trans h.0) rest))

-- In every chain that t_new() and t_remove() can make, each transcript has a greater number than those
-- behind it, also where numbers of removed transcripts are given again.
pub Reached-IsDescending : (g : Settings) (trans : List Tran) → Reached g trans → IsDescending trans
unfolding t_new
Reached-IsDescending g trans empty = tt
Reached-IsDescending g trans (added type fullname shortname kfile file before trans' e r) =
    yield IsDescending _ trans (new-Yields before _ (Reached-IsDescending g before r)) e
Reached-IsDescending g trans (taken type shortname before trans' e r) =
    yield IsDescending _ trans
      (t_remove-IsDescending type shortname before (Reached-IsDescending g before r)) e
