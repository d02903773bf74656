-- ===== src/PathCmp.antt =====
-- pathcmp.c: the order on paths that every transcript is sorted by, and the subtree test.
-- A path is a C string. `(unsigned char)*p` is the byte; `tolower( *p )` is that of the C locale,
-- with plain char taken as unsigned.
pub mod Order
pub mod Subtree
mod Examples
use radmind.Base.{
  ℕ, ◌+◌, ◌≤◌, Bool, true, false, not, ◌&&◌, ◌||◌, List, [], ◌∷◌, Option, none, some, Ordering, ℤ,
  pos, negsuc, sub_ℕ, sign, ltb, leb, ◌==◌, if◌then◌else◌, Bytes, peek, tail, length, get_or,
}

-- The sign of an int is what its callers test.
abbrev pub is_zero : ℤ → Bool
is_zero rc = elim (sign rc) [ Ordering.eq ↦ true | _ ↦ false ]

unfoldable pub tolower : ℕ → ℕ
tolower c = if leb b'A' c && leb c b'Z' then c + 32 else c

-- The byte that is compared.
unfoldable pub fold : Bool → ℕ → ℕ
unfolding tolower
fold case_sensitive c = if case_sensitive then c else tolower c

-- What is returned at the first difference `rc`.
pub at_difference : ℕ → ℕ → ℤ → ℤ
at_difference c1 c2 rc =
    if not (c2 == 0) && (c1 == b'/')
    then negsuc 0
    else (if not (c1 == 0) && (c2 == b'/') then pos 1 else rc)

-- One round of the loop; `next` is the rest of it.
pub compare_heads : ℕ → ℕ → Bool → ℤ → ℤ
unfolding fold at_difference
compare_heads c1 c2 case_sensitive next =
    let rc = sub_ℕ (fold case_sensitive c1) (fold case_sensitive c2) in
    if is_zero rc then next else at_difference c1 c2 rc

unfoldable pub pathcasecmp : Bytes → Bytes → Bool → ℤ
unfolding compare_heads
pathcasecmp [] p2 case_sensitive = compare_heads 0 (peek p2) case_sensitive (pos 0)
pathcasecmp (c ∷ p1) p2 case_sensitive =
    compare_heads c (peek p2) case_sensitive (pathcasecmp p1 (tail p2) case_sensitive)

unfoldable pub pathcmp : Bytes → Bytes → ℤ
unfolding pathcasecmp
pathcmp p1 p2 = pathcasecmp p1 p2 true

-- `strncmp( a, b, n ) == 0` and `strncasecmp( a, b, n ) == 0`, with n the length of a.
unfoldable pub prefix_eq : Bytes → Bytes → Bool → Bool
unfolding fold
prefix_eq [] b case_sensitive = true
prefix_eq (c ∷ a) b case_sensitive =
    (fold case_sensitive c == fold case_sensitive (peek b)) && prefix_eq a (tail b) case_sensitive

-- `none` is the NULL parent.
unfoldable pub ischildcase : Bytes → Option Bytes → Bool → Bool
unfolding prefix_eq
ischildcase child none case_sensitive = true
ischildcase child (some parent) case_sensitive =
    if ltb (length child) (length parent)
    then false
    else (if (1 == length parent) && (b'/' == peek parent)
        then b'/' == peek child
        else (let next = get_or child (length parent) 0 in
            prefix_eq parent child case_sensitive && ((b'/' == next) || (0 == next))))

unfoldable pub ischild : Bytes → Option Bytes → Bool
unfolding ischildcase
ischild child parent = ischildcase child parent true
