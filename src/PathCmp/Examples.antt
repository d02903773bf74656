-- ===== src/PathCmp/Examples.antt =====
-- Runs of the path order, and its theorems at concrete paths.
use radmind.Base.{◌≡◌, refl, ◌↔◌, true, false, Ordering, sign, negsuc, some, codes, arith}
use radmind.PathCmp.{pathcasecmp, pathcmp, ischildcase, ischild}
use radmind.PathCmp.Order.{lex, key, sign-pathcasecmp}
use radmind.PathCmp.Subtree.{IsBelow, between-ischildcase, ischild_iff}

-- '-' is below '/' in ASCII, and above it here.
dir_before_dash : pathcmp (codes "/usr/bin") (codes "/usr-x") ≡ negsuc 0
unfolding pathcmp
dir_before_dash = refl

sign-pathcasecmp_example :
    sign (pathcasecmp (codes "./A/b") (codes "./a-b") false)
    ≡ lex (key false (codes "./A/b")) (key false (codes "./a-b"))
sign-pathcasecmp_example =
    sign-pathcasecmp (codes "./A/b") (codes "./a-b") false (omega arith) (omega arith)

lo_example : ¬ (sign (pathcasecmp (codes "/a") (codes "/a/b-c") true) ≡ Ordering.gt)
unfolding pathcasecmp
lo_example = cc

hi_example : ¬ (sign (pathcasecmp (codes "/a/b-c") (codes "/a/z") true) ≡ Ordering.gt)
unfolding pathcasecmp
hi_example = cc

between-ischildcase_example : ischildcase (codes "/a/b-c") (some (codes "/a")) true ≡ true
between-ischildcase_example =
    between-ischildcase (codes "/a") (codes "/a/b-c") (codes "z") true (omega arith) (omega arith)
      (omega arith) lo_example hi_example

ischild_iff_example :
    (ischild (codes "/ab") (some (codes "/a")) ≡ true) ↔ IsBelow (codes "/ab") (codes "/a")
ischild_iff_example = ischild_iff (codes "/ab") (codes "/a") (omega arith) (omega arith) cc
