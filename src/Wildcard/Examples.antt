-- ===== src/Wildcard/Examples.antt =====
-- Patterns at concrete paths.
use radmind.Base.{◌≡◌, ◌≢◌, refl, true, false, [], ◌∷◌, codes, if◌then◌else◌, arith}
use radmind.PathCmp.{prefix_eq}
use radmind.Wildcard.{matched, unmatched, overread, out_of_fuel, wildcard}
use radmind.Wildcard.Fuel.{wildcard-ne-out_of_fuel}
use radmind.Wildcard.Literal.{
  same_all, class_pattern, wildcard_star, wildcard_question, wildcard_class,
}

range_inside : wildcard (codes "/dev/tty<10-20>") (codes "/dev/tty12") true ≡ matched
unfolding wildcard
range_inside = refl

braces : wildcard (codes "*.{rtf,txt}~") (codes "/a/B.TXT~") false ≡ matched
unfolding wildcard
braces = refl

-- The class holds the byte, and does not match it.
class_of_itself : wildcard (codes "[a]") (codes "a") true ≡ unmatched
unfolding wildcard
class_of_itself = refl

wildcard-ne-out_of_fuel_example : wildcard (codes "{a,*}*[x") (codes "abc") true ≢ out_of_fuel
wildcard-ne-out_of_fuel_example = wildcard-ne-out_of_fuel (codes "{a,*}*[x") (codes "abc") true

wildcard_star_example :
    wildcard (codes "/tmp/*") (codes "/TMP/x") false
    ≡ (if prefix_eq (codes "/tmp/") (codes "/TMP/x") false then matched else unmatched)
wildcard_star_example = wildcard_star (codes "/tmp/") (codes "/TMP/x") false (ground arith)

wildcard_question_example : wildcard (codes "/a?") (codes "/a") true ≡ overread
wildcard_question_example = wildcard_question (codes "/a") true (ground arith)

wildcard_class_example :
    wildcard (class_pattern (codes "ab")) (b'a' ∷ []) true
    ≡ (if same_all true (codes "ab") b'a' then unmatched else matched)
wildcard_class_example = wildcard_class (codes "ab") b'a' true (ground arith) (omega arith)
