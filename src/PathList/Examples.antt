-- ===== src/PathList/Examples.antt =====
-- The list of paths at a short list, and its theorems there.
use mathlib.Core.List.{Mem}
use mathlib.Core.Logic.{◌↔◌}
use radmind.Base.{◌≡◌, refl, true, ◌||◌, [], ◌∷◌, none, some, ◌⊎◌, codes, arith}
use radmind.PathCmp.{is_zero, pathcmp}
use radmind.PathCmp.Order.{lex, rank}
use radmind.PathList.{PathList, list_insert_case, list_insert, list_check, list_remove, IsCounted}
use radmind.PathList.Insert.{IsSorted, list_insert_case-IsSorted}
use radmind.PathList.Remove.{list_remove-list_check, list_check_iff}

abbrev two : PathList
two = record { l_count = 2; nodes = codes "/a/b" ∷ codes "/a-b" ∷ [] }

insert_middle :
    list_insert two (codes "/a/c")
    ≡ some (record { l_count = 3; nodes = codes "/a/b" ∷ codes "/a/c" ∷ codes "/a-b" ∷ [] })
unfolding list_insert pathcmp
insert_middle = refl

two-IsSorted : IsSorted true two.nodes
unfolding lex rank
two-IsSorted = ((cc, tt), (tt, tt))

list_insert_case-IsSorted_example :
    (list : PathList) × (list_insert_case two (codes "/a/c") true ≡ some list)
    × IsSorted true list.nodes
    × IsCounted list
    × (list_check list (codes "/b")
        ≡ (is_zero (pathcmp (codes "/a/c") (codes "/b")) || list_check two (codes "/b")))
list_insert_case-IsSorted_example =
    list_insert_case-IsSorted two (codes "/a/c") (codes "/b") true (omega arith) (omega arith)
      (omega arith) two-IsSorted refl

list_remove-list_check_example :
    (Mem (codes "/a/b") two.nodes × (list_remove two (codes "/a/b") ≡ none))
    ⊎ ((¬ Mem (codes "/a/b") two.nodes) × (list_remove two (codes "/a/b") ≡ some (two, 0)))
list_remove-list_check_example =
    list_remove-list_check two (codes "/a/b") (omega arith) (omega arith)

remove_absent : list_remove two (codes "/b") ≡ some (two, 0)
unfolding list_remove pathcmp
remove_absent = refl

list_check_iff_example : (list_check two (codes "/a-b") ≡ true) ↔ Mem (codes "/a-b") two.nodes
list_check_iff_example = list_check_iff two (codes "/a-b") (omega arith) (omega arith)
