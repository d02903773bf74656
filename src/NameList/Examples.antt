-- ===== src/NameList/Examples.antt =====
-- Insertion into a short list of names.

use radmind.Base.{false, List, [], ◌∷◌, Bytes, codes}
use radmind.PathCmp.{fold}
use radmind.PathCmp.Order.{lex}
use radmind.NameList.Sorted.{IsSorted}

abbrev folded_names : List Bytes
folded_names = codes "a.T" ∷ codes "B.T" ∷ []

folded_names-IsSorted : IsSorted false folded_names
unfolding lex fold
folded_names-IsSorted = ((cc, tt), (tt, tt))
