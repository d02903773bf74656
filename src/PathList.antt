-- ===== src/PathList.antt =====
-- list.c: the lists of paths that hold command files, special files and exclude patterns. The chain
-- of nodes from l_head is a List, and l_tail its last node; l_count is kept beside it, as the code
-- keeps it. malloc() is taken to succeed, so that an insertion fails on a long path only.
pub mod Insert
pub mod Remove
mod Examples
use radmind.Base.{
  ℕ, zero, suc, ◌+◌, ◌-◌, ◌≡◌, Bool, true, false, not, List, [], ◌∷◌, ◌++◌, Option, none, some, ltb,
  leb, ◌==◌, if◌then◌else◌, Bytes, length, max_path_len, Ordering, ℤ, sign,
}
use radmind.PathCmp.{is_zero, pathcasecmp, pathcmp}

pub record PathList : Type 0 where
  pub l_count : ℕ
  pub nodes : List Bytes

-- `pathcasecmp( ... ) > 0`
abbrev pub is_positive : ℤ → Bool
is_positive rc = elim (sign rc) [ Ordering.gt ↦ true | _ ↦ false ]

-- _list_create_node(): NULL with ENAMETOOLONG.
unfoldable pub list_create_node : Bytes → Option Bytes
list_create_node path = if leb max_path_len (length path) then none else some path

unfoldable pub list_new : PathList
list_new = record { l_count = 0; nodes = [] }

-- Each insertion is `none` where the code returns -1.
unfoldable pub list_insert_head : PathList → Bytes → Option PathList
unfolding list_create_node
list_insert_head list path = elim (list_create_node path) [
  | none ↦ none
  | some new_node ↦ some (record { l_count = list.l_count + 1; nodes = new_node ∷ list.nodes })
]

unfoldable pub list_insert_tail : PathList → Bytes → Option PathList
unfolding list_create_node
list_insert_tail list path = elim (list_create_node path) [
  | none ↦ none
  | some new_node ↦
      some (record { l_count = list.l_count + 1; nodes = list.nodes ++ new_node ∷ [] })
]

-- The loop of list_insert_case(): the nodes before `cur`, and those from `cur` on.
unfoldable pub split_at_greater : List Bytes → Bytes → Bool → List Bytes × List Bytes
split_at_greater [] path case_sensitive = ([], [])
split_at_greater (cur ∷ nodes) path case_sensitive =
    let later = split_at_greater nodes path case_sensitive in
    if is_positive (pathcasecmp cur path case_sensitive)
    then ([], cur ∷ nodes)
    else (cur ∷ later.0, later.1)

-- The insertion at the place found: at the tail, at the head, or in front of `cur`.
unfoldable pub insert_between : PathList → Bytes → List Bytes × List Bytes → Option PathList
unfolding list_create_node list_insert_head list_insert_tail
insert_between list path (before, []) = list_insert_tail list path
insert_between list path ([], cur ∷ after) = list_insert_head list path
insert_between list path (prev ∷ before, cur ∷ after) = elim (list_create_node path) [
  | none ↦ none
  | some new_node ↦
      some
        (record { l_count = list.l_count + 1; nodes = (prev ∷ before) ++ new_node ∷ cur ∷ after })
]

unfoldable pub list_insert_case : PathList → Bytes → Bool → Option PathList
unfolding split_at_greater insert_between
list_insert_case list path case_sensitive =
    insert_between list path (split_at_greater list.nodes path case_sensitive)

unfoldable pub list_insert : PathList → Bytes → Option PathList
unfolding list_insert_case
list_insert list path = list_insert_case list path true

unfoldable pub check_nodes : List Bytes → Bytes → Bool
check_nodes [] path = false
check_nodes (cur ∷ nodes) path = if is_zero (pathcmp cur path) then true else check_nodes nodes path

unfoldable pub list_check : PathList → Bytes → Bool
unfolding check_nodes
list_check list path = check_nodes list.nodes path

-- The head, and the list without it. A count of 1 empties the list, whatever the chain holds.
unfoldable pub list_pop_head : PathList → Option (Bytes × PathList)
list_pop_head list = elim list.nodes [
  | [] ↦ none
  | node ∷ rest ↦
      some (
        node,
        record { l_count = list.l_count - 1; nodes = if list.l_count == 1 then [] else rest },
      )
]

abbrev pub unsnoc : Bytes → List Bytes → List Bytes × Bytes
unsnoc x [] = ([], x)
unsnoc x (y ∷ ys) = (x ∷ (unsnoc y ys).0, (unsnoc y ys).1)

-- The tail, and the list without it.
unfoldable pub list_pop_tail : PathList → Option (Bytes × PathList)
list_pop_tail list = elim list.nodes [
  | [] ↦ none
  | first ∷ rest ↦ some (
    (unsnoc first rest).1,
    record {
      l_count = list.l_count - 1;
      nodes = if list.l_count == 1 then [] else (unsnoc first rest).0;
    },
  )
]

unfoldable pub list_remove_head : PathList → PathList
unfolding list_pop_head
list_remove_head list = elim (list_pop_head list) [ none ↦ list | some (node, rest) ↦ rest ]

unfoldable pub list_remove_tail : PathList → PathList
unfolding list_pop_tail
list_remove_tail list = elim (list_pop_tail list) [ none ↦ list | some (node, rest) ↦ rest ]

-- list_clear() removes the tail until there is none. A round each node is enough.
unfoldable pub clear_rounds : ℕ → PathList → PathList
unfolding list_remove_tail
clear_rounds zero list = list
clear_rounds (suc n) list = elim list.nodes [
  | [] ↦ list
  | node ∷ rest ↦ clear_rounds n (list_remove_tail list)
]

unfoldable pub list_clear : PathList → PathList
unfolding clear_rounds
list_clear list = clear_rounds (length list.nodes) list

-- The loop of list_remove() over the chain: the nodes that stay, and how many went. The node of a
-- match is freed, at either end or between, and the loop goes on to `cur->n_next`: `none` is that
-- read of freed memory.
unfoldable pub remove_nodes : List Bytes → Bytes → Option (List Bytes × ℕ)
remove_nodes [] path = some ([], 0)
remove_nodes (cur ∷ nodes) path =
    let later = remove_nodes nodes path in
    if is_zero (pathcmp cur path)
    then none
    else (elim later [ none ↦ none | some (kept, count) ↦ some (cur ∷ kept, count) ])

-- The list afterwards, and the number of nodes removed.
unfoldable pub list_remove : PathList → Bytes → Option (PathList × ℕ)
unfolding remove_nodes
list_remove list path = elim (remove_nodes list.nodes path) [
  | none ↦ none
  | some (kept, count) ↦ some (record { l_count = list.l_count - count; nodes = kept }, count)
]

-- What the code's invariant is: the count is that of the chain.
abbrev pub IsCounted : PathList → Type 0
IsCounted list = list.l_count ≡ length list.nodes
