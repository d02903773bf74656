-- ===== src/PathList/Insert.antt =====
-- Insertion keeps the list sorted and counted, and adds the path and nothing else.
use radmind.Base.{
  ◌+◌, ◌≤◌, ◌<◌, ◌≡◌, refl, ◌≢◌, ◌↔◌, inl, inr, Bool, true, false, ◌||◌, List, [], ◌∷◌, ◌++◌, none,
  some, Bytes, IsCString, All, length, max_path_len, Ordering, arith, Bool-cases, append-nil,
}
use radmind.PathCmp.{is_zero, pathcasecmp, pathcmp}
use radmind.PathCmp.Order.{lex, lex_le_trans, key, sign-pathcasecmp, lex_swap}
use radmind.PathList.{
  PathList, is_positive, list_create_node, list_insert_head, list_insert_tail, split_at_greater,
  insert_between, list_insert_case, check_nodes, list_check, IsCounted,
}

-- Not after, in the order of the case mode.
abbrev pub NotAfter : Bool → Bytes → Bytes → Type 0
NotAfter cs p q = lex (key cs p) (key cs q) ≢ Ordering.gt

-- Every path is not after any later one.
abbrev pub IsSorted : Bool → List Bytes → Type 0
IsSorted cs [] = Unit
IsSorted cs (p ∷ ps) = All (NotAfter cs p) ps × IsSorted cs ps

module _ (cs : Bool) (path : Bytes) (hp : IsCString path) where
  below_of_test :
      (cur : Bytes)
      → IsCString cur
      → is_positive (pathcasecmp cur path cs) ≡ false
      → NotAfter cs cur path
  below_of_test cur h e = ground (arith, sign-pathcasecmp cur path cs h hp)

  above_of_test :
      (cur : Bytes)
      → IsCString cur
      → is_positive (pathcasecmp cur path cs) ≡ true
      → NotAfter cs path cur
  above_of_test cur h e =
      ground (arith, sign-pathcasecmp cur path cs h hp, lex_swap (key cs cur) (key cs path))

  above-All :
      (cur : Bytes) (ps : List Bytes)
      → NotAfter cs path cur
      → All (NotAfter cs cur) ps
      → All (NotAfter cs path) ps
  above-All cur [] h k = tt
  above-All cur (p ∷ ps) h k =
      (lex_le_trans (key cs path) (key cs cur) (key cs p) h k.0, above-All cur ps h k.1)

abbrev joined : Bytes → List Bytes × List Bytes → List Bytes
joined path parts = parts.0 ++ path ∷ parts.1

split_at_greater-append :
    (ps : List Bytes) (path : Bytes) (cs : Bool)
    → (split_at_greater ps path cs).0 ++ (split_at_greater ps path cs).1 ≡ ps
unfolding split_at_greater
split_at_greater-append [] path cs = refl
split_at_greater-append (p ∷ ps) path cs = ground (arith, split_at_greater-append ps path cs)

-- The chain that every branch of the insertion builds.
insert_between-joined :
    (list : PathList) (path : Bytes) (parts : List Bytes × List Bytes)
    → length path < max_path_len
    → parts.0 ++ parts.1 ≡ list.nodes
    → insert_between list path parts
      ≡ some (record { l_count = list.l_count + 1; nodes = joined path parts })
unfolding insert_between list_insert_head list_insert_tail list_create_node
insert_between-joined list path (before, []) h e = ground (arith, append-nil before)
insert_between-joined list path ([], cur ∷ after) h e = ground arith
insert_between-joined list path (prev ∷ before, cur ∷ after) h e = ground arith

insert_between-long :
    (list : PathList) (path : Bytes) (parts : List Bytes × List Bytes)
    → max_path_len ≤ length path
    → insert_between list path parts ≡ none
unfolding insert_between list_insert_head list_insert_tail list_create_node
insert_between-long list path (before, []) h = ground arith
insert_between-long list path ([], cur ∷ after) h = ground arith
insert_between-long list path (prev ∷ before, cur ∷ after) h = ground arith

All-joined :
    (P : Bytes → Type 0) (q : Bytes) (ps : List Bytes) (cs : Bool)
    → P q
    → All P ps
    → All P (joined q (split_at_greater ps q cs))
unfolding split_at_greater
All-joined P q [] cs h k = (h, tt)
All-joined P q (p ∷ ps) cs h k = elim (Bool-cases (is_positive (pathcasecmp p q cs))) [
  | inl above ↦ rw above (h, k)
  | inr below ↦ rw below (k.0, All-joined P q ps cs h k.1)
]

joined-IsSorted :
    (cs : Bool) (q : Bytes) (ps : List Bytes)
    → IsCString q
    → All IsCString ps
    → IsSorted cs ps
    → IsSorted cs (joined q (split_at_greater ps q cs))
unfolding split_at_greater
joined-IsSorted cs q [] hq h s = (tt, tt)
joined-IsSorted cs q (p ∷ ps) hq h s = elim (Bool-cases (is_positive (pathcasecmp p q cs))) [
  | inl above ↦
      let le = above_of_test cs q hq p h.0 above in
      rw above ((le, above-All cs q hq p ps le s.0), s)
  | inr below ↦ rw below (
    All-joined (NotAfter cs p) q ps cs (below_of_test cs q hq p h.0 below) s.0,
    joined-IsSorted cs q ps hq h.1 s.1,
  )
]

length-joined :
    (ps : List Bytes) (q : Bytes) (cs : Bool)
    → length (joined q (split_at_greater ps q cs)) ≡ length ps + 1
unfolding split_at_greater
length-joined [] q cs = omega arith
length-joined (p ∷ ps) q cs = ground (arith, length-joined ps q cs)

check_nodes-joined :
    (ps : List Bytes) (q r : Bytes) (cs : Bool)
    → check_nodes (joined q (split_at_greater ps q cs)) r
      ≡ (is_zero (pathcmp q r) || check_nodes ps r)
unfolding split_at_greater check_nodes
check_nodes-joined [] q r cs = ground arith
check_nodes-joined (p ∷ ps) q r cs = ground (arith, check_nodes-joined ps q r cs)

-- An insertion fails exactly on a path of MAXPATHLEN bytes or more, and then changes nothing.
pub list_insert_case-none_iff :
    (list : PathList) (path : Bytes) (cs : Bool)
    → (list_insert_case list path cs ≡ none) ↔ (max_path_len ≤ length path)
unfolding list_insert_case
list_insert_case-none_iff list path cs =
    let parts = split_at_greater list.nodes path cs in
    let e = split_at_greater-append list.nodes path cs in
    (
      λ h. ground (arith, insert_between-joined list path parts),
      λ h. insert_between-long list path parts h,
    )

-- Inserting a path keeps a sorted, counted list of paths sorted and counted, and the list then holds
-- that path and what it held before.
pub list_insert_case-IsSorted :
    (list : PathList) (path q : Bytes) (cs : Bool)
    → IsCString path
    → length path < max_path_len
    → All IsCString list.nodes
    → IsSorted cs list.nodes
    → IsCounted list
    → (list' : PathList) × (list_insert_case list path cs ≡ some list')
      × IsSorted cs list'.nodes
      × IsCounted list'
      × (list_check list' q ≡ (is_zero (pathcmp path q) || list_check list q))
unfolding list_insert_case list_check
list_insert_case-IsSorted list path q cs hp short h s c =
    let parts = split_at_greater list.nodes path cs in
    (
      record { l_count = list.l_count + 1; nodes = joined path parts },
      insert_between-joined list path parts short (split_at_greater-append list.nodes path cs),
      joined-IsSorted cs path list.nodes hp h s,
      omega (arith, length-joined list.nodes path cs),
      check_nodes-joined list.nodes path q cs,
    )
