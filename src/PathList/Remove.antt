-- ===== src/PathList/Remove.antt =====
-- Removal, lookup, and the two ends of the list.
use radmind.Base.{
  ℕ, zero, suc, ◌+◌, ◌<◌, ◌≡◌, refl, ◌↔◌, inl, inr, true, List, [], ◌∷◌, ◌++◌, none, some, ◌⊎◌,
  ◌==◌, if◌then◌else◌, Bytes, IsCString, All, length, max_path_len, arith, ap, sym, Bool-cases,
}
use mathlib.Core.List.{Mem, mem-cons, not-mem-nil}
use mathlib.Core.Logic.Or
use radmind.PathCmp.{is_zero, pathcmp}
use radmind.PathCmp.Order.{pathcmp_antisymm}
use radmind.PathList.{
  PathList, unsnoc, list_pop_head, list_pop_tail, list_remove_tail, clear_rounds, list_clear,
  list_new, check_nodes, list_check, remove_nodes, list_remove, IsCounted, list_insert_head,
  list_insert_tail, list_create_node,
}

is_zero_iff : (p q : Bytes) → IsCString p → IsCString q → (is_zero (pathcmp p q) ≡ true) ↔ (p ≡ q)
is_zero_iff p q hp hq =
    let same = (pathcmp_antisymm p q hp hq).1 in
    (λ h. same.0 (ground arith), λ e. ground (arith, same.1 e))

check_nodes→Mem :
    (ps : List Bytes) (path : Bytes)
    → IsCString path
    → All IsCString ps
    → check_nodes ps path ≡ true
    → Mem path ps
unfolding check_nodes
check_nodes→Mem [] path hp h e = cc
check_nodes→Mem (p ∷ ps) path hp h e = elim (Bool-cases (is_zero (pathcmp p path))) [
  | inl same ↦ mem-cons.1 (Or.inl (sym ((is_zero_iff p path h.0 hp).0 same)))
  | inr other ↦ mem-cons.1 (Or.inr (check_nodes→Mem ps path hp h.1 (rw other at e)))
]

Mem→check_nodes :
    (ps : List Bytes) (path : Bytes)
    → IsCString path
    → All IsCString ps
    → Mem path ps
    → check_nodes ps path ≡ true
unfolding check_nodes
Mem→check_nodes [] path hp h m = absurd (not-mem-nil m)
Mem→check_nodes (p ∷ ps) path hp h m =
    Or.elim (hlevel) (mem-cons.0 m) (λ e. ground (arith, (is_zero_iff p path h.0 hp).1 (sym e)))
      (λ k. ground (arith, Mem→check_nodes ps path hp h.1 k))

-- list_check() is membership.
pub list_check_iff :
    (list : PathList) (path : Bytes)
    → IsCString path
    → All IsCString list.nodes
    → (list_check list path ≡ true) ↔ Mem path list.nodes
unfolding list_check
list_check_iff list path hp h =
    (check_nodes→Mem list.nodes path hp h, Mem→check_nodes list.nodes path hp h)

remove_nodes-check_nodes :
    (ps : List Bytes) (path : Bytes)
    → remove_nodes ps path ≡ (if check_nodes ps path then none else some (ps, 0))
unfolding remove_nodes check_nodes
remove_nodes-check_nodes [] path = refl
remove_nodes-check_nodes (cur ∷ ps) path = ground (arith, remove_nodes-check_nodes ps path)

-- list_remove() of a path that is in the list reads freed memory; of any other path it returns 0 and
-- leaves the list as it was.
pub list_remove-list_check :
    (list : PathList) (path : Bytes)
    → IsCString path
    → All IsCString list.nodes
    → (Mem path list.nodes × (list_remove list path ≡ none))
      ⊎ ((¬ Mem path list.nodes) × (list_remove list path ≡ some (list, 0)))
unfolding list_remove list_check
list_remove-list_check list path hp h =
    let e = remove_nodes-check_nodes list.nodes path in
    let member = list_check_iff list path hp h in
    elim (Bool-cases (list_check list path)) [
      | inl b ↦ inl (member.0 b, ground (arith, e))
      | inr b ↦ inr (λ m. ground (arith, member.1 m), ground (arith, e))
    ]

head_rest : (n : ℕ) (ps : List Bytes) → n ≡ length ps → (if n + 1 == 1 then [] else ps) ≡ ps
head_rest n [] e = ground arith
head_rest n (p ∷ ps) e = ground arith

-- In a counted list the path that was inserted at the head is popped from it, and what is left is the
-- list before.
pub list_pop_head-list_insert_head :
    (list : PathList) (path : Bytes)
    → IsCounted list
    → length path < max_path_len
    → (list' : PathList) × (list_insert_head list path ≡ some list')
      × (list_pop_head list' ≡ some (path, list))
unfolding list_insert_head list_pop_head list_create_node
list_pop_head-list_insert_head list path c h = (
  record { l_count = list.l_count + 1; nodes = path ∷ list.nodes },
  ground arith,
  ground (arith, head_rest list.l_count list.nodes),
)

unsnoc-append : (x : Bytes) (ps : List Bytes) (q : Bytes) → unsnoc x (ps ++ q ∷ []) ≡ (x ∷ ps, q)
unsnoc-append x [] q = refl
unsnoc-append x (p ∷ ps) q = rw (unsnoc-append p ps q) refl

pop_tail_nodes :
    (n : ℕ) (ps : List Bytes) (q : Bytes)
    → n ≡ length ps
    → list_pop_tail (record { l_count = n + 1; nodes = ps ++ q ∷ [] })
      ≡ some (q, record { l_count = n; nodes = ps })
unfolding list_pop_tail
pop_tail_nodes n [] q e = ground arith
pop_tail_nodes n (p ∷ ps) q e = ground (arith, unsnoc-append p ps q)

-- In a counted list the path that was inserted at the tail is popped from it, and what is left is the
-- list before.
pub list_pop_tail-list_insert_tail :
    (list : PathList) (path : Bytes)
    → IsCounted list
    → length path < max_path_len
    → (list' : PathList) × (list_insert_tail list path ≡ some list')
      × (list_pop_tail list' ≡ some (path, list))
unfolding list_insert_tail list_create_node
list_pop_tail-list_insert_tail list path c h = (
  record { l_count = list.l_count + 1; nodes = list.nodes ++ path ∷ [] },
  ground arith,
  pop_tail_nodes list.l_count list.nodes path c,
)

length-unsnoc : (x : Bytes) (ps : List Bytes) → length (unsnoc x ps).0 ≡ length ps
length-unsnoc x [] = refl
length-unsnoc x (p ∷ ps) = ap suc (length-unsnoc p ps)

remove_tail_nodes :
    (n : ℕ) (p : Bytes) (ps : List Bytes)
    → n ≡ length (p ∷ ps)
    → list_remove_tail (record { l_count = n; nodes = p ∷ ps })
      ≡ record { l_count = length ps; nodes = (unsnoc p ps).0 }
unfolding list_remove_tail list_pop_tail
remove_tail_nodes n p [] e = ground arith
remove_tail_nodes n p (q ∷ ps) e = ground arith

clear_rounds-empty :
    (n c : ℕ) (ps : List Bytes)
    → c ≡ length ps
    → length ps ≡ n
    → clear_rounds n (record { l_count = c; nodes = ps }) ≡ record { l_count = 0; nodes = [] }
unfolding clear_rounds
clear_rounds-empty zero c [] e f = ground arith
clear_rounds-empty zero c (p ∷ ps) e f = absurd (omega arith)
clear_rounds-empty (suc n) c [] e f = absurd (omega arith)
clear_rounds-empty (suc n) c (p ∷ ps) e f = rw (remove_tail_nodes c p ps e) (
    clear_rounds-empty n (length ps) (unsnoc p ps).0 (sym (length-unsnoc p ps))
      (omega (arith, length-unsnoc p ps)))

-- list_clear() of a counted list ends, with the list that list_new() makes.
pub list_clear-list_new : (list : PathList) → IsCounted list → list_clear list ≡ list_new
unfolding list_clear list_new
list_clear-list_new list c = clear_rounds-empty (length list.nodes) list.l_count list.nodes c refl
