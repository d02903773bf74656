-- ===== src/NameList.antt =====
-- llist.c: the sorted lists of names that lsize and lmerge read their transcripts in.
pub mod Sorted
mod Examples
use radmind.Base.{
  ℕ, zero, suc, ◌+◌, ◌-◌, ◌*◌, ◌≤◌, ◌<◌, ◌≡◌, refl, ◌≢◌, ◌↔◌, ◌⊎◌, inl, inr, Bool, true, false, not,
  ◌&&◌, ◌||◌, List, [], ◌∷◌, ◌++◌, ltb, leb, ◌==◌, if◌then◌else◌, Bytes, IsCString, All, length,
  Ordering, compare, ℤ, pos, negsuc, sub_ℕ, sign, arith, Bool-cases, peek, tail,
}
use radmind.PathCmp.{fold, is_zero}

-- strcmp() and strcasecmp() of the C library: the first difference of the bytes, or of their lower
-- case letters.
unfoldable pub str_compare : Bytes → Bytes → Bool → ℤ
str_compare [] b case_sensitive = sub_ℕ 0 (fold case_sensitive (peek b))
str_compare (c ∷ a) b case_sensitive =
    let rc = sub_ℕ (fold case_sensitive c) (fold case_sensitive (peek b)) in
    let rest = str_compare a (tail b) case_sensitive in if is_zero rc then rest else rc

-- `<= 0`
abbrev at_most_zero : ℤ → Bool
at_most_zero rc = elim (sign rc) [ Ordering.gt ↦ false | _ ↦ true ]

-- The walk of ll_insert() and of ll_insert_case(), which differ in the comparison alone. `*current`
-- is the rest of the list.
unfoldable pub ll_insert_by : (Bytes → Bytes → ℤ) → List Bytes → Bytes → List Bytes
ll_insert_by cmp [] new = new ∷ []
ll_insert_by cmp (current ∷ rest) new =
    let later = ll_insert_by cmp rest new in
    if at_most_zero (cmp new current) then new ∷ current ∷ rest else current ∷ later

unfoldable pub ll_insert : List Bytes → Bytes → List Bytes
unfolding ll_insert_by
ll_insert headp new = ll_insert_by (λ a b. str_compare a b true) headp new

unfoldable pub ll_insert_case : List Bytes → Bytes → List Bytes
unfolding ll_insert_by
ll_insert_case headp new = ll_insert_by (λ a b. str_compare a b false) headp new
