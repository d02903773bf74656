-- ===== src/Transcript/Select.antt =====
-- t_exclude() and transcript_select(): the transcript whose entry is compared next.
use radmind.Base.{
  ℕ, zero, suc, ◌+◌, Bool, true, false, not, ◌||◌, List, [], ◌∷◌, ◌++◌, if◌then◌else◌, Bytes,
  length, ℤ, sign, Ordering,
}
use radmind.PathCmp.{is_zero, pathcasecmp, ischildcase}
use radmind.Wildcard.{Match, matched, unmatched, overread, wildcard}
use radmind.Transcript.{
  TranType, special, Tran, memory_fault, null_pointer, out_of_fuel, Run, ok, stop, ◌>>=◌, Settings,
}
use radmind.Transcript.Parse.{transcript_parse}

-- The answer of one exclude pattern, and that of the later ones.
unfoldable pub or_later : Match → Run Bool → Run Bool
or_later matched later = ok true
or_later unmatched later = later
or_later overread later = stop memory_fault
or_later Match.out_of_fuel later = stop out_of_fuel

unfoldable pub any_pattern : List Bytes → Bytes → Bool → Run Bool
unfolding or_later
any_pattern [] path case_sensitive = ok false
any_pattern (cur ∷ nodes) path case_sensitive =
    or_later (wildcard cur path case_sensitive) (any_pattern nodes path case_sensitive)

unfoldable pub t_exclude : Settings → Bytes → Run Bool
unfolding any_pattern
t_exclude g path = any_pattern g.exclude_list path g.case_sensitive

-- The chain of transcripts around one of them.
pub record Place : Type 0 where
  pub before : List Tran
  pub here : Tran
  pub after : List Tran

abbrev pub whole : Place → List Tran
whole p = p.before ++ p.here ∷ p.after

abbrev pub is_less : ℤ → Bool
is_less rc = elim (sign rc) [ Ordering.lt ↦ true | _ ↦ false ]

abbrev pub name_of : Tran → Bytes
name_of t = t.t_pinfo.pi_name

-- Whether `next_tran` takes the place of `begin_tran`.
unfoldable pub takes_over : Settings → Tran → Tran → Bool
takes_over g next begin =
    if begin.t_eof
    then true
    else (if next.t_eof
        then false
        else is_less (pathcasecmp (name_of next) (name_of begin) g.case_sensitive))

-- The first loop; `after` of the place holds the transcripts between begin_tran and next_tran.
unfoldable pub find_begin : Settings → Place → List Tran → Place
unfolding takes_over
find_begin g p [] = p
find_begin g p (next ∷ rest) =
    find_begin g
      (if takes_over g next p.here
        then record { before = whole p; here = next; after = [] }
        else record p { after = p.after ++ next ∷ [] })
      rest

-- The second loop: later transcripts with the same path move on.
unfoldable pub move_matching : Settings → Bytes → List Tran → Run (List Tran)
move_matching g name [] = ok []
move_matching g name (next ∷ rest) = do
  next' ←
      (if is_zero (pathcasecmp name (name_of next) g.case_sensitive)
        then transcript_parse g next
        else ok next)
  rest' ← move_matching g name rest
  ok (next' ∷ rest')

abbrev pub is_special : TranType → Bool
is_special special = true
is_special TranType.null_tran = false
is_special TranType.positive = false
is_special TranType.negative = false

-- The tests that send the loop round again, with begin_tran moved on: a removal, an excluded path, a
-- path outside of the initial one.
unfoldable pub is_passed_over : Settings → Tran → Run Bool
unfolding t_exclude
is_passed_over g begin =
    if begin.t_eof
    then ok false
    else (if begin.t_pinfo.pi_minus then ok true else (do
      excluded ← (if is_special begin.t_type then ok false else t_exclude g (name_of begin))
      ok (excluded || not (ischildcase (name_of begin) g.path_prefix g.case_sensitive))))

unfoldable pub first_place : Tran → Place
first_place t = record { before = []; here = t; after = [] }

-- The outer loop, over the chain from tran_head on.
unfoldable pub select_rounds : ℕ → Settings → List Tran → Run Place
unfolding find_begin move_matching is_passed_over first_place
select_rounds zero g trans = stop out_of_fuel
select_rounds (suc fuel) g [] = stop null_pointer
select_rounds (suc fuel) g (head ∷ rest) =
    let p = find_begin g (first_place head) rest in
    let again = select_rounds fuel g in
    move_matching g (name_of p.here) p.after >>= λ after. is_passed_over g p.here >>= λ passed.
    if passed
    then (transcript_parse g p.here >>= λ begin. again (p.before ++ begin ∷ after))
    else ok (record p { after = after })

-- What is left to read of a transcript, and of all.
unfoldable pub weight : Tran → ℕ
weight t = length t.t_in + (if t.t_eof then 0 else 1)

unfoldable pub total_weight : List Tran → ℕ
unfolding weight
total_weight [] = 0
total_weight (t ∷ ts) = weight t + total_weight ts

-- Each round moves on a transcript that is not at its end.
unfoldable pub transcript_select : Settings → List Tran → Run Place
unfolding select_rounds total_weight
transcript_select g trans = select_rounds (suc (total_weight trans)) g trans
