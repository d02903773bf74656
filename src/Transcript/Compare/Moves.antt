-- ===== src/Transcript/Compare/Moves.antt =====
-- What t_compare() answers, by the order of the two paths.
use mathlib.Core.Path.{subst}
use radmind.Base.{
  ◌≡◌, refl, Bool, false, Option, none, some, IsCString, arith, sign, Ordering, ap, if◌then◌else◌,
  ◌==◌,
}
use radmind.PathCmp.{pathcasecmp}
use radmind.PathCmp.Order.{lex, key, sign-pathcasecmp}
use radmind.Transcript.{PathInfo, Tran, ok, Settings, World}
use radmind.Transcript.Print.{tran_only, fs_only, download, t_print}
use radmind.Transcript.Print.Returns.{mark_link-Returns, t_print-Returns}
use radmind.Transcript.Compare.{
  Move, move_tran, move_fs, move_both, Verdict, quiet, compare_file, compare_plain, compare_link,
  compare_device, compare_hard, compare_type, print_verdict, compare_same, by_order, t_compare,
}
use radmind.Transcript.Runs.{
  Returns, if-Returns, Ends, Any, bind-Ends, Returns-Ends, ok-Ends, if-Ends, test-Ends,
}

compare_file-Returns :
    (g : Settings) (fs : PathInfo) (tran : Tran) → Returns (compare_file g fs tran)
unfolding compare_file
compare_file-Returns g fs tran = ground arith

compare_hard-Returns : (fs : PathInfo) (tran : Tran) (w : World) → Returns (compare_hard fs tran w)
unfolding compare_hard
compare_hard-Returns fs tran w = ground (arith, mark_link-Returns fs false w)

compare_type-Returns :
    (g : Settings) (fs : PathInfo) (tran : Tran) (w : World) → Returns (compare_type g fs tran w)
unfolding compare_type
compare_type-Returns g fs tran w =
    let plain : Returns (ok (compare_plain fs tran)) = ground arith in
    let link : Returns (ok (compare_link g fs tran)) = ground arith in
    let device : Returns (ok (compare_device fs tran)) = ground arith in
    let other : Returns (ok (quiet fs)) = ground arith in
    if-Returns _ _ _ (compare_file-Returns g fs tran) (
      if-Returns _ _ _ plain (
        if-Returns _ _ _ link
          (if-Returns _ _ _ (compare_hard-Returns fs tran w) (if-Returns _ _ _ device other))))

print_verdict-Returns :
    (g : Settings) (tran : Tran) (v : Verdict) (w : World) → Returns (print_verdict g tran v w)
unfolding print_verdict
print_verdict-Returns g tran v w =
    elim v.flag
      as (λ f. Returns (elim f [ none ↦ ok w | some f ↦ t_print g (some v.entry) tran f w ])) [
        | none ↦ ground arith
        | some f ↦ t_print-Returns g (some v.entry) tran f w
      ]

abbrev AnswersBoth : Move × World → Type 0
AnswersBoth r = r.0 ≡ move_both

compare_same-Ends :
    (g : Settings) (fs : PathInfo) (tran : Tran) (w : World)
    → Ends AnswersBoth (compare_same g fs tran w)
unfolding compare_same
compare_same-Ends g fs tran w =
    if-Ends AnswersBoth (fs.pi_type == tran.t_pinfo.pi_type) _ _
      (bind-Ends Any AnswersBoth _ _ (Returns-Ends _ (compare_type-Returns g fs tran w)) (λ v u.
        bind-Ends Any AnswersBoth _ _ (Returns-Ends _ (print_verdict-Returns g tran v w))
          (λ w' u'. ok-Ends AnswersBoth (move_both, w') refl)))
      (bind-Ends Any AnswersBoth _ _ (Returns-Ends _ (t_print-Returns g (some fs) tran download w))
        (λ w' u. ok-Ends AnswersBoth (move_both, w') refl))

unfoldable pub move_of : Ordering → Move
move_of Ordering.lt = move_fs
move_of Ordering.eq = move_both
move_of Ordering.gt = move_tran

abbrev Answers : Move → Move × World → Type 0
Answers m r = r.0 ≡ m

by_order-Ends :
    (g : Settings) (fs : PathInfo) (tran : Tran) (w : World) (o : Ordering)
    → Ends (Answers (move_of o)) (by_order g fs tran w o)
unfolding by_order move_of
by_order-Ends g fs tran w Ordering.gt =
    bind-Ends Any (Answers move_tran) _ _
      (Returns-Ends _ (t_print-Returns g (some fs) tran tran_only w))
      (λ w' u. ok-Ends (Answers move_tran) (move_tran, w') refl)
by_order-Ends g fs tran w Ordering.lt =
    bind-Ends Any (Answers move_fs) _ _
      (Returns-Ends _ (t_print-Returns g (some fs) tran fs_only w))
      (λ w' u. ok-Ends (Answers move_fs) (move_fs, w') refl)
by_order-Ends g fs tran w Ordering.eq = compare_same-Ends g fs tran w

-- The order of an object and a transcript, where the end of either is behind every path.
unfoldable pub order_of : Bool → Option PathInfo → Tran → Ordering
unfolding lex
order_of sensitive none tran = if tran.t_eof then Ordering.lt else Ordering.gt
order_of sensitive (some fs) tran =
    if tran.t_eof
    then Ordering.lt
    else lex (key sensitive fs.pi_name) (key sensitive tran.t_pinfo.pi_name)

abbrev pub HasNames : Option PathInfo → Tran → Type 0
HasNames none tran = Unit
HasNames (some fs) tran = IsCString fs.pi_name × IsCString tran.t_pinfo.pi_name

pub t_compare-Answers :
    (g : Settings) (fs : Option PathInfo) (tran : Tran) (w : World)
    → HasNames fs tran
    → Ends (Answers (move_of (order_of g.case_sensitive fs tran))) (t_compare g fs tran w)
unfolding t_compare order_of move_of
t_compare-Answers g none tran w h =
    let R = Answers (move_of (order_of g.case_sensitive none tran)) in
    test-Ends R tran.t_eof _ _ (λ eof. ok-Ends R (move_fs, w) (ground arith))
      (λ live.
        bind-Ends Any R _ _ (Returns-Ends _ (t_print-Returns g none tran tran_only w))
          (λ w' u. ok-Ends R (move_tran, w') (ground arith)))
t_compare-Answers g (some fs) tran w h =
    let code = sign (pathcasecmp fs.pi_name tran.t_pinfo.pi_name g.case_sensitive) in
    subst (λ o. Ends (Answers (move_of o)) (t_compare g (some fs) tran w))
      (ap (λ o. if tran.t_eof then Ordering.lt else o)
        (sign-pathcasecmp fs.pi_name tran.t_pinfo.pi_name g.case_sensitive h.0 h.1))
      (by_order-Ends g fs tran w (if tran.t_eof then Ordering.lt else code))

-- Without a condition on the names: to move on the transcript alone, it is not at its end.
pub t_compare_live :
    (g : Settings) (fs : Option PathInfo) (tran : Tran) (w : World)
    → Ends (λ r. r.0 ≡ move_tran → tran.t_eof ≡ false) (t_compare g fs tran w)
unfolding t_compare move_of
t_compare_live g none tran w =
    let R : Move × World → Type 0 = λ r. r.0 ≡ move_tran → tran.t_eof ≡ false in
    test-Ends R tran.t_eof _ _ (λ eof. ok-Ends R (move_fs, w) (λ e. ground arith))
      (λ live.
        bind-Ends Any R _ _ (Returns-Ends _ (t_print-Returns g none tran tran_only w))
          (λ w' u. ok-Ends R (move_tran, w') (λ e. live)))
t_compare_live g (some fs) tran w =
    let code =
      if tran.t_eof
      then Ordering.lt
      else sign (pathcasecmp fs.pi_name tran.t_pinfo.pi_name g.case_sensitive) in
    let (returns, answer) = by_order-Ends g fs tran w code in
    (returns, λ r e m. ground (arith, answer r e))

-- Where t_compare() returns, it moves on in the filesystem alone, in the transcript alone or in both,
-- as the path of the object is before, after or equal to that of the transcript's entry in the order of
-- paths. The end of the transcript is behind every object, and the end of the filesystem behind every
-- entry.
pub t_compare-move :
    (g : Settings) (fs : Option PathInfo) (tran : Tran) (w w' : World) (m : Move)
    → HasNames fs tran
    → t_compare g fs tran w ≡ ok (m, w')
    → m ≡ move_of (order_of g.case_sensitive fs tran)
t_compare-move g fs tran w w' m names h = (t_compare-Answers g fs tran w names).1 (m, w') h
