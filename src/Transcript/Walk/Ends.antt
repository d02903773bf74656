-- ===== src/Transcript/Walk/Ends.antt =====
-- transcript() ends, for every object of the filesystem and for its end.
use radmind.Base.{
  ℕ, zero, suc, ◌<◌, ◌≡◌, ◌≢◌, refl, Bool, false, ◌∷◌, ◌++◌, Option, none, some, if◌then◌else◌,
  arith,
}
use radmind.Transcript.{PathInfo, out_of_fuel, Run, stop, Settings, World}
use radmind.Transcript.Parse.{transcript_parse}
use radmind.Transcript.Parse.Returns.{MovedOn, transcript_parse-MovedOn}
use radmind.Transcript.Select.{Place, whole, total_weight}
use radmind.Transcript.Weight.{weight_place, weight_live, t_exclude-Returns, transcript_select-Ends}
use radmind.Transcript.Compare.{Move, move_tran, move_fs, move_both}
use radmind.Transcript.Compare.Moves.{t_compare_live}
use radmind.Transcript.Walk.{
  Found, is_dir, with_target, with_links, move_on, after_move, compare_rounds, compare_all,
  is_excluded, skip_excluded, transcript,
}
use radmind.Transcript.Runs.{Returns, if-Returns, bind-Returns, Ends, bind-Ends, ok-Ends}

module _ (g : Settings) (p : Place) where
  move_on-Ends :
      (w : World)
      → Ends
          (λ w'. p.here.t_eof ≡ false → total_weight w'.trans < total_weight (whole p))
          (move_on g p w)
  unfolding move_on
  move_on-Ends w =
      let R : World → Type 0 =
        λ w'. p.here.t_eof ≡ false → total_weight w'.trans < total_weight (whole p) in
      bind-Ends (MovedOn p.here) R (transcript_parse g p.here) _ (transcript_parse-MovedOn g p.here)
        (λ tran moved.
          let old = weight_place p.before p.here p.after in
          let new = weight_place p.before tran p.after in
          ok-Ends R (record w { trans = p.before ++ tran ∷ p.after })
            (λ live. let less = weight_live p.here tran live moved in omega arith))

  after_move-Returns :
      (enter : ℕ) (again : World → Run (ℕ × World)) (r : Move × World)
      → (r.0 ≡ move_tran → p.here.t_eof ≡ false)
      → ((w : World) → total_weight w.trans < total_weight (whole p) → Returns (again w))
      → Returns (after_move g enter p again r)
  unfolding after_move
  after_move-Returns enter again (move_fs, w) live rec = ground arith
  after_move-Returns enter again (move_both, w) live rec =
      bind-Returns _ _ (move_on-Ends w).0 (λ w' e. ground arith)
  after_move-Returns enter again (move_tran, w) live rec =
      bind-Returns _ _ (move_on-Ends w).0 (λ w' e. rec w' ((move_on-Ends w).1 w' e (live refl)))

compare_rounds-Returns :
    (fuel : ℕ) (g : Settings) (fs : Option PathInfo) (enter : ℕ) (w : World)
    → total_weight w.trans < fuel
    → Returns (compare_rounds fuel g fs enter w)
unfolding compare_rounds
compare_rounds-Returns zero g fs enter w lt = absurd (omega arith)
compare_rounds-Returns (suc fuel) g fs enter w lt =
    let (selects, selected) = transcript_select-Ends g w.trans in
    bind-Returns _ _ selects (λ p e.
      let (compares, compared) = t_compare_live g fs p.here (record w { trans = whole p }) in
      let lighter = (selected p e).0 in
      bind-Returns _ _ compares (λ r er.
        after_move-Returns g p enter (compare_rounds fuel g fs enter) r (compared r er)
          (λ w' less. compare_rounds-Returns fuel g fs enter w' (omega arith))))

compare_all-Returns :
    (g : Settings) (fs : Option PathInfo) (enter : ℕ) (w : World)
    → Returns (compare_all g fs enter w)
unfolding compare_all
compare_all-Returns g fs enter w =
    compare_rounds-Returns (suc (total_weight w.trans)) g fs enter w (omega arith)

with_links-Returns : (f : Found) (w : World) → Returns (with_links f w)
unfolding with_links with_target
with_links-Returns f w = ground arith

-- transcript() returns or ends the process, for every object and all transcripts.
pub transcript-ne-out_of_fuel :
    (g : Settings) (f : Option Found) (parent_minus : Bool) (w : World)
    → transcript g f parent_minus w ≢ stop out_of_fuel
unfolding transcript is_excluded skip_excluded
transcript-ne-out_of_fuel g none parent_minus w =
    compare_all-Returns g none 0 (record w { fs_minus = false })
transcript-ne-out_of_fuel g (some f) parent_minus w =
    let w' : World = record w { fs_minus = false } in
    bind-Returns _ _ (bind-Returns _ _ (t_exclude-Returns g f.path) (λ b e. ground arith))
      (λ excluded e.
        if-Returns _ _ _
          (bind-Returns _ _ (transcript_select-Ends g w'.trans).0 (λ p ep. ground arith))
          (bind-Returns _ _ (with_links-Returns f w')
            (λ r er. compare_all-Returns g (some r.0) (if is_dir f.st then 1 else 0) r.1)))
