-- ===== src/Transcript/Weight.antt =====
-- transcript_select() ends: each of its rounds moves on a transcript that is not at its end.
use radmind.Base.{
  ℕ, zero, suc, ◌+◌, ◌≤◌, ◌<◌, ◌≡◌, ◌≢◌, Bool, true, false, List, [], ◌∷◌, ◌++◌, Bytes, arith, ◌⊎◌,
  ap, ◌∙◌,
}
use radmind.PathCmp.{is_zero, pathcasecmp, ischildcase}
use radmind.Wildcard.Fuel.{wildcard-ne-out_of_fuel}
use radmind.Transcript.{Tran, special, out_of_fuel, null_pointer, ok, stop, Settings}
use radmind.Transcript.Parse.{transcript_parse}
use radmind.Transcript.Parse.Returns.{MovedOn, transcript_parse-MovedOn}
use radmind.Transcript.Select.{
  or_later, any_pattern, t_exclude, Place, whole, name_of, find_begin, first_place, move_matching,
  is_passed_over, select_rounds, weight, total_weight, transcript_select,
}
use radmind.Transcript.Least.{whole-find_begin_first}
use radmind.Transcript.Runs.{Returns, Ends, bind-Ends, stop-Ends, ok-Ends, if-Ends, test-Ends}

pub weight-MovedOn : (t t' : Tran) → MovedOn t t' → weight t' ≤ weight t
unfolding weight
weight-MovedOn t t' h = ground arith

pub weight_live : (t t' : Tran) → t.t_eof ≡ false → MovedOn t t' → weight t' < weight t
unfolding weight
weight_live t t' live h = ground arith

total_weight-append : (a b : List Tran) → total_weight (a ++ b) ≡ total_weight a + total_weight b
unfolding total_weight
total_weight-append [] b = omega arith
total_weight-append (t ∷ a) b = let rest = total_weight-append a b in omega arith

pub weight_place :
    (before : List Tran) (t : Tran) (after : List Tran)
    → total_weight (before ++ t ∷ after) ≡ total_weight before + (weight t + total_weight after)
unfolding total_weight
weight_place before t after = total_weight-append before (t ∷ after)

any_pattern-Returns :
    (patterns : List Bytes) (path : Bytes) (sensitive : Bool)
    → Returns (any_pattern patterns path sensitive)
unfolding any_pattern or_later
any_pattern-Returns [] path sensitive = ground arith
any_pattern-Returns (cur ∷ nodes) path sensitive =
    ground
      (arith, any_pattern-Returns nodes path sensitive, wildcard-ne-out_of_fuel cur path sensitive)

pub t_exclude-Returns : (g : Settings) (path : Bytes) → Returns (t_exclude g path)
unfolding t_exclude
t_exclude-Returns g path = any_pattern-Returns g.exclude_list path g.case_sensitive

-- The moved transcripts weigh no more.
abbrev NoHeavier : List Tran → List Tran → Type 0
NoHeavier before after = total_weight after ≤ total_weight before

move_matching-Ends :
    (g : Settings) (name : Bytes) (trans : List Tran)
    → Ends (NoHeavier trans) (move_matching g name trans)
unfolding move_matching total_weight
move_matching-Ends g name [] = ok-Ends (NoHeavier []) [] (omega arith)
move_matching-Ends g name (next ∷ rest) =
    bind-Ends (λ t. weight t ≤ weight next) (NoHeavier (next ∷ rest)) _ _
      (if-Ends (λ t. weight t ≤ weight next)
        (is_zero (pathcasecmp name (name_of next) g.case_sensitive)) _ _
        (let (returns, moved) = transcript_parse-MovedOn g next in
          (returns, λ t e. weight-MovedOn next t (moved t e)))
        (ok-Ends (λ t. weight t ≤ weight next) next (omega arith)))
      (λ next' le.
        bind-Ends (NoHeavier rest) (NoHeavier (next ∷ rest)) _ _ (move_matching-Ends g name rest)
          (λ rest' le'. ok-Ends (NoHeavier (next ∷ rest)) (next' ∷ rest') (omega arith)))

is_passed_over-Returns : (g : Settings) (begin : Tran) → Returns (is_passed_over g begin)
unfolding is_passed_over
is_passed_over-Returns g begin = ground (arith, t_exclude-Returns g (name_of begin))

is_passed_over_live :
    (g : Settings) (begin : Tran) → is_passed_over g begin ≡ ok true → begin.t_eof ≡ false
unfolding is_passed_over
is_passed_over_live g begin h = ground arith

-- A place of the chain, with no transcript in the way of its own: it is at its end, or its entry is
-- no removal, is not excluded, and is inside of the initial path.
abbrev pub Selected : Settings → List Tran → Place → Type 0
Selected g trans p =
    (total_weight (whole p) ≤ total_weight trans) × (is_passed_over g p.here ≡ ok false)

select_rounds-Ends :
    (fuel : ℕ) (g : Settings) (trans : List Tran)
    → total_weight trans < fuel
    → Ends (Selected g trans) (select_rounds fuel g trans)
unfolding select_rounds
select_rounds-Ends zero g trans lt = absurd (omega arith)
select_rounds-Ends (suc fuel) g [] lt = stop-Ends (Selected g []) null_pointer (ground arith)
select_rounds-Ends (suc fuel) g (head ∷ rest) lt =
    let p = find_begin g (first_place head) rest in
    let sum : total_weight (whole p) ≡ total_weight (head ∷ rest) =
      ap total_weight (whole-find_begin_first g head rest) in
    let parts = weight_place p.before p.here p.after in
    let R = Selected g (head ∷ rest) in
    bind-Ends (NoHeavier p.after) R _ _ (move_matching-Ends g (name_of p.here) p.after) (λ after le.
      let kept = weight_place p.before p.here after in
      bind-Ends (λ b. is_passed_over g p.here ≡ ok b) R (is_passed_over g p.here) _
        (is_passed_over-Returns g p.here, λ b e. e)
        (λ passed e.
          test-Ends R passed _ _
            (λ yes.
              bind-Ends (MovedOn p.here) R (transcript_parse g p.here) _
                (transcript_parse-MovedOn g p.here)
                (λ begin moved.
                  let less =
                    weight_live p.here begin (is_passed_over_live g p.here (e ∙ ap ok yes)) moved in
                  let fewer = weight_place p.before begin after in
                  let (returns, later) =
                    select_rounds-Ends fuel g (p.before ++ begin ∷ after) (omega arith) in
                  (returns, λ q eq. let (lighter, shown) = later q eq in (omega arith, shown))))
            (λ no_more. ok-Ends R (record p { after = after }) (omega arith, e ∙ ap ok no_more))))

pub transcript_select-Ends :
    (g : Settings) (trans : List Tran) → Ends (Selected g trans) (transcript_select g trans)
unfolding transcript_select
transcript_select-Ends g trans = select_rounds-Ends (suc (total_weight trans)) g trans (omega arith)

-- transcript_select() returns or ends the process, for all transcripts: a round for each byte that is
-- left to read is enough.
pub transcript_select-ne-out_of_fuel :
    (g : Settings) (trans : List Tran) → transcript_select g trans ≢ stop out_of_fuel
transcript_select-ne-out_of_fuel g trans = (transcript_select-Ends g trans).0

shown :
    (g : Settings) (begin : Tran)
    → is_passed_over g begin ≡ ok false
    → (begin.t_eof ≡ true)
      ⊎ (begin.t_pinfo.pi_minus ≡ false)
        × ((begin.t_type ≡ special) ⊎ (t_exclude g (name_of begin) ≡ ok false))
        × (ischildcase (name_of begin) g.path_prefix g.case_sensitive ≡ true)
unfolding is_passed_over
shown g begin h = ground arith

-- The transcript that transcript_select() returns is at its end, or its entry is no removal, is not
-- excluded unless the transcript is special, and lies below the initial path. What is left to read
-- has not grown.
pub transcript_select-shown :
    (g : Settings) (trans : List Tran) (p : Place)
    → transcript_select g trans ≡ ok p
    → (total_weight (whole p) ≤ total_weight trans)
      × ((p.here.t_eof ≡ true)
          ⊎ (p.here.t_pinfo.pi_minus ≡ false)
            × ((p.here.t_type ≡ special) ⊎ (t_exclude g (name_of p.here) ≡ ok false))
            × (ischildcase (name_of p.here) g.path_prefix g.case_sensitive ≡ true))
transcript_select-shown g trans p h =
    let (lighter, passed) = (transcript_select-Ends g trans).1 p h in
    (lighter, shown g p.here passed)
