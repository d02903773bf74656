-- ===== src/Transcript/Least.antt =====
-- The transcript that transcript_select() starts from has the least path.
use radmind.Base.{
  ◌≡◌, ◌≢◌, refl, Bool, true, false, List, [], ◌∷◌, ◌++◌, if◌then◌else◌, IsCString, All, All-append,
  Ordering, arith, Bool-cases, inl, inr, append_assoc, append-nil, ◌⊎◌, ◌∙◌, sym,
}
use radmind.PathCmp.{pathcasecmp}
use radmind.PathCmp.Order.{lex, key, sign-pathcasecmp, lex_swap, lex_trans, lex_lt_le_trans}
use radmind.Transcript.{Tran, Settings}
use radmind.Transcript.Select.{Place, whole, name_of, is_less, takes_over, find_begin, first_place}

module _ (g : Settings) where
  abbrev cs : Bool
  cs = g.case_sensitive

  -- A transcript that is done, or whose path is after the given one.
  abbrev pub IsLater : Tran → Tran → Type 0
  IsLater begin t =
      (t.t_eof ≡ true) ⊎ (lex (key cs (name_of begin)) (key cs (name_of t)) ≡ Ordering.lt)

  -- A transcript that is done, or whose path is not before the given one.
  abbrev pub IsNotBefore : Tran → Tran → Type 0
  IsNotBefore begin t =
      (t.t_eof ≡ true) ⊎ (lex (key cs (name_of begin)) (key cs (name_of t)) ≢ Ordering.gt)

  -- Of those that are not done the least; those of the same path stand behind it in the chain.
  abbrev pub IsLeast : Place → Type 0
  IsLeast p =
      (p.here.t_eof ≡ true) × All (λ t. t.t_eof ≡ true) p.before × (p.after ≡ [])
      ⊎ (p.here.t_eof ≡ false) × All (IsLater p.here) p.before × All (IsNotBefore p.here) p.after

  All-IsLater_of_eof :
      (begin : Tran) (ts : List Tran) → All (λ t. t.t_eof ≡ true) ts → All (IsLater begin) ts
  All-IsLater_of_eof begin [] h = tt
  All-IsLater_of_eof begin (t ∷ ts) h = (inl h.0, All-IsLater_of_eof begin ts h.1)

  module _ (next here : Tran)
      (less : lex (key cs (name_of next)) (key cs (name_of here)) ≡ Ordering.lt) where
    All-IsLater_trans : (ts : List Tran) → All (IsLater here) ts → All (IsLater next) ts
    All-IsLater_trans [] h = tt
    All-IsLater_trans (t ∷ ts) h = (
      elim h.0 [
        | inl eof ↦ inl eof
        | inr lt ↦
            inr (
              lex_trans (key cs (name_of next)) (key cs (name_of here)) (key cs (name_of t)) less
                lt)
      ],
      All-IsLater_trans ts h.1,
    )

    All-IsLater_of_not : (ts : List Tran) → All (IsNotBefore here) ts → All (IsLater next) ts
    All-IsLater_of_not [] h = tt
    All-IsLater_of_not (t ∷ ts) h = (
      elim h.0 [
        | inl eof ↦ inl eof
        | inr le ↦ inr (
            lex_lt_le_trans (key cs (name_of next)) (key cs (name_of here)) (key cs (name_of t))
              less le)
      ],
      All-IsLater_of_not ts h.1,
    )

  abbrev HasName : Tran → Type 0
  HasName t = IsCString (name_of t)

  abbrev taken : Place → Tran → Place
  taken p next = record { before = whole p; here = next; after = [] }

  abbrev kept : Place → Tran → Place
  kept p next = record p { after = p.after ++ next ∷ [] }

  taken_of_eof :
      (p : Place) (next : Tran)
      → p.here.t_eof ≡ true
      → All (λ t. t.t_eof ≡ true) p.before
      → p.after ≡ []
      → IsLeast (taken p next)
  taken_of_eof p next h hb ha =
      let done = All-append (λ t. t.t_eof ≡ true) p.before (p.here ∷ p.after) hb (h, rw ha tt) in
      elim (Bool-cases next.t_eof) [
        | inl eof ↦ inl (eof, done, refl)
        | inr more ↦ inr (more, All-IsLater_of_eof next (whole p) done, tt)
      ]

  less-taken :
      (p : Place) (next : Tran)
      → p.here.t_eof ≡ false
      → next.t_eof ≡ false
      → lex (key cs (name_of next)) (key cs (name_of p.here)) ≡ Ordering.lt
      → All (IsLater p.here) p.before
      → All (IsNotBefore p.here) p.after
      → IsLeast (taken p next)
  less-taken p next h more less hb ha = inr (
    more,
    All-append (IsLater next) p.before (p.here ∷ p.after)
        (All-IsLater_trans next p.here less p.before hb)
        (inr less, All-IsLater_of_not next p.here less p.after ha),
    tt,
  )

  kept-IsLeast :
      (p : Place) (next : Tran)
      → p.here.t_eof ≡ false
      → IsNotBefore p.here next
      → All (IsLater p.here) p.before
      → All (IsNotBefore p.here) p.after
      → IsLeast (kept p next)
  kept-IsLeast p next h ge hb ha =
      inr (h, hb, All-append (IsNotBefore p.here) p.after (next ∷ []) ha (ge, tt))

  step : Place → Tran → Place
  step p next = if takes_over g next p.here then taken p next else kept p next

  taken_over :
      (next here : Tran)
      → here.t_eof ≡ false
      → takes_over g next here ≡ true
      → (next.t_eof ≡ false) × (is_less (pathcasecmp (name_of next) (name_of here) cs) ≡ true)
  unfolding takes_over
  taken_over next here live h = ground arith

  not_taken_over :
      (next here : Tran)
      → here.t_eof ≡ false
      → takes_over g next here ≡ false
      → (next.t_eof ≡ true) ⊎ (is_less (pathcasecmp (name_of next) (name_of here) cs) ≡ false)
  unfolding takes_over
  not_taken_over next here live h = ground arith

  taken_over_eof : (next here : Tran) → here.t_eof ≡ true → takes_over g next here ≡ true
  unfolding takes_over
  taken_over_eof next here eof = ground arith

  module _ (next here : Tran) (hn : HasName next) (hp : HasName here) where
    lt_of_less :
        is_less (pathcasecmp (name_of next) (name_of here) cs) ≡ true
        → lex (key cs (name_of next)) (key cs (name_of here)) ≡ Ordering.lt
    lt_of_less h =
        let signs = sign-pathcasecmp (name_of next) (name_of here) cs hn hp in ground arith

    IsNotBefore-of_not_less :
        is_less (pathcasecmp (name_of next) (name_of here) cs) ≡ false → IsNotBefore here next
    IsNotBefore-of_not_less h =
        let signs = sign-pathcasecmp (name_of next) (name_of here) cs hn hp in
        let swap = lex_swap (key cs (name_of next)) (key cs (name_of here)) in inr (ground arith)

  live-step :
      (p : Place) (next : Tran)
      → HasName p.here
      → HasName next
      → p.here.t_eof ≡ false
      → All (IsLater p.here) p.before
      → All (IsNotBefore p.here) p.after
      → IsLeast (step p next)
  unfolding step
  live-step p next hp hn live hb ha = elim (Bool-cases (takes_over g next p.here)) [
    | inl yes_over ↦
        let (more, less) = taken_over next p.here live yes_over in
        rw yes_over (less-taken p next live more (lt_of_less next p.here hn hp less) hb ha)
    | inr stays ↦ rw stays (
        kept-IsLeast p next live
          (elim (not_taken_over next p.here live stays) [
            | inl eof ↦ inl eof
            | inr not_less ↦ IsNotBefore-of_not_less next p.here hn hp not_less
          ])
          hb ha)
  ]

  step-IsLeast :
      (p : Place) (next : Tran) → HasName p.here → HasName next → IsLeast p → IsLeast (step p next)
  unfolding step
  step-IsLeast p next hp hn (inl (eof, hb, ha)) =
      rw (taken_over_eof next p.here eof) (taken_of_eof p next eof hb ha)
  step-IsLeast p next hp hn (inr (live, hb, ha)) = live-step p next hp hn live hb ha

  step-name : (p : Place) (next : Tran) → HasName p.here → HasName next → HasName (step p next).here
  unfolding step
  step-name p next hp hn = elim (Bool-cases (takes_over g next p.here)) [
    | inl yes_over ↦ rw yes_over hn
    | inr stays ↦ rw stays hp
  ]

  step-whole : (p : Place) (next : Tran) → whole (step p next) ≡ whole p ++ next ∷ []
  unfolding step
  step-whole p next = elim (Bool-cases (takes_over g next p.here)) [
    | inl yes_over ↦ rw yes_over refl
    | inr stays ↦ rw (stays, append_assoc p.before (p.here ∷ p.after) (next ∷ [])) refl
  ]

  whole-find_begin : (p : Place) (rest : List Tran) → whole (find_begin g p rest) ≡ whole p ++ rest
  unfolding find_begin step
  whole-find_begin p [] = sym (append-nil (whole p))
  whole-find_begin p (next ∷ rest) =
      let p' = step p next in
      let same = whole-find_begin p' rest in
      same ∙ rw (step-whole p next, append_assoc (whole p) (next ∷ []) rest) refl

  find_begin_lem :
      (p : Place) (rest : List Tran)
      → HasName p.here
      → All HasName rest
      → IsLeast p
      → IsLeast (find_begin g p rest)
  unfolding find_begin step
  find_begin_lem p [] hp h least = least
  find_begin_lem p (next ∷ rest) hp h least =
      let p' = step p next in
      find_begin_lem p' rest (step-name p next hp h.0) h.1 (step-IsLeast p next hp h.0 least)

pub whole-find_begin_first :
    (g : Settings) (head : Tran) (rest : List Tran)
    → whole (find_begin g (first_place head) rest) ≡ head ∷ rest
unfolding first_place
whole-find_begin_first g head rest = whole-find_begin g (first_place head) rest

-- The search keeps the chain of transcripts. If the one that it finds is at its end, so are all, and
-- it is the last. Otherwise its path is before that of every transcript in front of it, and
-- not after that of any behind it, those at their end aside: of equal paths the transcript of the
-- highest precedence is found.
pub find_begin-IsLeast :
    (g : Settings) (head : Tran) (rest : List Tran)
    → IsCString (name_of head)
    → All (λ t. IsCString (name_of t)) rest
    → IsLeast g (find_begin g (first_place head) rest)
      × (whole (find_begin g (first_place head) rest) ≡ head ∷ rest)
unfolding first_place
find_begin-IsLeast g head rest hh h = (
  find_begin_lem g (first_place head) rest hh h (elim (Bool-cases head.t_eof) [
    | inl eof ↦ inl (eof, tt, refl)
    | inr live ↦ inr (live, tt, tt)
  ]),
  whole-find_begin_first g head rest,
)
