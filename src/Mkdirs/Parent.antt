-- ===== src/Mkdirs/Parent.antt =====
-- After mkdirs() the directory of the path is there.
use mathlib.Core.Path.{subst}
use radmind.Base.{
  ◌≡◌, refl, sym, ap, ◌∙◌, ℕ, zero, suc, Bool, true, false, [], ◌∷◌, ◌++◌, append-nil, append_assoc,
  Option, none, some, ◌==◌, if◌then◌else◌, Bytes, length, drop, arith, Bool-cases, inl, inr,
}
use radmind.CLibrary.Strings.{before_slash}
use radmind.Mkdirs.{
  Made, done, exists, no_parent, failed, longest_or, longest_of, make_longest, later_or, make_later,
  make_rest, mkdirs,
}

before_slash-append :
    (made : Bytes) (c : ℕ)
    → before_slash (made ++ c ∷ []) ≡ (if c == b'/' then some made else before_slash made)
unfolding before_slash
before_slash-append [] c = refl
before_slash-append (d ∷ made) c = ground (arith, before_slash-append made c)

slash_here :
    (c : ℕ) (path dir : Bytes)
    → (if c == b'/' then some [] else none) ≡ some dir
    → c ∷ path ≡ dir ++ b'/' ∷ path
slash_here c path dir e = elim (Bool-cases (c == b'/')) [
  | inl q ↦
      (let d : [] ≡ dir = ground (arith, e, q) in
        subst (λ (x : Bytes). c ∷ path ≡ x ++ b'/' ∷ path) d (ground (arith, q)))
  | inr q ↦ absurd (ground (arith, e, q))
]

slash_case :
    (c : ℕ) (path dir : Bytes) (o : Option Bytes)
    → ((d : Bytes) → o ≡ some d → (rest : Bytes) × (path ≡ d ++ b'/' ∷ rest))
    → (let x : Option Bytes = elim o [
      | some part ↦ some (c ∷ part)
      | none ↦ if c == b'/' then some [] else none
    ] in
        x ≡ some dir)
    → (rest : Bytes) × (c ∷ path ≡ dir ++ b'/' ∷ rest)
slash_case c path dir none h e = (path, slash_here c path dir e)
slash_case c path dir (some part) h e = let (rest, q) = h part refl in (rest, cc (q, e))

-- What stands before the last '/'.
before_slash-some :
    (path dir : Bytes) → before_slash path ≡ some dir → (rest : Bytes) × (path ≡ dir ++ b'/' ∷ rest)
unfolding before_slash
before_slash-some [] dir e = absurd (cc)
before_slash-some (c ∷ path) dir e =
    slash_case c path dir (before_slash path) (before_slash-some path) e

drop-append : (dir rest : Bytes) → drop (suc (length dir)) (dir ++ b'/' ∷ rest) ≡ rest
drop-append [] rest = refl
drop-append (c ∷ dir) rest = drop-append dir rest

module _ {S : Type 0} (mkdir : Bytes → S → Made × S) (There : Bytes → S → Type 0)
    (makes : (path : Bytes) (s : S) → (mkdir path s).0 ≡ done → There path (mkdir path s).1)
    (finds : (path : Bytes) (s : S) → (mkdir path s).0 ≡ exists → There path (mkdir path s).1) where
  later_or-There :
      (made dir : Bytes) (r : Made × S) (next : S → Bool × S)
      → (r.0 ≡ done → There made r.1)
      → (r.0 ≡ exists → There made r.1)
      → ((t : S) → There made t → (next t).0 ≡ true → There dir (next t).1)
      → (later_or mkdir r next).0 ≡ true
      → There dir (later_or mkdir r next).1
  unfolding later_or
  later_or-There made dir (done, t) next h k step ok = step t (h refl) ok
  later_or-There made dir (exists, t) next h k step ok = step t (k refl) ok
  later_or-There made dir (no_parent, t) next h k step ok = absurd (cc)
  later_or-There made dir (failed, t) next h k step ok = absurd (cc)

  -- One byte of the walk to the right.
  make_later-There_byte :
      (b : Bool) (made dir : Bytes) (parent : Option Bytes) (s : S) (next : S → Bool × S)
      → parent ≡ (if b then some made else before_slash made)
      → ((d : Bytes) → before_slash made ≡ some d → There d s)
      → ((t : S)
          → ((d : Bytes) → parent ≡ some d → There d t)
          → (next t).0 ≡ true
          → There dir (next t).1)
      → (if b then later_or mkdir (mkdir made s) next else next s).0 ≡ true
      → There dir (if b then later_or mkdir (mkdir made s) next else next s).1
  make_later-There_byte true made dir parent s next p inv step ok =
      later_or-There made dir (mkdir made s) next (makes made s) (finds made s)
        (λ t there. step t (λ d e. subst (λ (x : Bytes). There x t) (cc (p, e)) there)) ok
  make_later-There_byte false made dir parent s next p inv step ok =
      step s (λ d e. inv d (cc (p, e))) ok

  make_later-There :
      (made rest : Bytes) (s : S)
      → ((dir : Bytes) → before_slash made ≡ some dir → There dir s)
      → (dir : Bytes) → before_slash (made ++ rest) ≡ some dir
      → (make_later mkdir made rest s).0 ≡ true
      → There dir (make_later mkdir made rest s).1
  unfolding make_later
  make_later-There made [] s inv dir e ok = inv dir (ap before_slash (sym (append-nil made)) ∙ e)
  make_later-There made (c ∷ rest) s inv dir e ok =
      make_later-There_byte (c == b'/') made dir (before_slash (made ++ c ∷ [])) s
        (make_later mkdir (made ++ c ∷ []) rest) (before_slash-append made c) inv
        (λ t inv'.
          make_later-There (made ++ c ∷ []) rest t inv' dir
            (ap before_slash (append_assoc made (c ∷ []) rest) ∙ e))
        ok

  -- The directory that the walk to the left ends at is there, and is a part of the path.
  abbrev Reached : Bytes → Option Bytes × S → Type 0
  Reached cut r =
      (d : Bytes) → r.0 ≡ some d → There d r.1 × ((rest : Bytes) × (cut ≡ d ++ b'/' ∷ rest))

  longest_or-Reached :
      (cut dir rest : Bytes)
      → cut ≡ dir ++ b'/' ∷ rest
      → (r : Made × S) (next : S → Option Bytes × S) → (r.0 ≡ done → There dir r.1)
      → (r.0 ≡ exists → There dir r.1)
      → ((t : S) → Reached dir (next t))
      → Reached cut (longest_or mkdir dir r next)
  unfolding longest_or
  longest_or-Reached cut dir rest q (done, t) next h k step d e =
      (subst (λ (x : Bytes). There x t) (cc e) (h refl), (rest, cc (q, e)))
  longest_or-Reached cut dir rest q (exists, t) next h k step d e =
      (subst (λ (x : Bytes). There x t) (cc e) (k refl), (rest, cc (q, e)))
  longest_or-Reached cut dir rest q (no_parent, t) next h k step d e =
      let (there, (rest2, q2)) = step t d e in
      (
        there,
        (
          rest2 ++ b'/' ∷ rest,
          q ∙ ap (λ (x : Bytes). x ++ b'/' ∷ rest) q2 ∙ append_assoc d (b'/' ∷ rest2) (b'/' ∷ rest),
        ),
      )
  longest_or-Reached cut dir rest q (failed, t) next h k step d e = absurd (cc e)

  longest_of-Reached :
      (next : Bytes → S → Option Bytes × S)
      → ((dir : Bytes) (t : S) → Reached dir (next dir t))
      → (cut : Bytes) (o : Option Bytes) → before_slash cut ≡ o
      → (s : S) → Reached cut (longest_of mkdir next o s)
  unfolding longest_of
  longest_of-Reached next step cut none p s d e = absurd (cc e)
  longest_of-Reached next step cut (some dir) p s d e =
      let (rest, q) = before_slash-some cut dir p in
      longest_or-Reached cut dir rest q (mkdir dir s) (next dir) (makes dir s) (finds dir s)
        (step dir) d e

  make_longest-Reached :
      (fuel : ℕ) (cut : Bytes) (s : S) → Reached cut (make_longest mkdir fuel cut s)
  unfolding make_longest
  make_longest-Reached zero cut s = λ d e. absurd (cc e)
  make_longest-Reached (suc fuel) cut s =
      longest_of-Reached (make_longest mkdir fuel) (make_longest-Reached fuel) cut
        (before_slash cut) refl s

  parent_of : (d x : Bytes) → before_slash (d ++ b'/' ∷ []) ≡ some x → d ≡ x
  parent_of d x e = cc (before_slash-append d b'/', e)

  make_rest-There :
      (path dir : Bytes) (r : Option Bytes × S)
      → Reached path r
      → before_slash path ≡ some dir
      → (make_rest mkdir path r).0 ≡ true
      → There dir (make_rest mkdir path r).1
  unfolding make_rest
  make_rest-There path dir (none, t) h e ok = absurd (cc ok)
  make_rest-There path dir (some d, t) h e ok =
      let (there, (rest, q)) = h d refl in
      let behind : drop (suc (length d)) path ≡ rest =
        ap (drop (suc (length d))) q ∙ drop-append d rest in
      let whole : (d ++ b'/' ∷ []) ++ drop (suc (length d)) path ≡ path =
        ap (λ (x : Bytes). (d ++ b'/' ∷ []) ++ x) behind
        ∙ (append_assoc d (b'/' ∷ []) rest ∙ sym q) in
      make_later-There (d ++ b'/' ∷ []) (drop (suc (length d)) path) t
        (λ x p. subst (λ (y : Bytes). There y t) (parent_of d x p) there) dir
        (ap before_slash whole ∙ e) ok

  -- Let a path be there behind a mkdir() that has made it or has found it. Then behind mkdirs() of a path,
  -- if it returns 0, what stands before the last '/' of the path is there.
  pub mkdirs-There :
      (path dir : Bytes) (s : S)
      → before_slash path ≡ some dir
      → (mkdirs mkdir path s).0 ≡ true
      → There dir (mkdirs mkdir path s).1
  unfolding mkdirs
  mkdirs-There path dir s =
      make_rest-There path dir (make_longest mkdir (suc (length path)) path s)
        (make_longest-Reached (suc (length path)) path s)
