-- ===== src/Mkdirs/Walk.antt =====
-- What holds from one call of mkdir() to the next holds of the whole of mkdirs().
use radmind.Base.{
  ℕ, zero, suc, Bool, [], ◌∷◌, ◌++◌, Option, none, some, ◌==◌, Bool-cases, Bytes, length, drop, inl,
  inr,
}
use radmind.CLibrary.Strings.{before_slash}
use radmind.Mkdirs.{
  Made, done, exists, no_parent, failed, longest_or, longest_of, make_longest, later_or, make_later,
  make_rest, mkdirs,
}

module _ {S : Type 0} (R : S → S → Type 0) (R-refl : (s : S) → R s s)
    (R-trans : (s t u : S) → R s t → R t u → R s u) (mkdir : Bytes → S → Made × S)
    (step : (path : Bytes) (s : S) → R s (mkdir path s).1) where
  longest_or-Related :
      (s : S) (dir : Bytes) (r : Made × S) (next : S → Option Bytes × S)
      → R s r.1
      → ((t : S) → R t (next t).1)
      → R s (longest_or mkdir dir r next).1
  unfolding longest_or
  longest_or-Related s dir (done, t) next h k = h
  longest_or-Related s dir (exists, t) next h k = h
  longest_or-Related s dir (no_parent, t) next h k = R-trans s t (next t).1 h (k t)
  longest_or-Related s dir (failed, t) next h k = h

  longest_of-Related :
      (next : Bytes → S → Option Bytes × S)
      → ((dir : Bytes) (t : S) → R t (next dir t).1)
      → (o : Option Bytes) (s : S) → R s (longest_of mkdir next o s).1
  unfolding longest_of
  longest_of-Related next k none s = R-refl s
  longest_of-Related next k (some dir) s =
      longest_or-Related s dir (mkdir dir s) (next dir) (step dir s) (k dir)

  make_longest-Related : (fuel : ℕ) (cut : Bytes) (s : S) → R s (make_longest mkdir fuel cut s).1
  unfolding make_longest
  make_longest-Related zero cut s = R-refl s
  make_longest-Related (suc fuel) cut s =
      longest_of-Related (make_longest mkdir fuel) (make_longest-Related fuel) (before_slash cut) s

  later_or-Related :
      (s : S) (r : Made × S) (next : S → Bool × S)
      → R s r.1
      → ((t : S) → R t (next t).1)
      → R s (later_or mkdir r next).1
  unfolding later_or
  later_or-Related s (done, t) next h k = R-trans s t (next t).1 h (k t)
  later_or-Related s (exists, t) next h k = R-trans s t (next t).1 h (k t)
  later_or-Related s (no_parent, t) next h k = h
  later_or-Related s (failed, t) next h k = h

  make_later-Related : (made rest : Bytes) (s : S) → R s (make_later mkdir made rest s).1
  unfolding make_later
  make_later-Related made [] s = R-refl s
  make_later-Related made (c ∷ rest) s =
      let ih = make_later-Related (made ++ c ∷ []) rest in
      elim (Bool-cases (c == b'/')) [
        | inl e ↦ rw e (
            later_or-Related s (mkdir made s) (make_later mkdir (made ++ c ∷ []) rest) (step made s)
              ih)
        | inr e ↦ rw e (ih s)
      ]

  make_rest-Related :
      (path : Bytes) (s : S) (r : Option Bytes × S) → R s r.1 → R s (make_rest mkdir path r).1
  unfolding make_rest
  make_rest-Related path s (none, t) h = h
  make_rest-Related path s (some dir, t) h =
      let made = dir ++ b'/' ∷ [] in
      let rest = drop (suc (length dir)) path in
      R-trans s t (make_later mkdir made rest t).1 h (make_later-Related made rest t)

  pub mkdirs-Related : (path : Bytes) (s : S) → R s (mkdirs mkdir path s).1
  unfolding mkdirs
  mkdirs-Related path s =
      make_rest-Related path s (make_longest mkdir (suc (length path)) path s)
        (make_longest-Related (suc (length path)) path s)
