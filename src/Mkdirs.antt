-- ===== src/Mkdirs.antt =====
-- mkdirs.c: the directories above a path, the longest one that can be made first. The bytes of a path
-- are cut at a '/' for each call of mkdir(), and put back.
pub mod Walk
pub mod Parent
mod Examples
use radmind.Base.{
  ℕ, zero, suc, Bool, true, false, List, [], ◌∷◌, ◌++◌, Option, none, some, ◌==◌, if◌then◌else◌,
  Bytes, length, drop,
}
use radmind.CLibrary.Strings.{before_slash}

-- mkdir() as its callers tell its results apart: done, EEXIST, ENOENT, or another error.
pub data Made : Type 0 where
  done exists no_parent failed : Made

-- Over the states of the system.
module _ {S : Type 0} (mkdir : Bytes → S → Made × S) where
  -- A directory that is there ends the walk to the left, and its parent is tried if mkdir() asks for it.
  unfoldable pub longest_or : Bytes → Made × S → (S → Option Bytes × S) → Option Bytes × S
  longest_or dir (done, s) next = (some dir, s)
  longest_or dir (exists, s) next = (some dir, s)
  longest_or dir (no_parent, s) next = next s
  longest_or dir (failed, s) next = (none, s)

  unfoldable pub longest_of : (Bytes → S → Option Bytes × S) → Option Bytes → S → Option Bytes × S
  unfolding longest_or
  longest_of next none s = (none, s)
  longest_of next (some dir) s = longest_or dir (mkdir dir s) (next dir)

  -- The walk to the left. `cut` is the path up to the byte that is overwritten; `none` is -1.
  unfoldable pub make_longest : ℕ → Bytes → S → Option Bytes × S
  unfolding before_slash longest_of
  make_longest zero cut s = (none, s)
  make_longest (suc fuel) cut s = longest_of (make_longest fuel) (before_slash cut) s

  unfoldable pub later_or : Made × S → (S → Bool × S) → Bool × S
  later_or (done, s) next = next s
  later_or (exists, s) next = next s
  later_or (no_parent, s) next = (false, s)
  later_or (failed, s) next = (false, s)

  -- The walk to the right, over the rest of the path behind `made`; false is -1.
  unfoldable pub make_later : Bytes → Bytes → S → Bool × S
  unfolding later_or
  make_later made [] s = (true, s)
  make_later made (c ∷ rest) s =
      let next = make_later (made ++ c ∷ []) rest in
      if c == b'/' then later_or (mkdir made s) next else next s

  -- The first directory made is the parent itself when nothing is left to make.
  unfoldable pub make_rest : Bytes → Option Bytes × S → Bool × S
  unfolding make_later
  make_rest path (none, s) = (false, s)
  make_rest path (some dir, s) = make_later (dir ++ b'/' ∷ []) (drop (suc (length dir)) path) s

  -- Each round of the first walk shortens the path, so its length is enough.
  unfoldable pub mkdirs : Bytes → S → Bool × S
  unfolding make_longest make_rest
  mkdirs path s = make_rest path (make_longest (suc (length path)) path s)
