-- ===== src/Apply/Prefix.antt =====
-- mkprefix.c: the directories above a path are made from the left, each with the mode and the owner of
-- the directory above the first one that was missing.
use Prim.Native.Nat.{bit_and}
use radmind.Base.{
  ◌-◌, Bool, true, false, [], ◌∷◌, ◌++◌, Option, none, some, ltb, ◌==◌, if◌then◌else◌, Bytes,
  length, take, codes, max_path_len,
}
use radmind.Transcript.{Stat}
use radmind.Apply.{
  made, chmoded, chowned, Answer, done, enoent, failed, Env, M, ◌>>=◌, pure, gets, attempt,
}

abbrev pub is_done : Answer → Bool
is_done done = true
is_done enoent = false
is_done failed = false

unfoldable pub is_dir : Option Stat → Bool
is_dir none = false
is_dir (some st) = bit_and 0xF000 st.st_mode == 0x4000

unfoldable pub as_parent : Option Stat → Option (Option Stat)
as_parent none = none
as_parent (some st) = some (some st)

module _ (g : Env) where
  -- The stat() of the directory above; a path that is one byte too long is cut.
  unfoldable pub parent_stat : Option Stat → Bytes → M (Option Stat)
  parent_stat (some st) path = pure (some st)
  parent_stat none path =
      let parent_path = path ++ codes "/.." in
      if ltb max_path_len (length parent_path)
      then pure none
      else gets (λ s. g.stat s.events (take (max_path_len - 1) parent_path))

  -- chmod() and chown() of a new directory; false is -1.
  unfoldable pub give_owner : Bytes → Stat → Bool → M Bool
  unfolding attempt
  give_owner path st false = pure false
  give_owner path st true =
      if g.e_uid == st.st_uid
      then pure true
      else (attempt g (chowned path st.st_uid st.st_gid) >>= λ a. pure (is_done a))

  unfoldable pub like_parent : Bytes → Option Stat → M (Option Stat)
  unfolding attempt give_owner
  like_parent path none = pure none
  like_parent path (some st) = do
    changed ← (if 0x1FF == st.st_mode then pure done else attempt g (chmoded path st.st_mode))
    owned ← give_owner path st (is_done changed)
    pure (if owned then some st else none)

  -- What mkdir() of a directory leads to: `none` is -1, and else the stat of the parent, once known.
  unfoldable pub prefix_made : Option Stat → Bytes → Answer → M (Option (Option Stat))
  unfolding parent_stat like_parent is_dir as_parent
  prefix_made parent path done = do
    st ← parent_stat parent path
    st' ← like_parent path st
    pure (as_parent st')
  prefix_made parent path enoent =
      gets (λ s. g.stat s.events path) >>= λ st. pure (if is_dir st then some parent else none)
  prefix_made parent path failed =
      gets (λ s. g.stat s.events path) >>= λ st. pure (if is_dir st then some parent else none)

  -- The walk over the rest of the path behind `path`; false is -1.
  unfoldable pub make_prefix : Bytes → Bytes → Option (Option Stat) → M Bool
  unfolding attempt prefix_made
  make_prefix path rest none = pure false
  make_prefix path [] (some parent) = pure true
  make_prefix path (c ∷ rest) (some parent) =
      let next = make_prefix (path ++ c ∷ []) rest in
      if c == b'/'
      then (attempt g (made path 0x1FF) >>= prefix_made parent path >>= next)
      else next (some parent)

  -- Past any leading '/'.
  unfoldable pub prefix_from : Bytes → Bytes → M Bool
  unfolding make_prefix
  prefix_from path [] = make_prefix path [] (some none)
  prefix_from path (c ∷ rest) =
      let later = prefix_from (path ++ c ∷ []) rest in
      if c == b'/' then later else make_prefix path (c ∷ rest) (some none)

  unfoldable pub mkprefix : Bytes → M Bool
  unfolding prefix_from
  mkprefix path = prefix_from [] path
