-- ===== src/Apply/Update.antt =====
-- update.c: an object is made as its line says, and given the line's owner, mode and time. Progress
-- and output are left out, and so are the Mac parts. The return value 1 ends the function with
-- `returned 1`, the other ones are values.
use Prim.Native.Nat.{bit_and, bit_or}
use radmind.Base.{
  ℕ, Bool, true, false, not, ◌&&◌, ◌||◌, List, [], Option, none, some, ◌==◌, if◌then◌else◌, Bytes,
  length, get_or, peek, ℤ, pos, negsuc,
}
use radmind.CLibrary.{strtol, to_u32, atoi_u32}
use radmind.Transcript.{Stat}
use radmind.Apply.{
  Event, timed, made, linked, symlinked, unlinked, lchowned, lchmoded, fifo, special_node, chowned,
  chmoded, Answer, done, enoent, failed, Lstat, is, is_enoent, is_enotdir, is_failed, Env, returned,
  M, ◌>>=◌, ◌>>◌, pure, gets, stop, set_st, decode_word, attempt, must,
}
use radmind.Apply.Stats.{Found, found, unknown, absent, failed, radstat}
use radmind.Apply.Prefix.{mkprefix}

abbrev pub t_mode : ℕ
t_mode = 0xFFF

-- S_ISUID | S_ISGID
abbrev pub set_ids : ℕ
set_ids = 0xC00

abbrev pub same_ℤ : ℤ → ℤ → Bool
same_ℤ (pos a) (pos b) = a == b
same_ℤ (pos a) (negsuc b) = false
same_ℤ (negsuc a) (pos b) = false
same_ℤ (negsuc a) (negsuc b) = a == b

-- `uid != st->st_uid || gid != st->st_gid`
unfoldable pub owner_differs : ℕ → ℕ → Stat → Bool
owner_differs uid gid st = not (uid == st.st_uid) || not (gid == st.st_gid)

-- The test in front of chmod() and of lchmod().
unfoldable pub mode_differs : ℕ → ℕ → ℕ → Stat → Bool
unfolding owner_differs
mode_differs mode uid gid st =
    not (mode == bit_and t_mode st.st_mode)
    || (owner_differs uid gid st && not (bit_and mode set_ids == 0))

unfoldable pub expected : Bool → M (Unit {0})
expected true = pure tt
expected false = stop (returned 1)

unfoldable pub octal : Bytes → ℕ
unfolding strtol to_u32
octal w = to_u32 (strtol w 8)

-- A target that is too long.
unfoldable pub target : Option Bytes → M Bytes
target none = stop (returned 1)
target (some t) = pure t

unfoldable pub when : Bool → M (Unit {0}) → M (Unit {0})
when b m = if b then m else pure tt

module _ (g : Env) where
  -- A call that makes something in a directory that may be missing.
  unfoldable pub created : Bytes → Event → Answer → M (Unit {0})
  unfolding mkprefix expected must
  created path e done = pure tt
  created path e enoent =
      if g.create_prefix then (mkprefix g path >>= expected) >> must g e else stop (returned 1)
  created path e failed = stop (returned 1)

  unfoldable pub create : Bytes → Event → M (Unit {0})
  unfolding attempt created
  create path e = attempt g e >>= created path e

  -- radstat() of a new directory, and lstat() of a new node.
  unfoldable pub stat_known : Found → M (Unit {0})
  stat_known (found t) = pure tt
  stat_known unknown = pure tt
  stat_known absent = stop (returned 1)
  stat_known failed = stop (returned 1)

  unfoldable pub lstat_known : Lstat → M (Unit {0})
  unfolding set_st
  lstat_known (is st) = set_st st
  lstat_known is_enoent = stop (returned 1)
  lstat_known is_enotdir = stop (returned 1)
  lstat_known is_failed = stop (returned 1)

  unfoldable pub lstat_again : Bytes → M (Unit {0})
  unfolding lstat_known
  lstat_again path = gets (λ s. g.lstat s.events path) >>= lstat_known

  -- What follows the switch: the owner, then the mode.
  unfoldable pub finish : Bytes → ℕ → ℕ → ℕ → M ℕ
  unfolding when must owner_differs mode_differs
  finish path mode uid gid = do
    st ← gets (λ s. s.st)
    when (owner_differs uid gid st) (must g (chowned path uid gid))
    when (mode_differs mode uid gid st) (must g (chmoded path mode))
    pure 0

  unfoldable pub update_file : Bytes → List Bytes → M ℕ
  unfolding expected when must finish octal atoi_u32 strtol
  update_file path argv = do
    expected (length argv == 8)
    st ← gets (λ s. s.st)
    when (not (same_ℤ (strtol (get_or argv 5 []) 10) st.st_mtime)) (must g (timed path))
    finish path (octal (get_or argv 2 [])) (atoi_u32 (get_or argv 3 []))
        (atoi_u32 (get_or argv 4 []))

  unfoldable pub update_dir : Bytes → Bool → List Bytes → M ℕ
  unfolding expected when create radstat stat_known finish octal atoi_u32
  update_dir path present argv = do
    expected (length argv == 5)
    when (not present)
        (create path (made path (octal (get_or argv 2 []))) >> (radstat g path >>= stat_known))
    finish path (octal (get_or argv 2 [])) (atoi_u32 (get_or argv 3 []))
        (atoi_u32 (get_or argv 4 []))

  unfoldable pub update_hard_link : Bytes → List Bytes → M ℕ
  unfolding expected decode_word target create
  update_hard_link path argv = do
    expected (length argv == 3)
    word ← decode_word (get_or argv 2 [])
    d_target ← target word
    create path (linked d_target path)
    pure 0

  -- The part behind symlink(); the owner and the mode are compared with those that `st` has kept.
  unfoldable pub finish_link : Bytes → ℕ → ℕ → ℕ → M ℕ
  unfolding when must owner_differs mode_differs
  finish_link path mode uid gid = do
    st ← gets (λ s. s.st)
    when (g.have_lchown && owner_differs uid gid st) (must g (lchowned path uid gid))
    when (g.have_lchmod && mode_differs mode uid gid st) (must g (lchmoded path mode))
    pure 0

  -- The link, whose target is the last word.
  unfoldable pub make_link : Bytes → Bool → Bytes → ℕ → ℕ → ℕ → M ℕ
  unfolding when must decode_word target create finish_link
  make_link path present last mode uid gid = do
    when present (must g (unlinked path))
    word ← decode_word last
    d_target ← target word
    create path (symlinked d_target path)
    finish_link path mode uid gid

  unfoldable pub update_link : Bytes → Bool → List Bytes → M ℕ
  unfolding make_link octal atoi_u32
  update_link path present argv =
      if length argv == 3
      then make_link path present (get_or argv 2 []) 0x1FF 0 0
      else (if length argv == 6
          then make_link path present (get_or argv 5 []) (octal (get_or argv 2 []))
              (atoi_u32 (get_or argv 3 [])) (atoi_u32 (get_or argv 4 []))
          else stop (returned 1))

  -- mode | S_IFIFO
  unfoldable pub update_fifo : Bytes → Bool → List Bytes → M ℕ
  unfolding expected when create lstat_again finish octal atoi_u32
  update_fifo path present argv = do
    expected (length argv == 5)
    when (not present)
        (create path (fifo path (bit_or (octal (get_or argv 2 [])) 0x1000)) >> lstat_again path)
    finish path (bit_or (octal (get_or argv 2 [])) 0x1000) (atoi_u32 (get_or argv 3 []))
        (atoi_u32 (get_or argv 4 []))

  -- The mode has S_IFBLK or S_IFCHR if the node is made here.
  unfoldable pub make_node : Bytes → Bool → ℕ → ℕ × ℕ → M ℕ
  unfolding create lstat_again
  make_node path true mode dev = pure mode
  make_node path false mode dev =
      create path (special_node path mode dev) >> lstat_again path >> pure mode

  unfoldable pub same_device : ℕ × ℕ → Stat → Bool
  same_device dev st = (dev.1 == st.st_rdev.1) && (dev.0 == st.st_rdev.0)

  unfoldable pub update_device : Bytes → Bool → List Bytes → M ℕ
  unfolding expected when must make_node same_device finish octal atoi_u32
  update_device path present argv = do
    expected (length argv == 7)
    st ← gets (λ s. s.st)
    when
        (present && not (same_device (atoi_u32 (get_or argv 5 []), atoi_u32 (get_or argv 6 [])) st))
        (must g (unlinked path))
    mode ←
        (let kept =
            present && same_device (atoi_u32 (get_or argv 5 []), atoi_u32 (get_or argv 6 [])) st in
          let format = if peek (get_or argv 0 []) == b'b' then 0x6000 else 0x2000 in
          let mode = octal (get_or argv 2 []) in
          make_node path kept (if kept then mode else bit_or mode format)
            (atoi_u32 (get_or argv 5 []), atoi_u32 (get_or argv 6 [])))
    finish path mode (atoi_u32 (get_or argv 3 [])) (atoi_u32 (get_or argv 4 []))

  -- A socket or a door is not made.
  unfoldable pub update_socket : Bytes → Bool → List Bytes → M ℕ
  unfolding expected finish octal atoi_u32
  update_socket path present argv =
      expected (length argv == 5)
      >> (if present
          then finish path (octal (get_or argv 2 [])) (atoi_u32 (get_or argv 3 []))
              (atoi_u32 (get_or argv 4 []))
          else pure 2)

  -- The switch on the type.
  unfoldable pub update : Bytes → Bool → List Bytes → M ℕ
  unfolding update_file update_dir update_hard_link update_link update_fifo update_device
      update_socket
  update path present argv =
      let type = peek (get_or argv 0 []) in
      if (type == b'a') || (type == b'f')
      then update_file path argv
      else (if type == b'd'
          then update_dir path present argv
          else (if type == b'h'
              then update_hard_link path argv
              else (if type == b'l'
                  then update_link path present argv
                  else (if type == b'p'
                      then update_fifo path present argv
                      else (if (type == b'b') || (type == b'c')
                          then update_device path present argv
                          else (if (type == b's') || (type == b'D')
                              then update_socket path present argv
                              else stop (returned 1)))))))
