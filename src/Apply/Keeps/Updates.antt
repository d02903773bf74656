-- ===== src/Apply/Keeps/Updates.antt =====
-- update.c and what it calls keep the removal list.
use radmind.Base.{◌≡◌, ◌==◌, Bool, true, false, List, [], ◌∷◌, Option, none, some, ℕ, Bytes, ◌++◌}
use radmind.Transcript.{Stat}
use radmind.Apply.{
  Event, Answer, done, enoent, failed, Lstat, is, is_enoent, is_enotdir, is_failed, Env, M, pure,
  returned,
}
use radmind.Apply.Stats.{Found, found, unknown, absent, stat_found, radstat}
use radmind.Apply.Prefix.{
  parent_stat, give_owner, like_parent, prefix_made, make_prefix, prefix_from, mkprefix,
}
use radmind.Apply.Update.{
  expected, target, when, created, create, stat_known, lstat_known, lstat_again, finish,
  update_file, update_dir, update_hard_link, finish_link, make_link, update_link, update_fifo,
  make_node, update_device, update_socket, update,
}
use radmind.Apply.Keeps.{
  is_calm, Keeps, Keeps-pure, Keeps-gets, Keeps-stop, Keeps-if, Keeps-bind, Keeps-seq, Keeps-option,
  Keeps-answer, set_st-Keeps, keeps_rules, decode_word-Keeps, attempt-Keeps, must-Keeps,
}

stat_found-Keeps : (a : Lstat) → Keeps (stat_found a)
unfolding stat_found
stat_found-Keeps (is st) = search keeps_rules depth 16
stat_found-Keeps is_enoent = search keeps_rules depth 16
stat_found-Keeps is_enotdir = search keeps_rules depth 16
stat_found-Keeps is_failed = search keeps_rules depth 16

pub radstat-Keeps : (g : Env) (path : Bytes) → Keeps (radstat g path)
unfolding radstat
radstat-Keeps g path = search (keeps_rules, stat_found-Keeps) depth 16

pub expected-Keeps : (b : Bool) → Keeps (expected b)
unfolding expected
expected-Keeps true = Keeps-pure tt
expected-Keeps false = Keeps-stop (returned 1)

pub target-Keeps : (o : Option Bytes) → Keeps (target o)
unfolding target
target-Keeps none = Keeps-stop (returned 1)
target-Keeps (some t) = Keeps-pure t

pub when-Keeps : (b : Bool) (m : M (Unit {0})) → Keeps m → Keeps (when b m)
unfolding when
when-Keeps b m h = Keeps-if b m (pure tt) h (Keeps-pure tt)

pub ruleset call_rules = (
  keeps_rules, attempt-Keeps, must-Keeps, expected-Keeps, target-Keeps, when-Keeps, radstat-Keeps,
  decode_word-Keeps,
)

module _ (g : Env) where
  parent_stat-Keeps : (o : Option Stat) (path : Bytes) → Keeps (parent_stat g o path)
  unfolding parent_stat
  parent_stat-Keeps none path = search keeps_rules depth 16
  parent_stat-Keeps (some st) path = search keeps_rules depth 16

  give_owner-Keeps : (path : Bytes) (st : Stat) (b : Bool) → Keeps (give_owner g path st b)
  unfolding give_owner is_calm
  give_owner-Keeps path st true = search (call_rules) depth 16
  give_owner-Keeps path st false = search keeps_rules depth 16

  like_parent-Keeps : (path : Bytes) (o : Option Stat) → Keeps (like_parent g path o)
  unfolding like_parent is_calm
  like_parent-Keeps path none = search keeps_rules depth 16
  like_parent-Keeps path (some st) = search (call_rules, give_owner-Keeps) depth 16

  prefix_made-Keeps :
      (parent : Option Stat) (path : Bytes) (a : Answer) → Keeps (prefix_made g parent path a)
  unfolding prefix_made
  prefix_made-Keeps parent path done =
      search (keeps_rules, parent_stat-Keeps, like_parent-Keeps) depth 16
  prefix_made-Keeps parent path enoent = search keeps_rules depth 16
  prefix_made-Keeps parent path failed = search keeps_rules depth 16

  make_prefix-Keeps :
      (path rest : Bytes) (o : Option (Option Stat)) → Keeps (make_prefix g path rest o)
  unfolding make_prefix is_calm
  make_prefix-Keeps path rest none = search keeps_rules depth 16
  make_prefix-Keeps path [] (some parent) = search keeps_rules depth 16
  make_prefix-Keeps path (c ∷ rest) (some parent) =
      let next = make_prefix-Keeps (path ++ c ∷ []) rest in
      search (call_rules, prefix_made-Keeps, next) depth 16

  prefix_from-Keeps : (path rest : Bytes) → Keeps (prefix_from g path rest)
  unfolding prefix_from
  prefix_from-Keeps path [] = make_prefix-Keeps path [] (some none)
  prefix_from-Keeps path (c ∷ rest) =
      Keeps-if (c == b'/') _ _ (prefix_from-Keeps (path ++ c ∷ []) rest)
        (make_prefix-Keeps path (c ∷ rest) (some none))

  pub mkprefix-Keeps : (path : Bytes) → Keeps (mkprefix g path)
  unfolding mkprefix
  mkprefix-Keeps path = prefix_from-Keeps [] path

  created-Keeps :
      (path : Bytes) (e : Event) → is_calm e ≡ true → (a : Answer) → Keeps (created g path e a)
  unfolding created
  created-Keeps path e h done = search keeps_rules depth 16
  created-Keeps path e h enoent = search (call_rules, mkprefix-Keeps, h) depth 16
  created-Keeps path e h failed = search keeps_rules depth 16

  create-Keeps : (path : Bytes) (e : Event) → is_calm e ≡ true → Keeps (create g path e)
  unfolding create
  create-Keeps path e h = search (call_rules, created-Keeps, h) depth 16

  pub stat_known-Keeps : (a : Found) → Keeps (stat_known g a)
  unfolding stat_known
  stat_known-Keeps (found t) = search keeps_rules depth 16
  stat_known-Keeps unknown = search keeps_rules depth 16
  stat_known-Keeps absent = search keeps_rules depth 16
  stat_known-Keeps Found.failed = search keeps_rules depth 16

  lstat_known-Keeps : (a : Lstat) → Keeps (lstat_known g a)
  unfolding lstat_known
  lstat_known-Keeps (is st) = search keeps_rules depth 16
  lstat_known-Keeps is_enoent = search keeps_rules depth 16
  lstat_known-Keeps is_enotdir = search keeps_rules depth 16
  lstat_known-Keeps is_failed = search keeps_rules depth 16

  lstat_again-Keeps : (path : Bytes) → Keeps (lstat_again g path)
  unfolding lstat_again
  lstat_again-Keeps path = search (keeps_rules, lstat_known-Keeps) depth 16

  finish-Keeps : (path : Bytes) (mode uid gid : ℕ) → Keeps (finish g path mode uid gid)
  unfolding finish is_calm
  finish-Keeps path mode uid gid = search (call_rules) depth 16

  update_file-Keeps : (path : Bytes) (argv : List Bytes) → Keeps (update_file g path argv)
  unfolding update_file is_calm
  update_file-Keeps path argv = search (call_rules, finish-Keeps) depth 16

  update_dir-Keeps :
      (path : Bytes) (present : Bool) (argv : List Bytes) → Keeps (update_dir g path present argv)
  unfolding update_dir is_calm
  update_dir-Keeps path present argv =
      search (call_rules, create-Keeps, stat_known-Keeps, finish-Keeps) depth 16

  update_hard_link-Keeps : (path : Bytes) (argv : List Bytes) → Keeps (update_hard_link g path argv)
  unfolding update_hard_link is_calm
  update_hard_link-Keeps path argv = search (call_rules, create-Keeps) depth 16

  finish_link-Keeps : (path : Bytes) (mode uid gid : ℕ) → Keeps (finish_link g path mode uid gid)
  unfolding finish_link is_calm
  finish_link-Keeps path mode uid gid = search (call_rules) depth 16

  make_link-Keeps :
      (path : Bytes) (present : Bool) (last : Bytes) (mode uid gid : ℕ)
      → Keeps (make_link g path present last mode uid gid)
  unfolding make_link is_calm
  make_link-Keeps path present last mode uid gid =
      search (call_rules, create-Keeps, finish_link-Keeps) depth 16

  update_link-Keeps :
      (path : Bytes) (present : Bool) (argv : List Bytes) → Keeps (update_link g path present argv)
  unfolding update_link
  update_link-Keeps path present argv = search (keeps_rules, make_link-Keeps) depth 16

  update_fifo-Keeps :
      (path : Bytes) (present : Bool) (argv : List Bytes) → Keeps (update_fifo g path present argv)
  unfolding update_fifo is_calm
  update_fifo-Keeps path present argv =
      search (call_rules, create-Keeps, lstat_again-Keeps, finish-Keeps) depth 16

  make_node-Keeps :
      (path : Bytes) (kept : Bool) (mode : ℕ) (dev : ℕ × ℕ) → Keeps (make_node g path kept mode dev)
  unfolding make_node is_calm
  make_node-Keeps path true mode dev = search keeps_rules depth 16
  make_node-Keeps path false mode dev =
      search (call_rules, create-Keeps, lstat_again-Keeps) depth 16

  update_device-Keeps :
      (path : Bytes) (present : Bool) (argv : List Bytes)
      → Keeps (update_device g path present argv)
  unfolding update_device is_calm
  update_device-Keeps path present argv =
      search (call_rules, make_node-Keeps, finish-Keeps) depth 16

  update_socket-Keeps :
      (path : Bytes) (present : Bool) (argv : List Bytes)
      → Keeps (update_socket g path present argv)
  unfolding update_socket
  update_socket-Keeps path present argv = search (call_rules, finish-Keeps) depth 16

  pub update-Keeps :
      (path : Bytes) (present : Bool) (argv : List Bytes) → Keeps (update g path present argv)
  unfolding update
  update-Keeps path present argv =
      search
        (
          keeps_rules, update_file-Keeps, update_dir-Keeps, update_hard_link-Keeps,
          update_link-Keeps, update_fifo-Keeps, update_device-Keeps, update_socket-Keeps,
        )
        depth 24
