-- ===== src/Server/Files.antt =====
-- command_k() and read_kfile() leave a client's rights alone, and add to the events replies and opened files at most.
use radmind.Base.{
  ◌≡◌, refl, Bool, true, false, List, [], ◌∷◌, Option, none, some, ℕ, zero, suc, ◌++◌, codes, Bytes,
}
use radmind.CLibrary.Strings.{fitting, before_slash}
use radmind.Server.Special.{words}
use radmind.PathList.{PathList}
use radmind.Wildcard.{Match, matched, unmatched, overread, out_of_fuel}
use radmind.Server.{Event, reply, opened, Env, Out, M, gets, ◌>>=◌}
use radmind.Server.Adds.{
  Adds, Adds-quiet, Adds-pure, Adds-stop, Adds-option, Adds-if, Adds-bind, Adds-gets, adds_rules,
}
use radmind.Server.Config.{
  matches, match_config_entry, include_line, set_special_dir, set_command_file, config_line,
  config_file, special_parent, special_child, set_access, set_special, set_command, kfile_at,
  close_kfile, kfile_text, with_config, command_k, unavailable, grant, kfile_line, kfile_lines,
  open_kfile, read_kfile,
}

module _ {allowed : Event → Bool} {strict kept : Bool} where
  set_access-Adds : (list : PathList) → Adds allowed strict kept (set_access list)
  unfolding set_access
  set_access-Adds list = Adds-quiet (set_access list) (λ s. refl) (λ s. refl) (λ s. refl)

  set_special-Adds : (path : Bytes) → Adds allowed strict kept (set_special path)
  unfolding set_special
  set_special-Adds path = Adds-quiet (set_special path) (λ s. refl) (λ s. refl) (λ s. refl)

  set_command-Adds : (file : Bytes) → Adds allowed strict kept (set_command file)
  unfolding set_command
  set_command-Adds file = Adds-quiet (set_command file) (λ s. refl) (λ s. refl) (λ s. refl)

  matches-Adds : (m : Match) → Adds allowed strict kept (matches m)
  unfolding matches
  matches-Adds matched = Adds-pure true
  matches-Adds unmatched = Adds-pure false
  matches-Adds overread = Adds-stop Out.crashed
  matches-Adds out_of_fuel = Adds-stop Out.out_of_fuel

  module _ (g : Env) where
    match_config_entry-Adds :
        (entry : Bytes) → Adds allowed strict kept (match_config_entry g entry)
    unfolding match_config_entry
    match_config_entry-Adds entry = search (adds_rules, matches-Adds) depth 16

    include_line-Adds :
        (include : Bytes → M Bool)
        → ((path : Bytes) → Adds allowed strict kept (include path))
        → (av : List Bytes) → Adds allowed strict kept (include_line g (some include) av)
    unfolding include_line
    include_line-Adds include h av = search (adds_rules, match_config_entry-Adds, h) depth 16

    special_parent-Adds : (dir : Option Bytes) → Adds allowed strict kept (special_parent g dir)
    unfolding special_parent
    special_parent-Adds none = search (adds_rules, set_special-Adds)
    special_parent-Adds (some dir) = search (adds_rules, set_special-Adds)

    special_child-Adds : (path : Option Bytes) → Adds allowed strict kept (special_child g path)
    unfolding special_child
    special_child-Adds none = Adds-pure none
    special_child-Adds (some path) = search (adds_rules, set_special-Adds)

    set_special_dir-Adds : (file : Bytes) → Adds allowed strict kept (set_special_dir g file)
    unfolding set_special_dir
    set_special_dir-Adds file = special_parent-Adds (before_slash file)

    set_command_file-Adds :
        (file host : Bytes) → Adds allowed strict kept (set_command_file g file host)
    unfolding set_command_file
    set_command_file-Adds file host = search (adds_rules, set_command-Adds, special_child-Adds)

    config_line-Adds :
        (include : Option (Bytes → M Bool))
        → ((av : List Bytes) → Adds allowed strict kept (include_line g include av))
        → (av : List Bytes) → Adds allowed strict kept (config_line g include av)
    unfolding config_line
    config_line-Adds include h av =
        search (adds_rules, match_config_entry-Adds, set_special_dir-Adds, set_command_file-Adds, h)
          depth 16

    config_file-Adds :
        (include : Option (Bytes → M Bool))
        → ((av : List Bytes) → Adds allowed strict kept (include_line g include av))
        → (lines : List Bytes) → Adds allowed strict kept (config_file g include lines)
    unfolding config_file
    config_file-Adds include h [] = Adds-pure false
    config_file-Adds include h (line ∷ lines) =
        Adds-bind (config_line g include (words line)) _ (config_line-Adds include h (words line))
          (Adds-option _ (config_file-Adds include h lines) (λ ok. Adds-pure ok))

    with_config-Adds :
        ((path : Bytes) → allowed (opened path) ≡ true)
        → (include : Option (Bytes → M Bool))
        → ((av : List Bytes) → Adds allowed strict kept (include_line g include av))
        → (path : Bytes) → Adds allowed strict kept (with_config g include path)
    unfolding with_config
    with_config-Adds opens include h path = search (adds_rules, config_file-Adds, h, opens) depth 16

    pub command_k-Adds :
        ((path : Bytes) → allowed (opened path) ≡ true)
        → (depth : ℕ) (path : Bytes) → Adds allowed strict kept (command_k g depth path)
    unfolding command_k include_line
    command_k-Adds opens zero path = with_config-Adds opens none (λ av. Adds-pure (some false)) path
    command_k-Adds opens (suc depth) path =
        with_config-Adds opens (some (command_k g depth))
          (include_line-Adds (command_k g depth) (command_k-Adds opens depth)) path

module _ {allowed : Event → Bool} {strict kept : Bool}
    (replies : (n : ℕ) → allowed (reply n) ≡ true)
    (opens : (path : Bytes) → allowed (opened path) ≡ true) where
  unavailable-Adds : Adds allowed strict kept unavailable
  unfolding unavailable
  unavailable-Adds = search (adds_rules, replies)

  grant-Adds : (name : Bytes) → Adds allowed strict kept (grant name)
  unfolding grant
  grant-Adds name = search (adds_rules, unavailable-Adds, set_access-Adds)

  kfile_line-Adds :
      (nested : Bytes → M Bool)
      → ((name : Bytes) → Adds allowed strict kept (nested name))
      → (av : List Bytes) → Adds allowed strict kept (kfile_line nested av)
  unfolding kfile_line
  kfile_line-Adds nested h av = search (adds_rules, unavailable-Adds, grant-Adds, h) depth 20

  kfile_lines-Adds :
      (nested : Bytes → M Bool)
      → ((name : Bytes) → Adds allowed strict kept (nested name))
      → (lines : List Bytes) → Adds allowed strict kept (kfile_lines nested lines)
  unfolding kfile_lines
  kfile_lines-Adds nested h [] = Adds-pure true
  kfile_lines-Adds nested h (line ∷ lines) =
      Adds-bind (kfile_line nested (words line)) _ (kfile_line-Adds nested h (words line))
        (λ ok. Adds-if ok _ _ (kfile_lines-Adds nested h lines) (Adds-pure false))

  kfile_text-Adds :
      (nested : Bytes → M Bool)
      → ((name : Bytes) → Adds allowed strict kept (nested name))
      → (path : Bytes) (file : Option Bytes)
      → Adds allowed strict kept (kfile_text nested path file)
  unfolding kfile_text
  kfile_text-Adds nested h path none = unavailable-Adds
  kfile_text-Adds nested h path (some text) = search (adds_rules, opens, kfile_lines-Adds, h)

  close_kfile-Adds : (g : Env) (path : Bytes) → Adds allowed strict kept (close_kfile g path)
  unfolding close_kfile
  close_kfile-Adds g path = search (adds_rules, unavailable-Adds)

  kfile_at-Adds :
      (g : Env) (nested : Bytes → M Bool)
      → ((name : Bytes) → Adds allowed strict kept (nested name))
      → (path : Option Bytes) → Adds allowed strict kept (kfile_at g nested path)
  unfolding kfile_at
  kfile_at-Adds g nested h none = unavailable-Adds
  kfile_at-Adds g nested h (some path) =
      Adds-bind (gets (λ s. g.contents s.events path) >>= kfile_text nested path) _
        (Adds-bind _ _ (Adds-gets _) (kfile_text-Adds nested h path))
        (λ ok. Adds-if ok _ _ (close_kfile-Adds g path) (Adds-pure false))

  open_kfile-Adds :
      (g : Env) (nested : Bytes → M Bool)
      → ((name : Bytes) → Adds allowed strict kept (nested name))
      → (name : Bytes) → Adds allowed strict kept (open_kfile g nested name)
  unfolding open_kfile
  open_kfile-Adds g nested h name = kfile_at-Adds g nested h (fitting (codes "command/" ++ name))

  pub read_kfile-Adds :
      (g : Env) (fuel : ℕ) (name : Bytes) → Adds allowed strict kept (read_kfile g fuel name)
  unfolding read_kfile
  read_kfile-Adds g zero name = Adds-stop Out.out_of_fuel
  read_kfile-Adds g (suc fuel) name =
      open_kfile-Adds g (read_kfile g fuel) (read_kfile-Adds g fuel) name
