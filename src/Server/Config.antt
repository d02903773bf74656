-- ===== src/Server/Config.antt =====
-- command_k() and read_kfile(): the command file of a client, and the names that it may ask for.
use radmind.Base.{
  ℕ, zero, suc, ◌-◌, Bool, true, false, not, ◌&&◌, ◌||◌, List, [], ◌∷◌, ◌++◌, Option, none, some,
  leb, ltb, ◌==◌, if◌then◌else◌, Bytes, length, codes, max_path_len, peek, take,
}
use radmind.CLibrary.{file_lines}
use radmind.CLibrary.Strings.{fitting, before_slash, same_string}
use radmind.Wildcard.{Match, matched, unmatched, wildcard}
use radmind.PathList.{PathList, list_check, list_insert}
use radmind.Server.{
  reply, opened, Env, Out, crashed, M, ◌>>=◌, ◌>>◌, pure, gets, stop, modify, emit,
}
use radmind.Server.Keyword.{word}
use radmind.Server.Special.{words}

-- RADMIND_MAX_INCLUDE_DEPTH
abbrev pub max_include_depth : ℕ
max_include_depth = 10

-- wildcard(), in the conditions of match_config_entry().
unfoldable pub matches : Match → M Bool
matches matched = pure true
matches unmatched = pure false
matches Match.overread = stop crashed
matches Match.out_of_fuel = stop Out.out_of_fuel

-- fopen() and fgets() leave the file of a name to read, or there is the answer 421.
unfoldable pub unavailable : M Bool
unavailable = emit (reply 421) >> pure false

unfoldable pub set_access : PathList → M (Unit {0})
set_access list = modify (λ s. record s { access_list = list })

unfoldable pub set_special : Bytes → M (Unit {0})
set_special path = modify (λ s. record s { special_dir = path })

unfoldable pub set_command : Bytes → M (Unit {0})
set_command file = modify (λ s. record s { command_file = file })

-- list_insert() into the access list.
unfoldable pub grant : Bytes → M Bool
unfolding list_insert unavailable set_access
grant name = gets (λ s. list_insert s.access_list name) >>= λ inserted. elim inserted [
  | none ↦ unavailable
  | some list ↦ set_access list >> pure true
]

-- A line of a command file; `nested` is read_kfile() of another. False is the jump to `error`.
unfoldable pub kfile_line : (Bytes → M Bool) → List Bytes → M Bool
unfolding grant unavailable list_check
kfile_line nested av =
    let kind = peek (word av 0) in
    let name = word av 1 in
    if (length av == 0) || (kind == b'#') || (kind == b'-')
    then pure true
    else (if not (length av == 2)
        then unavailable
        else (if (kind == b's') || (kind == b'x')
            then pure true
            else (if (kind == b'k') || (kind == b'p') || (kind == b'n')
                then (gets (λ s. list_check s.access_list name) >>= λ known.
                    if known
                    then pure true
                    else (grant name >>= λ granted.
                        if granted && (kind == b'k') then nested name else pure granted))
                else unavailable)))

unfoldable pub kfile_lines : (Bytes → M Bool) → List Bytes → M Bool
unfolding kfile_line words
kfile_lines nested [] = pure true
kfile_lines nested (line ∷ lines) =
    kfile_line nested (words line) >>= λ ok. if ok then kfile_lines nested lines else pure false

-- The file that fopen() opens at a path, if it does, and the loop.
unfoldable pub kfile_text : (Bytes → M Bool) → Bytes → Option Bytes → M Bool
unfolding kfile_lines unavailable file_lines
kfile_text nested path none = unavailable
kfile_text nested path (some text) =
    emit (opened path) >> kfile_lines nested (file_lines max_path_len text)

module _ (g : Env) where
  -- The name that matches: that of the certificate, of the host, or the address.
  unfoldable pub match_config_entry : Bytes → M (Option Bytes)
  unfolding matches wildcard
  match_config_entry entry =
      let by_host : M (Option Bytes) = matches (wildcard entry g.remote_host false) >>= λ host.
      if host
      then pure (some g.remote_host)
      else (matches (wildcard entry g.remote_addr true) >>= λ addr.
          if addr then pure (some g.remote_addr) else pure none) in
      gets (λ s. s.remote_cn) >>= λ cn. elim cn [
        | none ↦ by_host
        | some name ↦
            matches (wildcard entry name false) >>= λ ok. if ok then pure (some name) else by_host
      ]

  -- An @include line: `none` is `continue`. There is no `include` at the greatest depth.
  unfoldable pub include_line : Option (Bytes → M Bool) → List Bytes → M (Option Bool)
  unfolding match_config_entry
  include_line none av = pure (some false)
  include_line (some include) av =
      let included : M (Option Bool) =
        include (word av 1) >>= λ ok. pure (if ok then some true else none) in
      if ltb 3 (length av)
      then pure none
      else (if length av == 3
          then (match_config_entry (word av 2) >>= λ host. elim host [
            | none ↦ pure none
            | some h ↦ included
          ])
          else included)

  -- The directory of special files; a path that is too long is cut, and the line left.
  unfoldable pub special_parent : Option Bytes → M Bool
  unfolding set_special
  special_parent none = set_special (codes "special") >> pure true
  special_parent (some dir) =
      let path = codes "special/" ++ dir in
      set_special (take (max_path_len - 1) path) >> pure (not (leb max_path_len (length path)))

  unfoldable pub set_special_dir : Bytes → M Bool
  unfolding before_slash special_parent
  set_special_dir file = special_parent (before_slash file)

  -- The directory for the host, if its path fits.
  unfoldable pub special_child : Option Bytes → M (Option Bool)
  unfolding set_special
  special_child none = pure none
  special_child (some path) = set_special path >> pure (some true)

  -- The client's own line.
  unfoldable pub set_command_file : Bytes → Bytes → M (Option Bool)
  unfolding fitting special_child set_command
  set_command_file file host = if leb max_path_len (length file) then pure none else (do
    set_command file
    dir ← gets (λ s. s.special_dir)
    special_child (fitting (dir ++ b'/' ∷ host)))

  unfoldable pub config_line : Option (Bytes → M Bool) → List Bytes → M (Option Bool)
  unfolding include_line set_special_dir match_config_entry set_command_file same_string
  config_line include av =
      if ltb (length av) 2 || (peek (word av 0) == b'#')
      then pure none
      else (if same_string (word av 0) (codes "@include")
          then include_line include av
          else (if ltb 2 (length av) && not (peek (word av 2) == b'#') then pure none else (do
            fits ← set_special_dir (word av 1)
            (if fits
                then (match_config_entry (word av 0) >>= λ host. elim host [
                  | none ↦ pure none
                  | some h ↦ set_command_file (word av 1) h
                ])
                else pure none))))

  unfoldable pub config_file : Option (Bytes → M Bool) → List Bytes → M Bool
  unfolding config_line words
  config_file include [] = pure false
  config_file include (line ∷ lines) = config_line include (words line) >>= λ o. elim o [
    | none ↦ config_file include lines
    | some ok ↦ pure ok
  ]

  -- snet_open() and the loop.
  unfoldable pub with_config : Option (Bytes → M Bool) → Bytes → M Bool
  unfolding config_file
  with_config include path = gets (λ s. g.config_lines s.events path) >>= λ file. elim file [
    | none ↦ pure false
    | some lines ↦ emit (opened path) >> config_file include lines
  ]

  -- The depth that is left for includes; false is -1.
  unfoldable pub command_k : ℕ → Bytes → M Bool
  unfolding with_config
  command_k zero path = with_config none path
  command_k (suc depth) path = with_config (some (command_k depth)) path

  -- fclose()
  unfoldable pub close_kfile : Bytes → M Bool
  unfolding unavailable
  close_kfile path = gets (λ s. g.close_works s.events path) >>= λ closed.
      if closed then pure true else unavailable

  unfoldable pub kfile_at : (Bytes → M Bool) → Option Bytes → M Bool
  unfolding kfile_text unavailable close_kfile
  kfile_at nested none = unavailable
  kfile_at nested (some path) =
      gets (λ s. g.contents s.events path) >>= kfile_text nested path >>= λ ok.
      if ok then close_kfile path else pure false

  unfoldable pub open_kfile : (Bytes → M Bool) → Bytes → M Bool
  unfolding kfile_at fitting
  open_kfile nested kfile = kfile_at nested (fitting (codes "command/" ++ kfile))

  unfoldable pub read_kfile : ℕ → Bytes → M Bool
  unfolding open_kfile
  read_kfile zero kfile = stop Out.out_of_fuel
  read_kfile (suc fuel) kfile = open_kfile (read_kfile fuel) kfile
