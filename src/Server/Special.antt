-- ===== src/Server/Special.antt =====
-- special_t() and f_stat(): what a client is told of a file, where that of special files may stand in
-- a transcript of its own.
use radmind.Base.{
  ℕ, Bool, true, false, not, ◌&&◌, ◌||◌, List, [], ◌∷◌, ◌++◌, Option, none, some, ◌==◌,
  if◌then◌else◌, Bytes, length, codes, max_path_len,
}
use radmind.CLibrary.{file_lines, ends_line}
use radmind.CLibrary.Strings.{fitting, begins}
use radmind.ArgcArgv.{acav_parse, acv_argc_step}
use radmind.PathCmp.{is_zero}
use radmind.NameList.{str_compare}
use radmind.Server.{
  Event, reply, statted, described, Env, returned, M, ◌>>=◌, ◌>>◌, pure, gets, stop, emit, reject,
}
use radmind.Server.Keyword.{Key, command, transcript, special, file, word}
use radmind.Server.Requests.{key_of, named_path}

-- From the last '.' on.
from_dot : Bytes → Option Bytes
from_dot [] = none
from_dot (c ∷ s) = elim (from_dot s) [
  | some part ↦ some part
  | none ↦ if c == b'.' then some (c ∷ s) else none
]

is_tran_name : Bytes → Bool
unfolding from_dot str_compare
is_tran_name path = elim (from_dot path) [
  | none ↦ false
  | some part ↦ is_zero (str_compare part (codes ".T") true)
]

-- The name of the transcript for a path, which ends in ".T"; `none` if it is too long.
special_name : Bytes → Option Bytes
unfolding is_tran_name fitting
special_name path = fitting (if is_tran_name path then path else path ++ codes ".T")

-- The words of a line, for the static vector of argcargv().
unfoldable pub words : Bytes → List Bytes
words line = elim (acav_parse acv_argc_step line) [ none ↦ [] | some r ↦ r.argv ]

-- The first line of a file or an applefile whose path, as it is written, is the given one. A line that
-- is too long ends the search in this transcript.
special_line : List Bytes → Bytes → Option (List Bytes)
unfolding words begins ends_line str_compare
special_line [] remote_path = none
special_line (line ∷ lines) remote_path =
    let later = special_line lines remote_path in
    let av = words line in
    if not (ends_line line)
    then none
    else (if (begins line (codes "f ") || begins line (codes "a "))
          && (length av == 8)
          && is_zero (str_compare (word av 1) remote_path true)
        then some av
        else later)

module _ (g : Env) where
  -- The transcripts in their order, those that cannot be read left out.
  search_trans : List Event → List Bytes → Bytes → Option (List Bytes)
  unfolding special_name special_line file_lines
  search_trans events [] remote_path = none
  search_trans events (path ∷ paths) remote_path =
      let later = search_trans events paths remote_path in
      elim (special_name path) [
        | none ↦ later
        | some name ↦ elim (g.contents events name) [
          | none ↦ later
          | some text ↦ elim (special_line (file_lines max_path_len text) remote_path) [
            | none ↦ later
            | some av ↦ some av
          ]
        ]
      ]

  unfoldable pub special_t : Bytes → Bytes → M (Option (List Bytes))
  unfolding search_trans
  special_t sp_path remote_path = gets (λ s.
      search_trans s.events (sp_path ∷ s.special_dir ∷ codes "transcript/special.T" ∷ [])
        remote_path)

  -- RADMIND_STAT_FMT: the type, the name, DEFAULT_MODE, DEFAULT_UID and DEFAULT_GID, and the checksum.
  abbrev default_line : Bytes → Bytes → List Bytes
  default_line name sum = codes "f" ∷ name ∷ codes "444" ∷ codes "0" ∷ codes "0" ∷ sum ∷ []

  special_answer : List Bytes → Bytes → Option (List Bytes) → List Bytes
  special_answer av sum none = default_line (word av 2) sum
  special_answer av sum (some t) = word t 0 ∷ word av 2 ∷ word t 2 ∷ word t 3 ∷ word t 4 ∷ sum ∷ []

  -- The switch at the end of f_stat().
  unfoldable pub stat_answer : List Bytes → Bytes → Bytes → Key → M (List Bytes)
  unfolding special_t special_answer
  stat_answer av path sum command =
      pure (default_line (if length av == 2 then codes "command" else word av 2) sum)
  stat_answer av path sum transcript = pure (default_line (word av 2) sum)
  stat_answer av path sum special =
      special_t path (word av 2) >>= λ t. pure (special_answer av sum t)
  stat_answer av path sum file = stop (returned 1)

  -- stat() of the file, its checksum, and the answer.
  unfoldable pub describe : List Bytes → Key → Bytes → M ℕ
  unfolding stat_answer
  describe av key path = do
    known ← gets (λ s. g.stat_works s.events path)
    (if known then pure tt else reject 531)
    cksum ← gets (λ s. g.do_cksum s.events path)
    elim cksum [
      | none ↦ reject 500
      | some sum ↦ (do
        emit (statted path)
        emit (reply 230)
        line ← stat_answer av path sum key
        emit (described line)
        pure 0)
    ]

  unfoldable pub f_stat : List Bytes → M ℕ
  unfolding key_of named_path describe
  f_stat av = key_of g av >>= λ k. elim k [
    | none ↦ reject 530
    | some key ↦ elim key [ file ↦ reject 530 | other ↦ named_path av other >>= describe av other ]
  ]
