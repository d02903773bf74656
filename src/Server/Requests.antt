-- ===== src/Server/Requests.antt =====
-- f_retr(), f_repo() and the requests without effect.
use radmind.Base.{ℕ, List, ◌∷◌, ◌++◌, Option, none, some, ◌==◌, if◌then◌else◌, Bytes, length, codes}
use radmind.CLibrary.Strings.{fitting}
use radmind.PathList.{list_check}
use radmind.Server.{
  reply, opened, sent, reported, Env, exited, broke, crashed, M, ◌>>=◌, ◌>>◌, pure, gets, stop,
  emit, reject, dismiss, decode_word,
}
use radmind.Server.Keyword.{Key, command, transcript, special, file, word, keyword}

-- decode() of a word, or 540.
unfoldable pub decoded : Bytes → M Bytes
unfolding decode_word
decoded w = decode_word w >>= λ o. elim o [ none ↦ reject 540 | some t ↦ pure t ]

-- list_check() of the access list, or 540.
unfoldable pub check_access : Bytes → M Bytes
unfolding list_check
check_access name =
    gets (λ s. list_check s.access_list name) >>= λ known. if known then pure name else reject 540

-- snprintf() of a path, or 540.
unfoldable pub fitted : Bytes → M Bytes
unfolding fitting
fitted path = elim (fitting path) [ none ↦ reject 540 | some p ↦ pure p ]

-- case K_COMMAND, case K_TRANSCRIPT and case K_SPECIAL, which f_retr() and f_stat() share.
unfoldable pub named_path : List Bytes → Key → M Bytes
unfolding decoded check_access fitted
named_path av command =
    if length av == 2
    then (gets (λ s. s.command_file) >>= λ name. fitted (codes "command/" ++ name))
    else (decoded (word av 2) >>= check_access >>= λ name. fitted (codes "command/" ++ name))
named_path av transcript =
    decoded (word av 2) >>= check_access >>= λ name. fitted (codes "transcript/" ++ name)
named_path av special =
    decoded (word av 2) >>= λ name. gets (λ s. s.special_dir) >>= λ dir. fitted (dir ++ b'/' ∷ name)
named_path av file = stop crashed

-- case K_FILE of f_retr().
unfoldable pub file_path : List Bytes → M Bytes
unfolding decoded check_access fitted
file_path av = do
  path ← decoded (word av 3)
  tran ← decoded (word av 2)
  name ← check_access tran
  fitted (codes "file/" ++ (name ++ b'/' ∷ path))

module _ (g : Env) where
  unfoldable pub key_of : List Bytes → M (Option Key)
  unfolding keyword
  key_of av = gets (λ s. keyword g.remote_host s.command_file av)

  unfoldable pub retr_path : List Bytes → M Bytes
  unfolding key_of named_path file_path
  retr_path av = key_of av >>= λ k. elim k [
    | none ↦ reject 540
    | some key ↦ elim key [ file ↦ file_path av | other ↦ named_path av other ]
  ]

  -- The size, the bytes and the final dot go to the client.
  unfoldable pub send_text : Bytes → Bytes → M ℕ
  send_text path text = do
    known ← gets (λ s. g.stat_works s.events path)
    closed ← gets (λ s. g.close_works s.events path)
    works ← gets (λ s. g.send_works s.events path)
    (if known
        then emit (reply 240) >> (if works then emit (sent text) >> pure 0 else stop broke)
        else (if closed then reject 543 else stop broke))

  unfoldable pub send_file : Bytes → M ℕ
  unfolding send_text
  send_file path = gets (λ s. g.contents s.events path) >>= λ file. elim file [
    | none ↦ reject 543
    | some text ↦ emit (opened path) >> send_text path text
  ]

  unfoldable pub f_retr : List Bytes → M ℕ
  unfolding retr_path send_file
  f_retr av = retr_path av >>= send_file

-- f_repo(): the message goes to the log.
unfoldable pub f_repo : List Bytes → M ℕ
unfolding decode_word
f_repo av =
    if length av == 3
    then (decode_word (word av 2) >>= λ o. elim o [
      | none ↦ reject 501
      | some msg ↦ emit (reported msg) >> emit (reply 215) >> pure 0
    ])
    else reject 501

unfoldable pub f_quit : M ℕ
f_quit = emit (reply 201) >> stop (exited 0)

unfoldable pub f_noop : M ℕ
f_noop = emit (reply 202) >> pure 0

unfoldable pub f_help : M ℕ
f_help = emit (reply 203) >> pure 0

unfoldable pub f_noauth : M ℕ
f_noauth = dismiss 500

unfoldable pub f_notls : M ℕ
f_notls = dismiss 530
