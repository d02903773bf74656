-- ===== src/Server/Store.antt =====
-- f_stor(): a client's upload, first of a transcript and then of its files.
use radmind.Base.{
  ℕ, zero, suc, ◌-◌, Bool, true, false, not, ◌&&◌, List, [], ◌∷◌, ◌++◌, Option, none, some, leb,
  ltb, ◌==◌, if◌then◌else◌, Bytes, length, codes, max_path_len, peek, take, get_elem?, ℤ, pos,
  negsuc,
}
use radmind.CLibrary.{strtol}
use radmind.PathCmp.{is_zero}
use radmind.NameList.{str_compare}
use radmind.Mkdirs.{Made, done, exists, no_parent, failed, mkdirs}
use radmind.Server.{
  reply, made, created, wrote, unlinked, no_delay_off, Session, Env, Out, exited, broke, crashed,
  out_of_fuel, M, ◌>>=◌, ◌>>◌, pure, gets, stop, modify, emit, reject, dismiss,
}
use radmind.Server.Keyword.{transcript, file, word}
use radmind.Server.Requests.{key_of, decoded, fitted}

-- snet_getline(); NULL breaks the loop of the session.
unfoldable pub set_input : List Bytes → M (Unit {0})
set_input input = modify (λ s. record s { input = input })

unfoldable pub next_line : List Bytes → M Bytes
unfolding set_input
next_line [] = stop broke
next_line (line ∷ rest) = set_input rest >> pure line

unfoldable pub getline : M Bytes
unfolding next_line
getline = gets (λ s. s.input) >>= next_line

-- snet_read() of at most `size` bytes; an error and the end of the connection break the loop.
unfoldable pub snet_read : ℕ → M Bytes
unfolding getline
snet_read size = getline >>= λ chunk.
    if length (take size chunk) == 0 then stop broke else pure (take size chunk)

abbrev pub smaller : ℕ → ℕ → ℕ
smaller a b = if ltb a b then a else b

module _ (g : Env) where
  -- mkdir() of a directory, and what is known of it later.
  unfoldable pub note : Bytes → Made → Session → Made × Session
  note path done s = (done, record s { events = made path ∷ s.events })
  note path exists s = (exists, s)
  note path no_parent s = (no_parent, s)
  note path failed s = (failed, s)

  unfoldable pub make : Bytes → Session → Made × Session
  unfolding note
  make path s = note path (g.mkdir s.events path) s

  unfoldable pub make_one : Bytes → M Made
  unfolding make
  make_one path s = let r = make path s in (Out.go r.0, r.1)

  unfoldable pub make_dirs : Bytes → M Bool
  unfolding mkdirs make
  make_dirs path s = let r = mkdirs make path s in (Out.go r.0, r.1)

  -- TCP_NODELAY is turned off before the first upload.
  unfoldable pub set_prevstor : M (Unit {0})
  set_prevstor = modify (λ s. record s { prevstor = true })

  unfoldable pub prepare : M (Unit {0})
  unfolding set_prevstor
  prepare = do
    again ← gets (λ s. s.prevstor)
    works ← gets (λ s. g.no_delay_works s.events)
    (if again then pure tt else (if works then set_prevstor >> emit no_delay_off else stop broke))

  unfoldable pub admit : Bool → M (Unit {0})
  admit known = if g.checkuser && not known then dismiss 551 else pure tt

  unfoldable pub check_user : M (Unit {0})
  unfolding admit
  check_user = gets (λ s. s.authorized) >>= admit

  -- The word av[ i ], which is read without a look at ac.
  unfoldable pub given : Option Bytes → M Bytes
  given none = stop crashed
  given (some w) = pure w

  unfoldable pub argument : List Bytes → ℕ → M Bytes
  unfolding given
  argument av i = given (get_elem? av i)

  unfoldable pub set_upload : Bytes → M (Unit {0})
  set_upload name = modify (λ s. record s { upload_xscript = name })

  -- The directory is made, or else the session ends.
  unfoldable pub if_made : Bytes → Made → M Bytes
  if_made path done = pure path
  if_made path exists = dismiss 551
  if_made path no_parent = dismiss 551
  if_made path failed = dismiss 551

  -- case K_TRANSCRIPT: the directory of the transcript's files is made.
  unfoldable pub transcript_upload : List Bytes → Bytes → M Bytes
  unfolding fitted make_one set_upload if_made
  transcript_upload av tran = do
    dir ← fitted (codes "tmp/file/" ++ tran)
    upload ← fitted (codes "tmp/transcript/" ++ tran)
    (if leb max_path_len (length (word av 2)) then reject 540 else pure tt)
    set_upload (word av 2)
    answer ← make_one dir
    if_made upload answer

  -- case K_FILE: the transcript is that of the upload before.
  unfoldable pub file_upload : List Bytes → Bytes → M Bytes
  unfolding decoded fitted str_compare
  file_upload av tran = do
    name ← gets (λ s. s.upload_xscript)
    (if is_zero (str_compare name (word av 2) true) then pure tt else dismiss 552)
    path ← decoded (word av 3)
    fitted (codes "tmp/file/" ++ (tran ++ (if peek path == b'/' then path else b'/' ∷ path)))

  unfoldable pub stor_path : List Bytes → M Bytes
  unfolding argument decoded key_of transcript_upload file_upload
  stor_path av = do
    w ← argument av 2
    tran ← decoded w
    k ← key_of g av
    elim k [
      | none ↦ dismiss 550
      | some key ↦ elim key [
        | transcript ↦ transcript_upload av tran
        | file ↦ file_upload av tran
        | other ↦ dismiss 550
      ]
    ]

  unfoldable pub create : Bytes → M Bool
  create path = gets (λ s. g.create s.events path) >>= λ there.
      if there then emit (created path) >> pure true else pure false

  -- open() for a new file, behind mkdirs() if it fails at first.
  unfoldable pub open_new : Bytes → M (Unit {0})
  unfolding create make_dirs
  open_new path = create path >>= λ there. if there then pure tt else (do
    dirs ← make_dirs path
    (if dirs then pure tt else dismiss 555)
    again ← create path
    (if again then pure tt else dismiss 555))

  unfoldable pub write : Bytes → Bytes → M (Unit {0})
  write path chunk = gets (λ s. g.write_works s.events path) >>= λ works.
      if works then emit (wrote path chunk) else dismiss 555

  -- The bytes of the file, in chunks of at most 8192. Each chunk has a byte, so that one round for each
  -- byte is enough.
  unfoldable pub receive : ℕ → Bytes → ℕ → M (Unit {0})
  unfolding snet_read write
  receive fuel path zero = pure tt
  receive zero path (suc len) = stop out_of_fuel
  receive (suc fuel) path (suc len) = snet_read (smaller (suc len) 8192) >>= λ chunk.
      write path chunk >> receive fuel path (suc len - length chunk)

  -- A size below zero is not zero either.
  unfoldable pub receive_all : Bytes → ℤ → M (Unit {0})
  unfolding receive
  receive_all path (pos len) = receive len path len
  receive_all path (negsuc n) = dismiss 555

  -- The client's last line has a dot alone, or else the file is removed.
  unfoldable pub finish : Bytes → M ℕ
  unfolding getline str_compare
  finish path = getline >>= λ line.
      if is_zero (str_compare line (codes ".") true)
      then (emit (reply 250) >> pure 0)
      else (emit (reply 555) >> emit (unlinked path) >> stop (exited 1))

  unfoldable pub receive_file : Bytes → M ℕ
  unfolding getline receive_all finish
  receive_file path = do
    emit (reply 350)
    size ← getline
    receive_all path (strtol size 10)
    closed ← gets (λ s. g.close_works s.events path)
    (if closed then finish path else dismiss 555)

  unfoldable pub upload : List Bytes → M ℕ
  unfolding stor_path open_new receive_file
  upload av = stor_path av >>= λ path. open_new path >> receive_file path

  unfoldable pub f_stor : List Bytes → M ℕ
  unfolding prepare check_user upload
  f_stor av = do prepare; check_user; upload av
