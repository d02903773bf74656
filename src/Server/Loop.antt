-- ===== src/Server/Loop.antt =====
-- The tables of requests and cmdloop(): a line is one request, for the function that the table of the
-- moment has for it.
use radmind.Base.{
  ℕ, zero, suc, false, List, [], ◌∷◌, ◌++◌, Option, none, some, ltb, ◌==◌, if◌then◌else◌, Bytes,
  length, codes,
}
use radmind.CLibrary.Strings.{same_start}
use radmind.PathList.{list_new}
use radmind.Server.{
  reply, Table, notls, noauth, auth, Password, Session, Env, Out, go, returned, exited, broke,
  crashed, M, ◌>>=◌, ◌>>◌, pure, gets, stop, emit, dismiss, after,
}
use radmind.Server.Special.{words, f_stat}
use radmind.Server.Requests.{f_retr, f_repo, f_quit, f_noop, f_help, f_noauth, f_notls}
use radmind.Server.Store.{f_stor}
use radmind.Server.Config.{max_include_depth, command_k, read_kfile}
use radmind.Server.Rights.{f_starttls, f_login, f_compress, set_commands}

-- The functions of the tables.
pub data Handler : Type 0 where
  quit noop help refuse_auth refuse_tls stat retr stor starttls repo login compress : Handler

abbrev pub Entries : Type 0
Entries = List (Bytes × Handler)

-- The requests that the libraries add to each table.
unfoldable pub optional : Env → Handler → Handler → Entries
optional g on_login on_compress =
    (if g.have_libpam then (codes "LOGIn", on_login) ∷ [] else [])
    ++ (if g.have_zlib then (codes "COMPress", on_compress) ∷ [] else [])

-- struct command notls[], noauth[] and auth[].
unfoldable pub entries : Env → Table → Entries
unfolding optional
entries g notls =
    (codes "QUIT", quit)
    ∷ (codes "NOOP", noop)
    ∷ (codes "HELP", help)
    ∷ (codes "STATus", refuse_tls)
    ∷ (codes "RETRieve", refuse_tls)
    ∷ (codes "STORe", refuse_tls)
    ∷ (codes "STARttls", starttls)
    ∷ (codes "REPOrt", refuse_tls)
    ∷ optional g refuse_tls refuse_tls
entries g noauth =
    (codes "QUIT", quit)
    ∷ (codes "NOOP", noop)
    ∷ (codes "HELP", help)
    ∷ (codes "STATus", refuse_auth)
    ∷ (codes "RETRieve", refuse_auth)
    ∷ (codes "STORe", refuse_auth)
    ∷ (codes "REPOrt", refuse_auth)
    ∷ optional g refuse_auth refuse_auth
entries g auth =
    (codes "QUIT", quit)
    ∷ (codes "NOOP", noop)
    ∷ (codes "HELP", help)
    ∷ (codes "STATus", stat)
    ∷ (codes "RETRieve", retr)
    ∷ (codes "STORe", stor)
    ∷ (codes "STARttls", starttls)
    ∷ (codes "REPOrt", repo)
    ∷ optional g login compress

-- The first entry whose name starts with the word, which has four letters at least.
unfoldable pub find_command : Entries → Bytes → Option Handler
unfolding same_start
find_command [] w = none
find_command ((name, handler) ∷ table) w =
    let later = find_command table w in
    if same_start (if ltb (length w) 4 then 4 else length w) w name then some handler else later

module _ (g : Env) where
  unfoldable pub run : Handler → List Bytes → M ℕ
  unfolding f_quit f_noop f_help f_noauth f_notls f_stat f_retr f_stor f_starttls f_repo f_login
      f_compress
  run quit av = f_quit
  run noop av = f_noop
  run help av = f_help
  run refuse_auth av = f_noauth
  run refuse_tls av = f_notls
  run stat av = f_stat g av
  run retr av = f_retr g av
  run stor av = f_stor g av
  run starttls av = f_starttls g av
  run repo av = f_repo av
  run login av = f_login g av
  run compress av = f_compress g av

  -- The value of a function, of which the loop asks only whether it is below zero.
  abbrev pub ended : Out ℕ × Session → Out (Unit {0}) × Session
  ended (go n, s) = (go tt, s)
  ended (returned n, s) = (go tt, s)
  ended (exited n, s) = (exited n, s)
  ended (broke, s) = (broke, s)
  ended (crashed, s) = (crashed, s)
  ended (Out.out_of_fuel, s) = (Out.out_of_fuel, s)

  unfoldable pub dispatch : Option Handler → List Bytes → M (Unit {0})
  unfolding run
  dispatch none av = emit (reply 500)
  dispatch (some handler) av = λ s. ended (run handler av s)

  unfoldable pub request : List Bytes → M (Unit {0})
  unfolding dispatch find_command entries
  request [] = emit (reply 501)
  request (w ∷ args) =
      gets (λ s. find_command (entries g s.commands) w) >>= λ found. dispatch found (w ∷ args)

  -- A round, and what is behind it.
  unfoldable pub serve_line : (Unit {0} → M (Unit {0})) → List Bytes → M (Unit {0})
  unfolding request words
  serve_line next [] s = (broke, s)
  serve_line next (line ∷ rest) s = after (request (words line) (record s { input = rest })) next

  -- The loop ends with the connection, and when a function breaks it.
  unfoldable pub requests : ℕ → M (Unit {0})
  unfolding serve_line
  requests zero s = (Out.out_of_fuel, s)
  requests (suc fuel) s = serve_line (λ u. requests fuel) s.input s

  -- Behind the loop.
  unfoldable pub closed : Out (Unit {0}) × Session → Out ℕ × Session
  closed (broke, s) = (go 0, record s { events = reply 444 ∷ s.events })
  closed (go u, s) = (go 0, record s { events = reply 444 ∷ s.events })
  closed (returned n, s) = (returned n, s)
  closed (exited n, s) = (exited n, s)
  closed (crashed, s) = (crashed, s)
  closed (Out.out_of_fuel, s) = (Out.out_of_fuel, s)

  -- Without TLS the client's files are chosen by its host alone, before the first request.
  unfoldable pub identify : M (Unit {0})
  unfolding command_k read_kfile set_commands
  identify = do
    known ← command_k g max_include_depth (codes "config")
    (if known then pure tt else dismiss 500)
    file ← gets (λ s. s.command_file)
    ok ← read_kfile g g.kfile_depth file
    (if ok then set_commands auth else stop (exited 1))

  -- Up to the loop: `busy` is the test of maxconnections, and `hostname_works` gethostname().
  unfoldable pub greet : M (Unit {0})
  unfolding identify
  greet = do
    (if g.busy then dismiss 420 else pure tt)
    (if g.authlevel == 0 then identify else pure tt)
    (if g.hostname_works then emit (reply 200) else stop (exited 1))

  -- A round takes a line of the input at least.
  unfoldable pub cmdloop : M ℕ
  unfolding greet requests closed
  cmdloop s = closed (after (greet s) (λ u t. requests (suc (length t.input)) t))

-- The globals at the start of a session.
unfoldable pub first : Env → (ℕ → ℕ) → List Bytes → Session
first g buf input = record {
  commands = if g.authlevel == 0 then noauth else notls;
  authorized = false;
  prevstor = false;
  user = none;
  password = Password.unset;
  upload_xscript = [];
  command_file = [];
  special_dir = [];
  remote_cn = none;
  access_list = list_new;
  zlib = false;
  buf = buf;
  input = input;
  events = [];
}
