-- ===== src/Server/Examples.antt =====
-- A session with a server, and the cases of the theorems for it.
use radmind.Base.{
  ◌≡◌, refl, ℕ, Bool, true, false, List, [], ◌∷◌, Option, none, some, if◌then◌else◌, Bytes, codes,
  get_or, arith,
}
use radmind.PathCmp.{fold, pathcmp}
use radmind.PathList.{list_check}
use radmind.Mkdirs.{done}
use radmind.Server.{auth, tls_peer, Password, granted, Session, Env, go, crashed, buffer_after}
use radmind.Server.Gate.{behind, touches, changes, is_tls, is_login}
use radmind.Server.Loop.{cmdloop, first}
use radmind.Server.Encrypted.{cmdloop-tls}
use radmind.Server.Trusted.{cmdloop-login}
use radmind.Server.Masked.{retr_path-masked, masked, request_for}
use radmind.Server.Access.{Readable, retr_path-Readable}
use radmind.Server.Received.{Stored, receive-Stored}
use radmind.Server.Store.{receive}
use radmind.Server.Twice.{f_login-crashed}
use radmind.Server.Rights.{f_login}
use radmind.Server.Requests.{retr_path}
use radmind.CLibrary.Strings.{same_string, holds, begins}
use radmind.Code.{decode, unescape}

-- The server's directory: a config file, and a command file with one transcript.
abbrev file_of : Bytes → Option Bytes
unfolding same_string
file_of path =
    if same_string path (codes "command/a.K") then some (codes "p a.T") else some (codes "x")

abbrev server : ℕ → Bool → Env
server level users = record {
  remote_host = codes "host";
  remote_addr = codes "10.0.0.1";
  authlevel = level;
  checkuser = users;
  max_zlib_level = 0;
  have_libpam = true;
  have_zlib = true;
  kfile_depth = 5;
  busy = false;
  hostname_works = true;
  contents = λ events path. file_of path;
  config_lines = λ events path. some (codes "host a.K" ∷ []);
  stat_works = λ events path. true;
  do_cksum = λ events path. some (codes "sum");
  send_works = λ events path. true;
  mkdir = λ events path. done;
  create = λ events path. true;
  write_works = λ events path. true;
  close_works = λ events path. true;
  no_delay_works = λ events. true;
  starttls = λ events. tls_peer (codes "cn");
  pam = λ events name secret. granted;
  setcompression = λ events. true;
}

abbrev retr_lines : List Bytes
retr_lines = codes "STARTTLS" ∷ codes "RETR COMMAND" ∷ codes "STAT TRANSCRIPT a.T" ∷ []

abbrev stor_lines : List Bytes
stor_lines =
    codes "STARTTLS"
    ∷ codes "LOGIN me secret"
    ∷ codes "STOR TRANSCRIPT b.T"
    ∷ codes "1"
    ∷ codes "x"
    ∷ codes "."
    ∷ []

cmdloop-tls_example :
    behind touches is_tls
      (cmdloop (server 1 false) (first (server 1 false) (λ i. 0) retr_lines)).1.events
    ≡ true
cmdloop-tls_example = cmdloop-tls (server 1 false) (λ i. 0) retr_lines (omega arith)

cmdloop-login_example :
    behind changes is_login
      (cmdloop (server 1 true) (first (server 1 true) (λ i. 0) stor_lines)).1.events
    ≡ true
cmdloop-login_example = cmdloop-login (server 1 true) refl (λ i. 0) stor_lines

-- The session of a client whose last request has left "../x" in the buffer.
abbrev session : Session
session = record {
  commands = auth;
  authorized = false;
  prevstor = false;
  user = none;
  password = Password.unset;
  upload_xscript = [];
  command_file = codes "a.K";
  special_dir = codes "special/host";
  remote_cn = none;
  access_list = record { l_count = 1; nodes = codes "a.T" ∷ [] };
  zlib = false;
  buf = λ i. get_or (codes "../x") i 0;
  input = [];
  events = [];
}

retr_path-masked_example :
    (retr_path (server 1 false) (request_for (codes "a.T") (codes "../x")) session).0
    ≡ go (codes "file/a.T/../x")
unfolding holds begins decode unescape buffer_after masked list_check pathcmp
retr_path-masked_example =
    retr_path-masked (server 1 false) session (codes "a.T") (codes "../x") (omega arith)
      (omega arith) (refl, (refl, (refl, (refl, tt)))) refl refl refl

abbrev ask_file : List Bytes
ask_file = codes "RETR" ∷ codes "FILE" ∷ codes "a.T" ∷ codes "b/c" ∷ []

retr_path-Readable_example : Readable session ask_file (codes "file/a.T/b/c")
unfolding retr_path fold holds begins decode unescape buffer_after list_check pathcmp
retr_path-Readable_example =
    retr_path-Readable (server 1 false) session ask_file (codes "file/a.T/b/c") refl

abbrev connected : Session
connected = record session { input = codes "abc" ∷ codes "d" ∷ codes "efgh" ∷ [] }

receive-Stored_example : Stored 5 connected (receive (server 1 false) 5 (codes "tmp/f") 5 connected)
receive-Stored_example = receive-Stored (server 1 false) (codes "tmp/f") 5 5 (omega arith) connected

f_login-crashed_example :
    (f_login
      (server 1 true)
      (codes "LOGIN" ∷ codes "me" ∷ codes "other" ∷ [])
      (f_login (server 1 true) (codes "LOGIN" ∷ codes "me" ∷ codes "secret" ∷ []) session).1).0
    ≡ crashed
f_login-crashed_example =
    f_login-crashed (server 1 true) refl (codes "LOGIN" ∷ codes "me" ∷ codes "secret" ∷ [])
      (codes "LOGIN" ∷ codes "me" ∷ codes "other" ∷ []) session refl refl (λ e. cc) (λ t e. cc)
