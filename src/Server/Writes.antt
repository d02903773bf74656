-- ===== src/Server/Writes.antt =====
-- What f_stor(), f_login(), f_compress() and f_starttls() add to the events.
use radmind.Base.{
  ◌≡◌, refl, Bool, true, false, List, [], ◌∷◌, Option, none, some, ℕ, zero, suc, Bytes, ℤ, pos,
  negsuc, get_elem?,
}
use radmind.Mkdirs.{Made, done, exists, no_parent, failed, mkdirs}
use radmind.Mkdirs.Walk.{mkdirs-Related}
use radmind.Server.{
  Password, unset, freed, held, Pam, refused, denied, granted, Event, reply, opened, made,
  no_delay_off, tls_started, Tls, tls_failed, tls_no_peer, tls_peer, Table, Session, Env,
}
use radmind.Server.Adds.{
  Adds, Adds-quiet, Adds-emit, Later, Later-refl, Later-trans, every, adds_rules,
}
use radmind.Server.Reads.{Adds-key, decoded-Adds, fitted-Adds}
use radmind.Server.Files.{command_k-Adds, read_kfile-Adds}
use radmind.Server.Requests.{key_of}
use radmind.Server.Store.{
  set_input, next_line, getline, snet_read, note, make, make_one, make_dirs, set_prevstor, prepare,
  admit, check_user, given, argument, set_upload, if_made, transcript_upload, file_upload,
  stor_path, create, open_new, write, receive, receive_all, finish, receive_file, upload, f_stor,
}
use radmind.Server.Rights.{
  set_cn, set_zlib, set_commands, set_password, set_user, set_authorized, peer_name,
  choose_commands, f_starttls, free_held, free_password, judged, authenticate, f_login, f_compress,
}

module _ {allowed : Event → Bool} {strict kept : Bool} where
  set_input-Adds : (input : List Bytes) → Adds allowed strict kept (set_input input)
  unfolding set_input
  set_input-Adds input = Adds-quiet (set_input input) (λ s. refl) (λ s. refl) (λ s. refl)

  next_line-Adds : (input : List Bytes) → Adds allowed strict kept (next_line input)
  unfolding next_line
  next_line-Adds [] = search adds_rules
  next_line-Adds (line ∷ rest) = search (adds_rules, set_input-Adds)

  getline-Adds : Adds allowed strict kept getline
  unfolding getline
  getline-Adds = search (adds_rules, next_line-Adds)

  snet_read-Adds : (size : ℕ) → Adds allowed strict kept (snet_read size)
  unfolding snet_read
  snet_read-Adds size = search (adds_rules, getline-Adds) depth 14

  module _ (g : Env) where
    set_prevstor-Adds : Adds allowed strict kept (set_prevstor g)
    unfolding set_prevstor
    set_prevstor-Adds = Adds-quiet (set_prevstor g) (λ s. refl) (λ s. refl) (λ s. refl)

    pub prepare-Adds : allowed no_delay_off ≡ true → Adds allowed strict kept (prepare g)
    unfolding prepare
    prepare-Adds h = search (adds_rules, set_prevstor-Adds, h) depth 14

    set_upload-Adds : (name : Bytes) → Adds allowed strict kept (set_upload g name)
    unfolding set_upload
    set_upload-Adds name = Adds-quiet (set_upload g name) (λ s. refl) (λ s. refl) (λ s. refl)

    given-Adds : (o : Option Bytes) → Adds allowed strict kept (given g o)
    unfolding given
    given-Adds none = search adds_rules
    given-Adds (some w) = search adds_rules

    argument-Adds : (av : List Bytes) (i : ℕ) → Adds allowed strict kept (argument g av i)
    unfolding argument
    argument-Adds av i = given-Adds (get_elem? av i)

-- The upload itself may add any event.
module _ {allowed : Event → Bool} {strict kept : Bool} (all : (e : Event) → allowed e ≡ true)
    (g : Env) where
  note-Later :
      (path : Bytes) (m : Made) (s : Session) → Later allowed strict kept s (note g path m s).1
  unfolding note
  note-Later path done s = (Adds-emit (made path) (all (made path))).at s
  note-Later path exists s = Later-refl s
  note-Later path no_parent s = Later-refl s
  note-Later path failed s = Later-refl s

  make-Later : (path : Bytes) (s : Session) → Later allowed strict kept s (make g path s).1
  unfolding make
  make-Later path s = note-Later path (g.mkdir s.events path) s

  mkdirs-Later :
      (path : Bytes) (s : Session) → Later allowed strict kept s (mkdirs (make g) path s).1
  mkdirs-Later path s =
      mkdirs-Related (Later allowed strict kept) Later-refl Later-trans (make g) make-Later path s

  make_one-Adds : (path : Bytes) → Adds allowed strict kept (make_one g path)
  unfolding make_one
  make_one-Adds path = record { at = λ s. make-Later path s }

  make_dirs-Adds : (path : Bytes) → Adds allowed strict kept (make_dirs g path)
  unfolding make_dirs
  make_dirs-Adds path = record { at = λ s. mkdirs-Later path s }

  if_made-Adds : (path : Bytes) (m : Made) → Adds allowed strict kept (if_made g path m)
  unfolding if_made
  if_made-Adds path done = search adds_rules
  if_made-Adds path exists = search (adds_rules, all)
  if_made-Adds path no_parent = search (adds_rules, all)
  if_made-Adds path failed = search (adds_rules, all)

  transcript_upload-Adds :
      (av : List Bytes) (tran : Bytes) → Adds allowed strict kept (transcript_upload g av tran)
  unfolding transcript_upload
  transcript_upload-Adds av tran =
      search (adds_rules, all, fitted-Adds, set_upload-Adds, make_one-Adds, if_made-Adds) depth 16

  file_upload-Adds :
      (av : List Bytes) (tran : Bytes) → Adds allowed strict kept (file_upload g av tran)
  unfolding file_upload
  file_upload-Adds av tran = search (adds_rules, all, fitted-Adds, decoded-Adds) depth 16

  stor_path-Adds : (av : List Bytes) → Adds allowed strict kept (stor_path g av)
  unfolding stor_path key_of
  stor_path-Adds av =
      search
        (
          adds_rules, all, argument-Adds, decoded-Adds, Adds-key, transcript_upload-Adds,
          file_upload-Adds,
        )
        depth 16

  create-Adds : (path : Bytes) → Adds allowed strict kept (create g path)
  unfolding create
  create-Adds path = search (adds_rules, all) depth 14

  open_new-Adds : (path : Bytes) → Adds allowed strict kept (open_new g path)
  unfolding open_new
  open_new-Adds path = search (adds_rules, all, create-Adds, make_dirs-Adds) depth 16

  write-Adds : (path chunk : Bytes) → Adds allowed strict kept (write g path chunk)
  unfolding write
  write-Adds path chunk = search (adds_rules, all) depth 14

  receive-Adds :
      (fuel : ℕ) (path : Bytes) (len : ℕ) → Adds allowed strict kept (receive g fuel path len)
  unfolding receive
  receive-Adds zero path zero = search adds_rules
  receive-Adds (suc fuel) path zero = search adds_rules
  receive-Adds zero path (suc len) = search adds_rules
  receive-Adds (suc fuel) path (suc len) =
      search (adds_rules, snet_read-Adds, write-Adds, receive-Adds fuel path) depth 14

  receive_all-Adds : (path : Bytes) (size : ℤ) → Adds allowed strict kept (receive_all g path size)
  unfolding receive_all
  receive_all-Adds path (pos len) = receive-Adds len path len
  receive_all-Adds path (negsuc n) = search (adds_rules, all)

  finish-Adds : (path : Bytes) → Adds allowed strict kept (finish g path)
  unfolding finish
  finish-Adds path = search (adds_rules, getline-Adds, all) depth 14

  receive_file-Adds : (path : Bytes) → Adds allowed strict kept (receive_file g path)
  unfolding receive_file
  receive_file-Adds path =
      search (adds_rules, all, getline-Adds, receive_all-Adds, finish-Adds) depth 16

  pub upload-Adds : (av : List Bytes) → Adds allowed strict kept (upload g av)
  unfolding upload
  upload-Adds av = search (adds_rules, stor_path-Adds, open_new-Adds, receive_file-Adds) depth 16

  check_user-Adds : Adds allowed strict kept (check_user g)
  unfolding check_user admit
  check_user-Adds = search (adds_rules, all) depth 14

  pub f_stor-Adds : (av : List Bytes) → Adds allowed strict kept (f_stor g av)
  unfolding f_stor
  f_stor-Adds av = search (adds_rules, prepare-Adds, all, check_user-Adds, upload-Adds)

module _ {allowed : Event → Bool} {strict kept : Bool} where
  set_zlib-Adds : Adds allowed strict kept set_zlib
  unfolding set_zlib
  set_zlib-Adds = Adds-quiet set_zlib (λ s. refl) (λ s. refl) (λ s. refl)

  pub set_cn-Adds : (name : Bytes) → Adds allowed strict kept (set_cn name)
  unfolding set_cn
  set_cn-Adds name = Adds-quiet (set_cn name) (λ s. refl) (λ s. refl) (λ s. refl)

  pub set_user-Adds : (name : Bytes) → Adds allowed strict kept (set_user name)
  unfolding set_user
  set_user-Adds name = Adds-quiet (set_user name) (λ s. refl) (λ s. refl) (λ s. refl)

  pub set_password-Adds : (p : Password) → Adds allowed strict kept (set_password p)
  unfolding set_password
  set_password-Adds p = Adds-quiet (set_password p) (λ s. refl) (λ s. refl) (λ s. refl)

  module _ (replies : (n : ℕ) → allowed (reply n) ≡ true) (g : Env) where
    pub f_compress-Adds : (av : List Bytes) → Adds allowed strict kept (f_compress g av)
    unfolding f_compress
    f_compress-Adds av = search (adds_rules, replies, set_zlib-Adds) depth 20

    free_held-Adds : (p : Password) → Adds allowed strict kept (free_held g p)
    unfolding free_held
    free_held-Adds unset = search adds_rules
    free_held-Adds freed = search adds_rules
    free_held-Adds (held w) = set_password-Adds unset

    pub free_password-Adds : Adds allowed strict kept (free_password g)
    unfolding free_password
    free_password-Adds = search (adds_rules, free_held-Adds)

-- A login changes what the client may do.
module _ {allowed : Event → Bool} {strict : Bool} where
  pub set_authorized-Adds : Adds allowed strict false set_authorized
  unfolding set_authorized every
  set_authorized-Adds = record {
    at = λ s. record {
      new = [];
      events_eq = refl;
      allowed_new = refl;
      same_commands = λ e. refl;
      same_authorized = λ e. cc;
    };
  }

module _ {allowed : Event → Bool} {strict : Bool} (all : (e : Event) → allowed e ≡ true)
    (g : Env) where
  judged-Adds : (p : Pam) → Adds allowed strict false (judged g p)
  unfolding judged
  judged-Adds refused = search (adds_rules, all)
  judged-Adds denied = search (adds_rules, all, set_password-Adds)
  judged-Adds granted = search (adds_rules, all, set_password-Adds, set_authorized-Adds) depth 16

  pub f_login-Adds : (av : List Bytes) → Adds allowed strict false (f_login g av)
  unfolding f_login authenticate
  f_login-Adds av =
      search (adds_rules, all, free_password-Adds, set_user-Adds, set_password-Adds, judged-Adds)
        depth 20

-- The table of requests changes with TLS.
module _ {allowed : Event → Bool} {kept : Bool} where
  pub set_commands-Adds : (t : Table) → Adds allowed false kept (set_commands t)
  unfolding set_commands every
  set_commands-Adds t = record {
    at = λ s. record {
      new = [];
      events_eq = refl;
      allowed_new = refl;
      same_commands = λ e. cc;
      same_authorized = λ e. refl;
    };
  }

  module _ (replies : (n : ℕ) → allowed (reply n) ≡ true)
      (opens : (path : Bytes) → allowed (opened path) ≡ true) (g : Env) where
    pub choose_commands-Adds : Adds allowed false kept (choose_commands g)
    unfolding choose_commands
    choose_commands-Adds =
        search (adds_rules, command_k-Adds, read_kfile-Adds, replies, opens, set_commands-Adds)
          depth 20

    pub peer_name-Adds :
        allowed tls_started ≡ true → (t : Tls) → Adds allowed false kept (peer_name g t)
    unfolding peer_name
    peer_name-Adds h tls_failed = search (adds_rules, replies)
    peer_name-Adds h tls_no_peer = search (adds_rules, h)
    peer_name-Adds h (tls_peer name) = search (adds_rules, h, set_cn-Adds)

    pub f_starttls-Adds :
        allowed tls_started ≡ true → (av : List Bytes) → Adds allowed false kept (f_starttls g av)
    unfolding f_starttls
    f_starttls-Adds h av =
        search (adds_rules, replies, h, peer_name-Adds, choose_commands-Adds) depth 16
