-- ===== src/Server/Rights.antt =====
-- f_starttls(), f_login() and f_compress(): the requests that change what a client may do.
use radmind.Base.{ℕ, true, not, ◌||◌, List, some, leb, ◌==◌, if◌then◌else◌, Bytes, length, codes}
use radmind.CLibrary.Strings.{same_word}
use radmind.Server.{
  reply, tls_started, logged_in, Table, noauth, auth, Password, unset, freed, held, Env, Tls,
  tls_failed, tls_no_peer, tls_peer, Pam, refused, denied, granted, exited, broke, crashed, M,
  ◌>>=◌, ◌>>◌, pure, gets, stop, modify, emit, reject,
}
use radmind.Server.Keyword.{word}
use radmind.Server.Config.{max_include_depth, command_k, read_kfile}

unfoldable pub set_cn : Bytes → M (Unit {0})
set_cn name = modify (λ s. record s { remote_cn = some name })

unfoldable pub set_zlib : M (Unit {0})
set_zlib = modify (λ s. record s { zlib = true })

unfoldable pub set_commands : Table → M (Unit {0})
set_commands table = modify (λ s. record s { commands = table })

unfoldable pub set_password : Password → M (Unit {0})
set_password p = modify (λ s. record s { password = p })

unfoldable pub set_user : Bytes → M (Unit {0})
set_user name = modify (λ s. record s { user = some name })

unfoldable pub set_authorized : M (Unit {0})
set_authorized = modify (λ s. record s { authorized = true })

module _ (g : Env) where
  -- The certificate is asked for from authlevel 2 on.
  unfoldable pub peer_name : Tls → M (Unit {0})
  unfolding set_cn
  peer_name tls_failed = reject 501
  peer_name tls_no_peer = emit tls_started >> (if leb 2 g.authlevel then stop broke else pure tt)
  peer_name (tls_peer name) =
      emit tls_started >> (if leb 2 g.authlevel then set_cn name else pure tt)

  -- The end of f_starttls(): the table of requests is chosen by the config file.
  unfoldable pub choose_commands : M ℕ
  unfolding command_k read_kfile set_commands
  choose_commands = do
    known ← command_k g max_include_depth (codes "config")
    (if known
        then (do
          set_commands auth
          file ← gets (λ s. s.command_file)
          ok ← read_kfile g g.kfile_depth file
          (if ok then pure 0 else stop (exited 1)))
        else set_commands noauth >> pure 0)

  unfoldable pub f_starttls : List Bytes → M ℕ
  unfolding peer_name choose_commands
  f_starttls av =
      if length av == 1
      then (do
        emit (reply 220)
        tls ← gets (λ s. g.starttls s.events)
        peer_name tls
        choose_commands)
      else reject 501

  -- free( password ), where it is not NULL. The pointer is not reset by the free() behind
  -- pam_authenticate(), and to free it twice is undefined.
  unfoldable pub free_held : Password → M (Unit {0})
  unfolding set_password
  free_held unset = pure tt
  free_held freed = stop crashed
  free_held (held w) = set_password unset

  unfoldable pub free_password : M (Unit {0})
  unfolding free_held
  free_password = gets (λ s. s.password) >>= free_held

  -- The calls of PAM; the password is freed in the middle of them.
  unfoldable pub judged : Pam → M ℕ
  unfolding set_password set_authorized
  judged refused = reject 535
  judged denied = set_password freed >> reject 535
  judged granted = do set_password freed; emit logged_in; emit (reply 205); set_authorized; pure 0

  unfoldable pub authenticate : Bytes → Bytes → M ℕ
  unfolding judged
  authenticate name secret = gets (λ s. g.pam s.events name secret) >>= judged

  unfoldable pub f_login : List Bytes → M ℕ
  unfolding free_password set_user set_password authenticate
  f_login av =
      if not g.checkuser
      then reject 502
      else (if not (length av == 3) then reject 501 else (do
        free_password
        set_user (word av 1)
        set_password (held (word av 2))
        authenticate (word av 1) (word av 2)))

  -- The level of compression does not matter to what follows.
  unfoldable pub f_compress : List Bytes → M ℕ
  unfolding same_word set_zlib
  f_compress av =
      if (g.max_zlib_level == 0) || not ((length av == 2) || (length av == 3))
      then reject 501
      else (gets (λ s. s.zlib) >>= λ already.
          if already
          then reject 501
          else (if same_word (word av 1) (codes "ZLIB")
              then (do
                emit (reply 320)
                ok ← gets (λ s. g.setcompression s.events)
                (if ok then (set_zlib >> emit (reply 220) >> pure 0) else stop broke))
              else (emit (reply 525) >> pure 0)))
