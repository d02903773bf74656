-- ===== src/Server/Twice.antt =====
-- A finding: a second LOGIN after one that PAM has authenticated frees the password again.
use radmind.Base.{◌≡◌, ◌≢◌, refl, some, true, List, ◌==◌, Bytes, length, arith}
use radmind.Server.{
  Password, unset, freed, held, Pam, refused, denied, granted, Session, Env, crashed, ◌>>◌,
}
use radmind.Server.Keyword.{word}
use radmind.Server.Rights.{
  f_login, authenticate, judged, free_password, free_held, set_password, set_user, set_authorized,
}

module _ (g : Env) (asked : g.checkuser ≡ true) where
  freed-crashed :
      (av : List Bytes) (s : Session)
      → length av ≡ 3
      → s.password ≡ freed
      → (f_login g av s).0 ≡ crashed
  unfolding f_login free_password free_held
  freed-crashed av s h e =
      let b : (length av == 3) ≡ true = ground (arith, h) in rw asked (rw b (simp e refl))

  judged-freed : (p : Pam) (s : Session) → p ≢ refused → (judged g p s).1.password ≡ freed
  unfolding judged set_password set_authorized
  judged-freed refused s n = absurd (n refl)
  judged-freed denied s n = refl
  judged-freed granted s n = refl

  authenticate-freed :
      (name secret : Bytes) (s : Session)
      → g.pam s.events name secret ≢ refused
      → (authenticate g name secret s).1.password ≡ freed
  unfolding authenticate
  authenticate-freed name secret s n = judged-freed (g.pam s.events name secret) s n

  held-freed :
      (name secret : Bytes) (p : Password) (s : Session)
      → p ≢ freed
      → ((t : Session) → g.pam t.events name secret ≢ refused)
      → ((free_held g p
            >> (set_user name >> (set_password (held secret) >> authenticate g name secret)))
          s).1.password
        ≡ freed
  unfolding free_held set_user set_password
  held-freed name secret unset s n k =
      let t = record s { user = some name; password = held secret } in
      authenticate-freed name secret t (k t)
  held-freed name secret freed s n k = absurd (n refl)
  held-freed name secret (held w) s n k =
      let t = record s { user = some name; password = held secret } in
      authenticate-freed name secret t (k t)

  login-freed :
      (av : List Bytes) (s : Session)
      → length av ≡ 3
      → s.password ≢ freed
      → ((t : Session) → g.pam t.events (word av 1) (word av 2) ≢ refused)
      → (f_login g av s).1.password ≡ freed
  unfolding f_login free_password
  login-freed av s h n k =
      let b : (length av == 3) ≡ true = ground (arith, h) in
      simp asked (simp b (held-freed (word av 1) (word av 2) s.password s n k))

  -- Where logins are in use and PAM does not refuse the name and the password of a first LOGIN, a second
  -- LOGIN, whatever its words are, frees the password of the first again, which is undefined.
  pub f_login-crashed :
      (av again : List Bytes) (s : Session)
      → length av ≡ 3
      → length again ≡ 3
      → s.password ≢ freed
      → ((t : Session) → g.pam t.events (word av 1) (word av 2) ≢ refused)
      → (f_login g again (f_login g av s).1).0 ≡ crashed
  f_login-crashed av again s h h2 n k =
      freed-crashed again (f_login g av s).1 h2 (login-freed av s h n k)
