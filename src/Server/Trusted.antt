-- ===== src/Server/Trusted.antt =====
-- With checkuser, no file is written before a login.
use radmind.Base.{
  ◌≡◌, refl, Bool, true, false, List, [], ◌∷◌, Option, none, some, ℕ, ◌==◌, Bytes, length, arith,
  Bool-cases, inl, inr,
}
use radmind.Server.{
  Event, reply, opened, logged_in, Pam, refused, denied, granted, held, freed, Session, Env, M,
  ◌>>◌, emit, dismiss, pure, reject,
}
use radmind.Server.Keyword.{word}
use radmind.Server.Adds.{Adds, Adds-reject, Adds-dismiss, Adds-emit, Later, adds_rules}
use radmind.Server.Gate.{
  seen, behind, changes, is_login, none_of, seen-Later, behind-Later, behind-quiet,
}
use radmind.Server.Rounds.{after-Keeps, ended-Keeps, cmdloop-Keeps}
use radmind.Server.Files.{command_k-Adds, read_kfile-Adds}
use radmind.Server.Reads.{
  f_retr-Adds, f_stat-Adds, f_repo-Adds, f_quit-Adds, f_noop-Adds, f_help-Adds, f_noauth-Adds,
  f_notls-Adds,
}
use radmind.Server.Writes.{
  prepare-Adds, upload-Adds, free_password-Adds, f_compress-Adds, f_starttls-Adds,
  set_password-Adds, set_user-Adds, set_authorized-Adds, set_commands-Adds,
}
use radmind.Server.Special.{f_stat}
use radmind.Server.Requests.{f_retr, f_repo, f_quit, f_noop, f_help, f_noauth, f_notls}
use radmind.Server.Store.{admit, check_user, upload, prepare, f_stor}
use radmind.Server.Rights.{
  f_starttls, f_compress, f_login, judged, authenticate, free_password, set_user, set_password,
  set_authorized,
}
use radmind.Server.Loop.{
  Handler, quit, noop, help, refuse_auth, refuse_tls, stat, retr, stor, starttls, repo, login,
  compress, entries, find_command, run, dispatch, request, greet, identify, cmdloop, first,
}

-- An authorized client has logged in.
record Trusted (s : Session) : Type 0 where
  known : s.authorized ≡ true → seen is_login s.events ≡ true
  order : behind changes is_login s.events ≡ true

Trusted-Later :
    (s t : Session)
    → Later (λ e. true) false false s t
    → seen is_login s.events ≡ true
    → Trusted s
    → Trusted t
Trusted-Later s t l h e = record {
  known = λ c. seen-Later changes is_login s t l h;
  order = behind-Later changes is_login s t l h e.order;
}

Trusted-quiet :
    {A : Type 0} (m : M A)
    → Adds (none_of changes) false true m
    → (s : Session) → Trusted s
    → Trusted (m s).1
Trusted-quiet m a s e =
    let l = a.at s in
    record {
      known = λ c. seen-Later changes is_login s (m s).1 l (e.known (cc (l.same_authorized refl)));
      order = behind-quiet changes is_login s (m s).1 l e.order;
    }

logged-Trusted : (s : Session) → Trusted s → Trusted (record s { events = logged_in ∷ s.events })
unfolding seen behind is_login changes
logged-Trusted s e = record { known = λ c. refl; order = ground (arith, e.order) }

replies : (n : ℕ) → none_of changes (reply n) ≡ true
unfolding none_of changes
replies n = refl

opens : (path : Bytes) → none_of changes (opened path) ≡ true
unfolding none_of changes
opens path = refl

anything : (e : Event) → (λ (x : Event). true) e ≡ true
anything e = refl

seq-Trusted :
    (m : M (Unit {0})) (k : M ℕ)
    → ((s : Session) → Trusted s → Trusted (m s).1)
    → ((s : Session) → Trusted s → Trusted (k s).1)
    → (s : Session) → Trusted s
    → Trusted ((m >> k) s).1
seq-Trusted m k hm hk s e = after-Keeps Trusted (m s) (λ u. k) (hm s e) (λ u t f. hk t f)

abbrev granted_rest : M ℕ
granted_rest = do emit (reply 205); set_authorized; pure 0

granted-Trusted : (s : Session) → Trusted s → Trusted ((emit logged_in >> granted_rest) s).1
unfolding seen is_login
granted-Trusted s e =
    let t = record s { events = logged_in ∷ s.events } in
    let rest : Adds (λ e. true) false false granted_rest =
      search (adds_rules, anything (reply 205), set_authorized-Adds) in
    Trusted-Later t _ (rest.at t) refl (logged-Trusted s e)

module _ (g : Env) where
  judged-Trusted : (p : Pam) (s : Session) → Trusted s → Trusted (judged g p s).1
  unfolding judged seen is_login
  judged-Trusted refused s e =
      Trusted-quiet (reject {A = ℕ} 535) (Adds-reject 535 (replies 535)) s e
  judged-Trusted denied s e =
      Trusted-quiet (set_password freed >> reject {A = ℕ} 535)
        (search (adds_rules, set_password-Adds, replies)) s e
  judged-Trusted granted s e =
      seq-Trusted (set_password freed) (emit logged_in >> granted_rest)
        (Trusted-quiet _ (set_password-Adds freed)) granted-Trusted s e

  f_login-Trusted : (av : List Bytes) (s : Session) → Trusted s → Trusted (f_login g av s).1
  unfolding f_login authenticate
  f_login-Trusted av s e = elim (Bool-cases g.checkuser) [
    | inr b ↦ rw b (Trusted-quiet (reject {A = ℕ} 502) (Adds-reject 502 (replies 502)) s e)
    | inl b ↦ rw b (elim (Bool-cases (length av == 3)) [
      | inr c ↦ rw c (Trusted-quiet (reject {A = ℕ} 501) (Adds-reject 501 (replies 501)) s e)
      | inl c ↦ rw c (
          seq-Trusted (free_password g)
            (set_user (word av 1)
              >> (set_password (held (word av 2)) >> authenticate g (word av 1) (word av 2)))
            (Trusted-quiet _ (free_password-Adds replies g))
            (seq-Trusted (set_user (word av 1))
              (set_password (held (word av 2)) >> authenticate g (word av 1) (word av 2))
              (Trusted-quiet _ (set_user-Adds (word av 1)))
              (seq-Trusted (set_password (held (word av 2)))
                (authenticate g (word av 1) (word av 2))
                (Trusted-quiet _ (set_password-Adds (held (word av 2))))
                (λ t f. judged-Trusted (g.pam t.events (word av 1) (word av 2)) t f)))
            s e)
    ])
  ]

  module _ (asked : g.checkuser ≡ true) where
    admit-Trusted :
        (m : M ℕ)
        → Adds (λ e. true) false false m
        → (b : Bool) (s : Session) → s.authorized ≡ b
        → Trusted s
        → Trusted ((admit g b >> m) s).1
    unfolding admit
    admit-Trusted m a true s h e = rw asked (Trusted-Later s _ (a.at s) (e.known h) e)
    admit-Trusted m a false s h e =
        rw asked (Trusted-quiet (dismiss {A = ℕ} 551) (Adds-dismiss 551 (replies 551)) s e)

    -- Behind the test of the user there is a login.
    checked-Trusted :
        (m : M ℕ)
        → Adds (λ e. true) false false m
        → (s : Session) → Trusted s
        → Trusted ((check_user g >> m) s).1
    unfolding check_user
    checked-Trusted m a s e = admit-Trusted m a s.authorized s refl e

    f_stor-Trusted : (av : List Bytes) (s : Session) → Trusted s → Trusted (f_stor g av s).1
    unfolding f_stor none_of changes
    f_stor-Trusted av s e =
        seq-Trusted (prepare g) (check_user g >> upload g av)
          (Trusted-quiet _ (prepare-Adds g refl))
          (checked-Trusted (upload g av) (upload-Adds (λ e. refl) g av)) s e

    run-Trusted :
        (h : Handler) (av : List Bytes) (s : Session) → Trusted s → Trusted (run g h av s).1
    unfolding run none_of changes
    run-Trusted quit av s e = Trusted-quiet f_quit (f_quit-Adds replies) s e
    run-Trusted noop av s e = Trusted-quiet f_noop (f_noop-Adds replies) s e
    run-Trusted help av s e = Trusted-quiet f_help (f_help-Adds replies) s e
    run-Trusted refuse_auth av s e = Trusted-quiet f_noauth (f_noauth-Adds replies) s e
    run-Trusted refuse_tls av s e = Trusted-quiet f_notls (f_notls-Adds replies) s e
    run-Trusted starttls av s e =
        Trusted-quiet (f_starttls g av) (f_starttls-Adds replies opens g refl av) s e
    run-Trusted stat av s e =
        Trusted-quiet (f_stat g av) (f_stat-Adds replies g (λ p. refl) (λ p. refl) av) s e
    run-Trusted retr av s e =
        Trusted-quiet (f_retr g av) (f_retr-Adds replies g (λ w. refl) (λ p. refl) av) s e
    run-Trusted stor av s e = f_stor-Trusted av s e
    run-Trusted repo av s e = Trusted-quiet (f_repo av) (f_repo-Adds replies (λ w. refl) av) s e
    run-Trusted login av s e = f_login-Trusted av s e
    run-Trusted compress av s e = Trusted-quiet (f_compress g av) (f_compress-Adds replies g av) s e

    dispatch-Trusted :
        (found : Option Handler) (av : List Bytes) (s : Session)
        → Trusted s
        → Trusted (dispatch g found av s).1
    unfolding dispatch
    dispatch-Trusted none av s e =
        Trusted-quiet (emit (reply 500)) (Adds-emit (reply 500) (replies 500)) s e
    dispatch-Trusted (some h) av s e = ended-Keeps Trusted g (run g h av s) (run-Trusted h av s e)

    request-Trusted : (av : List Bytes) (s : Session) → Trusted s → Trusted (request g av s).1
    unfolding request
    request-Trusted [] s e =
        Trusted-quiet (emit (reply 501)) (Adds-emit (reply 501) (replies 501)) s e
    request-Trusted (w ∷ args) s e =
        dispatch-Trusted (find_command (entries g s.commands) w) (w ∷ args) s e

    reply-Trusted :
        (s : Session) (n : ℕ) → Trusted s → Trusted (record s { events = reply n ∷ s.events })
    reply-Trusted s n e = Trusted-quiet (emit (reply n)) (Adds-emit (reply n) (replies n)) s e

    greet-Adds : Adds (none_of changes) false true (greet g)
    unfolding greet identify
    greet-Adds =
        search (adds_rules, replies, opens, command_k-Adds, read_kfile-Adds, set_commands-Adds)
          depth 20

    -- In every session of a server that asks for logins (checkuser), whatever the client sends and the system
    -- answers, each file or directory that is made or removed, and each write to a file, comes behind a
    -- login that PAM has granted.
    pub cmdloop-login :
        (buf : ℕ → ℕ) (input : List Bytes)
        → behind changes is_login (cmdloop g (first g buf input)).1.events ≡ true
    unfolding first behind
    cmdloop-login buf input =
        (cmdloop-Keeps g Trusted (λ s rest e. record { known = e.known; order = e.order })
          reply-Trusted request-Trusted (first g buf input)
          (Trusted-quiet (greet g) greet-Adds (first g buf input)
            (record { known = λ c. cc; order = refl }))).order
