-- ===== src/Server/Encrypted.antt =====
-- With an authlevel of one or more, no file is read or written before TLS.
use radmind.Base.{
  ◌≡◌, ◌≢◌, ◌≤◌, refl, Bool, true, false, ◌&&◌, List, [], ◌∷◌, Option, none, some, ℕ, ◌==◌, leb,
  Bytes, length, arith, Bool-cases, inl, inr, if◌then◌else◌,
}
use radmind.Server.{
  reply, tls_started, Table, notls, noauth, auth, Tls, tls_failed, tls_no_peer, tls_peer, Session,
  Env, Out, M, ◌>>◌, emit, stop, pure,
}
use radmind.Server.Adds.{Adds, Adds-reject, Adds-emit, Adds-seq, Later, adds_rules}
use radmind.Server.Gate.{
  seen, behind, touches, is_tls, none_of, seen-Later, behind-Later, behind-quiet,
}
use radmind.Server.Reads.{
  f_retr-Adds, f_stat-Adds, f_repo-Adds, f_quit-Adds, f_noop-Adds, f_help-Adds, f_noauth-Adds,
  f_notls-Adds,
}
use radmind.Server.Writes.{
  set_cn-Adds, f_stor-Adds, f_login-Adds, f_compress-Adds, choose_commands-Adds,
}
use radmind.Server.Rights.{set_cn, f_starttls, peer_name, choose_commands}
use radmind.Server.Rounds.{ended-Keeps, cmdloop-Keeps}
use radmind.Server.Loop.{
  Handler, quit, noop, help, refuse_auth, refuse_tls, stat, retr, stor, starttls, repo, login,
  compress, Entries, optional, entries, find_command, run, dispatch, request, greet, cmdloop, first,
}

-- The functions that stand in the tables before a client is known.
pub before_auth : Handler → Bool
before_auth quit = true
before_auth noop = true
before_auth help = true
before_auth refuse_auth = true
before_auth refuse_tls = true
before_auth starttls = true
before_auth h = false

all_entries : (Handler → Bool) → Entries → Bool
all_entries p [] = true
all_entries p ((name, h) ∷ table) = p h && all_entries p table

find_command-all_entries :
    (p : Handler → Bool) (table : Entries) (w : Bytes) (h : Handler)
    → all_entries p table ≡ true
    → find_command table w ≡ some h
    → p h ≡ true
unfolding find_command all_entries
find_command-all_entries p [] w h e f = cc
find_command-all_entries p ((name, k) ∷ table) w h e f =
    ground (arith, e, f, find_command-all_entries p table w h)

optional-before_auth :
    (g : Env) (h : Handler) → before_auth h ≡ true → all_entries before_auth (optional g h h) ≡ true
unfolding optional all_entries
optional-before_auth g h e = ground (arith, e)

entries-before_auth :
    (g : Env) (t : Table) → t ≢ auth → all_entries before_auth (entries g t) ≡ true
unfolding entries all_entries before_auth
entries-before_auth g notls h = optional-before_auth g refuse_tls refl
entries-before_auth g noauth h = optional-before_auth g refuse_auth refl
entries-before_auth g auth h = absurd (h refl)

-- A function that stands in the table of all requests alone was found there.
table_of :
    (g : Env) (w : Bytes) (h : Handler) (t : Table)
    → find_command (entries g t) w ≡ some h
    → before_auth h ≡ false
    → t ≡ auth
table_of g w h notls f b = cc (
    find_command-all_entries before_auth (entries g notls) w h
      (entries-before_auth g notls (λ e. cc)) f)
table_of g w h noauth f b = cc (
    find_command-all_entries before_auth (entries g noauth) w h
      (entries-before_auth g noauth (λ e. cc)) f)
table_of g w h auth f b = refl

-- The table of all requests is in use only behind TLS.
record Encrypted (s : Session) : Type 0 where
  chosen : s.commands ≡ auth → seen is_tls s.events ≡ true
  order : behind touches is_tls s.events ≡ true

-- Once TLS has started, anything may come.
Encrypted-Later :
    (s t : Session)
    → Later (λ e. true) false false s t
    → seen is_tls s.events ≡ true
    → Encrypted s
    → Encrypted t
Encrypted-Later s t l h e = record {
  chosen = λ c. seen-Later touches is_tls s t l h;
  order = behind-Later touches is_tls s t l h e.order;
}

-- What touches no file, and leaves the table alone, may come before.
Encrypted-quiet :
    (s t : Session) → Later (none_of touches) true true s t → Encrypted s → Encrypted t
Encrypted-quiet s t l e = record {
  chosen = λ c. seen-Later touches is_tls s t l (e.chosen (cc (l.same_commands refl)));
  order = behind-quiet touches is_tls s t l e.order;
}

-- After snet_starttls() has worked.
started-Encrypted :
    (s : Session) → Encrypted s → Encrypted (record s { events = tls_started ∷ s.events })
unfolding seen behind is_tls touches
started-Encrypted s e = record { chosen = λ c. refl; order = ground (arith, e.order) }

module _ (g : Env) where
  behind_tls :
      (m : M (Unit {0}))
      → Adds (λ e. true) false false m
      → (s : Session) → Encrypted s
      → Encrypted ((emit tls_started >> m >> choose_commands g) s).1
  unfolding seen is_tls
  behind_tls m a s e =
      let t = record s { events = tls_started ∷ s.events } in
      Encrypted-Later t _
        ((Adds-seq m (choose_commands g) a (choose_commands-Adds (λ n. refl) (λ p. refl) g)).at t)
        refl (started-Encrypted s e)

  named-Encrypted :
      (t : Tls) (s : Session) → Encrypted s → Encrypted ((peer_name g t >> choose_commands g) s).1
  unfolding peer_name none_of touches
  named-Encrypted tls_failed s e = Encrypted-quiet s _ ((Adds-reject {A = ℕ} 501 refl).at s) e
  named-Encrypted tls_no_peer s e =
      behind_tls (if leb 2 g.authlevel then stop Out.broke else pure tt) (search adds_rules) s e
  named-Encrypted (tls_peer name) s e =
      behind_tls (if leb 2 g.authlevel then set_cn name else pure tt)
        (search (adds_rules, set_cn-Adds)) s e

  f_starttls-Encrypted :
      (av : List Bytes) (s : Session) → Encrypted s → Encrypted (f_starttls g av s).1
  unfolding f_starttls none_of touches
  f_starttls-Encrypted av s e =
      let t = record s { events = reply 220 ∷ s.events } in
      elim (Bool-cases (length av == 1)) [
        | inl b ↦ rw b (
            named-Encrypted (g.starttls t.events) t
              (Encrypted-quiet s t ((Adds-emit (reply 220) refl).at s) e))
        | inr b ↦ rw b (Encrypted-quiet s _ ((Adds-reject {A = ℕ} 501 refl).at s) e)
      ]

  run-Encrypted :
      (h : Handler) (av : List Bytes) (s : Session)
      → (before_auth h ≡ false → s.commands ≡ auth)
      → Encrypted s
      → Encrypted (run g h av s).1
  unfolding run before_auth none_of touches
  run-Encrypted quit av s c e = Encrypted-quiet s _ ((f_quit-Adds (λ n. refl)).at s) e
  run-Encrypted noop av s c e = Encrypted-quiet s _ ((f_noop-Adds (λ n. refl)).at s) e
  run-Encrypted help av s c e = Encrypted-quiet s _ ((f_help-Adds (λ n. refl)).at s) e
  run-Encrypted refuse_auth av s c e = Encrypted-quiet s _ ((f_noauth-Adds (λ n. refl)).at s) e
  run-Encrypted refuse_tls av s c e = Encrypted-quiet s _ ((f_notls-Adds (λ n. refl)).at s) e
  run-Encrypted starttls av s c e = f_starttls-Encrypted av s e
  run-Encrypted stat av s c e =
      Encrypted-Later s _ ((f_stat-Adds (λ n. refl) g (λ p. refl) (λ p. refl) av).at s)
        (e.chosen (c refl)) e
  run-Encrypted retr av s c e =
      Encrypted-Later s _ ((f_retr-Adds (λ n. refl) g (λ w. refl) (λ p. refl) av).at s)
        (e.chosen (c refl)) e
  run-Encrypted stor av s c e =
      Encrypted-Later s _ ((f_stor-Adds (λ e. refl) g av).at s) (e.chosen (c refl)) e
  run-Encrypted repo av s c e =
      Encrypted-Later s _ ((f_repo-Adds (λ n. refl) (λ w. refl) av).at s) (e.chosen (c refl)) e
  run-Encrypted login av s c e =
      Encrypted-Later s _ ((f_login-Adds (λ e. refl) g av).at s) (e.chosen (c refl)) e
  run-Encrypted compress av s c e =
      Encrypted-Later s _ ((f_compress-Adds (λ n. refl) g av).at s) (e.chosen (c refl)) e

  dispatch-Encrypted :
      (w : Bytes) (args : List Bytes) (found : Option Handler) (s : Session)
      → find_command (entries g s.commands) w ≡ found
      → Encrypted s
      → Encrypted (dispatch g found (w ∷ args) s).1
  unfolding dispatch none_of touches
  dispatch-Encrypted w args none s f e = Encrypted-quiet s _ ((Adds-emit (reply 500) refl).at s) e
  dispatch-Encrypted w args (some h) s f e =
      ended-Keeps Encrypted g (run g h (w ∷ args) s)
        (run-Encrypted h (w ∷ args) s (λ b. table_of g w h s.commands f b) e)

  request-Encrypted : (av : List Bytes) (s : Session) → Encrypted s → Encrypted (request g av s).1
  unfolding request none_of touches
  request-Encrypted [] s e = Encrypted-quiet s _ ((Adds-emit (reply 501) refl).at s) e
  request-Encrypted (w ∷ args) s e =
      dispatch-Encrypted w args (find_command (entries g s.commands) w) s refl e

  reply-Encrypted :
      (s : Session) (n : ℕ) → Encrypted s → Encrypted (record s { events = reply n ∷ s.events })
  unfolding none_of touches
  reply-Encrypted s n e = Encrypted-quiet s _ ((Adds-emit (reply n) refl).at s) e

  greet-Adds : (g.authlevel == 0) ≡ false → Adds (none_of touches) true true (greet g)
  unfolding greet none_of touches
  greet-Adds e = simp e (search adds_rules depth 14)

  first-Encrypted :
      (buf : ℕ → ℕ) (input : List Bytes)
      → 1 ≤ g.authlevel
      → Encrypted (greet g (first g buf input)).1
  unfolding first behind
  first-Encrypted buf input h =
      let e : (g.authlevel == 0) ≡ false = ground arith in
      Encrypted-quiet (first g buf input) _ ((greet-Adds e).at (first g buf input))
        (record { chosen = rw e (λ c. cc); order = refl })

  -- In every session of a server whose authlevel is one or more, whatever the client sends and the system
  -- answers, each file of the server that is opened, looked up, made or removed, the config and command
  -- files among them, and each directory that is made, comes behind a start of TLS. The files that
  -- special_t() reads for the answer to STAT are no events.
  pub cmdloop-tls :
      (buf : ℕ → ℕ) (input : List Bytes)
      → 1 ≤ g.authlevel
      → behind touches is_tls (cmdloop g (first g buf input)).1.events ≡ true
  cmdloop-tls buf input h =
      (cmdloop-Keeps g Encrypted (λ s rest e. record { chosen = e.chosen; order = e.order })
        reply-Encrypted request-Encrypted (first g buf input) (first-Encrypted buf input h)).order
