-- ===== src/Server/Reads.antt =====
-- The handlers that leave a client's rights alone, and what they add to the events.
use radmind.Base.{◌≡◌, Bool, true, List, none, some, ℕ, Bytes}
use radmind.Server.{Event, reply, opened, sent, statted, reported, described, Env, M, pure, reject}
use radmind.CLibrary.Strings.{fitting}
use radmind.Server.Adds.{Adds, Adds-pure, Adds-option, adds_rules}
use radmind.Server.Keyword.{Key, command, transcript, special, file}
use radmind.Server.Requests.{
  decoded, check_access, fitted, named_path, file_path, key_of, retr_path, send_file, f_retr,
  f_repo, f_quit, f_noop, f_help, f_noauth, f_notls,
}
use radmind.Server.Special.{special_t, stat_answer, describe, f_stat}

module _ {ℓ} {allowed : Event → Bool} {strict kept : Bool} {B : Type ℓ} where
  pub Adds-key :
      (f : Key → M B)
      → Adds allowed strict kept (f command)
      → Adds allowed strict kept (f transcript)
      → Adds allowed strict kept (f special)
      → Adds allowed strict kept (f file)
      → (k : Key) → Adds allowed strict kept (f k)
  Adds-key f a b c d command = a
  Adds-key f a b c d transcript = b
  Adds-key f a b c d special = c
  Adds-key f a b c d file = d

module _ {allowed : Event → Bool} {strict kept : Bool}
    (replies : (n : ℕ) → allowed (reply n) ≡ true) where
  pub decoded-Adds : (w : Bytes) → Adds allowed strict kept (decoded w)
  unfolding decoded
  decoded-Adds w = search (adds_rules, replies)

  check_access-Adds : (name : Bytes) → Adds allowed strict kept (check_access name)
  unfolding check_access
  check_access-Adds name = search (adds_rules, replies)

  pub fitted-Adds : (path : Bytes) → Adds allowed strict kept (fitted path)
  unfolding fitted
  fitted-Adds path =
      Adds-option (λ o. elim o [ none ↦ reject 540 | some p ↦ pure p ])
        (search (adds_rules, replies)) (λ p. Adds-pure p) (fitting path)

  named_path-Adds : (av : List Bytes) (k : Key) → Adds allowed strict kept (named_path av k)
  unfolding named_path
  named_path-Adds av command = search (adds_rules, decoded-Adds, check_access-Adds, fitted-Adds)
  named_path-Adds av transcript = search (adds_rules, decoded-Adds, check_access-Adds, fitted-Adds)
  named_path-Adds av special = search (adds_rules, decoded-Adds, fitted-Adds)
  named_path-Adds av file = search adds_rules

  file_path-Adds : (av : List Bytes) → Adds allowed strict kept (file_path av)
  unfolding file_path
  file_path-Adds av = search (adds_rules, decoded-Adds, check_access-Adds, fitted-Adds)

  module _ (g : Env) where
    retr_path-Adds : (av : List Bytes) → Adds allowed strict kept (retr_path g av)
    unfolding retr_path key_of
    retr_path-Adds av = search (adds_rules, replies, Adds-key, named_path-Adds, file_path-Adds)

    send_file-Adds :
        ((text : Bytes) → allowed (sent text) ≡ true)
        → (path : Bytes) → allowed (opened path) ≡ true
        → Adds allowed strict kept (send_file g path)
    unfolding send_file
    send_file-Adds sends path h = search (adds_rules, replies, sends, h) depth 20

    pub f_retr-Adds :
        ((text : Bytes) → allowed (sent text) ≡ true)
        → ((path : Bytes) → allowed (opened path) ≡ true)
        → (av : List Bytes) → Adds allowed strict kept (f_retr g av)
    unfolding f_retr
    f_retr-Adds sends h av = search (adds_rules, retr_path-Adds, send_file-Adds, sends, h)

    stat_answer-Adds :
        (av : List Bytes) (path sum : Bytes) (k : Key)
        → Adds allowed strict kept (stat_answer g av path sum k)
    unfolding stat_answer special_t
    stat_answer-Adds av path sum command = search adds_rules
    stat_answer-Adds av path sum transcript = search adds_rules
    stat_answer-Adds av path sum special = search adds_rules
    stat_answer-Adds av path sum file = search adds_rules

    module _ (stats : (path : Bytes) → allowed (statted path) ≡ true)
        (describes : (w : List Bytes) → allowed (described w) ≡ true) where
      describe-Adds :
          (av : List Bytes) (k : Key) (path : Bytes)
          → Adds allowed strict kept (describe g av k path)
      unfolding describe
      describe-Adds av k path =
          search (adds_rules, replies, stat_answer-Adds, stats, describes) depth 16

      pub f_stat-Adds : (av : List Bytes) → Adds allowed strict kept (f_stat g av)
      unfolding f_stat key_of
      f_stat-Adds av = search (adds_rules, replies, Adds-key, named_path-Adds, describe-Adds)

  pub f_repo-Adds :
      ((w : Bytes) → allowed (reported w) ≡ true)
      → (av : List Bytes) → Adds allowed strict kept (f_repo av)
  unfolding f_repo
  f_repo-Adds h av = search (adds_rules, replies, h) depth 14

  pub f_quit-Adds : Adds allowed strict kept f_quit
  unfolding f_quit
  f_quit-Adds = search (adds_rules, replies)

  pub f_noop-Adds : Adds allowed strict kept f_noop
  unfolding f_noop
  f_noop-Adds = search (adds_rules, replies)

  pub f_help-Adds : Adds allowed strict kept f_help
  unfolding f_help
  f_help-Adds = search (adds_rules, replies)

  pub f_noauth-Adds : Adds allowed strict kept f_noauth
  unfolding f_noauth
  f_noauth-Adds = search (adds_rules, replies)

  pub f_notls-Adds : Adds allowed strict kept f_notls
  unfolding f_notls
  f_notls-Adds = search (adds_rules, replies)
