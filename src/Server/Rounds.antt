-- ===== src/Server/Rounds.antt =====
-- What every request keeps, a session keeps.
use radmind.Base.{List, [], ◌∷◌, ℕ, zero, suc, Bytes, length}
use radmind.Server.{
  reply, Session, Env, Out, go, returned, exited, broke, crashed, out_of_fuel, M, after,
}
use radmind.Server.Special.{words}
use radmind.Server.Loop.{ended, request, requests, serve_line, closed, greet, cmdloop}

module _ (P : Session → Type 0) where
  pub after-Keeps :
      {A B : Type 0} (r : Out A × Session) (f : A → M B)
      → P r.1
      → ((a : A) (s : Session) → P s → P (f a s).1)
      → P (after r f).1
  after-Keeps (go a, s) f h k = k a s h
  after-Keeps (returned n, s) f h k = h
  after-Keeps (exited n, s) f h k = h
  after-Keeps (broke, s) f h k = h
  after-Keeps (crashed, s) f h k = h
  after-Keeps (out_of_fuel, s) f h k = h

  pub ended-Keeps : (g : Env) (r : Out ℕ × Session) → P r.1 → P (ended g r).1
  ended-Keeps g (go n, s) h = h
  ended-Keeps g (returned n, s) h = h
  ended-Keeps g (exited n, s) h = h
  ended-Keeps g (broke, s) h = h
  ended-Keeps g (crashed, s) h = h
  ended-Keeps g (out_of_fuel, s) h = h

module _ (g : Env) (P : Session → Type 0)
    (lines : (s : Session) (rest : List Bytes) → P s → P (record s { input = rest }))
    (says : (s : Session) (n : ℕ) → P s → P (record s { events = reply n ∷ s.events }))
    (serves : (av : List Bytes) (s : Session) → P s → P (request g av s).1) where
  serve_line-Keeps :
      (next : Unit {0} → M (Unit {0}))
      → ((s : Session) → P s → P (next tt s).1)
      → (input : List Bytes) (s : Session) → P s
      → P (serve_line g next input s).1
  unfolding serve_line
  serve_line-Keeps next k [] s h = h
  serve_line-Keeps next k (line ∷ rest) s h =
      after-Keeps P (request g (words line) (record s { input = rest })) next
        (serves (words line) (record s { input = rest }) (lines s rest h)) (λ a t p. k t p)

  requests-Keeps : (fuel : ℕ) (s : Session) → P s → P (requests g fuel s).1
  unfolding requests
  requests-Keeps zero s h = h
  requests-Keeps (suc fuel) s h =
      serve_line-Keeps (λ u. requests g fuel) (requests-Keeps fuel) s.input s h

  closed-Keeps : (r : Out (Unit {0}) × Session) → P r.1 → P (closed g r).1
  unfolding closed
  closed-Keeps (go u, s) h = says s 444 h
  closed-Keeps (returned n, s) h = h
  closed-Keeps (exited n, s) h = h
  closed-Keeps (broke, s) h = says s 444 h
  closed-Keeps (crashed, s) h = h
  closed-Keeps (out_of_fuel, s) h = h

  pub cmdloop-Keeps : (s : Session) → P (greet g s).1 → P (cmdloop g s).1
  unfolding cmdloop
  cmdloop-Keeps s h = closed-Keeps _ (
      after-Keeps P (greet g s) (λ u t. requests g (suc (length t.input)) t) h
        (λ u t p. requests-Keeps (suc (length t.input)) t p))
