-- ===== src/Apply/Keeps.antt =====
-- What the work on one line leaves alone: the removal list, the last path, and the events that a line
-- begins with and that take a directory away.
pub mod Updates
pub mod Lines
pub mod Steps
use radmind.Base.{
  ◌≡◌, refl, sym, ap, ◌∙◌, ◌&&◌, Bool, true, false, List, [], ◌∷◌, ◌++◌, append_assoc, Option, some,
  none, if◌then◌else◌, ℕ, Bytes, arith,
}
use radmind.Apply.{
  Event, looked, removed, Node, State, Out, go, returned, exited, broke, crashed, out_of_fuel, M,
  ◌>>=◌, ◌>>◌, after, pure, gets, modify, emit, stop, set_buf, decode_word, coded, buffer_after,
  set_st, Answer, done, enoent, failed, noted, if_done, Env, attempt, must,
}
use radmind.Code.{Coded, value, null, overrun, overread, decode}
use radmind.Transcript.{Stat}

-- Neither a line's beginning nor a removed directory.
unfoldable pub is_calm : Event → Bool
is_calm (looked path) = false
is_calm (removed path) = false
is_calm e = true

unfoldable pub calm : List Event → Bool
unfolding is_calm
calm [] = true
calm (e ∷ events) = is_calm e && calm events

pub record Later (s t : State) : Type 0 where
  pub new : List Event
  pub events_eq : t.events ≡ new ++ s.events
  pub calm_new : calm new ≡ true
  pub same_head : t.head ≡ s.head
  pub same_prepath : t.prepath ≡ s.prepath

calm-append : (a b : List Event) → calm a ≡ true → calm b ≡ true → calm (a ++ b) ≡ true
unfolding calm
calm-append [] b ha hb = hb
calm-append (e ∷ a) b ha hb = ground (arith, calm-append a b)

pub Later-refl : (s : State) → Later s s
unfolding calm
Later-refl s = record {
  new = [];
  events_eq = refl;
  calm_new = refl;
  same_head = refl;
  same_prepath = refl;
}

pub Later-trans : (s t u : State) → Later s t → Later t u → Later s u
Later-trans s t u p q = record {
  new = q.new ++ p.new;
  events_eq =
      q.events_eq
      ∙ (ap (λ (l : List Event). q.new ++ l) p.events_eq ∙ sym (append_assoc q.new p.new s.events));
  calm_new = calm-append q.new p.new q.calm_new p.calm_new;
  same_head = q.same_head ∙ p.same_head;
  same_prepath = q.same_prepath ∙ p.same_prepath;
}

-- `m` does so from every state, however it ends.
pub record Keeps {ℓ} {A : Type ℓ} (m : M A) : Type ℓ where
  pub at : (s : State) → Later s (m s).1

module _ {ℓ} {A : Type ℓ} where
  pub Keeps-quiet :
      (m : M A)
      → ((s : State) → (m s).1.events ≡ s.events)
      → ((s : State) → (m s).1.head ≡ s.head)
      → ((s : State) → (m s).1.prepath ≡ s.prepath)
      → Keeps m
  unfolding calm
  Keeps-quiet m e h p = record {
    at = λ s. record {
      new = [];
      events_eq = e s;
      calm_new = refl;
      same_head = h s;
      same_prepath = p s;
    };
  }

  pub Keeps-pure : (a : A) → Keeps (pure a)
  Keeps-pure a = record { at = λ s. Later-refl s }

  pub Keeps-gets : (f : State → A) → Keeps (gets f)
  Keeps-gets f = record { at = λ s. Later-refl s }

  pub Keeps-stop : (o : Out A) → Keeps (stop o)
  Keeps-stop o = record { at = λ s. Later-refl s }

  pub Keeps-if : (b : Bool) (m n : M A) → Keeps m → Keeps n → Keeps (if b then m else n)
  Keeps-if true m n hm hn = hm
  Keeps-if false m n hm hn = hn

Keeps-emit : (e : Event) → is_calm e ≡ true → Keeps (emit e)
unfolding calm
Keeps-emit e h = record {
  at = λ s. record {
    new = e ∷ [];
    events_eq = refl;
    calm_new = ground (arith, h);
    same_head = refl;
    same_prepath = refl;
  };
}

module _ {ℓ κ} {A : Type ℓ} {B : Type κ} where
  pub Later-after :
      (s : State) (r : Out A × State) (f : A → M B)
      → Later s r.1
      → ((a : A) → Keeps (f a))
      → Later s (after r f).1
  Later-after s (go a, t) f h k = Later-trans s t (f a t).1 h ((k a).at t)
  Later-after s (returned n, t) f h k = h
  Later-after s (exited n, t) f h k = h
  Later-after s (broke, t) f h k = h
  Later-after s (crashed, t) f h k = h
  Later-after s (out_of_fuel, t) f h k = h

  pub Keeps-bind : (m : M A) (f : A → M B) → Keeps m → ((a : A) → Keeps (f a)) → Keeps (m >>= f)
  Keeps-bind m f hm hf = record { at = λ s. Later-after s (m s) f (hm.at s) hf }

  pub Keeps-option :
      (f : Option A → M B)
      → Keeps (f none)
      → ((a : A) → Keeps (f (some a)))
      → (o : Option A) → Keeps (f o)
  Keeps-option f hn hs none = hn
  Keeps-option f hn hs (some a) = hs a

module _ {κ} {B : Type κ} where
  pub Keeps-seq : (m : M (Unit {0})) (k : M B) → Keeps m → Keeps k → Keeps (m >> k)
  Keeps-seq m k hm hk = record { at = λ s. Later-after s (m s) (λ a. k) (hm.at s) (λ a. hk) }

  pub Keeps-answer :
      (f : Answer → M B)
      → Keeps (f done)
      → Keeps (f enoent)
      → Keeps (f failed)
      → (a : Answer) → Keeps (f a)
  Keeps-answer f hd he hf done = hd
  Keeps-answer f hd he hf enoent = he
  Keeps-answer f hd he hf failed = hf

pub set_buf-Keeps : (line : Bytes) → Keeps (set_buf line)
unfolding set_buf
set_buf-Keeps line = Keeps-quiet _ (λ s. refl) (λ s. refl) (λ s. refl)

pub set_st-Keeps : (st : Stat) → Keeps (set_st st)
unfolding set_st
set_st-Keeps st = Keeps-quiet _ (λ s. refl) (λ s. refl) (λ s. refl)

pub ruleset keeps_rules =
    (Keeps-bind, Keeps-seq, Keeps-pure, Keeps-gets, Keeps-stop, Keeps-if, set_st-Keeps)

coded-Keeps : (c : Coded) → Keeps (coded c)
unfolding coded
coded-Keeps (value t) = Keeps-pure (some t)
coded-Keeps null = Keeps-pure none
coded-Keeps overrun = Keeps-stop crashed
coded-Keeps overread = Keeps-stop crashed

pub decode_word-Keeps : (w : Bytes) → Keeps (decode_word w)
unfolding decode_word
decode_word-Keeps w = search (keeps_rules, set_buf-Keeps, coded-Keeps) depth 16

noted-Keeps : (e : Event) → is_calm e ≡ true → (a : Answer) → Keeps (noted e a)
unfolding noted
noted-Keeps e h done = search (keeps_rules, Keeps-emit, h) depth 16
noted-Keeps e h enoent = Keeps-pure enoent
noted-Keeps e h failed = Keeps-pure failed

if_done-Keeps : (a : Answer) → Keeps (if_done a)
unfolding if_done
if_done-Keeps done = Keeps-pure tt
if_done-Keeps enoent = Keeps-stop (returned 1)
if_done-Keeps failed = Keeps-stop (returned 1)

module _ (g : Env) where
  pub attempt-Keeps : (e : Event) → is_calm e ≡ true → Keeps (attempt g e)
  unfolding attempt
  attempt-Keeps e h = search (keeps_rules, noted-Keeps, h) depth 16

  pub must-Keeps : (e : Event) → is_calm e ≡ true → Keeps (must g e)
  unfolding must
  must-Keeps e h = search (keeps_rules, attempt-Keeps, if_done-Keeps, h) depth 16
