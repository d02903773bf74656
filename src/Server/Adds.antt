-- ===== src/Server/Adds.antt =====
-- What a piece of the server's code adds to the events of its session, and what it leaves alone.
use radmind.Base.{
  ◌≡◌, refl, sym, ap, ◌∙◌, ◌&&◌, Bool, true, false, List, [], ◌∷◌, ◌++◌, append_assoc, Option, some,
  none, if◌then◌else◌, ℕ, Bytes, arith,
}
use radmind.Server.{
  Event, reply, Session, Out, go, returned, exited, broke, crashed, out_of_fuel, M, ◌>>=◌, ◌>>◌,
  after, pure, gets, modify, emit, stop, reject, dismiss, decode_word, coded, buffer_after,
}
use radmind.Code.{Coded, value, null, overrun, overread, decode}

unfoldable pub every : (Event → Bool) → List Event → Bool
every p [] = true
every p (e ∷ events) = p e && every p events

-- From s to t: the new events pass the test, and the client's rights are the same.
pub record Later (allowed : Event → Bool) (strict kept : Bool) (s t : Session) : Type 0 where
  pub new : List Event
  pub events_eq : t.events ≡ new ++ s.events
  pub allowed_new : every allowed new ≡ true
  pub same_commands : strict ≡ true → t.commands ≡ s.commands
  pub same_authorized : kept ≡ true → t.authorized ≡ s.authorized

every-append :
    (p : Event → Bool) (a b : List Event)
    → every p a ≡ true
    → every p b ≡ true
    → every p (a ++ b) ≡ true
unfolding every
every-append p [] b ha hb = hb
every-append p (e ∷ a) b ha hb = ground (arith, every-append p a b)

module _ {allowed : Event → Bool} {strict kept : Bool} where
  pub Later-refl : (s : Session) → Later allowed strict kept s s
  unfolding every
  Later-refl s = record {
    new = [];
    events_eq = refl;
    allowed_new = refl;
    same_commands = λ e. refl;
    same_authorized = λ e. refl;
  }

  pub Later-trans :
      (s t u : Session)
      → Later allowed strict kept s t
      → Later allowed strict kept t u
      → Later allowed strict kept s u
  Later-trans s t u p q = record {
    new = q.new ++ p.new;
    events_eq =
        q.events_eq
        ∙ (ap (λ (l : List Event). q.new ++ l) p.events_eq
            ∙ sym (append_assoc q.new p.new s.events));
    allowed_new = every-append allowed q.new p.new q.allowed_new p.allowed_new;
    same_commands = λ e. q.same_commands e ∙ p.same_commands e;
    same_authorized = λ e. q.same_authorized e ∙ p.same_authorized e;
  }

-- `m` does so from every session, however it ends.
pub record Adds {ℓ} (allowed : Event → Bool) (strict kept : Bool) {A : Type ℓ} (m : M A)
    : Type ℓ where
  pub at : (s : Session) → Later allowed strict kept s (m s).1

module _ {ℓ} {allowed : Event → Bool} {strict kept : Bool} {A : Type ℓ} where
  -- What leaves the events and the rights as they are.
  pub Adds-quiet :
      (m : M A)
      → ((s : Session) → (m s).1.events ≡ s.events)
      → ((s : Session) → (m s).1.commands ≡ s.commands)
      → ((s : Session) → (m s).1.authorized ≡ s.authorized)
      → Adds allowed strict kept m
  unfolding every
  Adds-quiet m e c a = record {
    at = λ s. record {
      new = [];
      events_eq = e s;
      allowed_new = refl;
      same_commands = λ e. c s;
      same_authorized = λ e. a s;
    };
  }

  pub Adds-pure : (a : A) → Adds allowed strict kept (pure a)
  Adds-pure a = record { at = λ s. Later-refl s }

  pub Adds-gets : (f : Session → A) → Adds allowed strict kept (gets f)
  Adds-gets f = record { at = λ s. Later-refl s }

  pub Adds-stop : (o : Out A) → Adds allowed strict kept (stop o)
  Adds-stop o = record { at = λ s. Later-refl s }

  pub Adds-reject : (n : ℕ) → allowed (reply n) ≡ true → Adds allowed strict kept (reject {A = A} n)
  unfolding every
  Adds-reject n h = record {
    at = λ s. record {
      new = reply n ∷ [];
      events_eq = refl;
      allowed_new = ground (arith, h);
      same_commands = λ e. refl;
      same_authorized = λ e. refl;
    };
  }

  pub Adds-dismiss :
      (n : ℕ) → allowed (reply n) ≡ true → Adds allowed strict kept (dismiss {A = A} n)
  unfolding every
  Adds-dismiss n h = record {
    at = λ s. record {
      new = reply n ∷ [];
      events_eq = refl;
      allowed_new = ground (arith, h);
      same_commands = λ e. refl;
      same_authorized = λ e. refl;
    };
  }

  pub Adds-if :
      (b : Bool) (m n : M A)
      → Adds allowed strict kept m
      → Adds allowed strict kept n
      → Adds allowed strict kept (if b then m else n)
  Adds-if true m n hm hn = hm
  Adds-if false m n hm hn = hn

module _ {allowed : Event → Bool} {strict kept : Bool} where
  pub Adds-emit : (e : Event) → allowed e ≡ true → Adds allowed strict kept (emit e)
  unfolding every
  Adds-emit e h = record {
    at = λ s. record {
      new = e ∷ [];
      events_eq = refl;
      allowed_new = ground (arith, h);
      same_commands = λ e. refl;
      same_authorized = λ e. refl;
    };
  }

module _ {ℓ κ} {allowed : Event → Bool} {strict kept : Bool} {A : Type ℓ} {B : Type κ} where
  pub Later-after :
      (s : Session) (r : Out A × Session) (f : A → M B)
      → Later allowed strict kept s r.1
      → ((a : A) → Adds allowed strict kept (f a))
      → Later allowed strict kept s (after r f).1
  Later-after s (go a, t) f h k = Later-trans s t (f a t).1 h ((k a).at t)
  Later-after s (returned n, t) f h k = h
  Later-after s (exited n, t) f h k = h
  Later-after s (broke, t) f h k = h
  Later-after s (crashed, t) f h k = h
  Later-after s (out_of_fuel, t) f h k = h

  pub Adds-bind :
      (m : M A) (f : A → M B)
      → Adds allowed strict kept m
      → ((a : A) → Adds allowed strict kept (f a))
      → Adds allowed strict kept (m >>= f)
  Adds-bind m f hm hf = record { at = λ s. Later-after s (m s) f (hm.at s) hf }

module _ {κ} {allowed : Event → Bool} {strict kept : Bool} {B : Type κ} where
  pub Adds-seq :
      (m : M (Unit {0})) (k : M B)
      → Adds allowed strict kept m
      → Adds allowed strict kept k
      → Adds allowed strict kept (m >> k)
  Adds-seq m k hm hk = record { at = λ s. Later-after s (m s) (λ a. k) (hm.at s) (λ a. hk) }

module _ {allowed : Event → Bool} {strict kept : Bool} where
  coded-Adds : (c : Coded) → Adds allowed strict kept (coded c)
  coded-Adds (value t) = Adds-pure (some t)
  coded-Adds null = Adds-pure none
  coded-Adds overrun = Adds-stop crashed
  coded-Adds overread = Adds-stop crashed

  pub decode_word-Adds : (w : Bytes) → Adds allowed strict kept (decode_word w)
  unfolding decode_word
  decode_word-Adds w = record {
    at = λ s.
        let t = record s { buf = buffer_after s.buf w } in
        Later-trans s t (coded (decode s.buf w) t).1
          ((Adds-quiet (modify (λ u. record u { buf = buffer_after u.buf w })) (λ u. refl)
              (λ u. refl) (λ u. refl)).at
            s)
          ((coded-Adds (decode s.buf w)).at t);
  }

module _ {ℓ κ} {allowed : Event → Bool} {strict kept : Bool} {A : Type ℓ} {B : Type κ} where
  pub Adds-option :
      (f : Option A → M B)
      → Adds allowed strict kept (f none)
      → ((a : A) → Adds allowed strict kept (f (some a)))
      → (o : Option A) → Adds allowed strict kept (f o)
  Adds-option f hn hs none = hn
  Adds-option f hn hs (some a) = hs a

pub ruleset adds_rules = (
  Adds-bind, Adds-seq, Adds-option, Adds-pure, Adds-gets, Adds-stop, Adds-if, Adds-reject,
  Adds-dismiss, Adds-emit, decode_word-Adds,
)
