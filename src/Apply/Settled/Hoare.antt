-- ===== src/Apply/Settled/Hoare.antt =====
-- Conditions in front of a program and behind it. Where it ends early, the events are still settled.
use radmind.Base.{◌≡◌, ◌∙◌, List, Bool, true, false, Bytes, if◌then◌else◌}
use radmind.Apply.{
  Node, State, Out, go, returned, exited, broke, crashed, out_of_fuel, M, ◌>>=◌, ◌>>◌, after,
}
use radmind.Apply.Keeps.{Keeps}
use radmind.Apply.Settled.{Settled, Inv, Later-Settled, Later-Inv}

abbrev pub Post {ℓ} : {A : Type ℓ} → Bool → (A → State → Type 0) → Out A × State → Type 0
Post cs Q (go a, t) = Q a t
Post cs Q (returned n, t) = Settled cs t.events
Post cs Q (exited n, t) = Settled cs t.events
Post cs Q (broke, t) = Settled cs t.events
Post cs Q (crashed, t) = Settled cs t.events
Post cs Q (out_of_fuel, t) = Settled cs t.events

pub record Hoare {ℓ} (cs : Bool) (P : State → Type 0) {A : Type ℓ} (Q : A → State → Type 0)
    (m : M A) : Type ℓ where
  pub at : (s : State) → P s → Post cs Q (m s)

abbrev pub AnyInv : Bool → State → Type 0
AnyInv cs s = (x : Bytes) × Inv cs x s

abbrev pub IsAt : Bool → Bytes → List Node → State → Type 0
IsAt cs x nodes s = Inv cs x s × (s.head ≡ nodes)

abbrev pub OnlySettled : Bool → State → Type 0
OnlySettled cs s = Settled cs s.events

module _ {ℓ} {A : Type ℓ} where
  Post-later :
      (cs : Bool) (P : State → Type 0) (r : Out A × State)
      → P r.1
      → Settled cs r.1.events
      → Post cs (λ a. P) r
  Post-later cs P (go a, t) h k = h
  Post-later cs P (returned n, t) h k = k
  Post-later cs P (exited n, t) h k = k
  Post-later cs P (broke, t) h k = k
  Post-later cs P (crashed, t) h k = k
  Post-later cs P (out_of_fuel, t) h k = k

  pub Post-Settled :
      (cs : Bool) (r : Out A × State) → Post cs (λ a. OnlySettled cs) r → Settled cs r.1.events
  Post-Settled cs (go a, t) h = h
  Post-Settled cs (returned n, t) h = h
  Post-Settled cs (exited n, t) h = h
  Post-Settled cs (broke, t) h = h
  Post-Settled cs (crashed, t) h = h
  Post-Settled cs (out_of_fuel, t) h = h

module _ {ℓ} {cs : Bool} {A : Type ℓ} where
  -- What keeps the list keeps the conditions.
  pub Hoare-Keeps : (x : Bytes) (m : M A) → Keeps m → Hoare cs (Inv cs x) (λ a. Inv cs x) m
  Hoare-Keeps x m k = record {
    at = λ s h.
        let l = k.at s in
        Post-later cs (Inv cs x) (m s) (Later-Inv cs x s (m s).1 l h)
          (Later-Settled cs s (m s).1 l h.settled);
  }

  pub Hoare-Keeps_fixed :
      (x : Bytes) (nodes : List Node) (m : M A)
      → Keeps m
      → Hoare cs (IsAt cs x nodes) (λ a. IsAt cs x nodes) m
  Hoare-Keeps_fixed x nodes m k = record {
    at = λ s h.
        let l = k.at s in
        Post-later cs (IsAt cs x nodes) (m s) (Later-Inv cs x s (m s).1 l h.0, l.same_head ∙ h.1)
          (Later-Settled cs s (m s).1 l h.0.settled);
  }

  pub Hoare-Keeps_any : (m : M A) → Keeps m → Hoare cs (AnyInv cs) (λ a. AnyInv cs) m
  Hoare-Keeps_any m k = record {
    at = λ s h.
        let l = k.at s in
        Post-later cs (AnyInv cs) (m s) (h.0, Later-Inv cs h.0 s (m s).1 l h.1)
          (Later-Settled cs s (m s).1 l h.1.settled);
  }

  pub Hoare-Keeps_settled : (m : M A) → Keeps m → Hoare cs (OnlySettled cs) (λ a. OnlySettled cs) m
  Hoare-Keeps_settled m k = record {
    at = λ s h.
        let l = Later-Settled cs s (m s).1 (k.at s) h in Post-later cs (OnlySettled cs) (m s) l l;
  }

module _ {ℓ κ} {cs : Bool} {A : Type ℓ} {B : Type κ} where
  Post-after :
      (Q : A → State → Type 0) (R : B → State → Type 0) (r : Out A × State) (f : A → M B)
      → Post cs Q r
      → ((a : A) → Hoare cs (Q a) R (f a))
      → Post cs R (after r f)
  Post-after Q R (go a, t) f h k = (k a).at t h
  Post-after Q R (returned n, t) f h k = h
  Post-after Q R (exited n, t) f h k = h
  Post-after Q R (broke, t) f h k = h
  Post-after Q R (crashed, t) f h k = h
  Post-after Q R (out_of_fuel, t) f h k = h

  pub Hoare-bind :
      (P : State → Type 0) (Q : A → State → Type 0) (R : B → State → Type 0) (m : M A) (f : A → M B)
      → Hoare cs P Q m
      → ((a : A) → Hoare cs (Q a) R (f a))
      → Hoare cs P R (m >>= f)
  Hoare-bind P Q R m f hm hf = record { at = λ s h. Post-after Q R (m s) f (hm.at s h) hf }

module _ {κ} {cs : Bool} {B : Type κ} where
  pub Hoare-seq :
      (P Q : State → Type 0) (R : B → State → Type 0) (m : M (Unit {0})) (k : M B)
      → Hoare cs P (λ u. Q) m
      → Hoare cs Q R k
      → Hoare cs P R (m >> k)
  Hoare-seq P Q R m k hm hk = record {
    at = λ s h. Post-after (λ u. Q) R (m s) (λ u. k) (hm.at s h) (λ u. hk);
  }

  pub Hoare-if :
      (P : State → Type 0) (R : B → State → Type 0) (b : Bool) (m n : M B)
      → Hoare cs P R m
      → Hoare cs P R n
      → Hoare cs P R (if b then m else n)
  Hoare-if P R true m n hm hn = hm
  Hoare-if P R false m n hm hn = hn

module _ {ℓ} {A : Type ℓ} where
  Post-weaken :
      (cs : Bool) (Q R : A → State → Type 0) (r : Out A × State)
      → ((a : A) (t : State) → Q a t → R a t)
      → Post cs Q r
      → Post cs R r
  Post-weaken cs Q R (go a, t) f h = f a t h
  Post-weaken cs Q R (returned n, t) f h = h
  Post-weaken cs Q R (exited n, t) f h = h
  Post-weaken cs Q R (broke, t) f h = h
  Post-weaken cs Q R (crashed, t) f h = h
  Post-weaken cs Q R (out_of_fuel, t) f h = h

  pub Hoare-weaken :
      {cs : Bool} (P : State → Type 0) (Q R : A → State → Type 0) (m : M A)
      → ((a : A) (t : State) → Q a t → R a t)
      → Hoare cs P Q m
      → Hoare cs P R m
  Hoare-weaken {cs = cs} P Q R m f h = record { at = λ s k. Post-weaken cs Q R (m s) f (h.at s k) }
