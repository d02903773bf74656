-- ===== src/Effect.antt =====
-- Programs with state, whose steps may end a function, a loop or the process. What was done before
-- an end stays done, so the state comes back in every case.
use radmind.Base.{ℕ}

-- A step goes on with a value, returns from its function, breaks the loop, ends the process, or has
-- no defined behaviour.
pub data Out {ℓ} (A : Type ℓ) : Type ℓ where
  go : A → Out A
  returned exited : ℕ → Out A
  broke crashed out_of_fuel : Out A

abbrev pub Exec {ℓ} : Type 0 → Type ℓ → Type ℓ
Exec S A = S → Out A × S

module _ {ℓ κ} {S : Type 0} {A : Type ℓ} {B : Type κ} where
  abbrev pub after : Out A × S → (A → Exec S B) → Out B × S
  after (go a, s) f = f a s
  after (returned n, s) f = (returned n, s)
  after (exited n, s) f = (exited n, s)
  after (broke, s) f = (broke, s)
  after (crashed, s) f = (crashed, s)
  after (out_of_fuel, s) f = (out_of_fuel, s)

  infixl 5 ◌>>=◌
  abbrev pub ◌>>=◌ : Exec S A → (A → Exec S B) → Exec S B
  ◌>>=◌ m f s = after (m s) f

module _ {κ} {S : Type 0} {B : Type κ} where
  infixl 5 ◌>>◌
  abbrev pub ◌>>◌ : Exec S (Unit {0}) → Exec S B → Exec S B
  ◌>>◌ m k s = after (m s) (λ a. k)

module _ {ℓ} {S : Type 0} {A : Type ℓ} where
  abbrev pub pure : A → Exec S A
  pure a s = (go a, s)

  abbrev pub gets : (S → A) → Exec S A
  gets f s = (go (f s), s)

  abbrev pub stop : Out A → Exec S A
  stop o s = (o, s)

abbrev pub modify : {S : Type 0} → (S → S) → Exec S (Unit {0})
modify f s = (go tt, f s)
