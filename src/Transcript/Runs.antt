-- ===== src/Transcript/Runs.antt =====
-- Chains of steps that may end the process.
use mathlib.Core.Path.{subst}
use radmind.Base.{◌≡◌, ◌≢◌, refl, Bool, true, false, if◌then◌else◌, arith}
use radmind.Transcript.{Run, ok, stop, Stop, out_of_fuel, ◌>>=◌}

-- The step does not run out of the model's fuel.
abbrev pub Returns {ℓ} : {A : Type ℓ} → Run A → Type ℓ
Returns x = x ≢ stop out_of_fuel

pub if-Returns {ℓ} :
    {A : Type ℓ} (b : Bool) (x y : Run A) → Returns x → Returns y → Returns (if b then x else y)
if-Returns true x y hx hy = hx
if-Returns false x y hx hy = hy

pub bind-ok {ℓ κ} :
    {A : Type ℓ} {B : Type κ} (x : Run A) (f : A → Run B) (b : B)
    → (x >>= f) ≡ ok b
    → (a : A) × (x ≡ ok a) × (f a ≡ ok b)
bind-ok (ok a) f b h = (a, refl, h)
bind-ok (stop e) f b h = absurd (ground arith)

pub bind-Returns {ℓ κ} :
    {A : Type ℓ} {B : Type κ} (x : Run A) (f : A → Run B)
    → Returns x
    → ((a : A) → x ≡ ok a → Returns (f a))
    → Returns (x >>= f)
bind-Returns (ok a) f hx hf = hf a refl
bind-Returns (stop Stop.out_of_fuel) f hx hf = absurd (hx refl)
bind-Returns (stop e) f hx hf = ground arith

-- The step ends with a result that has the property, or ends the process.
abbrev pub Ends {ℓ κ} : {A : Type ℓ} (R : A → Type κ) → Run A → Type (ℓ ⊔ κ)
Ends R x = Returns x × ((a : _) → x ≡ ok a → R a)

pub bind-Ends {ℓ κ μ ν} :
    {A : Type ℓ} {B : Type κ} (P : A → Type μ) (R : B → Type ν) (x : Run A) (f : A → Run B)
    → Ends P x
    → ((a : A) → P a → Ends R (f a))
    → Ends R (x >>= f)
bind-Ends P R x f hx hf = (
  bind-Returns x f hx.0 (λ a e. (hf a (hx.1 a e)).0),
  λ b e. let (a, ea, eb) = bind-ok x f b e in (hf a (hx.1 a ea)).1 b eb,
)

abbrev pub Any {ℓ} : {A : Type ℓ} → A → Type 0
Any a = Unit

pub Returns-Ends {ℓ} : {A : Type ℓ} (x : Run A) → Returns x → Ends Any x
Returns-Ends x h = (h, λ a e. tt)

pub stop-Ends {ℓ κ} : {A : Type ℓ} (R : A → Type κ) (e : Stop) → e ≢ out_of_fuel → Ends R (stop e)
stop-Ends R e h = (ground arith, λ a ea. absurd (ground arith))

pub ok-Ends {ℓ κ} : {A : Type ℓ} (R : A → Type κ) (a : A) → R a → Ends R (ok a)
ok-Ends R a h = (ground arith, λ b e. subst R (cc) h)

pub if-Ends {ℓ κ} :
    {A : Type ℓ} (R : A → Type κ) (b : Bool) (x y : Run A)
    → Ends R x
    → Ends R y
    → Ends R (if b then x else y)
if-Ends R true x y hx hy = hx
if-Ends R false x y hx hy = hy

-- As if-Ends, where each branch knows the test's result.
pub test-Ends {ℓ κ} :
    {A : Type ℓ} (R : A → Type κ) (b : Bool) (x y : Run A)
    → (b ≡ true → Ends R x)
    → (b ≡ false → Ends R y)
    → Ends R (if b then x else y)
test-Ends R true x y hx hy = hx refl
test-Ends R false x y hx hy = hy refl
