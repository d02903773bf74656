-- ===== src/Apply/Metadata.antt =====
-- What finish(), the end of update() that links do not reach, makes of an object's mode and owner,
-- where chown() may clear set-id bits.
pub mod File
use Prim.Native.Nat.{bit_and}
use radmind.Base.{◌≡◌, refl, Bool, true, false, List, [], ◌∷◌, ◌++◌, ℕ, if◌then◌else◌, arith}
use radmind.Transcript.{Stat}
use radmind.Apply.{
  Event, chowned, chmoded, Answer, done, enoent, failed, State, Env, Out, go, returned, exited,
  broke, crashed, out_of_fuel, M, after, noted, if_done, attempt, must,
}
use radmind.Apply.Update.{t_mode, owner_differs, mode_differs, when}

pub record Metadata : Type 0 where
  pub mode : ℕ
  pub uid : ℕ
  pub gid : ℕ

-- chown() and chmod(); `clear` is what chown() does to the mode.
unfoldable pub replay_one : (ℕ → ℕ) → Event → Metadata → Metadata
replay_one clear (chowned path uid gid) m = record { mode = clear m.mode; uid = uid; gid = gid }
replay_one clear (chmoded path mode) m = record m { mode = mode }
replay_one clear e m = m

-- The last event is the first of the list.
unfoldable pub replay : (ℕ → ℕ) → List Event → Metadata → Metadata
unfolding replay_one
replay clear [] m = m
replay clear (e ∷ events) m = replay_one clear e (replay clear events m)

-- The permission bits, and the owner.
abbrev pub metadata_of : Stat → Metadata
metadata_of st = record { mode = bit_and t_mode st.st_mode; uid = st.st_uid; gid = st.st_gid }

-- Where the program goes on, its new events turn the first metadata into the second; else it
-- returns 1.
abbrev pub Turns : (ℕ → ℕ) → Metadata → Metadata → State → Out ℕ × State → Type 0
Turns clear m n s (go v, t) =
    (new : List Event) × ((t.events ≡ new ++ s.events) × (replay clear new m ≡ n))
Turns clear m n s (returned v, t) = v ≡ 1
Turns clear m n s (exited v, t) = ⊥
Turns clear m n s (broke, t) = ⊥
Turns clear m n s (crashed, t) = ⊥
Turns clear m n s (out_of_fuel, t) = ⊥

abbrev pub added : Bool → Event → State → State
added b e s = if b then record s { events = e ∷ s.events } else s

abbrev Adds : Bool → Event → State → Out (Unit {0}) × State → Type 0
Adds b e s (go u, t) = t ≡ added b e s
Adds b e s (returned v, t) = v ≡ 1
Adds b e s (exited v, t) = ⊥
Adds b e s (broke, t) = ⊥
Adds b e s (crashed, t) = ⊥
Adds b e s (out_of_fuel, t) = ⊥

done-Adds : (e : Event) (a : Answer) (s : State) → Adds true e s (after (noted e a s) if_done)
unfolding noted if_done
done-Adds e done s = refl
done-Adds e enoent s = refl
done-Adds e failed s = refl

pub when-Adds : (g : Env) (b : Bool) (e : Event) (s : State) → Adds b e s (when b (must g e) s)
unfolding when must attempt
when-Adds g true e s = done-Adds e (g.answer s.events e) s
when-Adds g false e s = refl

same_owner :
    (uid gid : ℕ) (st : Stat)
    → owner_differs uid gid st ≡ false
    → (uid ≡ st.st_uid) × (gid ≡ st.st_gid)
unfolding owner_differs
same_owner uid gid st h = (ground (arith, h), ground (arith, h))

same_mode :
    (mode uid gid : ℕ) (st : Stat)
    → mode_differs mode uid gid st ≡ false
    → mode ≡ bit_and t_mode st.st_mode
unfolding mode_differs
same_mode mode uid gid st h = ground (arith, h)

abbrev pub cons_if : Bool → Event → List Event → List Event
cons_if b e new = if b then e ∷ new else new

module _ (clear : ℕ → ℕ) (m n : Metadata) (s : State) where
  pub first-Turns :
      (b : Bool) (e : Event) (r : Out (Unit {0}) × State) (k : M ℕ)
      → Adds b e s r
      → ((t : State) → t ≡ added b e s → Turns clear m n s (k t))
      → Turns clear m n s (after r (λ u. k))
  first-Turns b e (go u, t) k h f = f t h
  first-Turns b e (returned v, t) k h f = h
  first-Turns b e (exited v, t) k h f = h
  first-Turns b e (broke, t) k h f = h
  first-Turns b e (crashed, t) k h f = h
  first-Turns b e (out_of_fuel, t) k h f = h
