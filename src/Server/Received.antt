-- ===== src/Server/Received.antt =====
-- What f_stor() writes of an upload.
use radmind.Base.{
  ◌≡◌, refl, ◌+◌, ◌-◌, ◌≤◌, Bool, true, false, List, [], ◌∷◌, ◌++◌, ℕ, zero, suc, ◌==◌, take, Bytes,
  length, length-append, if◌then◌else◌, arith, Bool-cases, inl, inr,
}
use radmind.Server.{
  Event, wrote, Session, Env, Out, go, returned, exited, broke, crashed, out_of_fuel, M, ◌>>◌,
  after, emit, dismiss, stop, pure,
}
use radmind.Server.Store.{snet_read, next_line, getline, set_input, smaller, write, receive}

-- The bytes that went to a file, in the order of the events.
pub stored : List Event → Bytes
stored [] = []
stored (wrote path chunk ∷ events) = stored events ++ chunk
stored (e ∷ events) = stored events

-- Done, with n bytes more than before; or not done, but never for want of fuel.
abbrev pub Stored : ℕ → Session → Out (Unit {0}) × Session → Type 0
Stored n s (go u, t) = length (stored t.events) ≡ length (stored s.events) + n
Stored n s (returned m, t) = Unit
Stored n s (exited m, t) = Unit
Stored n s (broke, t) = Unit
Stored n s (crashed, t) = Unit
Stored n s (out_of_fuel, t) = ⊥

-- A chunk has a byte at least, and no more than is asked for.
abbrev Chunk : ℕ → Session → Out Bytes × Session → Type 0
Chunk size s (go chunk, t) = (1 ≤ length chunk) × ((length chunk ≤ size) × (t.events ≡ s.events))
Chunk size s (returned m, t) = Unit
Chunk size s (exited m, t) = Unit
Chunk size s (broke, t) = Unit
Chunk size s (crashed, t) = Unit
Chunk size s (out_of_fuel, t) = ⊥

length-take : (n : ℕ) (s : Bytes) → length (take n s) ≤ n
length-take zero s = omega arith
length-take (suc n) [] = omega arith
length-take (suc n) (c ∷ s) = omega (arith, length-take n s)

pub Stored-shift :
    (n m : ℕ) (s t : Session) (r : Out (Unit {0}) × Session)
    → length (stored t.events) + n ≡ length (stored s.events) + m
    → Stored n t r
    → Stored m s r
Stored-shift n m s t (go u, v) e h = omega (arith, e, h)
Stored-shift n m s t (returned k, v) e h = h
Stored-shift n m s t (exited k, v) e h = h
Stored-shift n m s t (broke, v) e h = h
Stored-shift n m s t (crashed, v) e h = h
Stored-shift n m s t (out_of_fuel, v) e h = h

next_line-Chunk :
    (size : ℕ) (input : List Bytes) (s : Session)
    → Chunk size s (
        after
          (next_line input s)
          (λ chunk. if length (take size chunk) == 0 then stop broke else pure (take size chunk)))
unfolding next_line set_input
next_line-Chunk size [] s = tt
next_line-Chunk size (line ∷ rest) s = elim (Bool-cases (length (take size line) == 0)) [
  | inl b ↦ rw b tt
  | inr b ↦ rw b (ground (arith, b), (length-take size line, refl))
]

snet_read-Chunk : (size : ℕ) (s : Session) → Chunk size s (snet_read size s)
unfolding snet_read getline
snet_read-Chunk size s = next_line-Chunk size s.input s

module _ (g : Env) (path : Bytes) where
  if_works-Stored :
      (b : Bool) (chunk : Bytes) (s : Session)
      → Stored (length chunk) s ((if b then emit (wrote path chunk) else dismiss 555) s)
  unfolding stored
  if_works-Stored true chunk s = length-append (stored s.events) chunk
  if_works-Stored false chunk s = tt

  write-Stored : (chunk : Bytes) (s : Session) → Stored (length chunk) s (write g path chunk s)
  unfolding write
  write-Stored chunk s = if_works-Stored (g.write_works s.events path) chunk s

  after-Stored :
      (n m : ℕ) (s : Session) (r : Out (Unit {0}) × Session) (k : M (Unit {0}))
      → Stored n s r
      → ((t : Session) → Stored m t (k t))
      → Stored (n + m) s (after r (λ u. k))
  after-Stored n m s (go u, t) k h ih = Stored-shift m (n + m) s t (k t) (omega (arith, h)) (ih t)
  after-Stored n m s (returned j, t) k h ih = h
  after-Stored n m s (exited j, t) k h ih = h
  after-Stored n m s (broke, t) k h ih = h
  after-Stored n m s (crashed, t) k h ih = h
  after-Stored n m s (out_of_fuel, t) k h ih = h

  receive-Stored_step :
      (size len fuel : ℕ) (s : Session) (r : Out Bytes × Session)
      → Chunk size s r
      → size ≤ suc len
      → len ≤ fuel
      → ((rest : ℕ) → rest ≤ fuel → (t : Session) → Stored rest t (receive g fuel path rest t))
      → Stored
          (suc len)
          s
          (after r (λ chunk. write g path chunk >> receive g fuel path (suc len - length chunk)))
  receive-Stored_step size len fuel s (go chunk, t) (some_bytes, (fits, same)) le ok ih =
      let rest = suc len - length chunk in
      Stored-shift (length chunk + rest) (suc len) s t _ (rw same (omega arith)) (
        after-Stored (length chunk) rest t (write g path chunk t) (receive g fuel path rest)
          (write-Stored chunk t) (ih rest (omega arith)))
  receive-Stored_step size len fuel s (returned j, t) h le ok ih = h
  receive-Stored_step size len fuel s (exited j, t) h le ok ih = h
  receive-Stored_step size len fuel s (broke, t) h le ok ih = h
  receive-Stored_step size len fuel s (crashed, t) h le ok ih = h
  receive-Stored_step size len fuel s (out_of_fuel, t) h le ok ih = h

  -- Where there is fuel for each byte, the loop that reads an upload of `len` bytes never runs out of it, and
  -- if it goes on to its end, then the bytes that went to the file are `len` more than before, whatever
  -- the sizes of the chunks that the connection gives.
  pub receive-Stored :
      (fuel len : ℕ) → len ≤ fuel → (s : Session) → Stored len s (receive g fuel path len s)
  unfolding receive
  receive-Stored zero zero h s = omega arith
  receive-Stored (suc fuel) zero h s = omega arith
  receive-Stored zero (suc len) h s = absurd (omega arith)
  receive-Stored (suc fuel) (suc len) h s =
      let size = smaller (suc len) 8192 in
      receive-Stored_step size len fuel s (snet_read size s) (snet_read-Chunk size s) (ground arith)
        (omega arith) (receive-Stored fuel)
