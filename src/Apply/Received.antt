-- ===== src/Apply/Received.antt =====
-- What retr() has done when it ends: the temporary file holds what was asked for, or it is removed.
use radmind.Base.{
  ◌≡◌, refl, ◌+◌, ◌-◌, ◌≤◌, true, not, ◌&&◌, List, [], ◌∷◌, ◌++◌, append_assoc, append-nil, Option,
  none, some, ℕ, zero, suc, Bytes, length, length-append, take, if◌then◌else◌, arith, Bool-cases,
  inl, inr, ap, sym, ◌∙◌, ℤ, pos, negsuc, codes, ltb,
}
use radmind.CLibrary.Strings.{same_string}
use radmind.Base64.{base64_e}
use radmind.Apply.{
  Event, wrote, closed, unlinked, Answer, done, enoent, failed, State, Env, Out, go, returned,
  exited, broke, crashed, out_of_fuel, M, ◌>>=◌, ◌>>◌, after, stop, noted, attempt,
}
use radmind.Apply.Prefix.{is_done}
use radmind.Apply.Download.{
  set_input, next_input, getline, drop_temp, if_written, chunk_of, write_chunk, smaller, receive,
  receive_size, last_line, verified, if_closed, fill,
}

-- The bytes that went to a file, in the order of the events.
unfoldable pub content : List Event → Bytes
content [] = []
content (wrote path chunk ∷ events) = content events ++ chunk
content (e ∷ events) = content events

module _ (g : Env) (temp : Bytes) where
  -- The last thing that was tried is to remove the temporary file.
  abbrev pub Dropped : State → Type 0
  Dropped t =
      (events : List Event) × (t.events
        ≡ (if is_done (g.answer events (unlinked temp)) then unlinked temp ∷ events else events))

  -- The end is as Q says, or the function returns with the temporary file removed.
  abbrev pub Fills {ℓ} : {A : Type ℓ} → (A → State → Type 0) → Out A × State → Type 0
  Fills Q (go a, t) = Q a t
  Fills Q (returned n, t) = Dropped t
  Fills Q (exited n, t) = ⊥
  Fills Q (broke, t) = ⊥
  Fills Q (crashed, t) = ⊥
  Fills Q (out_of_fuel, t) = ⊥

  module _ {ℓ κ} {A : Type ℓ} {B : Type κ} where
    Fills-after :
        (Q : A → State → Type 0) (R : B → State → Type 0) (r : Out A × State) (f : A → M B)
        → Fills Q r
        → ((a : A) (t : State) → Q a t → Fills R (f a t))
        → Fills R (after r f)
    Fills-after Q R (go a, t) f h k = k a t h
    Fills-after Q R (returned n, t) f h k = h
    Fills-after Q R (exited n, t) f h k = h
    Fills-after Q R (broke, t) f h k = h
    Fills-after Q R (crashed, t) f h k = h
    Fills-after Q R (out_of_fuel, t) f h k = h

  Fills-weaken {ℓ} :
      {A : Type ℓ} (Q R : A → State → Type 0) (r : Out A × State)
      → Fills Q r
      → ((a : A) (t : State) → Q a t → R a t)
      → Fills R r
  Fills-weaken Q R (go a, t) h f = f a t h
  Fills-weaken Q R (returned n, t) h f = h
  Fills-weaken Q R (exited n, t) h f = h
  Fills-weaken Q R (broke, t) h f = h
  Fills-weaken Q R (crashed, t) h f = h
  Fills-weaken Q R (out_of_fuel, t) h f = h

  dropped_by :
      (e : Event) (a : Answer) (s : State)
      → (noted e a s).1.events ≡ (if is_done a then e ∷ s.events else s.events)
  unfolding noted
  dropped_by e done s = refl
  dropped_by e enoent s = refl
  dropped_by e failed s = refl

  after_stop {ℓ} :
      {A : Type ℓ} (Q : A → State → Type 0) (n : ℕ) (a : Answer) (s : State)
      → Dropped (noted (unlinked temp) a s).1
      → Fills Q (after (noted (unlinked temp) a s) (λ b. stop (returned n)))
  unfolding noted
  after_stop Q n done s h = h
  after_stop Q n enoent s h = h
  after_stop Q n failed s h = h

  drop_temp-Fills {ℓ} :
      {A : Type ℓ} (Q : A → State → Type 0) (n : ℕ) (s : State) → Fills Q (drop_temp g temp n s)
  unfolding drop_temp attempt
  drop_temp-Fills Q n s =
      let a = g.answer s.events (unlinked temp) in
      after_stop Q n a s (s.events, dropped_by (unlinked temp) a s)

  next_input-Fills :
      (input : List Bytes) (s : State) → Fills (λ o t. t.events ≡ s.events) (next_input input s)
  unfolding next_input set_input
  next_input-Fills [] s = refl
  next_input-Fills (line ∷ rest) s = refl

  getline-Fills : (s : State) → Fills (λ o t. t.events ≡ s.events) (getline s)
  unfolding getline
  getline-Fills s = next_input-Fills s.input s

  length-take_le : (n : ℕ) (s : Bytes) → length (take n s) ≤ n
  length-take_le zero s = omega arith
  length-take_le (suc n) [] = omega arith
  length-take_le (suc n) (c ∷ s) = omega (arith, length-take_le n s)

  -- A chunk has a byte at least, and no more than is asked for.
  chunk_of-Fills :
      (size : ℕ) (o : Option Bytes) (s : State)
      → Fills
          (λ chunk t. (1 ≤ length chunk) × ((length chunk ≤ suc size) × (t.events ≡ s.events)))
          (chunk_of g temp (suc size) o s)
  unfolding chunk_of
  chunk_of-Fills size none s = drop_temp-Fills _ 2 s
  chunk_of-Fills size (some []) s = drop_temp-Fills _ 2 s
  chunk_of-Fills size (some (c ∷ chunk)) s =
      (omega arith, (length-take_le (suc size) (c ∷ chunk), refl))

  written-Fills :
      (chunk : Bytes) (a : Answer) (s : State)
      → Fills
          (λ u t. content t.events ≡ content s.events ++ chunk)
          (after (noted (wrote temp chunk) a s) (if_written g temp))
  unfolding noted if_written content
  written-Fills chunk done s = refl
  written-Fills chunk enoent s = drop_temp-Fills _ 2 s
  written-Fills chunk failed s = drop_temp-Fills _ 2 s

  write_chunk-Fills :
      (chunk : Bytes) (s : State)
      → Fills (λ u t. content t.events ≡ content s.events ++ chunk) (write_chunk g temp chunk s)
  unfolding write_chunk attempt
  write_chunk-Fills chunk s = written-Fills chunk (g.answer s.events (wrote temp chunk)) s

  -- `n` bytes, and what the file held before in front of them.
  abbrev pub IsWhole : Bytes → ℕ → Bytes → State → Type 0
  IsWhole before n got t = (content t.events ≡ before ++ got) × (length got ≡ n)

  smaller-suc : (size : ℕ) → (k : ℕ) × ((smaller (suc size) 8192 ≡ suc k) × (suc k ≤ suc size))
  smaller-suc size = elim (Bool-cases (ltb (suc size) 8192)) [
    | inl e ↦ (size, (rw e refl, omega arith))
    | inr e ↦ (8191, (rw e refl, ground (arith, e)))
  ]

  abbrev IsPart : ℕ → State → Bytes → State → Type 0
  IsPart size s chunk t = (1 ≤ length chunk) × ((length chunk ≤ suc size) × (t.events ≡ s.events))

  next_chunk-Fills :
      (size : ℕ) (s : State)
      → Fills (IsPart size s) ((getline >>= chunk_of g temp (smaller (suc size) 8192)) s)
  next_chunk-Fills size s =
      let k = smaller-suc size in
      Fills-after (λ o t. t.events ≡ s.events) (IsPart size s) (getline s) _ (getline-Fills s)
        (λ o t h. rw (k.1.0) (
          Fills-weaken (IsPart k.0 t) (IsPart size s) _ (chunk_of-Fills k.0 o t)
            (λ chunk u q. (q.0, (omega (arith, q.1.0, k.1.1), q.1.1 ∙ h)))))

  -- With fuel for each byte the loop does not run out of it, and it ends with all bytes in the file.
  receive-Fills :
      (fuel : ℕ) (before got : Bytes) (size n : ℕ) (s : State)
      → size ≤ fuel
      → length got + size ≡ n
      → content s.events ≡ before ++ got
      → Fills (IsWhole before n) (receive g fuel temp got size s)
  unfolding receive
  receive-Fills zero before got zero n s le e h = (h, omega (arith, e))
  receive-Fills zero before got (suc size) n s le e h = absurd (omega (arith, le))
  receive-Fills (suc fuel) before got zero n s le e h = (h, omega (arith, e))
  receive-Fills (suc fuel) before got (suc size) n s le e h =
      Fills-after (IsPart size s) (IsWhole before n) _ _ (next_chunk-Fills size s) (λ chunk t q.
        Fills-after (λ u v. content v.events ≡ content t.events ++ chunk) (IsWhole before n)
          (write_chunk g temp chunk t) _ (write_chunk-Fills chunk t)
          (λ u v w.
            receive-Fills fuel before (got ++ chunk) (suc size - length chunk) n v
              (omega (arith, le, q.0)) (omega (arith, e, q.0, q.1.0, length-append got chunk))
              (w
                ∙ (ap (λ (b : Bytes). b ++ chunk) (ap content q.1.1 ∙ h)
                    ∙ append_assoc before got chunk))))

  -- A size below zero is taken for none.
  unfoldable pub bytes_of : ℤ → ℕ
  bytes_of (pos n) = n
  bytes_of (negsuc n) = 0

  receive_size-Fills :
      (size : ℤ) (s : State)
      → Fills (IsWhole (content s.events) (bytes_of size)) (receive_size g temp size s)
  unfolding receive_size bytes_of
  receive_size-Fills (pos n) s =
      receive-Fills n (content s.events) [] n n s (omega arith) (omega arith)
        (sym (append-nil (content s.events)))
  receive_size-Fills (negsuc n) s = (sym (append-nil (content s.events)), refl)

  noted-closed-Fills :
      (a : Answer) (s : State)
      → Fills (λ b t. content t.events ≡ content s.events) (noted (closed temp) a s)
  unfolding noted content
  noted-closed-Fills done s = refl
  noted-closed-Fills enoent s = refl
  noted-closed-Fills failed s = refl

  if_closed-Fills :
      (a : Answer) (s : State) → Fills (λ u t. t.events ≡ s.events) (if_closed g temp a s)
  unfolding if_closed
  if_closed-Fills done s = refl
  if_closed-Fills enoent s = drop_temp-Fills _ 2 s
  if_closed-Fills failed s = drop_temp-Fills _ 2 s

  last_line-Fills :
      (o : Option Bytes) (s : State) → Fills (λ u t. t.events ≡ s.events) (last_line g temp o s)
  unfolding last_line
  last_line-Fills none s = drop_temp-Fills _ 2 s
  last_line-Fills (some line) s = elim (Bool-cases (same_string line (codes "."))) [
    | inl e ↦ rw e refl
    | inr e ↦ rw e (drop_temp-Fills _ 2 s)
  ]

  -- The text of the digest is that of the transcript, if checksums are asked for.
  abbrev pub IsVerified : Bytes → Bytes → Type 0
  IsVerified trancksum got = g.cksum ≡ true → same_string trancksum (base64_e (g.digest got)) ≡ true

  verified-Fills :
      (trancksum got : Bytes) (s : State)
      → Fills
          (λ u t. IsVerified trancksum got × (t.events ≡ s.events))
          (verified g temp trancksum got s)
  unfolding verified
  verified-Fills trancksum got s =
      let same = same_string trancksum (base64_e (g.digest got)) in
      elim (Bool-cases (g.cksum && not same)) [
        | inl e ↦ rw e (drop_temp-Fills _ 1 s)
        | inr e ↦ rw e ((λ c. ground (arith, c, e)), refl)
      ]

  -- What follows the loop.
  ended-Fills :
      (trancksum got : Bytes) (s : State)
      → Fills
          (λ u t. IsVerified trancksum got × (content t.events ≡ content s.events))
          ((do
            a ← attempt g (closed temp)
            if_closed g temp a
            line ← getline
            last_line g temp line
            verified g temp trancksum got)
            s)
  unfolding attempt
  ended-Fills trancksum got s =
      let R : Unit {0} → State → Type 0 =
        λ u t. IsVerified trancksum got × (content t.events ≡ content s.events) in
      Fills-after (λ a t. content t.events ≡ content s.events) R
        (noted (closed temp) (g.answer s.events (closed temp)) s) _
        (noted-closed-Fills (g.answer s.events (closed temp)) s)
        (λ a t e.
          Fills-after (λ u v. v.events ≡ t.events) R (if_closed g temp a t) _ (if_closed-Fills a t)
            (λ u v e1.
              Fills-after (λ o w. w.events ≡ v.events) R (getline v) _ (getline-Fills v)
                (λ o w e2.
                  Fills-after (λ x y. y.events ≡ w.events) R (last_line g temp o w) _
                    (last_line-Fills o w)
                    (λ x y e3.
                      Fills-weaken _ R _ (verified-Fills trancksum got y)
                        (λ x' z k. (k.0, ap content (k.1 ∙ (e3 ∙ (e2 ∙ e1))) ∙ e))))))

  -- From the loop on retr() ends in one of two ways, and it has fuel enough. Either the temporary file
  -- has got as many bytes as the server has announced, whose checksum is that of the transcript if
  -- checksums are asked for; or it returns an error, and the last thing that was tried is to remove the
  -- temporary file.
  pub fill-Fills :
      (size : ℤ) (trancksum : Bytes) (s : State)
      → Fills
          (λ u t.
            (got : Bytes) × (IsWhole (content s.events) (bytes_of size) got t
              × IsVerified trancksum got))
          (fill g temp size trancksum s)
  unfolding fill attempt
  fill-Fills size trancksum s =
      let before = content s.events in
      let n = bytes_of size in
      let R : Unit {0} → State → Type 0 =
        λ u t. (got : Bytes) × (IsWhole before n got t × IsVerified trancksum got) in
      Fills-after (IsWhole before n) R (receive_size g temp size s) _ (receive_size-Fills size s)
        (λ got t h.
          Fills-weaken _ R _ (ended-Fills trancksum got t)
            (λ u v k. (got, ((k.1 ∙ h.0, h.1), k.0))))
