-- ===== src/Apply/Keeps/Lines.antt =====
-- retr() and do_line() keep the removal list.
use radmind.Base.{
  refl, Bool, true, false, List, [], ◌∷◌, Option, none, some, ℕ, zero, suc, if◌then◌else◌, Bytes,
  ◌==◌, ℤ, pos, negsuc,
}
use radmind.ArgcArgv.{Parsed}
use radmind.Apply.{
  Answer, done, enoent, failed, State, Env, Out, go, returned, exited, broke, crashed, out_of_fuel,
  ◌>>◌, stop,
}
use radmind.Apply.Download.{
  set_input, next_input, getline, ensured, present_line, if_sent, reopened, if_opened, open_temp,
  drop_temp, if_written, chunk_of, write_chunk, receive, receive_size, last_line, verified,
  if_closed, fill, request, retr,
}
use radmind.Apply.DoLine.{
  parsed, given, word_at, split_sign, lose_network, downloaded, retrieve, fetch, copy_cksum,
  download, update_line, do_line,
}
use radmind.Apply.Keeps.{
  is_calm, Later, Later-trans, Keeps, Keeps-stop, Keeps-if, Keeps-quiet, keeps_rules,
}
use radmind.Apply.Keeps.Updates.{call_rules, mkprefix-Keeps, stat_known-Keeps, update-Keeps}

set_input-Keeps : (input : List Bytes) → Keeps (set_input input)
unfolding set_input
set_input-Keeps input = Keeps-quiet _ (λ s. refl) (λ s. refl) (λ s. refl)

next_input-Keeps : (input : List Bytes) → Keeps (next_input input)
unfolding next_input
next_input-Keeps [] = search keeps_rules depth 16
next_input-Keeps (line ∷ rest) = search (keeps_rules, set_input-Keeps) depth 16

pub getline-Keeps : Keeps getline
unfolding getline
getline-Keeps = search (keeps_rules, next_input-Keeps) depth 16

ensured-Keeps : (b : Bool) → Keeps (ensured b)
unfolding ensured
ensured-Keeps true = search keeps_rules depth 16
ensured-Keeps false = search keeps_rules depth 16

present_line-Keeps : (o : Option Bytes) → Keeps (present_line o)
unfolding present_line
present_line-Keeps none = search keeps_rules depth 16
present_line-Keeps (some line) = search keeps_rules depth 16

if_sent-Keeps : (a : Answer) → Keeps (if_sent a)
unfolding if_sent
if_sent-Keeps done = search keeps_rules depth 16
if_sent-Keeps enoent = search keeps_rules depth 16
if_sent-Keeps failed = search keeps_rules depth 16

pub parsed-Keeps : (o : Option Parsed) → Keeps (parsed o)
unfolding parsed
parsed-Keeps none = search keeps_rules depth 16
parsed-Keeps (some p) = search keeps_rules depth 16

given-Keeps : (o : Option Bytes) → Keeps (given o)
unfolding given
given-Keeps none = search keeps_rules depth 16
given-Keeps (some w) = search keeps_rules depth 16

pub word_at-Keeps : (argv : List Bytes) (i : ℕ) → Keeps (word_at argv i)
unfolding word_at
word_at-Keeps argv i = given-Keeps _

split_sign-Keeps : (argv : List Bytes) → Keeps (split_sign argv)
unfolding split_sign
split_sign-Keeps [] = search keeps_rules depth 16
split_sign-Keeps (w ∷ argv) = search keeps_rules depth 16

lose_network-Keeps : Keeps lose_network
unfolding lose_network
lose_network-Keeps = Keeps-quiet _ (λ s. refl) (λ s. refl) (λ s. refl)

module _ (g : Env) where
  reopened-Keeps : (temp : Bytes) (b : Bool) → Keeps (reopened g temp b)
  unfolding reopened is_calm
  reopened-Keeps temp true = search (call_rules, if_sent-Keeps) depth 16
  reopened-Keeps temp false = search keeps_rules depth 16

  if_opened-Keeps : (temp : Bytes) (a : Answer) → Keeps (if_opened g temp a)
  unfolding if_opened
  if_opened-Keeps temp done = search keeps_rules depth 16
  if_opened-Keeps temp enoent = search (keeps_rules, mkprefix-Keeps, reopened-Keeps) depth 16
  if_opened-Keeps temp failed = search keeps_rules depth 16

  open_temp-Keeps : (temp : Bytes) → Keeps (open_temp g temp)
  unfolding open_temp is_calm
  open_temp-Keeps temp = search (call_rules, if_opened-Keeps) depth 16

  drop_temp-Keeps {ℓ} : {A : Type ℓ} (temp : Bytes) (n : ℕ) → Keeps (drop_temp g {A = A} temp n)
  unfolding drop_temp is_calm
  drop_temp-Keeps temp n = search call_rules depth 16

  if_written-Keeps : (temp : Bytes) (a : Answer) → Keeps (if_written g temp a)
  unfolding if_written
  if_written-Keeps temp done = search keeps_rules depth 16
  if_written-Keeps temp enoent = drop_temp-Keeps temp 2
  if_written-Keeps temp failed = drop_temp-Keeps temp 2

  chunk_of-Keeps : (temp : Bytes) (size : ℕ) (o : Option Bytes) → Keeps (chunk_of g temp size o)
  unfolding chunk_of
  chunk_of-Keeps temp size none = drop_temp-Keeps temp 2
  chunk_of-Keeps temp size (some []) = drop_temp-Keeps temp 2
  chunk_of-Keeps temp size (some (c ∷ chunk)) = search keeps_rules depth 16

  write_chunk-Keeps : (temp chunk : Bytes) → Keeps (write_chunk g temp chunk)
  unfolding write_chunk is_calm
  write_chunk-Keeps temp chunk = search (call_rules, if_written-Keeps) depth 16

  receive-Keeps : (fuel : ℕ) (temp got : Bytes) (size : ℕ) → Keeps (receive g fuel temp got size)
  unfolding receive
  receive-Keeps zero temp got zero = search keeps_rules depth 16
  receive-Keeps zero temp got (suc size) = search keeps_rules depth 16
  receive-Keeps (suc fuel) temp got zero = search keeps_rules depth 16
  receive-Keeps (suc fuel) temp got (suc size) =
      let later = receive-Keeps fuel temp in
      search (keeps_rules, getline-Keeps, chunk_of-Keeps, write_chunk-Keeps, later) depth 16

  receive_size-Keeps : (temp : Bytes) (size : ℤ) → Keeps (receive_size g temp size)
  unfolding receive_size
  receive_size-Keeps temp (pos size) = receive-Keeps size temp [] size
  receive_size-Keeps temp (negsuc n) = search keeps_rules depth 16

  last_line-Keeps : (temp : Bytes) (o : Option Bytes) → Keeps (last_line g temp o)
  unfolding last_line
  last_line-Keeps temp none = drop_temp-Keeps temp 2
  last_line-Keeps temp (some line) = search (keeps_rules, drop_temp-Keeps) depth 16

  verified-Keeps : (temp trancksum got : Bytes) → Keeps (verified g temp trancksum got)
  unfolding verified
  verified-Keeps temp trancksum got = search (keeps_rules, drop_temp-Keeps) depth 16

  if_closed-Keeps : (temp : Bytes) (a : Answer) → Keeps (if_closed g temp a)
  unfolding if_closed
  if_closed-Keeps temp done = search keeps_rules depth 16
  if_closed-Keeps temp enoent = drop_temp-Keeps temp 2
  if_closed-Keeps temp failed = drop_temp-Keeps temp 2

  fill-Keeps : (temp : Bytes) (size : ℤ) (trancksum : Bytes) → Keeps (fill g temp size trancksum)
  unfolding fill is_calm
  fill-Keeps temp size trancksum =
      search
        (
          call_rules, receive_size-Keeps, if_closed-Keeps, getline-Keeps, last_line-Keeps,
          verified-Keeps,
        )
        depth 24

  request-Keeps : (pathdesc : Bytes) (transize : ℤ) → Keeps (request g pathdesc transize)
  unfolding request is_calm
  request-Keeps pathdesc transize =
      search (call_rules, if_sent-Keeps, getline-Keeps, present_line-Keeps, ensured-Keeps) depth 24

  retr-Keeps :
      (pathdesc path : Bytes) (transize : ℤ) (trancksum : Bytes)
      → Keeps (retr g pathdesc path transize trancksum)
  unfolding retr
  retr-Keeps pathdesc path transize trancksum =
      search (keeps_rules, request-Keeps, present_line-Keeps, open_temp-Keeps, fill-Keeps) depth 24

  retrieve-Keeps :
      (type : ℕ) (pathdesc path : Bytes) (transize : ℤ) (trancksum : Bytes)
      → Keeps (retrieve g type pathdesc path transize trancksum)
  unfolding retrieve
  retrieve-Keeps type pathdesc path transize trancksum = search (keeps_rules, retr-Keeps) depth 16

  lost-Keeps :
      (b : Bool)
      → Keeps (if b then stop (returned 1) else (lose_network >> stop {A = Bytes} (returned 1)))
  lost-Keeps b = Keeps-if b _ _ (Keeps-stop _) (search (keeps_rules, lose_network-Keeps) depth 16)

  Later-downloaded : (s : State) (r : Out Bytes × State) → Later s r.1 → Later s (downloaded r).1
  unfolding downloaded lose_network
  Later-downloaded s (go temp, t) h = h
  Later-downloaded s (returned n, t) h = Later-trans s t _ h ((lost-Keeps (n == 1)).at t)
  Later-downloaded s (exited n, t) h = h
  Later-downloaded s (broke, t) h = h
  Later-downloaded s (crashed, t) h = h
  Later-downloaded s (out_of_fuel, t) h = h

  fetch-Keeps :
      (type : ℕ) (pathdesc path : Bytes) (transize : ℤ) (trancksum : Bytes)
      → Keeps (fetch g type pathdesc path transize trancksum)
  unfolding fetch
  fetch-Keeps type pathdesc path transize trancksum = record {
    at = λ s.
        Later-downloaded s (retrieve g type pathdesc path transize trancksum s)
          ((retrieve-Keeps type pathdesc path transize trancksum).at s);
  }

  copy_cksum-Keeps : (argv : List Bytes) → Keeps (copy_cksum g argv)
  unfolding copy_cksum
  copy_cksum-Keeps argv = search (keeps_rules, word_at-Keeps) depth 16

  download-Keeps :
      (tran : Bytes) (present : Bool) (argv : List Bytes) (path : Bytes)
      → Keeps (download g tran present argv path)
  unfolding download is_calm
  download-Keeps tran present argv path =
      search
        (call_rules, word_at-Keeps, copy_cksum-Keeps, fetch-Keeps, stat_known-Keeps, update-Keeps)
        depth 24

  update_line-Keeps :
      (present : Bool) (argv : List Bytes) (path : Bytes) → Keeps (update_line g present argv path)
  unfolding update_line
  update_line-Keeps present argv path = search (call_rules, stat_known-Keeps, update-Keeps) depth 24

  -- Whatever do_line() does, the removal list and the last path stay as they are.
  pub do_line-Keeps : (tline tran : Bytes) (present : Bool) → Keeps (do_line g tline tran present)
  unfolding do_line
  do_line-Keeps tline tran present =
      search
        (
          call_rules, parsed-Keeps, split_sign-Keeps, word_at-Keeps, download-Keeps,
          update_line-Keeps,
        )
        depth 24
