-- ===== src/Apply/Download.antt =====
-- retr.c: a file is read from the server into a temporary file beside its path, and checked. The
-- return value 1 ends the function with `returned 1`, and -1 with `returned 2`.
use radmind.Base.{
  ℕ, zero, suc, ◌-◌, Bool, true, false, not, ◌&&◌, List, [], ◌∷◌, ◌++◌, Option, none, some, ◌==◌,
  if◌then◌else◌, Bytes, length, take, peek, codes, ℤ, pos, negsuc, ltb,
}
use radmind.CLibrary.{strtol, signed}
use radmind.CLibrary.Strings.{fitting, same_string}
use radmind.Base64.{base64_e}
use radmind.Apply.{
  requested, opened, wrote, closed, unlinked, Answer, done, enoent, failed, Env, returned,
  out_of_fuel, M, ◌>>=◌, ◌>>◌, pure, gets, modify, stop, attempt,
}
use radmind.Apply.Prefix.{mkprefix}
use radmind.Apply.Update.{same_ℤ}

unfoldable pub set_input : List Bytes → M (Unit {0})
set_input input = modify (λ s. record s { input = input })

-- The next line or chunk; `none` is NULL, and an error of snet_read().
unfoldable pub next_input : List Bytes → M (Option Bytes)
unfolding set_input
next_input [] = pure none
next_input (line ∷ rest) = set_input rest >> pure (some line)

unfoldable pub getline : M (Option Bytes)
unfolding next_input
getline = gets (λ s. s.input) >>= next_input

-- return( -1 ), unless it holds.
unfoldable pub ensured : Bool → M (Unit {0})
ensured true = pure tt
ensured false = stop (returned 2)

-- A line, or return( -1 ).
unfoldable pub present_line : Option Bytes → M Bytes
present_line none = stop (returned 2)
present_line (some line) = pure line

unfoldable pub if_sent : Answer → M (Unit {0})
if_sent done = pure tt
if_sent enoent = stop (returned 2)
if_sent failed = stop (returned 2)

-- `transize >= 0 && size != transize`, negated.
unfoldable pub size_agrees : ℤ → ℤ → Bool
size_agrees (negsuc n) size = true
size_agrees (pos n) size = same_ℤ size (pos n)

abbrev pub smaller : ℕ → ℕ → ℕ
smaller a b = if ltb a b then a else b

module _ (g : Env) where
  -- open() with O_CREAT.
  unfoldable pub reopened : Bytes → Bool → M (Unit {0})
  unfolding attempt if_sent
  reopened temp true = attempt g (opened temp) >>= if_sent
  reopened temp false = stop (returned 2)

  unfoldable pub if_opened : Bytes → Answer → M (Unit {0})
  unfolding mkprefix reopened
  if_opened temp done = pure tt
  if_opened temp enoent =
      if g.create_prefix then (mkprefix g temp >>= reopened temp) else stop (returned 2)
  if_opened temp failed = stop (returned 2)

  unfoldable pub open_temp : Bytes → M (Unit {0})
  unfolding attempt if_opened
  open_temp temp = attempt g (opened temp) >>= if_opened temp

  -- error2 and error1: the temporary file is removed.
  unfoldable pub drop_temp {ℓ} : {A : Type ℓ} → Bytes → ℕ → M A
  unfolding attempt
  drop_temp temp value = attempt g (unlinked temp) >>= λ a. stop (returned value)

  unfoldable pub if_written : Bytes → Answer → M (Unit {0})
  unfolding drop_temp
  if_written temp done = pure tt
  if_written temp enoent = drop_temp temp 2
  if_written temp failed = drop_temp temp 2

  -- A chunk of at most `size` bytes; its length is zero at the end of the connection.
  unfoldable pub chunk_of : Bytes → ℕ → Option Bytes → M Bytes
  unfolding drop_temp
  chunk_of temp size none = drop_temp temp 2
  chunk_of temp size (some []) = drop_temp temp 2
  chunk_of temp size (some (c ∷ chunk)) = pure (take size (c ∷ chunk))

  unfoldable pub write_chunk : Bytes → Bytes → M (Unit {0})
  unfolding attempt if_written
  write_chunk temp chunk = attempt g (wrote temp chunk) >>= if_written temp

  -- The loop on `size`, with the bytes so far for the digest. Each chunk has a byte, so that one round
  -- for each byte is enough.
  unfoldable pub receive : ℕ → Bytes → Bytes → ℕ → M Bytes
  unfolding getline chunk_of write_chunk
  receive fuel temp got zero = pure got
  receive zero temp got (suc size) = stop out_of_fuel
  receive (suc fuel) temp got (suc size) =
      (getline >>= chunk_of temp (smaller (suc size) 8192)) >>= λ chunk.
      write_chunk temp chunk >> receive fuel temp (got ++ chunk) (suc size - length chunk)

  -- A size below zero ends the loop at once.
  unfoldable pub receive_size : Bytes → ℤ → M Bytes
  unfolding receive
  receive_size temp (pos size) = receive size temp [] size
  receive_size temp (negsuc n) = pure []

  unfoldable pub last_line : Bytes → Option Bytes → M (Unit {0})
  unfolding drop_temp same_string
  last_line temp none = drop_temp temp 2
  last_line temp (some line) = if same_string line (codes ".") then pure tt else drop_temp temp 2

  unfoldable pub verified : Bytes → Bytes → Bytes → M (Unit {0})
  unfolding drop_temp same_string base64_e
  verified temp trancksum got =
      if g.cksum && not (same_string trancksum (base64_e (g.digest got)))
      then drop_temp temp 1
      else pure tt

  unfoldable pub if_closed : Bytes → Answer → M (Unit {0})
  unfolding drop_temp
  if_closed temp done = pure tt
  if_closed temp enoent = drop_temp temp 2
  if_closed temp failed = drop_temp temp 2

  -- From the loop on.
  unfoldable pub fill : Bytes → ℤ → Bytes → M (Unit {0})
  unfolding receive_size attempt if_closed getline last_line verified
  fill temp size trancksum = do
    got ← receive_size temp size
    a ← attempt g (closed temp)
    if_closed temp a
    line ← getline
    last_line temp line
    verified temp trancksum got

  -- The request, and the size that is answered.
  unfoldable pub request : Bytes → ℤ → M ℤ
  unfolding attempt if_sent getline present_line size_agrees ensured
  request pathdesc transize = do
    sent ← attempt g (requested pathdesc)
    if_sent sent
    answer ← getline
    line ← present_line answer
    (if peek line == b'2' then pure tt else stop (returned 1))
    number ← getline
    size ← present_line number
    ensured (size_agrees transize (strtol size 10))
    pure (strtol size 10)

  unfoldable pub temp_name : Bytes → Option Bytes
  unfolding fitting signed
  temp_name path = fitting (path ++ (codes ".radmind." ++ signed (pos g.pid)))

  unfoldable pub retr : Bytes → Bytes → ℤ → Bytes → M Bytes
  unfolding request present_line temp_name open_temp fill same_string
  retr pathdesc path transize trancksum = do
    (if g.cksum && same_string trancksum (codes "-") then stop (returned 1) else pure tt)
    size ← request pathdesc transize
    temp ← present_line (temp_name path)
    open_temp temp
    fill temp size trancksum
    pure temp
