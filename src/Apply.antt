-- ===== src/Apply.antt =====
-- lapply.c and what it calls: a difference that fsdiff has printed is applied to the filesystem. The
-- state is that of one run; the answers of the system may depend on all that was done before.
pub mod Keeps
pub mod Settled
pub mod Metadata
pub mod Received
pub mod Cleared
pub mod Stats
pub mod Prefix
pub mod Update
pub mod Download
pub mod DoLine
pub mod Removals
pub mod Main
mod Examples
use radmind.Base.{ℕ, Bool, true, false, List, ◌∷◌, Option, none, some, Bytes}
pub use radmind.Effect.{
  Out, go, returned, exited, broke, crashed, out_of_fuel, Exec, after, ◌>>=◌, ◌>>◌, pure, gets,
  stop, modify,
}
use radmind.Code.{Coded, value, null, overrun, overread, decode}
unfoldable pub use radmind.Code.Buffer.{buffer_after}
use radmind.Transcript.{Stat}

-- What is done to the system, each with the path that it is done to; `looked` is the lstat() of a line.
pub data Event : Type 0 where
  looked removed unlinked opened closed timed : Bytes → Event
  made chmoded lchmoded fifo : Bytes → ℕ → Event
  chowned lchowned node : Bytes → ℕ → ℕ → Event
  special_node : Bytes → ℕ → ℕ × ℕ → Event
  linked symlinked renamed wrote : Bytes → Bytes → Event
  requested : Bytes → Event
  hung_up : Event

-- How a call of the system ends: done, ENOENT, or another error.
pub data Answer : Type 0 where
  done enoent failed : Answer

-- lstat(): the two errors that radstat() knows, and the others.
pub data Lstat : Type 0 where
  is : Stat → Lstat
  is_enoent is_enotdir is_failed : Lstat

-- struct node: the line and its transcript, where there is one to be done.
pub record Node : Type 0 where
  pub path : Bytes
  pub context : Option (Bytes × Bytes)

-- The globals and the variables of main(). `command` is a pointer into the buffer `targvline`, and
-- `none` points to an empty string; `st` is what the last radstat() or update() has left; `buf` is
-- the buffer of decode(), and `input` has what each call of snet_getline() and snet_read() gives.
pub record State : Type 0 where
  pub special : Bool
  pub network : Bool
  pub change : Bool
  pub prepath : Bytes
  pub transcript : Bytes
  pub targvline : ℕ → ℕ
  pub command : Option ℕ
  pub head : List Node
  pub st : Stat
  pub buf : ℕ → ℕ
  pub input : List Bytes
  pub events : List Event

-- The options, and the answers of the system; `digest` is that of OpenSSL.
pub record Env : Type 0 where
  pub case_sensitive : Bool
  pub force : Bool
  pub cksum : Bool
  pub create_prefix : Bool
  pub have_lchown : Bool
  pub have_lchmod : Bool
  pub pid : ℕ
  pub fclose_works : Bool
  pub e_uid : ℕ
  pub digest : Bytes → Bytes
  pub lstat : List Event → Bytes → Lstat
  pub stat : List Event → Bytes → Option Stat
  pub answer : List Event → Event → Answer

abbrev pub M {ℓ} : Type ℓ → Type ℓ
M A = Exec State A

abbrev pub emit : Event → M (Unit {0})
emit e s = (go tt, record s { events = e ∷ s.events })

unfoldable pub set_st : Stat → M (Unit {0})
set_st st = modify (λ s. record s { st = st })

-- A call that is answered is an event if it is done.
unfoldable pub noted : Event → Answer → M Answer
noted e done = emit e >> pure done
noted e enoent = pure enoent
noted e failed = pure failed

unfoldable pub coded : Coded → M (Option Bytes)
coded (value t) = pure (some t)
coded null = pure none
coded overrun = stop crashed
coded overread = stop crashed

unfoldable pub set_buf : Bytes → M (Unit {0})
unfolding buffer_after
set_buf line = modify (λ s. record s { buf = buffer_after s.buf line })

-- decode(); `none` is NULL.
unfoldable pub decode_word : Bytes → M (Option Bytes)
unfolding decode set_buf coded
decode_word line = gets (λ s. decode s.buf line) >>= λ c. set_buf line >> coded c

unfoldable pub if_done : Answer → M (Unit {0})
if_done done = pure tt
if_done enoent = stop (returned 1)
if_done failed = stop (returned 1)

module _ (g : Env) where
  unfoldable pub attempt : Event → M Answer
  unfolding noted
  attempt e = gets (λ s. g.answer s.events e) >>= noted e

  -- The function returns 1 if the call is not done.
  unfoldable pub must : Event → M (Unit {0})
  unfolding attempt if_done
  must e = attempt e >>= if_done
