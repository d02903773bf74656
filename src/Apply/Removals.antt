-- ===== src/Apply/Removals.antt =====
-- The removal list of main(): a directory is removed behind all that is below it, and what its line
-- puts there comes after that. `goto error2` is `broke`.
use radmind.Base.{Bool, true, false, List, [], ◌∷◌, Option, none, some, if◌then◌else◌, Bytes}
use radmind.PathCmp.{ischildcase}
use radmind.Apply.{
  removed, unlinked, Answer, done, enoent, failed, Node, State, Env, Out, go, returned, exited,
  broke, crashed, out_of_fuel, M, ◌>>=◌, ◌>>◌, pure, gets, modify, stop, attempt,
}
use radmind.Apply.DoLine.{do_line}

unfoldable pub set_head : List Node → M (Unit {0})
set_head head = modify (λ s. record s { head = head })

unfoldable pub set_change : M (Unit {0})
set_change = modify (λ s. record s { change = true })

-- `if ( do_line( ... ) != 0 ) goto error2`
unfoldable pub or_error : Out (Unit {0}) × State → Out (Unit {0}) × State
or_error (go u, s) = (go u, s)
or_error (returned n, s) = (broke, s)
or_error (exited n, s) = (exited n, s)
or_error (broke, s) = (broke, s)
or_error (crashed, s) = (crashed, s)
or_error (out_of_fuel, s) = (out_of_fuel, s)

unfoldable pub if_removed : Answer → M (Unit {0})
if_removed done = pure tt
if_removed enoent = stop broke
if_removed failed = stop broke

module _ (g : Env) where
  unfoldable pub line_done : Bytes → Bytes → Bool → M (Unit {0})
  unfolding or_error do_line
  line_done tline tran present s = or_error (do_line g tline tran present s)

  -- What the node's line makes in the place of the directory.
  unfoldable pub replace : Option (Bytes × Bytes) → M (Unit {0})
  unfolding line_done set_change
  replace none = pure tt
  replace (some (tline, tran)) = line_done tline tran false >> set_change

  -- The head of the list, which is `node` in front of `rest`, is removed.
  unfoldable pub remove_head : Node → List Node → M (Unit {0})
  unfolding attempt if_removed set_head replace
  remove_head node rest = do
    a ← attempt g (removed node.path)
    if_removed a
    set_head rest
    replace node.context

  -- The heads that `path` is not below.
  unfoldable pub keep_above : Bytes → List Node → M (Unit {0})
  unfolding remove_head ischildcase
  keep_above path [] = pure tt
  keep_above path (node ∷ rest) =
      let later = keep_above path rest in
      if ischildcase path (some node.path) g.case_sensitive
      then pure tt
      else (remove_head node rest >> later)

  -- "Minimize remove list", which the two other loops begin with as well.
  unfoldable pub minimize : Bytes → M (Unit {0})
  unfolding keep_above
  minimize path = gets (λ s. s.head) >>= keep_above path

  unfoldable pub push_node : Node → M (Unit {0})
  unfolding set_head
  push_node node = gets (λ s. s.head) >>= λ head. set_head (node ∷ head)

  -- dirchecklist
  unfoldable pub postpone : Node → M (Unit {0})
  unfolding minimize push_node
  postpone node = minimize node.path >> push_node node

  unfoldable pub if_unlinked : Answer → M (Unit {0})
  if_unlinked done = pure tt
  if_unlinked enoent = if g.force then pure tt else stop broke
  if_unlinked failed = stop broke

  -- filechecklist
  unfoldable pub remove_file : Bytes → M (Unit {0})
  unfolding minimize attempt if_unlinked
  remove_file path = minimize path >> attempt g (unlinked path) >>= if_unlinked

  -- "Clear out remove list"
  unfoldable pub remove_all : List Node → M (Unit {0})
  unfolding remove_head
  remove_all [] = pure tt
  remove_all (node ∷ rest) = let later = remove_all rest in remove_head node rest >> later

  unfoldable pub clear : M (Unit {0})
  unfolding remove_all
  clear = gets (λ s. s.head) >>= remove_all
