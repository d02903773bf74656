-- ===== src/Apply/Settled/Removing.antt =====
-- The removal list: what is taken from it is gone, and what is left is listed.
use radmind.Base.{
  refl, Bool, false, List, [], ◌∷◌, Option, none, some, Bytes, All, Bool-cases, arith, inl, inr,
}
use radmind.PathCmp.{ischildcase}
use radmind.PathCmp.Order.{key, lex_refl}
use radmind.PathCmp.Subtree.{IsUpTo}
use radmind.Apply.{
  removed, Answer, done, enoent, failed, Node, State, Env, Out, go, returned, exited, broke,
  crashed, out_of_fuel, noted, attempt,
}
use radmind.Apply.DoLine.{do_line}
use radmind.Apply.Removals.{
  set_head, set_change, or_error, if_removed, line_done, replace, remove_head, keep_above, minimize,
  push_node, postpone, if_unlinked, remove_file, remove_all, clear,
}
use radmind.Apply.Keeps.{
  is_calm, Later, Keeps, Keeps-pure, Keeps-stop, Keeps-seq, Keeps-quiet, keeps_rules, attempt-Keeps,
}
use radmind.Apply.Keeps.Lines.{do_line-Keeps}
use radmind.Apply.Settled.{AllRemoved, Settled, IsGone, IsListed, IsTop, IsNested, Inv}
use radmind.Apply.Settled.Hoare.{
  IsAt, Hoare, OnlySettled, Hoare-weaken, Hoare-Keeps_fixed, Hoare-Keeps, Hoare-Keeps_settled,
  Hoare-bind, Hoare-seq,
}

pub set_change-Keeps : Keeps set_change
unfolding set_change
set_change-Keeps = Keeps-quiet _ (λ s. refl) (λ s. refl) (λ s. refl)

Later-or_error : (s : State) (r : Out (Unit {0}) × State) → Later s r.1 → Later s (or_error r).1
unfolding or_error
Later-or_error s (go u, t) h = h
Later-or_error s (returned n, t) h = h
Later-or_error s (exited n, t) h = h
Later-or_error s (broke, t) h = h
Later-or_error s (crashed, t) h = h
Later-or_error s (out_of_fuel, t) h = h

if_removed-Keeps : (a : Answer) → Keeps (if_removed a)
unfolding if_removed
if_removed-Keeps done = Keeps-pure tt
if_removed-Keeps enoent = Keeps-stop broke
if_removed-Keeps failed = Keeps-stop broke

module _ (g : Env) where
  pub line_done-Keeps :
      (tline tran : Bytes) (present : Bool) → Keeps (line_done g tline tran present)
  unfolding line_done
  line_done-Keeps tline tran present = record {
    at = λ s.
        Later-or_error s (do_line g tline tran present s)
          ((do_line-Keeps g tline tran present).at s);
  }

  pub replace-Keeps : (o : Option (Bytes × Bytes)) → Keeps (replace g o)
  unfolding replace
  replace-Keeps none = Keeps-pure tt
  replace-Keeps (some (tline, tran)) =
      Keeps-seq _ _ (line_done-Keeps tline tran false) set_change-Keeps

  if_unlinked-Keeps : (a : Answer) → Keeps (if_unlinked g a)
  unfolding if_unlinked
  if_unlinked-Keeps done = Keeps-pure tt
  if_unlinked-Keeps enoent = search keeps_rules depth 16
  if_unlinked-Keeps failed = Keeps-stop broke

  module _ (cs : Bool) where
    noted_removed-Hoare :
        (x p : Bytes) (a : Answer)
        → IsGone cs x p
        → Hoare cs (Inv cs x) (λ b. Inv cs x) (noted (removed p) a)
    unfolding noted AllRemoved Settled
    noted_removed-Hoare x p done k = record {
      at = λ s h. record {
        at_path = h.at_path;
        cstring = h.cstring;
        listed = h.listed;
        nested = h.nested;
        gone = (k, h.gone);
        settled = h.settled;
      };
    }
    noted_removed-Hoare x p enoent k = Hoare-Keeps x _ (Keeps-pure enoent)
    noted_removed-Hoare x p failed k = Hoare-Keeps x _ (Keeps-pure failed)

    set_head-Hoare :
        (x : Bytes) (nodes : List Node)
        → All (λ n. IsListed cs x n) nodes
        → IsNested cs nodes
        → Hoare cs (Inv cs x) (λ b. IsAt cs x nodes) (set_head nodes)
    unfolding set_head
    set_head-Hoare x nodes k n = record {
      at = λ s h. (
        record {
          at_path = h.at_path;
          cstring = h.cstring;
          listed = k;
          nested = n;
          gone = h.gone;
          settled = h.settled;
        },
        refl,
      );
    }

    remove_head-Hoare :
        (x : Bytes) (node : Node) (rest : List Node)
        → IsGone cs x node.path
        → All (λ n. IsListed cs x n) rest
        → IsNested cs rest
        → Hoare cs (Inv cs x) (λ b. IsAt cs x rest) (remove_head g node rest)
    unfolding remove_head attempt
    remove_head-Hoare x node rest k l n =
        let I = Inv cs x in
        let J = IsAt cs x rest in
        Hoare-bind I (λ a. I) (λ a. J) _ _
          (record {
            at = λ s h.
                (noted_removed-Hoare x node.path (g.answer s.events (removed node.path)) k).at s h;
          })
          (λ a.
            Hoare-seq I I (λ b. J) _ _ (Hoare-Keeps x _ (if_removed-Keeps a))
              (Hoare-seq I J (λ b. J) _ _ (set_head-Hoare x rest l n)
                (Hoare-Keeps_fixed x rest _ (replace-Keeps node.context))))

    noted_any-Hoare :
        (p : Bytes) (a : Answer)
        → Hoare cs (OnlySettled cs) (λ b. OnlySettled cs) (noted (removed p) a)
    unfolding noted Settled
    noted_any-Hoare p done = record { at = λ s h. h }
    noted_any-Hoare p enoent = record { at = λ s h. h }
    noted_any-Hoare p failed = record { at = λ s h. h }

    set_head-Hoare_any :
        (nodes : List Node) → Hoare cs (OnlySettled cs) (λ b. OnlySettled cs) (set_head nodes)
    unfolding set_head
    set_head-Hoare_any nodes = record { at = λ s h. h }

    remove_any-Hoare :
        (node : Node) (rest : List Node)
        → Hoare cs (OnlySettled cs) (λ b. OnlySettled cs) (remove_head g node rest)
    unfolding remove_head attempt
    remove_any-Hoare node rest =
        let I = OnlySettled cs in
        Hoare-bind I (λ a. I) (λ a. I) _ _
          (record {
            at = λ s h. (noted_any-Hoare node.path (g.answer s.events (removed node.path))).at s h;
          })
          (λ a.
            Hoare-seq I I (λ b. I) _ _ (Hoare-Keeps_settled _ (if_removed-Keeps a))
              (Hoare-seq I I (λ b. I) _ _ (set_head-Hoare_any rest)
                (Hoare-Keeps_settled _ (replace-Keeps node.context))))

    remove_all-Hoare :
        (nodes : List Node) → Hoare cs (OnlySettled cs) (λ b. OnlySettled cs) (remove_all g nodes)
    unfolding remove_all
    remove_all-Hoare [] = Hoare-Keeps_settled _ (Keeps-pure tt)
    remove_all-Hoare (node ∷ rest) =
        Hoare-seq _ (OnlySettled cs) _ _ _ (remove_any-Hoare node rest) (remove_all-Hoare rest)

    pub clear-Hoare : Hoare cs (OnlySettled cs) (λ b. OnlySettled cs) (clear g)
    unfolding clear
    clear-Hoare = record { at = λ s h. (remove_all-Hoare s.head).at s h }

  -- The list, whose first directory is x or above it.
  abbrev IsAbove : Bytes → State → Type 0
  IsAbove x s = Inv g.case_sensitive x s × IsTop g.case_sensitive x s.head

  keep_above-Hoare :
      (x : Bytes) (nodes : List Node)
      → All (λ n. IsListed g.case_sensitive x n) nodes
      → IsNested g.case_sensitive nodes
      → Hoare g.case_sensitive
          (IsAt g.case_sensitive x nodes)
          (λ b. IsAbove x)
          (keep_above g x nodes)
  unfolding keep_above
  keep_above-Hoare x [] l n = record { at = λ s h. (h.0, rw (h.1) tt) }
  keep_above-Hoare x (node ∷ rest) l n =
      elim (Bool-cases (ischildcase x (some node.path) g.case_sensitive)) [
        | inl e ↦ rw e (record { at = λ s h. (h.0, rw (h.1) e) })
        | inr e ↦ rw e (
            Hoare-seq (IsAt g.case_sensitive x (node ∷ rest)) (IsAt g.case_sensitive x rest) _ _ _
              (record {
                at = λ s h.
                    (remove_head-Hoare g.case_sensitive x node rest (l.0.0, (l.0.1, e)) l.1 n.1).at
                      s h.0;
              })
              (keep_above-Hoare x rest l.1 n.1))
      ]

  minimize-Hoare_strong :
      (x : Bytes) → Hoare g.case_sensitive (Inv g.case_sensitive x) (λ b. IsAbove x) (minimize g x)
  unfolding minimize
  minimize-Hoare_strong x = record {
    at = λ s h. (keep_above-Hoare x s.head h.listed h.nested).at s (h, refl);
  }

  pub minimize-Hoare :
      (x : Bytes)
      → Hoare g.case_sensitive (Inv g.case_sensitive x) (λ b. Inv g.case_sensitive x) (minimize g x)
  minimize-Hoare x = Hoare-weaken _ (λ b. IsAbove x) _ _ (λ b t h. h.0) (minimize-Hoare_strong x)

  IsUpTo-refl : (cs : Bool) (x : Bytes) → IsUpTo cs x x
  IsUpTo-refl cs x e = ground (arith, lex_refl (key cs x), e)

  push_node-Hoare :
      (x : Bytes) (context : Option (Bytes × Bytes))
      → Hoare g.case_sensitive
          (IsAbove x)
          (λ b. Inv g.case_sensitive x)
          (push_node g (record { path = x; context = context }))
  unfolding push_node
  push_node-Hoare x context = record {
    at = λ s h.
        let node : Node = record { path = x; context = context } in
        (Hoare-weaken (Inv g.case_sensitive x) (λ b. IsAt g.case_sensitive x (node ∷ s.head))
            (λ b. Inv g.case_sensitive x) (set_head (node ∷ s.head)) (λ b t k. k.0)
            (set_head-Hoare g.case_sensitive x (node ∷ s.head)
              ((h.0.cstring, IsUpTo-refl g.case_sensitive x), h.0.listed) (h.1, h.0.nested))).at
          s h.0;
  }

  pub postpone-Hoare :
      (x : Bytes) (context : Option (Bytes × Bytes))
      → Hoare g.case_sensitive
          (Inv g.case_sensitive x)
          (λ b. Inv g.case_sensitive x)
          (postpone g (record { path = x; context = context }))
  unfolding postpone
  postpone-Hoare x context =
      Hoare-seq _ (IsAbove x) _ _ _ (minimize-Hoare_strong x) (push_node-Hoare x context)

  pub remove_file-Hoare :
      (x : Bytes)
      → Hoare g.case_sensitive
          (Inv g.case_sensitive x)
          (λ b. Inv g.case_sensitive x)
          (remove_file g x)
  unfolding remove_file is_calm
  remove_file-Hoare x =
      let I = Inv g.case_sensitive x in
      Hoare-bind I (λ a. I) (λ a. I) _ _
        (Hoare-seq I I (λ a. I) _ _ (minimize-Hoare x) (Hoare-Keeps x _ (attempt-Keeps g _ refl)))
        (λ a. Hoare-Keeps x _ (if_unlinked-Keeps a))
