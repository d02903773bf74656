-- ===== src/Apply/Cleared.antt =====
-- The removals behind the last line: every directory of the list goes, the last one first.
use radmind.Base.{◌≡◌, refl, true, List, [], ◌∷◌, ◌++◌, Bytes, ap, sym, ◌∙◌, arith}
use radmind.Apply.{
  Event, removed, Answer, done, enoent, failed, Node, State, Env, Out, go, returned, exited, broke,
  crashed, out_of_fuel, M, ◌>>◌, after, noted, attempt,
}
use radmind.Apply.Keeps.{is_calm, calm, Later}
use radmind.Apply.Removals.{set_head, if_removed, replace, remove_head, remove_all, clear}
use radmind.Apply.Settled.Removing.{replace-Keeps}

-- The directories that were removed, the last one first.
unfoldable pub removals : List Event → List Bytes
removals [] = []
removals (removed p ∷ events) = p ∷ removals events
removals (e ∷ events) = removals events

-- The paths of the nodes in front of `done`, the last node first.
unfoldable pub paths_onto : List Node → List Bytes → List Bytes
paths_onto [] paths = paths
paths_onto (node ∷ nodes) paths = paths_onto nodes (node.path ∷ paths)

removals-calm_one :
    (e : Event) (events : List Event) → is_calm e ≡ true → removals (e ∷ events) ≡ removals events
unfolding removals is_calm
removals-calm_one (removed p) events h = cc
removals-calm_one e events h = refl

removals-calm :
    (new events : List Event) → calm new ≡ true → removals (new ++ events) ≡ removals events
unfolding calm
removals-calm [] events h = refl
removals-calm (e ∷ new) events h =
    removals-calm_one e (new ++ events) (ground (arith, h))
    ∙ removals-calm new events (ground (arith, h))

-- Where the program goes on, its list and its removals are these.
abbrev pub Leaves : List Node → List Bytes → Out (Unit {0}) × State → Type 0
Leaves nodes paths (go u, t) = (t.head ≡ nodes) × (removals t.events ≡ paths)
Leaves nodes paths (returned n, t) = Unit
Leaves nodes paths (exited n, t) = Unit
Leaves nodes paths (broke, t) = Unit
Leaves nodes paths (crashed, t) = Unit
Leaves nodes paths (out_of_fuel, t) = Unit

Leaves-after :
    (nodes rest : List Node) (paths more : List Bytes) (r : Out (Unit {0}) × State)
    (k : M (Unit {0}))
    → Leaves nodes paths r
    → ((t : State) → t.head ≡ nodes → removals t.events ≡ paths → Leaves rest more (k t))
    → Leaves rest more (after r (λ u. k))
Leaves-after nodes rest paths more (go u, t) k h f = f t h.0 h.1
Leaves-after nodes rest paths more (returned n, t) k h f = tt
Leaves-after nodes rest paths more (exited n, t) k h f = tt
Leaves-after nodes rest paths more (broke, t) k h f = tt
Leaves-after nodes rest paths more (crashed, t) k h f = tt
Leaves-after nodes rest paths more (out_of_fuel, t) k h f = tt

Later-Leaves :
    (nodes : List Node) (paths : List Bytes) (s : State) (r : Out (Unit {0}) × State)
    → s.head ≡ nodes
    → removals s.events ≡ paths
    → Later s r.1
    → Leaves nodes paths r
Later-Leaves nodes paths s (go u, t) h k l =
    (l.same_head ∙ h, ap removals l.events_eq ∙ (removals-calm l.new s.events l.calm_new ∙ k))
Later-Leaves nodes paths s (returned n, t) h k l = tt
Later-Leaves nodes paths s (exited n, t) h k l = tt
Later-Leaves nodes paths s (broke, t) h k l = tt
Later-Leaves nodes paths s (crashed, t) h k l = tt
Later-Leaves nodes paths s (out_of_fuel, t) h k l = tt

module _ (g : Env) where
  taken-Leaves :
      (node : Node) (rest : List Node) (a : Answer) (s : State)
      → Leaves rest (node.path ∷ removals s.events) (
          after
            (noted (removed node.path) a s)
            (λ b. if_removed b >> (set_head rest >> replace g node.context)))
  unfolding noted if_removed set_head removals
  taken-Leaves node rest done s =
      let t = record s { events = removed node.path ∷ s.events; head = rest } in
      Later-Leaves rest (node.path ∷ removals s.events) t (replace g node.context t) refl refl
        ((replace-Keeps g node.context).at t)
  taken-Leaves node rest enoent s = tt
  taken-Leaves node rest failed s = tt

  remove_head-Leaves :
      (node : Node) (rest : List Node) (s : State)
      → Leaves rest (node.path ∷ removals s.events) (remove_head g node rest s)
  unfolding remove_head attempt
  remove_head-Leaves node rest s = taken-Leaves node rest (g.answer s.events (removed node.path)) s

  remove_all-Leaves :
      (nodes : List Node) (s : State)
      → s.head ≡ nodes
      → Leaves [] (paths_onto nodes (removals s.events)) (remove_all g nodes s)
  unfolding remove_all paths_onto
  remove_all-Leaves [] s h = (h, refl)
  remove_all-Leaves (node ∷ rest) s h =
      Leaves-after rest [] _ _ (remove_head g node rest s) (remove_all g rest)
        (remove_head-Leaves node rest s) (λ t ht hp. rw (sym hp) (remove_all-Leaves rest t ht))

  -- Behind the last line, where every call is done, the list is empty, and just the directories that it
  -- had were removed, each one once and in the order of the list, from its head.
  pub clear-Leaves : (s : State) → Leaves [] (paths_onto s.head (removals s.events)) (clear g s)
  unfolding clear
  clear-Leaves s = remove_all-Leaves s.head s refl
