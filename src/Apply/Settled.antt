-- ===== src/Apply/Settled.antt =====
-- When a directory that was to be removed is gone, no later line is about it or about what is below
-- it. The conditions on the events, and the invariant of the loop.
pub mod Hoare
pub mod Removing
pub mod Order
pub mod Loop
use radmind.Base.{
  ◌≡◌, refl, ◌≢◌, Bool, true, false, List, [], ◌∷◌, ◌++◌, Ordering, some, Bytes, IsCString, All,
  arith, ap, sym, ◌∙◌,
}
use radmind.PathCmp.{ischildcase}
use radmind.PathCmp.Order.{lex, key, lex_le_trans}
use radmind.PathCmp.Subtree.{IsUpTo, between_two-ischildcase}
use radmind.Apply.{Event, looked, removed, Node, State}
use radmind.Apply.Keeps.{is_calm, calm, Later}

-- Every directory that was removed is as K says.
unfoldable pub AllRemoved : (Bytes → Type 0) → List Event → Type 0
AllRemoved K [] = Unit
AllRemoved K (removed p ∷ events) = K p × AllRemoved K events
AllRemoved K (e ∷ events) = AllRemoved K events

abbrev pub IsApart : Bool → Bytes → Bytes → Type 0
IsApart cs q p = ischildcase q (some p) cs ≡ false

-- Of each line that was begun: no directory that was removed before is its path, or is above it.
-- The last event is the first of the list.
unfoldable pub Settled : Bool → List Event → Type 0
unfolding AllRemoved
Settled cs [] = Unit
Settled cs (looked q ∷ events) = AllRemoved (λ p. IsApart cs q p) events × Settled cs events
Settled cs (e ∷ events) = Settled cs events

-- A directory that is gone: it sorts up to the path x of the line, which is not below it.
abbrev pub IsGone : Bool → Bytes → Bytes → Type 0
IsGone cs x p = IsCString p × (IsUpTo cs p x × IsApart cs x p)

-- A directory in the list.
abbrev pub IsListed : Bool → Bytes → Node → Type 0
IsListed cs x node = IsCString node.path × IsUpTo cs node.path x

-- The first directory of the list, if there is one, is x or above it.
abbrev pub IsTop : Bool → Bytes → List Node → Type 0
IsTop cs x [] = Unit
IsTop cs x (node ∷ rest) = ischildcase x (some node.path) cs ≡ true

-- Each directory of the list is in the subtree of the next one.
abbrev pub IsNested : Bool → List Node → Type 0
IsNested cs [] = Unit
IsNested cs (node ∷ rest) = IsTop cs node.path rest × IsNested cs rest

pub record Inv (cs : Bool) (x : Bytes) (s : State) : Type 0 where
  pub at_path : s.prepath ≡ x
  pub cstring : IsCString x
  pub listed : All (λ n. IsListed cs x n) s.head
  pub nested : IsNested cs s.head
  pub gone : AllRemoved (λ p. IsGone cs x p) s.events
  pub settled : Settled cs s.events

AllRemoved-calm_one :
    (K : Bytes → Type 0) (e : Event) (events : List Event)
    → is_calm e ≡ true
    → AllRemoved K events
    → AllRemoved K (e ∷ events)
unfolding AllRemoved is_calm
AllRemoved-calm_one K (removed p) events h k = cc
AllRemoved-calm_one K e events h k = k

Settled-calm_one :
    (cs : Bool) (e : Event) (events : List Event)
    → is_calm e ≡ true
    → Settled cs events
    → Settled cs (e ∷ events)
unfolding Settled is_calm
Settled-calm_one cs (looked p) events h k = cc
Settled-calm_one cs e events h k = k

AllRemoved-calm :
    (K : Bytes → Type 0) (new events : List Event)
    → calm new ≡ true
    → AllRemoved K events
    → AllRemoved K (new ++ events)
unfolding calm
AllRemoved-calm K [] events h k = k
AllRemoved-calm K (e ∷ new) events h k =
    AllRemoved-calm_one K e (new ++ events) (ground (arith, h))
      (AllRemoved-calm K new events (ground (arith, h)) k)

Settled-calm :
    (cs : Bool) (new events : List Event)
    → calm new ≡ true
    → Settled cs events
    → Settled cs (new ++ events)
unfolding calm
Settled-calm cs [] events h k = k
Settled-calm cs (e ∷ new) events h k =
    Settled-calm_one cs e (new ++ events) (ground (arith, h))
      (Settled-calm cs new events (ground (arith, h)) k)

pub AllRemoved-map :
    (K L : Bytes → Type 0) (events : List Event)
    → ((p : Bytes) → K p → L p)
    → AllRemoved K events
    → AllRemoved L events
unfolding AllRemoved
AllRemoved-map K L [] f h = h
AllRemoved-map K L (removed p ∷ events) f h = (f p h.0, AllRemoved-map K L events f h.1)
AllRemoved-map K L (e ∷ events) f h = AllRemoved-map K L events f h

pub Later-Settled :
    (cs : Bool) (s t : State) → Later s t → Settled cs s.events → Settled cs t.events
Later-Settled cs s t l h = rw (l.events_eq) (Settled-calm cs l.new s.events l.calm_new h)

pub Later-Inv : (cs : Bool) (x : Bytes) (s t : State) → Later s t → Inv cs x s → Inv cs x t
Later-Inv cs x s t l h = record {
  at_path = l.same_prepath ∙ h.at_path;
  cstring = h.cstring;
  listed = rw (l.same_head) (h.listed);
  nested = rw (l.same_head) (h.nested);
  gone = rw (l.events_eq) (AllRemoved-calm _ l.new s.events l.calm_new h.gone);
  settled = Later-Settled cs s t l h.settled;
}
