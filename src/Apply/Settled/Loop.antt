-- ===== src/Apply/Settled/Loop.antt =====
-- The loop over the lines keeps the invariant, and main() keeps the events settled.
use radmind.Base.{Bytes}
use radmind.Apply.{State, Env, Out, go, returned, exited, broke, crashed, out_of_fuel}
use radmind.Apply.Keeps.{Keeps}
use radmind.Apply.Settled.{IsNested, Settled, Inv}
use radmind.Apply.Settled.Hoare.{Hoare, AnyInv, OnlySettled}

module _ (g : Env) where
  abbrev CaseInv : Bytes → State → Type 0
  CaseInv x s = Inv g.case_sensitive x s

  abbrev CaseAny : State → Type 0
  CaseAny s = AnyInv g.case_sensitive s

  abbrev CaseSettled : State → Type 0
  CaseSettled s = OnlySettled g.case_sensitive s

  -- Where the lines go on to their end, the removal list is a chain.
  abbrev pub NestedEnd : Out (Unit {0}) × State → Type 0
  NestedEnd (go u, t) = IsNested g.case_sensitive t.head
  NestedEnd (returned n, t) = Unit
  NestedEnd (exited n, t) = Unit
  NestedEnd (broke, t) = Unit
  NestedEnd (crashed, t) = Unit
  NestedEnd (out_of_fuel, t) = Unit
