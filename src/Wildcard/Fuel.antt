-- ===== src/Wildcard/Fuel.antt =====
-- wildcard() returns: each round, and each recursive call, has a shorter pattern.
use radmind.Base.{
  ℕ, zero, suc, ◌≤◌, ◌<◌, ◌≡◌, ◌≢◌, refl, Bool, List, [], ◌∷◌, none, some, Bytes, length, peek,
  tail, ℤ, arith, Option-cases, inl, inr,
}
use radmind.Wildcard.{
  Match, out_of_fuel, Pointer, advance, skip_digits, atoi, range_rest, after_bracket, Class,
  class_overread, class_unmatched, class_rest, scan_class, after_brace, alternatives, Strip,
  strip_overread, strip_unmatched, strip_rest, strip, or_else, try_alternative, try_alternatives,
  try_places, star_case, range_case, class_case, brace_case, literal_case, round, rounds, wildcard,
}

length-skip_digits : (s : Bytes) → length (skip_digits s) ≤ length s
unfolding skip_digits
length-skip_digits [] = omega arith
length-skip_digits (c ∷ s) = ground (arith, length-skip_digits s)

length-tail : (s : Bytes) → length (tail s) ≤ length s
length-tail [] = omega arith
length-tail (c ∷ s) = omega arith

length-range_rest :
    (wild : Bytes) (i : ℤ) (rest : Bytes)
    → range_rest wild i ≡ some rest
    → length rest ≤ length wild
unfolding range_rest
length-range_rest wild i rest h = ground (
  arith,
  length-skip_digits wild,
  length-tail (skip_digits wild),
  length-skip_digits (tail (skip_digits wild)),
  length-tail (skip_digits (tail (skip_digits wild))),
)

length-after_bracket :
    (wild rest : Bytes) → after_bracket wild ≡ some rest → length rest ≤ length wild
unfolding after_bracket
length-after_bracket [] rest h = cc
length-after_bracket (c ∷ wild) rest h = ground (arith, length-after_bracket wild rest)

length-scan_class :
    (s : Bool) (c : ℕ) (wild rest : Bytes)
    → scan_class s c wild ≡ class_rest rest
    → length rest ≤ length wild
unfolding scan_class
length-scan_class s c [] rest h = ground arith
length-scan_class s c (d ∷ wild) rest h =
    ground (arith, length-scan_class s c wild rest, length-after_bracket (d ∷ wild) rest)

length-after_brace : (wild rest : Bytes) → after_brace wild ≡ some rest → length rest ≤ length wild
unfolding after_brace
length-after_brace [] rest h = cc
length-after_brace (c ∷ wild) rest h = ground (arith, length-after_brace wild rest)

-- The rest of the match returns on every pattern below a length.
abbrev Returns : ℕ → (Bytes → Pointer → Match) → Type 0
Returns n go = (wild : Bytes) (p : Pointer) → length wild < n → go wild p ≢ out_of_fuel

try_places-returns :
    (go : Pointer → Match) (p : Bytes)
    → ((q : Pointer) → go q ≢ out_of_fuel)
    → try_places go p ≢ out_of_fuel
unfolding try_places
try_places-returns go [] h = cc
try_places-returns go (c ∷ p) h = ground (arith, h (some (c ∷ p)), try_places-returns go p h)

try_alternatives-returns :
    (s : Bool) (go : Pointer → Match) (p : Pointer) (alts : List Bytes)
    → ((q : Pointer) → go q ≢ out_of_fuel)
    → try_alternatives s go p alts ≢ out_of_fuel
unfolding try_alternatives try_alternative
try_alternatives-returns s go p [] h = cc
try_alternatives-returns s go p (alt ∷ alts) h =
    stripped (strip s alt p) (try_alternatives-returns s go p alts h)
  where
    stripped :
        (r : Strip)
        → try_alternatives s go p alts ≢ out_of_fuel
        → or_else (try_alternative go r) (try_alternatives s go p alts) ≢ out_of_fuel
    stripped strip_overread later = ground arith
    stripped strip_unmatched later = later
    stripped (strip_rest q) later = ground (arith, h q)

module _ (n : ℕ) (s : Bool) (go : Bytes → Pointer → Match) (h : Returns n go) where
  star_case-returns :
      (wild : Bytes) (p : Pointer) → length wild < n → star_case go wild p ≢ out_of_fuel
  unfolding star_case
  star_case-returns [] p le = ground arith
  star_case-returns (c ∷ wild) none le = ground arith
  star_case-returns (c ∷ wild) (some p) le =
      try_places-returns (go (c ∷ wild)) p (λ q. h (c ∷ wild) q le)

  range_case-returns :
      (wild : Bytes) (p : Pointer) → length wild < n → range_case go wild p ≢ out_of_fuel
  unfolding range_case
  range_case-returns wild none le = ground arith
  range_case-returns wild (some p) le = elim (Option-cases (range_rest wild (atoi p))) [
    | inl none_left ↦ ground arith
    | inr (rest, e) ↦
        ground (arith, h rest (some (skip_digits p)), length-range_rest wild (atoi p) rest e)
  ]

  class_case-returns :
      (wild : Bytes) (p : Pointer) → length wild < n → class_case s go wild p ≢ out_of_fuel
  unfolding class_case
  class_case-returns wild none le = ground arith
  class_case-returns wild (some p) le = scanned (scan_class s (peek p) wild) refl
    where
      scanned :
          (r : Class) → scan_class s (peek p) wild ≡ r → class_case s go wild (some p) ≢ out_of_fuel
      scanned class_overread e = ground arith
      scanned class_unmatched e = ground arith
      scanned (class_rest rest) e =
          ground (arith, h rest (advance (some p)), length-scan_class s (peek p) wild rest e)

  brace_case-returns :
      (wild : Bytes) (p : Pointer) → length wild < n → brace_case s go wild p ≢ out_of_fuel
  unfolding brace_case
  brace_case-returns wild p le = elim (Option-cases (after_brace wild)) [
    | inl malformed ↦ ground arith
    | inr (end, e) ↦
        let le' = length-after_brace wild end e in
        rw (e, brace_case)
          (try_alternatives-returns s (go end) p (alternatives wild) (λ q. h end q (omega arith)))
  ]

  literal_case-returns :
      (wild : Bytes) (p : Pointer) → length wild ≤ n → literal_case s go wild p ≢ out_of_fuel
  unfolding literal_case
  literal_case-returns [] none le = ground arith
  literal_case-returns (c ∷ wild) none le = ground arith
  literal_case-returns [] (some p) le = ground arith
  literal_case-returns (c ∷ wild) (some p) le = ground (arith, h wild (advance (some p)))

  round-returns : (wild : Bytes) (p : Pointer) → length wild ≤ n → round s go wild p ≢ out_of_fuel
  unfolding round
  round-returns [] p le = literal_case-returns [] p le
  round-returns (c ∷ wild) p le = ground (
    arith,
    star_case-returns wild p,
    range_case-returns wild p,
    h wild (advance p),
    class_case-returns wild p,
    brace_case-returns wild p,
    literal_case-returns wild p,
    literal_case-returns (c ∷ wild) p,
  )

rounds-Returns : (fuel : ℕ) (s : Bool) → Returns fuel (rounds fuel s)
unfolding rounds
rounds-Returns zero s wild p lt = absurd (omega arith)
rounds-Returns (suc fuel) s wild p lt =
    round-returns fuel s (rounds fuel s) (rounds-Returns fuel s) wild p (omega arith)

-- wildcard() ends, for every pattern and every path, in either case mode.
pub wildcard-ne-out_of_fuel : (wild p : Bytes) (s : Bool) → wildcard wild p s ≢ out_of_fuel
unfolding wildcard
wildcard-ne-out_of_fuel wild p s = rounds-Returns (suc (length wild)) s wild (some p) (omega arith)
