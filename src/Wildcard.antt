-- ===== src/Wildcard.antt =====
-- wildcard.c: the patterns of exclude lines. The path may be left behind its NUL by '?' and '[...]':
-- `none` is that pointer, and a read through it, or past the end of the pattern, is `overread`.
pub mod Literal
pub mod Fuel
mod Examples
use radmind.Base.{
  ℕ, zero, suc, ◌+◌, Bool, true, false, not, ◌&&◌, ◌||◌, List, [], ◌∷◌, ◌++◌, Option, none, some,
  ltb, leb, ◌==◌, if◌then◌else◌, Bytes, length, peek, tail, ℤ, pos, negsuc,
}
use radmind.CLibrary.{atoi_u32, int_of_u32}
use radmind.PathCmp.{fold}

-- 1, 0, and what the code does not guard against. `out_of_fuel` belongs to the model.
pub data Match : Type 0 where
  matched unmatched overread out_of_fuel : Match

abbrev pub Pointer : Type 0
Pointer = Option Bytes

abbrev pub advance : Pointer → Pointer
advance none = none
advance (some []) = none
advance (some (c ∷ p)) = some p

unfoldable pub is_digit : ℕ → Bool
is_digit c = leb b'0' c && leb c b'9'

unfoldable pub skip_digits : Bytes → Bytes
unfolding is_digit
skip_digits [] = []
skip_digits (c ∷ s) = if is_digit c then skip_digits s else c ∷ s

abbrev pub int_le : ℤ → ℤ → Bool
int_le (pos a) (pos b) = leb a b
int_le (pos a) (negsuc b) = false
int_le (negsuc a) (pos b) = true
int_le (negsuc a) (negsuc b) = leb b a

unfoldable pub atoi : Bytes → ℤ
unfolding atoi_u32 int_of_u32
atoi s = int_of_u32 (atoi_u32 s)

-- case '<': where the pattern goes on, if it is a range `min-max>` that holds the number.
unfoldable pub range_rest : Bytes → ℤ → Option Bytes
unfolding is_digit skip_digits atoi
range_rest wild i =
    let wild1 = skip_digits wild in
    let wild2 = skip_digits (tail wild1) in
    if is_digit (peek wild)
      && (peek wild1 == b'-')
      && is_digit (peek (tail wild1))
      && (peek wild2 == b'>')
      && int_le (atoi wild) i
      && int_le i (atoi (tail wild1))
    then some (tail wild2)
    else none

-- Behind the next ']'.
unfoldable pub after_bracket : Bytes → Option Bytes
after_bracket [] = none
after_bracket (c ∷ wild) = if c == b']' then some wild else after_bracket wild

-- case '[': a read past the pattern, no match, or the pattern behind the class.
pub data Class : Type 0 where
  class_overread class_unmatched : Class
  class_rest : Bytes → Class

abbrev pub class_of : Option Bytes → Class
class_of none = class_unmatched
class_of (some wild) = class_rest wild

-- The loop stops at the first byte of the class that differs from that of the path.
unfoldable pub scan_class : Bool → ℕ → Bytes → Class
unfolding fold after_bracket
scan_class sensitive c [] =
    if fold sensitive 0 == fold sensitive c then class_overread else class_unmatched
scan_class sensitive c (d ∷ wild) =
    let later = scan_class sensitive c wild in
    if d == b']'
    then class_unmatched
    else (if fold sensitive d == fold sensitive c
        then later
        else class_of (after_bracket (d ∷ wild)))

-- case '{': behind the '}', unless there is another '{' before it, or no '}'.
unfoldable pub after_brace : Bytes → Option Bytes
after_brace [] = none
after_brace (c ∷ wild) =
    if c == b'}' then some wild else (if c == b'{' then none else after_brace wild)

abbrev pub cons_head : ℕ → List Bytes → List Bytes
cons_head c [] = (c ∷ []) ∷ []
cons_head c (a ∷ rest) = (c ∷ a) ∷ rest

-- The alternatives, up to the '}'.
unfoldable pub alternatives : Bytes → List Bytes
alternatives [] = [] ∷ []
alternatives (c ∷ wild) =
    let later = alternatives wild in
    if c == b'}' then [] ∷ [] else (if c == b',' then [] ∷ later else cons_head c later)

-- The comparison of an alternative with the path: what is left of the path behind it.
pub data Strip : Type 0 where
  strip_overread strip_unmatched : Strip
  strip_rest : Pointer → Strip

unfoldable pub strip : Bool → Bytes → Pointer → Strip
unfolding fold
strip sensitive [] p = strip_rest p
strip sensitive (c ∷ alt) none = strip_overread
strip sensitive (c ∷ alt) (some p) =
    let later = strip sensitive alt (some (tail p)) in
    if fold sensitive c == fold sensitive (peek p) then later else strip_unmatched

-- `if ( wildcard( ... )) return( 1 );` and then the next attempt.
abbrev pub or_else : Match → Match → Match
or_else unmatched next = next
or_else matched next = matched
or_else overread next = overread
or_else out_of_fuel next = out_of_fuel

unfoldable pub try_alternative : (Pointer → Match) → Strip → Match
try_alternative go strip_overread = overread
try_alternative go strip_unmatched = unmatched
try_alternative go (strip_rest p) = go p

unfoldable pub try_alternatives : Bool → (Pointer → Match) → Pointer → List Bytes → Match
unfolding strip try_alternative
try_alternatives sensitive go p [] = unmatched
try_alternatives sensitive go p (alt ∷ alts) =
    or_else (try_alternative go (strip sensitive alt p)) (try_alternatives sensitive go p alts)

-- case '*': each place of the path before its NUL.
unfoldable pub try_places : (Pointer → Match) → Bytes → Match
try_places go [] = unmatched
try_places go (c ∷ p) = or_else (go (some (c ∷ p))) (try_places go p)

unfoldable pub star_case : (Bytes → Pointer → Match) → Bytes → Pointer → Match
unfolding try_places
star_case go [] p = matched
star_case go (c ∷ wild) none = overread
star_case go (c ∷ wild) (some p) = try_places (go (c ∷ wild)) p

unfoldable pub range_case : (Bytes → Pointer → Match) → Bytes → Pointer → Match
unfolding range_rest
range_case go wild none = overread
range_case go wild (some p) =
    if is_digit (peek p)
    then (elim (range_rest wild (atoi p)) [
      | none ↦ unmatched
      | some rest ↦ go rest (some (skip_digits p))
    ])
    else unmatched

-- A class is compared with the path only if it has a byte; `[` and `]` alone read no path.
unfoldable pub class_case : Bool → (Bytes → Pointer → Match) → Bytes → Pointer → Match
unfolding scan_class
class_case sensitive go wild none = if peek wild == b']' then unmatched else overread
class_case sensitive go wild (some p) = elim (scan_class sensitive (peek p) wild) [
  | class_overread ↦ overread
  | class_unmatched ↦ unmatched
  | class_rest rest ↦ go rest (advance (some p))
]

unfoldable pub brace_case : Bool → (Bytes → Pointer → Match) → Bytes → Pointer → Match
unfolding after_brace alternatives try_alternatives
brace_case sensitive go wild p = elim (after_brace wild) [
  | none ↦ unmatched
  | some end ↦ try_alternatives sensitive (go end) p (alternatives wild)
]

-- The default case; the pattern is at its NUL, or at a byte that stands for itself.
unfoldable pub literal_case : Bool → (Bytes → Pointer → Match) → Bytes → Pointer → Match
unfolding fold
literal_case sensitive go wild none = overread
literal_case sensitive go [] (some p) =
    if fold sensitive 0 == fold sensitive (peek p) then matched else unmatched
literal_case sensitive go (c ∷ wild) (some p) =
    if fold sensitive c == fold sensitive (peek p) then go wild (advance (some p)) else unmatched

-- A round of the loop; `go` is the rest of it, and the recursive calls.
unfoldable pub round : Bool → (Bytes → Pointer → Match) → Bytes → Pointer → Match
unfolding star_case range_case class_case brace_case literal_case
round sensitive go [] p = literal_case sensitive go [] p
round sensitive go (c ∷ wild) p =
    if c == b'*'
    then star_case go wild p
    else (if c == b'<'
        then range_case go wild p
        else (if c == b'?'
            then go wild (advance p)
            else (if c == b'['
                then class_case sensitive go wild p
                else (if c == b'{'
                    then brace_case sensitive go wild p
                    else (if c == b'\\'
                        then literal_case sensitive go wild p
                        else literal_case sensitive go (c ∷ wild) p)))))

unfoldable pub rounds : ℕ → Bool → Bytes → Pointer → Match
unfolding round
rounds zero sensitive wild p = out_of_fuel
rounds (suc fuel) sensitive wild p = round sensitive (rounds fuel sensitive) wild p

-- Every round and every recursive call has a shorter pattern.
unfoldable pub wildcard : Bytes → Bytes → Bool → Match
unfolding rounds
wildcard wild p sensitive = rounds (suc (length wild)) sensitive wild (some p)
