-- ===== src/Wildcard/Literal.antt =====
-- Patterns of literal bytes, and what '*', '?' and '[...]' add to them.
use radmind.Base.{
  ℕ, zero, suc, ◌+◌, ◌≤◌, ◌<◌, ◌≡◌, ◌≢◌, ◌↔◌, refl, Bool, true, false, [], ◌∷◌, ◌++◌, some, Bytes,
  IsCString, All, length, length-append, tail, arith, ◌==◌, if◌then◌else◌, append-nil, ◌∙◌,
}
use radmind.PathCmp.{fold, prefix_eq}
use radmind.Wildcard.{
  Match, matched, unmatched, overread, Pointer, after_bracket, class_unmatched, class_rest,
  scan_class, star_case, class_case, literal_case, round, rounds, wildcard,
}

-- Bytes that stand for themselves in a pattern.
abbrev pub IsPlain : ℕ → Type 0
IsPlain c = (0 < c) × (c ≢ b'*') × (c ≢ b'<') × (c ≢ b'?') × (c ≢ b'[') × (c ≢ b'{') × (c ≢ b'\\')

round_plain :
    (s : Bool) (go : Bytes → Pointer → Match) (c : ℕ) (wild : Bytes) (p : Pointer)
    → IsPlain c
    → round s go (c ∷ wild) p ≡ literal_case s go (c ∷ wild) p
unfolding round
round_plain s go c wild p h = ground arith

fold-ne-zero : (s : Bool) (c : ℕ) → 0 < c → fold s c ≢ fold s 0
unfolding fold
fold-ne-zero true c h = ground arith
fold-ne-zero false c h = ground arith

-- A run of plain bytes in front of a pattern is compared with the path, byte for byte.
pub drop_prefix : Bytes → Bytes → Bytes
drop_prefix [] p = p
drop_prefix (c ∷ d) p = drop_prefix d (tail p)

rounds_plain :
    (fuel : ℕ) (s : Bool) (d wild p : Bytes)
    → length d ≤ fuel
    → All IsPlain d
    → (n : ℕ) × (n + length d ≡ fuel)
      × (rounds fuel s (d ++ wild) (some p)
          ≡ (if prefix_eq d p s then rounds n s wild (some (drop_prefix d p)) else unmatched))
unfolding rounds prefix_eq drop_prefix
rounds_plain fuel s [] wild p le h = (fuel, omega arith, refl)
rounds_plain zero s (c ∷ d) wild p le h = absurd (omega arith)
rounds_plain (suc fuel) s (c ∷ d) wild [] le h =
    let (n, e, run) = rounds_plain fuel s d wild [] (omega arith) h.1 in
    (
      n,
      omega arith,
      rw (round_plain s (rounds fuel s) c (d ++ wild) (some []) h.0)
          (unfold literal_case in ground (arith, fold-ne-zero s c h.0.0)),
    )
rounds_plain (suc fuel) s (c ∷ d) wild (x ∷ p) le h =
    let (n, e, run) = rounds_plain fuel s d wild p (omega arith) h.1 in
    (
      n,
      omega arith,
      rw (round_plain s (rounds fuel s) c (d ++ wild) (some (x ∷ p)) h.0)
          (unfold literal_case in ground arith),
    )

-- Two rounds are left for the pattern's end.
wildcard_plain :
    (d : Bytes) (c : ℕ) (p : Bytes) (s : Bool)
    → All IsPlain d
    → wildcard (d ++ c ∷ []) p s
      ≡ (if prefix_eq d p s then rounds 2 s (c ∷ []) (some (drop_prefix d p)) else unmatched)
unfolding wildcard
wildcard_plain d c p s h =
    let whole = d ++ c ∷ [] in
    let (n, e, run) =
      rounds_plain (suc (length whole)) s d (c ∷ []) p (omega (arith, length-append d (c ∷ [])))
        h in
    let two : n ≡ 2 = omega (arith, length-append d (c ∷ [])) in run ∙ rw two

-- A literal name with a '*' behind it matches exactly the paths that begin with that name, in the
-- case mode; any other path is not matched.
pub wildcard_star :
    (d p : Bytes) (s : Bool)
    → All IsPlain d
    → wildcard (d ++ b'*' ∷ []) p s ≡ (if prefix_eq d p s then matched else unmatched)
unfolding rounds round star_case
wildcard_star d p s h = wildcard_plain d b'*' p s h

prefix_eq_self : (d : Bytes) (s : Bool) → prefix_eq d d s ≡ true
unfolding prefix_eq
prefix_eq_self [] s = refl
prefix_eq_self (c ∷ d) s = ground (arith, prefix_eq_self d s)

drop_prefix_self : (d : Bytes) → drop_prefix d d ≡ []
unfolding drop_prefix
drop_prefix_self [] = refl
drop_prefix_self (c ∷ d) = drop_prefix_self d

-- A literal name with a '?' behind it, against that very name, sends the match past the NUL of the
-- path, and its last round reads there.
pub wildcard_question :
    (d : Bytes) (s : Bool) → All IsPlain d → wildcard (d ++ b'?' ∷ []) d s ≡ overread
unfolding rounds round literal_case
wildcard_question d s h =
    wildcard_plain d b'?' d s h ∙ rw (prefix_eq_self d s, drop_prefix_self d) refl

literal_end :
    (n : ℕ) (s : Bool) (q : Bytes)
    → IsCString q
    → (rounds (suc n) s [] (some q) ≡ matched) ↔ (q ≡ [])
unfolding rounds round literal_case
literal_end n s [] h = (λ e. refl, λ e. ground arith)
literal_end n s (x ∷ q) h = (λ e. ground (arith, fold-ne-zero s x h.0), λ e. cc)

drop_prefix-IsCString : (d p : Bytes) → IsCString p → IsCString (drop_prefix d p)
unfolding drop_prefix
drop_prefix-IsCString [] p h = h
drop_prefix-IsCString (c ∷ d) [] h = drop_prefix-IsCString d [] h
drop_prefix-IsCString (c ∷ d) (x ∷ p) h = drop_prefix-IsCString d p h.1

prefix_drop_iff :
    (d p : Bytes) → All IsPlain d → (prefix_eq d p true ≡ true) × (drop_prefix d p ≡ []) ↔ (d ≡ p)
unfolding prefix_eq drop_prefix fold
prefix_drop_iff [] [] h = (λ e. refl, λ e. (refl, refl))
prefix_drop_iff [] (x ∷ p) h = (λ e. cc (e.1), λ e. cc)
prefix_drop_iff (c ∷ d) [] h = (λ e. ground (arith, h.0.0), λ e. cc)
prefix_drop_iff (c ∷ d) (x ∷ p) h = (
  λ e. ground (arith, (prefix_drop_iff d p h.1).0),
  λ e. ground (arith, (prefix_drop_iff d p h.1).1),
)

wildcard_literal :
    (d p : Bytes)
    → All IsPlain d
    → wildcard d p true
      ≡ (if prefix_eq d p true then rounds 1 true [] (some (drop_prefix d p)) else unmatched)
unfolding wildcard
wildcard_literal d p h =
    let (n, e, run) = rounds_plain (suc (length d)) true d [] p (omega arith) h in
    let one : n ≡ 1 = omega arith in rw (append-nil d, one) at run

-- A pattern of literal bytes alone matches that path and no other.
pub wildcard_literal_iff :
    (d p : Bytes) → All IsPlain d → IsCString p → (wildcard d p true ≡ matched) ↔ (d ≡ p)
wildcard_literal_iff d p h hp =
    let at_end = literal_end 0 true (drop_prefix d p) (drop_prefix-IsCString d p hp) in
    rw (wildcard_literal d p h) (
      λ e. (prefix_drop_iff d p h).0 (ground (arith, at_end.0)),
      λ e. ground (arith, (prefix_drop_iff d p h).1 e, at_end.1),
    )

-- Every byte of a class is the given one.
pub same_all : Bool → Bytes → ℕ → Bool
same_all s [] x = true
same_all s (c ∷ cs) x = if fold s c == fold s x then same_all s cs x else false

after_bracket_lem :
    (cs rest : Bytes) → All (λ c. c ≢ b']') cs → after_bracket (cs ++ b']' ∷ rest) ≡ some rest
unfolding after_bracket
after_bracket_lem [] rest h = refl
after_bracket_lem (c ∷ cs) rest h = ground (arith, after_bracket_lem cs rest h.1)

scan_class_same :
    (s : Bool) (x : ℕ) (cs rest : Bytes)
    → All (λ c. c ≢ b']') cs
    → scan_class s x (cs ++ b']' ∷ rest)
      ≡ (if same_all s cs x then class_unmatched else class_rest rest)
unfolding scan_class same_all
scan_class_same s x [] rest h = ground arith
scan_class_same s x (c ∷ cs) rest h =
    ground (arith, scan_class_same s x cs rest h.1, after_bracket_lem cs rest h.1)

pub class_pattern : Bytes → Bytes
class_pattern cs = b'[' ∷ (cs ++ b']' ∷ [])

-- A bracketed class, against a path of one byte, matches exactly when some byte of the class differs
-- from it in the case mode, and so not when the class has that byte alone.
pub wildcard_class :
    (cs : Bytes) (x : ℕ) (s : Bool)
    → All (λ c. c ≢ b']') cs
    → 0 < x
    → wildcard (class_pattern cs) (x ∷ []) s ≡ (if same_all s cs x then unmatched else matched)
unfolding wildcard rounds round class_case class_pattern
wildcard_class cs x s h hx =
    ground (
      arith,
      scan_class_same s x cs [] h,
      length-append cs (b']' ∷ []),
      literal_end (length cs) s [],
    )
