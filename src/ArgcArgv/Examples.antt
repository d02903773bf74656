-- ===== src/ArgcArgv/Examples.antt =====
-- Runs of the word splitter, and its theorems at concrete lines.
use radmind.Base.{
  ℕ, ◌≡◌, refl, ◌<◌, true, List, [], ◌∷◌, Bytes, codes, length, arith, inl, inr, some, map, ◌++◌,
}
use radmind.Code.{value, escape, decode}
use radmind.ArgcArgv.{Parsed, acav_parse}
use radmind.ArgcArgv.Words.{line_of, acav_parse-some, acav_parse-encode}

-- The blank behind one backslash belongs to its word, that behind two does not.
parse_blanks :
    acav_parse 10 (codes " f a\\ b\\\\ c\n")
    ≡ some (record {
      stored = codes " f" ++ 0 ∷ codes "a\\ b\\\\" ++ 0 ∷ codes "c" ++ 0 ∷ [];
      argv = codes "f" ∷ codes "a\\ b\\\\" ∷ codes "c" ∷ [];
      acv_argc = 10;
    })
unfolding acav_parse
parse_blanks = refl

acav_parse-some_example :
    (r : Parsed) × (acav_parse 1 (codes "a b c") ≡ some r)
    × (length r.argv < r.acv_argc)
    × (length r.stored ≡ length (codes "a b c"))
acav_parse-some_example = acav_parse-some 1 (codes "a b c") (omega arith)

abbrev two_fields : List (Bytes × ℕ)
two_fields = (codes "./a b", b'\t') ∷ (codes "x\\", b'\n') ∷ []

acav_parse-encode_example :
    (r : Parsed) × (acav_parse 10 (line_of true two_fields) ≡ some r)
    × (r.argv ≡ map (λ f. escape f.0 true) two_fields)
    × (map (decode (λ i. 0)) r.argv ≡ map (λ f. value f.0) two_fields)
acav_parse-encode_example =
    acav_parse-encode (λ i. 0) 10 true two_fields (omega arith)
      ((omega arith, cc, inr (inl refl)), ((omega arith, cc, inr (inr refl)), tt)) (omega arith)
