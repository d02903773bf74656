-- ===== src/Server/Tested.antt =====
-- What keyword() has tested of the names of a request, as they were sent.
use radmind.Base.{
  ◌≡◌, refl, Bool, true, false, ◌||◌, ◌&&◌, drop, List, Option, none, some, Bytes, length, codes,
  ltb, ◌==◌, ◌+◌, max_path_len, Bool-cases, inl, inr, if◌then◌else◌, arith,
}
use radmind.CLibrary.Strings.{begins, holds, same_word}
use radmind.Server.Keyword.{
  Key, command, transcript, special, file, word, command_key, special_key, transcript_key, file_key,
  no_parent, keyword,
}

-- The tests of the third word of a request for a file.
abbrev pub HasPlainRest : List Bytes → Type 0
HasPlainRest av =
    (begins (word av 3) (codes "../") ≡ false) × (holds (word av 3) (codes "/../") ≡ false)

abbrev pub HasPlainName : List Bytes → Type 0
HasPlainName av = holds (word av 2) (codes "../") ≡ false

abbrev pub Tested : List Bytes → Option Key → Type 0
Tested av none = Unit
Tested av (some command) = Unit
Tested av (some transcript) = HasPlainName av
Tested av (some special) = HasPlainName av
Tested av (some file) = HasPlainName av × HasPlainRest av

-- Before the last test.
abbrev Begun : List Bytes → Option Key → Type 0
Begun av none = Unit
Begun av (some command) = ⊥
Begun av (some transcript) = Unit
Begun av (some special) = Unit
Begun av (some file) = HasPlainRest av

no_parent-Tested : (av : List Bytes) (k : Option Key) → Begun av k → Tested av (no_parent av k)
unfolding no_parent
no_parent-Tested av none h = tt
no_parent-Tested av (some command) h = absurd h
no_parent-Tested av (some transcript) h = elim (Bool-cases (holds (word av 2) (codes "../"))) [
  | inl b ↦ rw b tt
  | inr b ↦ rw b b
]
no_parent-Tested av (some special) h = elim (Bool-cases (holds (word av 2) (codes "../"))) [
  | inl b ↦ rw b tt
  | inr b ↦ rw b b
]
no_parent-Tested av (some file) h = elim (Bool-cases (holds (word av 2) (codes "../"))) [
  | inl b ↦ rw b tt
  | inr b ↦ rw b (b, h)
]

module _ (P : Option Key → Type 0) where
  branch : (b : Bool) (x y : Option Key) → P x → (b ≡ false → P y) → P (if b then x else y)
  branch true x y hx hy = hx
  branch false x y hx hy = hy refl

  guarded : (b : Bool) (x : Option Key) → P none → P x → P (if b then x else none)
  guarded true x hn hx = hx
  guarded false x hn hx = hn

special_key-Begun : (remote_host : Bytes) (av : List Bytes) → Begun av (special_key remote_host av)
unfolding special_key
special_key-Begun remote_host av =
    let long =
      ltb max_path_len (length (word av 1) + length (word av 2) + length remote_host + 5) in
    guarded (Begun av) (length av == 3) (if long then none else some special) tt
      (branch (Begun av) long none (some special) tt (λ b. tt))

transcript_key-Begun : (av : List Bytes) → Begun av (transcript_key av)
unfolding transcript_key
transcript_key-Begun av =
    let long = ltb max_path_len (length (word av 1) + length (word av 2) + 5) in
    guarded (Begun av) (length av == 3) (if long then none else some transcript) tt
      (branch (Begun av) long none (some transcript) tt (λ b. tt))

or_parts : (a b : Bool) → (a || b) ≡ false → (a ≡ false) × (b ≡ false)
or_parts a b h = (ground arith, ground arith)

file_key-Begun : (av : List Bytes) → Begun av (file_key av)
unfolding file_key
file_key-Begun av =
    let up = begins (word av 3) (codes "../") in
    let inside = holds (word av 3) (codes "/../") in
    let long =
      ltb max_path_len (length (word av 1) + length (word av 2) + length (word av 3) + 5) in
    let sized = if long then none else some file in
    guarded (Begun av) (length av == 4) (if up || inside then none else sized) tt (
      branch (Begun av) (up || inside) none sized tt
        (λ b. branch (Begun av) long none (some file) tt (λ c. or_parts up inside b)))

command_key-Tested :
    (command_file : Bytes) (av : List Bytes) → Tested av (command_key command_file av)
unfolding command_key
command_key-Tested command_file av =
    let long = (length av == 2) && ltb max_path_len (length (drop 5 command_file)) in
    branch (Tested av) (ltb 3 (length av)) none (if long then none else some command) tt
      (λ b. branch (Tested av) long none (some command) tt (λ c. tt))

-- The kinds by the second word, each with its tests.
pub keyword-Tested :
    (remote_host command_file : Bytes) (av : List Bytes)
    → Tested av (keyword remote_host command_file av)
unfolding keyword
keyword-Tested remote_host command_file av =
    let is = λ (name : Bytes). same_word (word av 1) name in
    let of_file = if is (codes "FILE") then no_parent av (file_key av) else none in
    let of_transcript =
      if is (codes "TRANSCRIPT") then no_parent av (transcript_key av) else of_file in
    let of_special =
      if is (codes "SPECIAL") then no_parent av (special_key remote_host av) else of_transcript in
    let of_command = if is (codes "COMMAND") then command_key command_file av else of_special in
    branch (Tested av) (ltb (length av) 2) none of_command tt (λ b.
      branch (Tested av) (is (codes "COMMAND")) _ of_special (command_key-Tested command_file av)
        (λ b.
          branch (Tested av) (is (codes "SPECIAL")) _ of_transcript
            (no_parent-Tested av (special_key remote_host av) (special_key-Begun remote_host av))
            (λ b.
              branch (Tested av) (is (codes "TRANSCRIPT")) _ of_file
                (no_parent-Tested av (transcript_key av) (transcript_key-Begun av))
                (λ b.
                  guarded (Tested av) (is (codes "FILE")) _ tt
                    (no_parent-Tested av (file_key av) (file_key-Begun av))))))
