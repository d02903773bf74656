-- ===== src/ArgcArgv/Words.antt =====
-- The words of a line: the stores stay in bounds, and encoded paths come back as the words.
use radmind.Base.{
  ℕ, suc, ◌+◌, ◌%◌, ◌<◌, ◌≡◌, refl, ◌≢◌, ◌⊎◌, inl, inr, Bool, true, false, List, [], ◌∷◌, ◌++◌,
  Bytes, IsCString, All, length, All-append, max_path_len, arith, ap, ap₂, lt→ltb, Bool-cases, some,
  until_nul, until_nul-append, append_assoc, map,
}
use radmind.Code.{value, escape_byte, escape, decode}
use radmind.Code.RoundTrip.{decode-escape}
use radmind.ArgcArgv.{
  State, white, word, Parsed, slashes, is_separator, keep, enter, grown, parse_from, acav_parse,
}

-- What acav_alloc() and every parse leave: room for one more pointer.
parse_from-some :
    (cap ac : ℕ) (before : Bytes) (st : State) (line : Bytes)
    → ac < cap
    → (r : Parsed) × (parse_from cap ac before st line ≡ some r)
      × (length r.argv + ac < r.acv_argc)
      × (length r.stored ≡ length line)
unfolding parse_from
parse_from-some cap ac before white [] h =
    (record { stored = []; argv = []; acv_argc = cap }, ground arith, omega arith, refl)
parse_from-some cap ac before word [] h =
    (record { stored = []; argv = []; acv_argc = cap }, ground arith, omega arith, refl)
parse_from-some cap ac before white (c ∷ line) h = elim (Bool-cases (is_separator before c)) [
  | inl sep ↦
      let (r, run, room, same) = parse_from-some cap ac (c ∷ before) white line h in
      (keep c r, rw (sep, run) refl, room, ap suc same)
  | inr no_sep ↦
      let (r, run, room, same) =
        parse_from-some (grown cap (ac + 1)) (ac + 1) (c ∷ before) word line (ground arith) in
      (enter c r, rw (no_sep, lt→ltb ac cap h, run) refl, omega arith, ap suc same)
]
parse_from-some cap ac before word (c ∷ line) h = elim (Bool-cases (is_separator before c)) [
  | inl sep ↦
      let (r, run, room, same) = parse_from-some cap ac (c ∷ before) white line h in
      (keep 0 r, rw (sep, run) refl, room, ap suc same)
  | inr no_sep ↦
      let (r, run, room, same) = parse_from-some cap ac (c ∷ before) word line h in
      (keep c r, rw (no_sep, run) refl, room, ap suc same)
]

over : Bytes → Bytes → Bytes
over [] before = before
over (c ∷ bs) before = over bs (c ∷ before)

abbrev keep_all : Bytes → Parsed → Parsed
keep_all bs r = record r { stored = bs ++ r.stored }

slashes-escape_byte :
    (before : Bytes) (c : ℕ) (sp : Bool)
    → slashes before % 2 ≡ 0
    → slashes (over (escape_byte c sp) before) % 2 ≡ 0
unfolding slashes escape_byte over
slashes-escape_byte before c true even = ground arith
slashes-escape_byte before c false even = ground arith

over-append : (bs cs before : Bytes) → over (bs ++ cs) before ≡ over cs (over bs before)
unfolding over
over-append [] cs before = refl
over-append (b ∷ bs) cs before = over-append bs cs (b ∷ before)

slashes-escape :
    (before s : Bytes) (sp : Bool)
    → slashes before % 2 ≡ 0
    → slashes (over (escape s sp) before) % 2 ≡ 0
unfolding escape
slashes-escape before [] sp even = unfold over in even
slashes-escape before (c ∷ s) sp even =
    rw (over-append (escape_byte c sp))
      (slashes-escape (over (escape_byte c sp) before) s sp (slashes-escape_byte before c sp even))

module _ (cap ac : ℕ) where
  parse_from-escape_byte :
      (before : Bytes) (c : ℕ) (sp : Bool) (rest : Bytes) (r : Parsed)
      → slashes before % 2 ≡ 0
      → parse_from cap ac (over (escape_byte c sp) before) word rest ≡ some r
      → parse_from cap ac before word (escape_byte c sp ++ rest)
        ≡ some (keep_all (escape_byte c sp) r)
  unfolding parse_from escape_byte over
  parse_from-escape_byte before c true rest r even run = ground arith
  parse_from-escape_byte before c false rest r even run = ground arith

  parse_from-escape :
      (before s : Bytes) (sp : Bool) (rest : Bytes) (r : Parsed)
      → slashes before % 2 ≡ 0
      → parse_from cap ac (over (escape s sp) before) word rest ≡ some r
      → parse_from cap ac before word (escape s sp ++ rest) ≡ some (keep_all (escape s sp) r)
  unfolding escape
  parse_from-escape before [] sp rest r even run = unfold over in run
  parse_from-escape before (c ∷ s) sp rest r even run =
      let b = escape_byte c sp in
      let onward =
        parse_from-escape (over b before) s sp rest r (slashes-escape_byte before c sp even)
          (rw (over-append b) at run) in
      rw (append_assoc b (escape s sp) rest, append_assoc b (escape s sp) r.stored)
        (parse_from-escape_byte before c sp (escape s sp ++ rest) _ even onward)

abbrev pub IsBlank : ℕ → Type 0
IsBlank c = (c ≡ b' ') ⊎ (c ≡ b'\t') ⊎ (c ≡ b'\n')

slashes_blank : (before : Bytes) (c : ℕ) → IsBlank c → slashes (c ∷ before) ≡ 0
unfolding slashes
slashes_blank before c blank = ground arith

-- A blank behind an even number of backslashes cuts a word, and is skipped between words.
parse_from-blank :
    (cap ac : ℕ) (before : Bytes) (c : ℕ) (rest : Bytes) (r : Parsed)
    → IsBlank c
    → slashes before % 2 ≡ 0
    → parse_from cap ac (c ∷ before) white rest ≡ some r
    → parse_from cap ac before word (c ∷ rest) ≡ some (keep 0 r)
unfolding parse_from
parse_from-blank cap ac before c rest r blank even run = ground arith

escape_byte-IsCString : (c : ℕ) (sp : Bool) → 0 < c → IsCString (escape_byte c sp)
unfolding escape_byte
escape_byte-IsCString c true h = ground arith
escape_byte-IsCString c false h = ground arith

escape-IsCString : (s : Bytes) (sp : Bool) → IsCString s → IsCString (escape s sp)
unfolding escape
escape-IsCString [] sp h = tt
escape-IsCString (c ∷ s) sp h =
    All-append (λ c. 0 < c) (escape_byte c sp) (escape s sp) (escape_byte-IsCString c sp h.0)
      (escape-IsCString s sp h.1)

abbrev word_entered : Bytes → Parsed → Parsed
word_entered w r = record { stored = w ++ 0 ∷ r.stored; argv = w ∷ r.argv; acv_argc = r.acv_argc }

-- The first byte of an escaped path begins a word.
parse_from-begin :
    (cap ac : ℕ) (before : Bytes) (c : ℕ) (sp : Bool) (rest : Bytes) (r : Parsed)
    → ac < cap
    → slashes before ≡ 0
    → parse_from (grown cap (ac + 1)) (ac + 1) (over (escape_byte c sp) before) word rest ≡ some r
    → parse_from cap ac before white (escape_byte c sp ++ rest)
      ≡ some (record (keep_all (escape_byte c sp) r) {
        argv = until_nul (escape_byte c sp ++ r.stored) ∷ r.argv;
      })
unfolding parse_from escape_byte over
parse_from-begin cap ac before c true rest r room none_before run = ground arith
parse_from-begin cap ac before c false rest r room none_before run = ground arith

parse_from-path :
    (cap ac : ℕ) (before : Bytes) (c : ℕ) (s : Bytes) (sp : Bool) (sep : ℕ) (rest : Bytes)
    (r : Parsed)
    → ac < cap
    → slashes before ≡ 0
    → IsCString (c ∷ s)
    → IsBlank sep
    → parse_from (grown cap (ac + 1)) (ac + 1) (sep ∷ over (escape (c ∷ s) sp) before) white rest
      ≡ some r
    → parse_from cap ac before white (escape (c ∷ s) sp ++ sep ∷ rest)
      ≡ some (word_entered (escape (c ∷ s) sp) r)
unfolding escape
parse_from-path cap ac before c s sp sep rest r room none_before hc blank run =
    let b = escape_byte c sp in
    let e = escape s sp in
    let even = slashes-escape_byte before c sp (omega arith) in
    let cut =
      parse_from-blank (grown cap (ac + 1)) (ac + 1) (over (b ++ e) before) sep rest r blank
        (slashes-escape before (c ∷ s) sp (omega arith)) run in
    let onward =
      parse_from-escape (grown cap (ac + 1)) (ac + 1) (over b before) s sp (sep ∷ rest) (keep 0 r)
        even (rw (over-append b) at cut) in
    let begun = parse_from-begin cap ac before c sp (e ++ sep ∷ rest) _ room none_before onward in
    let string = until_nul-append (b ++ e) r.stored (escape-IsCString (c ∷ s) sp hc) in
    rw (append_assoc b e (sep ∷ rest), begun, ← append_assoc b e (0 ∷ r.stored), string)

-- A line that holds the escaped paths, each with the blank that ends it.
abbrev pub line_of : Bool → List (Bytes × ℕ) → Bytes
line_of sp [] = []
line_of sp ((p, sep) ∷ fs) = escape p sp ++ sep ∷ line_of sp fs

abbrev pub IsField : Bytes × ℕ → Type 0
IsField f = IsCString f.0 × (f.0 ≢ []) × IsBlank f.1

parse_from-line_of :
    (cap ac : ℕ) (before : Bytes) (sp : Bool) (fs : List (Bytes × ℕ))
    → ac < cap
    → slashes before ≡ 0
    → All IsField fs
    → (r : Parsed) × (parse_from cap ac before white (line_of sp fs) ≡ some r)
      × (r.argv ≡ map (λ f. escape f.0 sp) fs)
parse_from-line_of cap ac before sp [] room none_before h =
    (record { stored = []; argv = []; acv_argc = cap }, unfold parse_from in ground arith, refl)
parse_from-line_of cap ac before sp (([], sep) ∷ fs) room none_before h = absurd (h.0.1 refl)
parse_from-line_of cap ac before sp ((c ∷ s, sep) ∷ fs) room none_before h =
    let e = escape (c ∷ s) sp in
    let (r, run, same) =
      parse_from-line_of (grown cap (ac + 1)) (ac + 1) (sep ∷ over e before) sp fs (ground arith)
        (slashes_blank (over e before) sep h.0.2) h.1 in
    (
      word_entered e r,
      parse_from-path cap ac before c s sp sep (line_of sp fs) r room none_before h.0.0 h.0.2 run,
      ap (λ ws. e ∷ ws) same,
    )

-- With a vector that has room for one pointer, as acav_alloc() makes it, a parse stores nothing
-- outside the vector, leaves room for the NULL behind the words, and keeps the length of the line.
pub acav_parse-some :
    (acv_argc : ℕ) (line : Bytes)
    → 0 < acv_argc
    → (r : Parsed) × (acav_parse acv_argc line ≡ some r)
      × (length r.argv < r.acv_argc)
      × (length r.stored ≡ length line)
unfolding acav_parse
acav_parse-some acv_argc line h =
    let (r, run, room, same) = parse_from-some acv_argc 0 [] white line h in
    (r, run, omega arith, same)

short_fields :
    (old : ℕ → ℕ) (sp : Bool) (fs : List (Bytes × ℕ))
    → All IsField fs
    → All (λ f. length f.0 < max_path_len) fs
    → map (decode old) (map (λ f. escape f.0 sp) fs) ≡ map (λ f. value f.0) fs
short_fields old sp [] h k = refl
short_fields old sp ((p, sep) ∷ fs) h k =
    ap₂ ◌∷◌ (decode-escape old p sp h.0.0 k.0) (short_fields old sp fs h.1 k.1)

-- A line of non-empty paths shorter than MAXPATHLEN, each encoded and followed by a blank, a tab or a
-- newline, is cut into the encoded paths, and decode() gives back the paths.
pub acav_parse-encode :
    (old : ℕ → ℕ) (acv_argc : ℕ) (sp : Bool) (fs : List (Bytes × ℕ))
    → 0 < acv_argc
    → All IsField fs
    → All (λ f. length f.0 < max_path_len) fs
    → (r : Parsed) × (acav_parse acv_argc (line_of sp fs) ≡ some r)
      × (r.argv ≡ map (λ f. escape f.0 sp) fs)
      × (map (decode old) r.argv ≡ map (λ f. value f.0) fs)
unfolding acav_parse
acav_parse-encode old acv_argc sp fs h k short =
    let (r, run, same) = parse_from-line_of acv_argc 0 [] sp fs h (unfold slashes in refl) k in
    (r, run, same, rw same (short_fields old sp fs k short))
