-- ===== src/Transcript/Parse/Returns.antt =====
-- transcript_parse() ends, and moves its transcript on.
use radmind.Base.{
  ℕ, zero, suc, ◌+◌, ◌≤◌, ◌<◌, ◌≡◌, ◌≢◌, ◌⊎◌, ◌∙◌, refl, true, List, [], ◌∷◌, Option, none, some,
  Bytes, length, max_path_len, sign, Ordering, arith, Option-cases, inl, inr,
}
use radmind.CLibrary.{take_line, fgets, ends_line}
use radmind.PathCmp.{pathcasecmp}
use radmind.Transcript.{Tran, out_of_fuel, line_too_long, ok, stop, ◌>>=◌, Settings}
use radmind.Transcript.Parse.{argcargv, is_skipped, next_words, parse_entry, transcript_parse}
use radmind.Transcript.Runs.{Returns, Ends, Any, bind-Ends, Returns-Ends, ok-Ends, if-Ends}
use radmind.Transcript.Parse.Entry.{expect-Ends, IsBehind, parse_entry-Ends}

length-take_line : (n : ℕ) (c : ℕ) (s : Bytes) → length (take_line (suc n) (c ∷ s)).1 ≤ length s
unfolding take_line
length-take_line zero c s = ground arith
length-take_line (suc n) c [] = ground arith
length-take_line (suc n) c (d ∷ s) = ground (arith, length-take_line n d s)

length-fgets :
    (s line rest : Bytes) → fgets max_path_len s ≡ some (line, rest) → length rest < length s
unfolding fgets
length-fgets [] line rest h = absurd (ground arith)
length-fgets (c ∷ s) line rest h = ground (arith, length-take_line 4094 c s)

-- What the reading of a line does to a transcript.
abbrev pub MovedOn : Tran → Tran → Type 0
MovedOn t t' =
    (t'.t_eof ≡ true) × (length t'.t_in ≤ length t.t_in)
    ⊎ (t'.t_eof ≡ t.t_eof) × (length t'.t_in < length t.t_in)

line_read :
    (t t1 t2 : Tran)
    → (t1.t_eof ≡ t.t_eof)
    → length t1.t_in < length t.t_in
    → MovedOn t1 t2
    → MovedOn t t2
line_read t t1 t2 h lt (inl (eof, le)) = inl (eof, omega arith)
line_read t t1 t2 h lt (inr (same, lt')) = inr (cc, omega arith)

argcargv-Returns : (line : Bytes) → Returns (argcargv line)
unfolding argcargv
argcargv-Returns line = ground arith

After : Tran → Option (List Bytes) × Tran → Type 0
After t (none, t') = MovedOn t t' × (t'.t_pinfo ≡ t.t_pinfo) × (t'.t_eof ≡ true)
After t (some argv, t') = MovedOn t t'

line_read_first :
    (t t1 : Tran) (r : Option (List Bytes) × Tran)
    → t1.t_pinfo ≡ t.t_pinfo
    → t1.t_eof ≡ t.t_eof
    → length t1.t_in < length t.t_in
    → After t1 r
    → After t r
unfolding After
line_read_first t t1 (none, t2) same h lt (moved, info, eof) =
    (line_read t t1 t2 h lt moved, info ∙ same, eof)
line_read_first t t1 (some argv, t2) same h lt moved = line_read t t1 t2 h lt moved

next_words-Ends : (fuel : ℕ) (t : Tran) → length t.t_in < fuel → Ends (After t) (next_words fuel t)
unfolding next_words After
next_words-Ends zero t lt = absurd (omega arith)
next_words-Ends (suc fuel) t lt = elim (Option-cases (fgets max_path_len t.t_in)) [
  | inl at_end ↦
      rw (at_end, next_words)
        (ok-Ends (After t) (none, record t { t_eof = true }) (inl (refl, omega arith), refl, refl))
  | inr ((line, rest), e) ↦
      let lt' = length-fgets t.t_in line rest e in
      let t' : Tran = record t { t_linenum = t.t_linenum + 1; t_in = rest } in
      let (returns, later) = next_words-Ends fuel t' (omega arith) in
      rw (e, next_words)
        (expect-Ends (ends_line line) line_too_long (After t) _ (ground arith) (
          bind-Ends Any (After t) (argcargv line) _
            (Returns-Ends (argcargv line) (argcargv-Returns line))
            (λ argv u.
              if-Ends (After t) (is_skipped argv) _ _
                (returns, λ r er. line_read_first t t' r refl refl lt' (later r er))
                (ok-Ends (After t) (some argv, t') (inr (refl, lt'))))))
]

-- What transcript_parse() does to a transcript.
abbrev pub Advanced : Settings → Tran → Tran → Type 0
Advanced g t t' =
    MovedOn t t'
    × ((t'.t_pinfo ≡ t.t_pinfo) × (t'.t_eof ≡ true)
        ⊎ IsBehind g t.t_pinfo.pi_name t'.t_pinfo.pi_name)

transcript_parse-Advanced : (g : Settings) (t : Tran) → Ends (Advanced g t) (transcript_parse g t)
unfolding transcript_parse After
transcript_parse-Advanced g t =
    bind-Ends (After t) (Advanced g t) _ _ (next_words-Ends (suc (length t.t_in)) t (omega arith))
      (λ r h. parsed r h)
  where
    parsed :
        (r : Option (List Bytes) × Tran)
        → After t r
        → Ends (Advanced g t) (elim r.0 [
          | none ↦ ok r.1
          | some argv ↦
              parse_entry g t.t_type t.t_pinfo argv >>= λ pi. ok (record (r.1) { t_pinfo = pi })
        ])
    parsed (none, t') h = ok-Ends (Advanced g t) t' (h.0, inl (h.1, h.2))
    parsed (some argv, t') h =
        bind-Ends (λ pi. IsBehind g t.t_pinfo.pi_name pi.pi_name) (Advanced g t) _ _
          (parse_entry-Ends g t.t_type t.t_pinfo argv)
          (λ pi behind. ok-Ends (Advanced g t) (record t' { t_pinfo = pi }) (h, inr behind))

pub transcript_parse-MovedOn : (g : Settings) (t : Tran) → Ends (MovedOn t) (transcript_parse g t)
transcript_parse-MovedOn g t =
    let (returns, advanced) = transcript_parse-Advanced g t in (returns, λ t' e. (advanced t' e).0)

-- transcript_parse() returns or ends the process, for every transcript: a round for each byte that is
-- left of the file is enough.
pub transcript_parse-ne-out_of_fuel :
    (g : Settings) (t : Tran) → transcript_parse g t ≢ stop out_of_fuel
transcript_parse-ne-out_of_fuel g t = (transcript_parse-Advanced g t).0

-- Where transcript_parse() returns, either the transcript is at its end with its entry unchanged, or
-- the path of its entry is after the path that it had before.
pub transcript_parse-sorted :
    (g : Settings) (t t' : Tran)
    → transcript_parse g t ≡ ok t'
    → (t'.t_pinfo ≡ t.t_pinfo) × (t'.t_eof ≡ true)
      ⊎ (sign (pathcasecmp t'.t_pinfo.pi_name t.t_pinfo.pi_name g.case_sensitive) ≡ Ordering.gt)
transcript_parse-sorted g t t' h = ((transcript_parse-Advanced g t).1 t' h).1
