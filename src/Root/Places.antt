-- ===== src/Root/Places.antt =====
-- Where get_root() looks for the files of a transcript in the radmind directory.
use radmind.Base.{
  ◌≡◌, refl, ◌≢◌, true, false, [], ◌∷◌, ◌++◌, append_assoc, Option, none, some, Bytes, length,
  length-append, drop, codes, max_path_len, arith, ◌+◌, ◌<◌, All, ap, sym, ◌∙◌,
}
use radmind.CLibrary.Strings.{fitting, begins, holds}
use radmind.Root.{
  located, cut_last, both, below, in_transcript, in_tmp, by_place, of_real, get_root,
}

-- A name in a directory.
abbrev pub IsName : Bytes → Type 0
IsName = All (λ c. c ≢ b'/')

cut_last-none : (name : Bytes) → IsName name → cut_last name ≡ none
unfolding cut_last
cut_last-none [] h = refl
cut_last-none (c ∷ name) h = rw (cut_last-none name h.1) (ground (arith, h.0))

cut_last-append :
    (dir name : Bytes) → IsName name → cut_last (dir ++ b'/' ∷ name) ≡ some (dir, name)
unfolding cut_last
cut_last-append [] name h = rw (cut_last-none name h) refl
cut_last-append (c ∷ dir) name h = rw (cut_last-append dir name h) refl

begins-append : (s rest : Bytes) → begins (s ++ rest) s ≡ true
unfolding begins
begins-append [] rest = refl
begins-append (c ∷ s) rest = ground (arith, begins-append s rest)

holds-append : (s rest : Bytes) → holds (s ++ rest) s ≡ true
unfolding holds
holds-append [] [] = begins-append [] []
holds-append [] (c ∷ rest) = rw (begins-append [] (c ∷ rest)) refl
holds-append (c ∷ s) rest = rw (begins-append (c ∷ s) rest) refl

drop-append : (s rest : Bytes) → drop (length s) (s ++ rest) ≡ rest
drop-append [] rest = refl
drop-append (c ∷ s) rest = drop-append s rest

fitting_short : (s : Bytes) → length s < max_path_len → fitting s ≡ some s
unfolding fitting
fitting_short s h = ground (arith, h)

by_place-cut :
    (radmind dir name : Bytes)
    → 0 < length dir
    → length name < max_path_len
    → by_place radmind (some (dir, name))
      ≡ in_tmp radmind dir name (fitting (radmind ++ codes "/tmp/transcript"))
unfolding by_place
by_place-cut radmind [] name h k = absurd (omega (arith, h))
by_place-cut radmind (c ∷ dir) name h k = ground (arith, k)

module _ (radmind sub name : Bytes) (short : length radmind + length sub + 20 < max_path_len) where
  abbrev above : Bytes
  above = radmind ++ codes "/transcript"

  below-transcript :
      below radmind (codes "/file") (codes "/transcript") above (above ++ sub) name
      ≡ located (record {
        file_root = radmind ++ (codes "/file" ++ sub);
        tran_root = radmind ++ (codes "/transcript" ++ sub);
        tran_name = name;
      })
  unfolding below both
  below-transcript =
      rw
        (
          drop-append above sub,
          fitting_short (radmind ++ (codes "/file" ++ sub)) (
              omega (
                arith,
                short,
                length-append radmind (codes "/file" ++ sub),
                length-append (codes "/file") sub,
              )),
          fitting_short (radmind ++ (codes "/transcript" ++ sub)) (
              omega (
                arith,
                short,
                length-append radmind (codes "/transcript" ++ sub),
                length-append (codes "/transcript") sub,
              )),
        )
        refl

  in_transcript-below :
      in_transcript radmind (above ++ sub) name (some above)
      ≡ below radmind (codes "/file") (codes "/transcript") above (above ++ sub) name
  unfolding in_transcript
  in_transcript-below = rw (holds-append above sub) refl

  in_tmp-transcript :
      holds (above ++ sub) (radmind ++ codes "/tmp/transcript") ≡ false
      → in_tmp radmind (above ++ sub) name (fitting (radmind ++ codes "/tmp/transcript"))
        ≡ below radmind (codes "/file") (codes "/transcript") above (above ++ sub) name
  unfolding in_tmp
  in_tmp-transcript h =
      rw
        (
          fitting_short (radmind ++ codes "/tmp/transcript")
              (omega (arith, short, length-append radmind (codes "/tmp/transcript"))),
          h,
          fitting_short above (omega (arith, short, length-append radmind (codes "/transcript"))),
        )
        in_transcript-below

-- A transcript of the directory `transcript` in the radmind directory, or of a directory below that
-- one: where the radmind directory's `tmp/transcript` is no part of the path and all paths fit, its
-- files are looked for at the same place below `file`.
pub get_root-transcript :
    (realpath : Bytes → Option Bytes) (radmind_path path radmind sub name : Bytes)
    → realpath radmind_path ≡ some radmind
    → realpath path ≡ some ((radmind ++ codes "/transcript") ++ (sub ++ b'/' ∷ name))
    → IsName name
    → holds ((radmind ++ codes "/transcript") ++ sub) (radmind ++ codes "/tmp/transcript") ≡ false
    → length radmind + length sub + 20 < max_path_len
    → length name < max_path_len
    → get_root realpath radmind_path path
      ≡ located (record {
        file_root = radmind ++ (codes "/file" ++ sub);
        tran_root = radmind ++ (codes "/transcript" ++ sub);
        tran_name = name;
      })
unfolding get_root of_real
get_root-transcript realpath radmind_path path radmind sub name hr hp hn ht short hs =
    let root = radmind ++ codes "/transcript" in
    let dir = root ++ sub in
    let some_dir : 0 < length dir =
      omega (arith, length-append root sub, length-append radmind (codes "/transcript")) in
    let cut : cut_last (root ++ (sub ++ b'/' ∷ name)) ≡ some (dir, name) =
      ap cut_last (sym (append_assoc root sub (b'/' ∷ name))) ∙ cut_last-append dir name hn in
    rw (hr, hp)
      (ap (by_place radmind) cut
        ∙ (by_place-cut radmind dir name some_dir hs
            ∙ (in_tmp-transcript radmind sub name short ht
                ∙ below-transcript radmind sub name short)))
