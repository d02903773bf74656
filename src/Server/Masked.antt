-- ===== src/Server/Masked.antt =====
-- A finding: decode() leaves the old byte of its buffer where an escape is unknown, and keyword() tests a
-- name before it is decoded, so that a name of such escapes stands for what an earlier name left.
use radmind.Base.{
  ◌≡◌, refl, true, false, ◌+◌, ◌*◌, ◌≤◌, ◌<◌, List, [], ◌∷◌, ◌++◌, some, ℕ, leb, Bytes, length,
  length-append, codes, arith, max_path_len, IsCString, until_nul-IsCString,
}
use radmind.Code.{value, decode, decode_from, unescape, backslash}
use radmind.PathCmp.{fold}
use radmind.CLibrary.Strings.{begins, holds, same_word, fitting}
use radmind.PathList.{list_check}
use radmind.Server.{Session, Env, go, buffer_after, decode_word}
use radmind.Server.Keyword.{file, keyword, file_key, no_parent}
use radmind.Server.Requests.{retr_path, key_of, file_path, decoded, check_access, fitted}

-- `\x` for each byte.
unfoldable pub masked : Bytes → Bytes
masked [] = []
masked (c ∷ p) = backslash ∷ b'x' ∷ masked p

-- The bytes of p, from index i of the buffer on.
abbrev pub Left : (ℕ → ℕ) → ℕ → Bytes → Type 0
Left old i [] = Unit
Left old i (c ∷ p) = (old i ≡ c) × Left old (i + 1) p

decode_from-masked :
    (old : ℕ → ℕ) (i : ℕ) (p : Bytes)
    → i + length p < max_path_len
    → Left old i p
    → decode_from old i (masked p) ≡ value p
unfolding decode_from masked unescape
decode_from-masked old i [] h l = ground arith
decode_from-masked old i (c ∷ p) h l =
    let ih = decode_from-masked old (i + 1) p (omega arith) l.1 in ground (arith, ih, l.0)

length-masked : (p : Bytes) → length (masked p) ≡ 2 * length p
unfolding masked
length-masked [] = refl
length-masked (c ∷ p) = omega (arith, length-masked p)

holds-masked : (p : Bytes) → holds (masked p) (codes "/../") ≡ false
unfolding masked holds begins
holds-masked [] = refl
holds-masked (c ∷ p) = holds-masked p

begins-masked : (p : Bytes) → begins (masked p) (codes "../") ≡ false
unfolding masked begins
begins-masked [] = refl
begins-masked (c ∷ p) = refl

fitted-short :
    (path : Bytes) (s : Session)
    → leb max_path_len (length path) ≡ false
    → (fitted path s).0 ≡ go path
unfolding fitted fitting
fitted-short path s h = rw (fitted, fitting, h) refl

-- RETR FILE of a transcript and a masked path.
abbrev pub request_for : Bytes → Bytes → List Bytes
request_for tran p = codes "RETR" ∷ codes "FILE" ∷ tran ∷ masked p ∷ []

file_key-masked :
    (tran p : Bytes)
    → length tran + 2 * length p + 9 ≤ max_path_len
    → file_key (request_for tran p) ≡ some file
unfolding file_key
file_key-masked tran p h = ground (arith, begins-masked p, holds-masked p, length-masked p)

keyword-masked :
    (host command tran p : Bytes)
    → holds tran (codes "../") ≡ false
    → length tran + 2 * length p + 9 ≤ max_path_len
    → keyword host command (request_for tran p) ≡ some file
unfolding keyword no_parent same_word fold
keyword-masked host command tran p plain h = rw (file_key-masked tran p h, plain) refl

decode-masked :
    (old : ℕ → ℕ) (p : Bytes)
    → 2 * length p + 9 ≤ max_path_len
    → IsCString p
    → Left old 0 p
    → decode old (masked p) ≡ value p
unfolding decode
decode-masked old p h c l =
    ground
      (arith, length-masked p, decode_from-masked old 0 p (omega arith) l, until_nul-IsCString p c)

-- Let the buffer of decode() hold the bytes of a path, with or without "../", which an earlier request has
-- left there. Then the path that RETR FILE opens for a transcript of the access list and the word of as
-- many unknown escapes is file/, the transcript, and that path: no test of keyword() sees it.
pub retr_path-masked :
    (g : Env) (s : Session) (tran p : Bytes)
    → length tran + 2 * length p + 9 ≤ max_path_len
    → IsCString p
    → Left s.buf 0 p
    → holds tran (codes "../") ≡ false
    → decode (buffer_after s.buf (masked p)) tran ≡ value tran
    → list_check s.access_list tran ≡ true
    → (retr_path g (request_for tran p) s).0 ≡ go (codes "file/" ++ (tran ++ b'/' ∷ p))
unfolding retr_path key_of file_path decoded decode_word check_access
retr_path-masked g s tran p h c l plain dec acc =
    let fits : leb max_path_len (length (codes "file/" ++ (tran ++ b'/' ∷ p))) ≡ false =
      ground (arith, length-append tran (b'/' ∷ p), h) in
    rw (keyword-masked g.remote_host s.command_file tran p plain h) (
      rw (decode-masked s.buf p (omega arith) c l)
        (rw (dec, acc) (fitted-short (codes "file/" ++ (tran ++ b'/' ∷ p)) _ fits)))
