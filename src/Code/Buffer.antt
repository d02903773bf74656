-- ===== src/Code/Buffer.antt =====
-- The static buffer of decode(), which keeps its bytes from one call to the next.
use radmind.Base.{
  ℕ, ◌+◌, ◌*◌, ◌||◌, [], ◌∷◌, ltb, leb, ◌==◌, if◌then◌else◌, Bytes, length, get_or, max_path_len,
}
use radmind.Code.{backslash, unescape}

-- What decode() stores in its buffer from index i on.
unfoldable pub stored_from : (ℕ → ℕ) → ℕ → Bytes → Bytes
unfolding unescape
stored_from old i [] = 0 ∷ []
stored_from old i (c ∷ []) =
    let rest = stored_from old (i + 1) [] in
    if leb max_path_len i || (c == backslash) then [] else c ∷ rest
stored_from old i (c ∷ d ∷ line) =
    let escaped = stored_from old (i + 1) line in
    let plain = stored_from old (i + 1) (d ∷ line) in
    if leb max_path_len i
    then []
    else (if c == backslash then unescape (old i) d ∷ escaped else c ∷ plain)

unfoldable pub buffer_after : (ℕ → ℕ) → Bytes → ℕ → ℕ
unfolding stored_from
buffer_after old line i =
    if ltb (2 * max_path_len) (length line)
    then old i
    else get_or (stored_from old 0 line) i (old i)
