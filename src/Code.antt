-- ===== src/Code.antt =====
-- code.c: blanks and control characters of a path are escaped, so that it is one word of a line.
-- The results live in static buffers, whose bounds are part of the model.
pub mod RoundTrip
pub mod Buffer
mod Examples
use radmind.Base.{
  ℕ, suc, ◌+◌, ◌*◌, Bool, ◌||◌, List, [], ◌∷◌, ◌++◌, ltb, leb, ◌==◌, if◌then◌else◌, Bytes, length,
  max_path_len, until_nul,
}

-- What a call of encode() or decode() does: a string, NULL, a write past the end of the static
-- buffer, or a read past the end of the argument.
pub data Coded : Type 0 where
  value : Bytes → Coded
  null : Coded
  overrun : Coded
  overread : Coded

abbrev pub backslash : ℕ
backslash = b'\\'

-- The switch of encode_internal(): what is stored for one byte.
unfoldable pub escape_byte : ℕ → Bool → Bytes
escape_byte c shell_spaces =
    if c == b' '
    then backslash ∷ (if shell_spaces then b' ' else b'b') ∷ []
    else (if c == b'\t'
        then backslash ∷ b't' ∷ []
        else (if c == b'\n'
            then backslash ∷ b'n' ∷ []
            else (if c == b'\r'
                then backslash ∷ b'r' ∷ []
                else (if c == backslash then backslash ∷ backslash ∷ [] else c ∷ []))))

-- The loop of encode_internal().
unfoldable pub escape : Bytes → Bool → Bytes
unfolding escape_byte
escape [] shell_spaces = []
escape (c ∷ line) shell_spaces = escape_byte c shell_spaces ++ escape line shell_spaces

-- The NUL is stored behind the escaped bytes, in a buffer of 2 * MAXPATHLEN bytes.
unfoldable pub encode_internal : Bytes → Bool → Coded
unfolding escape
encode_internal line shell_spaces =
    if ltb max_path_len (length line)
    then null
    else (let buf = escape line shell_spaces in
        if leb (2 * max_path_len) (length buf) then overrun else value buf)

-- The inner switch of decode(): what the letter after a backslash stands for. For any other letter
-- nothing is stored, and the buffer keeps its old byte.
unfoldable pub unescape : ℕ → ℕ → ℕ
unescape old d =
    if d == b'n'
    then b'\n'
    else (if d == b't'
        then b'\t'
        else (if (d == b'b') || (d == b' ')
            then b' '
            else (if d == b'r' then b'\r' else (if d == backslash then backslash else old))))

abbrev pub push : ℕ → Coded → Coded
push c (value s) = value (c ∷ s)
push c null = null
push c overrun = overrun
push c overread = overread

-- The loop of decode(), with `temp` at index i of a buffer whose earlier contents are `old`. A line
-- that ends in a backslash sends `line` past its NUL.
unfoldable pub decode_from : (ℕ → ℕ) → ℕ → Bytes → Coded
unfolding unescape
decode_from old i [] = if leb max_path_len i then overrun else value []
decode_from old i (c ∷ []) =
    let rest = decode_from old (i + 1) [] in
    if leb max_path_len i then null else (if c == backslash then overread else push c rest)
decode_from old i (c ∷ d ∷ line) =
    let escaped = decode_from old (i + 1) line in
    let plain = decode_from old (i + 1) (d ∷ line) in
    if leb max_path_len i
    then null
    else (if c == backslash then push (unescape (old i) d) escaped else push c plain)

-- An old byte may be the NUL that ends the string.
abbrev pub as_string : Coded → Coded
unfolding until_nul
as_string (value s) = value (until_nul s)
as_string null = null
as_string overrun = overrun
as_string overread = overread

unfoldable pub decode : (ℕ → ℕ) → Bytes → Coded
unfolding decode_from until_nul
decode old line =
    if ltb (2 * max_path_len) (length line) then null else as_string (decode_from old 0 line)
