-- ===== src/CLibrary.antt =====
-- What the programs use of the C library to read lines and numbers, and to print them (glibc, 64-bit).
pub mod Strings
use radmind.Base.{
  ℕ, zero, suc, ◌+◌, ◌-◌, ◌*◌, ◌/◌, ◌%◌, ◌^◌, Bool, true, false, List, ◌&&◌, ◌||◌, [], ◌∷◌, ◌++◌,
  Option, none, some, ℤ, pos, negsuc, ltb, leb, ◌==◌, if◌then◌else◌, Bytes, length, tail, peek,
}

abbrev pub cons_fst : ℕ → Bytes × Bytes → Bytes × Bytes
cons_fst c r = (c ∷ r.0, r.1)

-- At most `size` bytes, up to and with the first newline, and what is left of the file.
unfoldable pub take_line : ℕ → Bytes → Bytes × Bytes
take_line zero input = ([], input)
take_line (suc size) [] = ([], [])
take_line (suc size) (c ∷ input) =
    let rest = take_line size input in if c == b'\n' then (c ∷ [], input) else cons_fst c rest

-- fgets( line, size, in ): `none` at the end of the file.
unfoldable pub fgets : ℕ → Bytes → Option (Bytes × Bytes)
unfolding take_line
fgets size [] = none
fgets size (c ∷ input) = some (take_line (size - 1) (c ∷ input))

-- `line[ length - 1 ] == '\n'`
unfoldable pub ends_line : Bytes → Bool
ends_line [] = false
ends_line (c ∷ []) = c == b'\n'
ends_line (c ∷ d ∷ line) = ends_line (d ∷ line)

unfoldable pub is_space : ℕ → Bool
is_space c = (c == b' ') || (leb 9 c && leb c 13)

unfoldable pub skip_spaces : Bytes → Bytes
unfolding is_space
skip_spaces [] = []
skip_spaces (c ∷ s) = if is_space c then skip_spaces s else c ∷ s

unfoldable pub read_digits : ℕ → ℕ → Bytes → ℕ
read_digits base acc [] = acc
read_digits base acc (c ∷ s) =
    let more = read_digits base (acc * base + (c - b'0')) s in
    if leb b'0' c && ltb c (b'0' + base) then more else acc

-- A long holds its values from -(2 ^ 63) to 2 ^ 63 - 1.
unfoldable pub clamp_long : Bool → ℕ → ℤ
clamp_long negative n =
    if negative
    then (if n == 0
        then pos 0
        else (if leb n (2 ^ 63) then negsuc (n - 1) else negsuc (2 ^ 63 - 1)))
    else (if ltb n (2 ^ 63) then pos n else pos (2 ^ 63 - 1))

-- strtol( s, NULL, base ) and strtoll(), for a base of at most ten.
unfoldable pub strtol : Bytes → ℕ → ℤ
unfolding skip_spaces read_digits clamp_long
strtol s base =
    let t = skip_spaces s in
    if peek t == b'-'
    then clamp_long true (read_digits base 0 (tail t))
    else (if peek t == b'+'
        then clamp_long false (read_digits base 0 (tail t))
        else clamp_long false (read_digits base 0 t))

-- The conversion to a uint32_t, such as a uid_t.
unfoldable pub to_u32 : ℤ → ℕ
to_u32 (pos n) = n % 2 ^ 32
to_u32 (negsuc n) = 2 ^ 32 - 1 - n % 2 ^ 32

-- atoi(), stored in an unsigned of 32 bits.
unfoldable pub atoi_u32 : Bytes → ℕ
unfolding strtol to_u32
atoi_u32 s = to_u32 (strtol s 10)

-- The digits of a number, in front of `acc`; `fuel` bounds their count.
unfoldable pub digits_onto : ℕ → ℕ → ℕ → Bytes → Bytes
digits_onto zero base n acc = acc
digits_onto (suc fuel) base n acc =
    let d = (b'0' + n % base) ∷ acc in
    let more = digits_onto fuel base (n / base) d in if ltb n base then d else more

-- 64 digits hold any 64-bit number in any base from two on.
unfoldable pub unsigned : ℕ → ℕ → Bytes
unfolding digits_onto
unsigned base n = digits_onto 64 base n []

unfoldable pub signed : ℤ → Bytes
unfolding unsigned
signed (pos n) = unsigned 10 n
signed (negsuc n) = b'-' ∷ unsigned 10 (n + 1)

unfoldable pub repeat : ℕ → ℕ → Bytes
repeat zero c = []
repeat (suc n) c = c ∷ repeat n c

-- `%-<width>s`
unfoldable pub pad_right : ℕ → Bytes → Bytes
unfolding repeat
pad_right width s = s ++ repeat (width - length s) b' '

-- The lines that successive calls of fgets() give.
read_lines : ℕ → ℕ → Bytes → List Bytes
unfolding fgets
read_lines zero size input = []
read_lines (suc fuel) size input = elim (fgets size input) [
  | none ↦ []
  | some (line, rest) ↦ line ∷ read_lines fuel size rest
]

-- A line has a byte at least, so one round for each byte is enough.
unfoldable pub file_lines : ℕ → Bytes → List Bytes
unfolding read_lines
file_lines size input = read_lines (length input) size input

-- `%<width>d` and `%<width>lld`
unfoldable pub pad_left : ℕ → Bytes → Bytes
unfolding repeat
pad_left width s = repeat (width - length s) b' ' ++ s

-- `%.4lo`
unfoldable pub octal_4 : ℕ → Bytes
unfolding unsigned repeat
octal_4 n = let s = unsigned 8 n in repeat (4 - length s) b'0' ++ s

-- `(int)` of an unsigned of 32 bits.
unfoldable pub int_of_u32 : ℕ → ℤ
int_of_u32 n = if ltb n (2 ^ 31) then pos n else negsuc (2 ^ 32 - 1 - n)
