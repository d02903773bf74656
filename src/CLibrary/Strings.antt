-- ===== src/CLibrary/Strings.antt =====
-- The string functions of the C library that the server and the tools call.
use radmind.Base.{
  ℕ, zero, suc, Bool, true, false, ◌&&◌, [], ◌∷◌, Option, none, some, leb, ◌==◌, if◌then◌else◌,
  Bytes, length, peek, tail, max_path_len,
}
use radmind.PathCmp.{fold, is_zero}
use radmind.NameList.{str_compare}

-- snprintf() into a buffer of MAXPATHLEN bytes: `none` if the text does not fit.
unfoldable pub fitting : Bytes → Option Bytes
fitting s = if leb max_path_len (length s) then none else some s

-- `strncmp( s, prefix, strlen( prefix )) == 0`
unfoldable pub begins : Bytes → Bytes → Bool
begins s [] = true
begins s (c ∷ prefix) = (peek s == c) && begins (tail s) prefix

-- `strstr( s, part ) != NULL`
unfoldable pub holds : Bytes → Bytes → Bool
unfolding begins
holds [] part = begins [] part
holds (c ∷ s) part = if begins (c ∷ s) part then true else holds s part

-- `strcasecmp( a, b ) == 0`
unfoldable pub same_word : Bytes → Bytes → Bool
unfolding str_compare
same_word a b = is_zero (str_compare a b false)

-- `strncasecmp( a, b, n ) == 0`
unfoldable pub same_start : ℕ → Bytes → Bytes → Bool
unfolding fold
same_start zero a b = true
same_start (suc n) a b =
    (fold false (peek a) == fold false (peek b))
    && (if peek a == 0 then true else same_start n (tail a) (tail b))

-- The part before the last '/', where strrchr() finds one.
unfoldable pub before_slash : Bytes → Option Bytes
before_slash [] = none
before_slash (c ∷ s) = elim (before_slash s) [
  | some part ↦ some (c ∷ part)
  | none ↦ if c == b'/' then some [] else none
]

-- `strcmp( a, b ) == 0`
unfoldable pub same_string : Bytes → Bytes → Bool
unfolding str_compare
same_string a b = is_zero (str_compare a b true)
