-- ===== src/ArgcArgv.antt =====
-- argcargv.c: a line is cut into words at blanks, tabs and newlines, in place. A blank behind an odd
-- number of backslashes is part of its word. Memory allocation is taken to succeed.
pub mod Words
mod Examples
use radmind.Base.{
  ℕ, suc, ◌+◌, ◌%◌, Bool, true, false, ◌&&◌, ◌||◌, List, [], ◌∷◌, Option, none, some, ltb, leb,
  ◌==◌, if◌then◌else◌, Bytes, until_nul,
}
use mathlib.Core.Option
use radmind.Code.{backslash}

-- ACV_WHITE and ACV_WORD
pub data State : Type 0 where
  white word : State

-- The line as it is left, the strings that acv_argv points to in it, and the length of that vector.
pub record Parsed : Type 0 where
  pub stored : Bytes
  pub argv : List Bytes
  pub acv_argc : ℕ

abbrev pub acv_argc_step : ℕ
acv_argc_step = 10

-- The scan back from a blank; `before` holds the bytes behind `start`, the last one first.
unfoldable pub slashes : Bytes → ℕ
slashes [] = 0
slashes (c ∷ before) = if c == backslash then suc (slashes before) else 0

-- The cases of the switch that end a word.
unfoldable pub is_separator : Bytes → ℕ → Bool
unfolding slashes
is_separator before c = (c == b'\t') || (c == b'\n') || ((c == b' ') && (slashes before % 2 == 0))

-- `*line = '\0'`, or the byte kept.
abbrev pub keep : ℕ → Parsed → Parsed
keep c r = record r { stored = c ∷ r.stored }

-- `acv_argv[ ac++ ] = line`: the string is read from the line as it is left.
abbrev pub enter : ℕ → Parsed → Parsed
unfolding until_nul
enter c r = record r { stored = c ∷ r.stored; argv = until_nul (c ∷ r.stored) ∷ r.argv }

-- The realloc() after a store.
abbrev pub grown : ℕ → ℕ → ℕ
grown acv_argc ac = if leb acv_argc ac then acv_argc + acv_argc_step else acv_argc

-- The loop, and the store of the NULL behind the last word. `none` is a store outside acv_argv.
unfoldable pub parse_from : ℕ → ℕ → Bytes → State → Bytes → Option Parsed
unfolding is_separator until_nul
parse_from acv_argc ac before state [] =
    if ltb ac acv_argc then some (record { stored = []; argv = []; acv_argc = acv_argc }) else none
parse_from acv_argc ac before white (c ∷ line) =
    let skip = parse_from acv_argc ac (c ∷ before) white line in
    let begin = parse_from (grown acv_argc (ac + 1)) (ac + 1) (c ∷ before) word line in
    if is_separator before c
    then Option.map (keep c) skip
    else (if ltb ac acv_argc then Option.map (enter c) begin else none)
parse_from acv_argc ac before word (c ∷ line) =
    let cut = parse_from acv_argc ac (c ∷ before) white line in
    let more = parse_from acv_argc ac (c ∷ before) word line in
    if is_separator before c then Option.map (keep 0) cut else Option.map (keep c) more

-- `ac` is the length of argv.
unfoldable pub acav_parse : ℕ → Bytes → Option Parsed
unfolding parse_from
acav_parse acv_argc line = parse_from acv_argc 0 [] white line
