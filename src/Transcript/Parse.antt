-- ===== src/Transcript/Parse.antt =====
-- convert_path_type() and transcript_parse(): the next entry of a transcript.
pub mod Entry
pub mod Returns
use radmind.Base.{
  ℕ, zero, suc, ◌+◌, ◌-◌, ◌≤◌, ◌<◌, Bool, true, false, not, ◌&&◌, ◌||◌, List, [], ◌∷◌, ◌++◌, Option,
  none, some, ltb, leb, ◌==◌, if◌then◌else◌, Bytes, length, peek, tail, get_elem?, take, drop,
  max_path_len, ℤ, pos, sign, Ordering, codes,
}
use radmind.CLibrary.{repeat, fgets, ends_line, strtol, to_u32, atoi_u32}
use radmind.PathCmp.{is_zero, pathcasecmp}
use radmind.NameList.{str_compare}
use radmind.Code.{Coded, value, null, overrun, overread, decode}
use radmind.ArgcArgv.{Parsed, acav_parse, acv_argc_step}
use radmind.Base64.{base64_d}
use radmind.Transcript.{
  Stat, PathInfo, TranType, Tran, TranFormat, unset, relative, absolute, Stop, line_too_long,
  few_arguments, type_too_long, path_too_long, bad_sort_order, wrong_arguments, no_cksum,
  unknown_type, null_pointer, memory_fault, out_of_fuel, Run, ok, stop, ◌>>=◌, Settings,
  is_negative,
}

-- snprintf() into a buffer of MAXPATHLEN bytes: NULL if it does not fit.
fitting : Bytes → Option Bytes
fitting s = if leb max_path_len (length s) then none else some s

to_absolute : Bytes → Option Bytes
unfolding fitting
to_absolute path =
    if length path == 1
    then (if peek path == b'.' then some (b'/' ∷ []) else some path)
    else (if peek path == b'.'
        then (if peek (tail path) == b'/' then fitting (tail path) else fitting (b'/' ∷ path))
        else some path)

to_relative : Bytes → Option Bytes
unfolding fitting
to_relative path =
    if length path == 1
    then (if peek path == b'/' then some (b'.' ∷ []) else some path)
    else (if peek path == b'/' then fitting (b'.' ∷ path) else some path)

unfoldable pub convert_path_type : TranFormat → Bytes → Option Bytes
unfolding to_absolute to_relative
convert_path_type absolute path = to_absolute path
convert_path_type relative path = to_relative path
convert_path_type unset path = some path

-- decode() as its callers here use it.
decoded : Coded → Run Bytes
decoded (value s) = ok s
decoded null = stop path_too_long
decoded overrun = stop memory_fault
decoded overread = stop memory_fault

converted : Option Bytes → Run Bytes
converted (some s) = ok s
converted none = stop path_too_long

-- argv[ i ], which is read without a look at argc.
argument : List Bytes → ℕ → Run Bytes
argument argv i = elim (get_elem? argv i) [ some s ↦ ok s | none ↦ stop null_pointer ]

pub expect : Bool → Stop → {A : Type 0} → Run A → Run A
expect true why next = next
expect false why next = stop why

-- argcargv(), whose vector has at least the length that acav_alloc() gives it.
unfoldable pub argcargv : Bytes → Run (List Bytes)
argcargv line = elim (acav_parse acv_argc_step line) [
  | some r ↦ ok r.argv
  | none ↦ stop memory_fault
]

-- Blank lines and comments are passed over.
is_skipped : List Bytes → Bool
is_skipped [] = true
is_skipped (word ∷ argv) = peek word == b'#'

-- The do loop over the lines. `none` is the end of the file.
unfoldable pub next_words : ℕ → Tran → Run (Option (List Bytes) × Tran)
unfolding is_skipped argcargv expect
next_words zero tran = stop out_of_fuel
next_words (suc fuel) tran = elim (fgets max_path_len tran.t_in) [
  | none ↦ ok (none, record tran { t_eof = true })
  | some (line, input) ↦
      let tran' = record tran { t_linenum = tran.t_linenum + 1; t_in = input } in
      let again = next_words fuel tran' in
      expect (ends_line line) line_too_long
        (argcargv line >>= λ argv. if is_skipped argv then again else ok (some argv, tran'))
]

-- argv[ 2 ], argv[ 3 ] and argv[ 4 ]: the mode in octal, the owner and the group.
with_owner : List Bytes → PathInfo → Run PathInfo
with_owner argv pi = do
  mode ← argument argv 2
  uid ← argument argv 3
  gid ← argument argv 4
  ok (record pi {
    pi_stat = record (pi.pi_stat) {
      st_mode = to_u32 (strtol mode 8);
      st_uid = atoi_u32 uid;
      st_gid = atoi_u32 gid;
    };
  })

-- ai_data has 32 bytes, with four of padding behind them in struct attr_info.
store_finder_info : PathInfo → Option Bytes → Run PathInfo
store_finder_info pi none = stop memory_fault
store_finder_info pi (some d) =
    if ltb 36 (length d)
    then stop memory_fault
    else ok (record pi { ai_data = take 32 (d ++ drop (length d) pi.ai_data) })

parse_dir : List Bytes → PathInfo → Run PathInfo
unfolding with_owner store_finder_info
parse_dir argv pi =
    let ac = length argv in
    expect ((ac == 5) || (ac == 6)) wrong_arguments (
      with_owner argv pi >>= λ p.
      if ac == 6
      then (argument argv 5 >>= λ info. store_finder_info p (base64_d info))
      else ok (record p { ai_data = repeat 32 0 }))

parse_plain : List Bytes → PathInfo → Run PathInfo
unfolding with_owner
parse_plain argv pi = expect (length argv == 5) wrong_arguments (with_owner argv pi)

parse_device : List Bytes → PathInfo → Run PathInfo
unfolding with_owner
parse_device argv pi = expect (length argv == 7) wrong_arguments (do
  p ← with_owner argv pi
  major ← argument argv 5
  minor ← argument argv 6
  ok (record p { pi_stat = record (p.pi_stat) { st_rdev = (atoi_u32 major, atoi_u32 minor) } }))

-- A link with no owner, group and mode has those of root, and 0777.
link_owner : List Bytes → PathInfo → Run PathInfo
unfolding with_owner
link_owner argv pi =
    if length argv == 3
    then ok
        (record pi { pi_stat = record (pi.pi_stat) { st_mode = 0x1FF; st_uid = 0; st_gid = 0 } })
    else with_owner argv pi

parse_link : Settings → List Bytes → PathInfo → Run PathInfo
unfolding link_owner
parse_link g argv pi =
    let ac = length argv in
    expect ((ac == 3) || (ac == 6)) wrong_arguments (do
      p ← link_owner argv pi
      target ← argument argv (ac - 1)
      epath ← decoded (decode g.stale target)
      ok (record p { pi_link = epath }))

parse_hard : Settings → List Bytes → PathInfo → Run PathInfo
parse_hard g argv pi = expect (length argv == 3) wrong_arguments (do
  target ← argument argv 2
  epath ← decoded (decode g.stale target)
  path ← converted (convert_path_type g.tran_format epath)
  ok (record pi { pi_link = path }))

-- A positive entry has a checksum when checksums are on.
parse_file : Settings → TranType → List Bytes → PathInfo → Run PathInfo
unfolding with_owner
parse_file g t_type argv pi = expect (length argv == 8) wrong_arguments (do
  p ← with_owner argv pi
  mtime ← argument argv 5
  size ← argument argv 6
  sum ← argument argv 7
  expect (is_negative t_type || not g.cksum || not (is_zero (str_compare (b'-' ∷ []) sum true)))
      no_cksum
      (ok (record p {
        pi_stat = record (p.pi_stat) { st_mtime = strtol mtime 10; st_size = strtol size 10 };
        pi_cksum_b64 = sum;
      })))

-- The switch on the type.
parse_type : Settings → TranType → List Bytes → PathInfo → Run PathInfo
unfolding parse_dir parse_plain parse_device parse_link parse_hard parse_file
parse_type g t_type argv pi =
    let c = pi.pi_type in
    if c == b'd'
    then parse_dir argv pi
    else (if (c == b'p') || (c == b'D') || (c == b's')
        then parse_plain argv pi
        else (if (c == b'b') || (c == b'c')
            then parse_device argv pi
            else (if c == b'l'
                then parse_link g argv pi
                else (if c == b'h'
                    then parse_hard g argv pi
                    else (if (c == b'a') || (c == b'f')
                        then parse_file g t_type argv pi
                        else stop unknown_type)))))

-- The first byte of the first word.
first_byte : List Bytes → ℕ
first_byte [] = 0
first_byte (word ∷ argv) = peek word

first_length : List Bytes → ℕ
first_length [] = 0
first_length (word ∷ argv) = length word

-- A leading word that begins with the given byte is passed over.
drop_leading : ℕ → List Bytes → List Bytes
unfolding first_byte
drop_leading c argv = if first_byte argv == c then tail argv else argv

abbrev is_positive : ℤ → Bool
is_positive rc = elim (sign rc) [ Ordering.gt ↦ true | _ ↦ false ]

-- The path, which is after that of the entry before.
entry_name : Settings → PathInfo → List Bytes → Run Bytes
unfolding decoded converted argument expect
entry_name g old words = do
  word ← argument words 1
  epath ← decoded (decode g.stale word)
  path ← converted (convert_path_type g.tran_format epath)
  expect (is_positive (pathcasecmp path old.pi_name g.case_sensitive)) bad_sort_order (ok path)

type_words : List Bytes → List Bytes
unfolding drop_leading
type_words argv = drop_leading b'+' (drop_leading b'-' argv)

entry_head : PathInfo → List Bytes → Bytes → PathInfo
unfolding first_byte type_words
entry_head old argv path = record old {
  pi_minus = first_byte argv == b'-';
  pi_type = first_byte (type_words argv);
  pi_name = path;
}

-- The entry that a line's words give, behind an entry whose info is `old`.
unfoldable pub parse_entry : Settings → TranType → PathInfo → List Bytes → Run PathInfo
unfolding parse_type first_length entry_name entry_head type_words expect
parse_entry g t_type old argv = expect (leb 3 (length argv)) few_arguments (
    expect (first_length argv == 1) type_too_long (do
      let words = type_words argv
      path ← entry_name g old words
      parse_type g t_type words (entry_head old argv path)))

-- One round for each byte of the file is enough, since each line has a byte.
unfoldable pub transcript_parse : Settings → Tran → Run Tran
unfolding next_words parse_entry
transcript_parse g tran = do
  (words, tran') ← next_words (suc (length tran.t_in)) tran
  elim words [
    | none ↦ ok tran'
    | some argv ↦
        parse_entry g tran.t_type tran.t_pinfo argv >>= λ pi. ok (record tran' { t_pinfo = pi })
  ]
