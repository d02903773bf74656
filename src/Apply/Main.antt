-- ===== src/Apply/Main.antt =====
-- main() of lapply.c, from the loop over the difference to the exit. Options, the connection's setup
-- and reports to the server are left out.
use radmind.Base.{
  ℕ, suc, ◌-◌, ◌*◌, Bool, true, false, not, ◌&&◌, ◌||◌, List, [], ◌∷◌, Option, none, some, Ordering,
  sign, ℤ, ◌==◌, ltb, if◌then◌else◌, Bytes, length, peek, get_or, take, codes, max_path_len,
  until_nul,
}
use radmind.CLibrary.{ends_line, file_lines}
use radmind.CLibrary.Strings.{same_string}
use radmind.ArgcArgv.{is_separator, acav_parse, acv_argc_step}
use radmind.PathCmp.{pathcasecmp}
use radmind.Apply.{
  looked, hung_up, Answer, done, enoent, failed, State, Env, Out, go, returned, exited, broke,
  crashed, out_of_fuel, M, ◌>>=◌, ◌>>◌, pure, gets, modify, stop, emit, decode_word, attempt,
}
use radmind.Apply.Stats.{Found, found, unknown, absent, radstat}
use radmind.Apply.DoLine.{parsed, word_at}
use radmind.Apply.Removals.{set_change, line_done, minimize, postpone, remove_file, clear}

-- A string is copied into a buffer.
unfoldable pub overlay : (ℕ → ℕ) → Bytes → ℕ → ℕ
overlay old line i =
    if ltb i (length line) then get_or line i 0 else (if i == length line then 0 else old i)

-- Where the first word starts.
unfoldable pub word_offset : Bytes → ℕ
unfolding is_separator
word_offset [] = 0
word_offset (c ∷ line) = if is_separator [] c then suc (word_offset line) else 0

-- `*command`
unfoldable pub byte_at : Option ℕ → (ℕ → ℕ) → ℕ
byte_at none buffer = 0
byte_at (some i) buffer = buffer i

unfoldable pub set_targvline : Bytes → M (Unit {0})
unfolding overlay
set_targvline line = modify (λ s. record s { targvline = overlay s.targvline line })

unfoldable pub set_command : ℕ → M (Unit {0})
set_command i = modify (λ s. record s { command = some i })

unfoldable pub set_transcript : Bytes → M (Unit {0})
set_transcript name = modify (λ s. record s { transcript = name })

unfoldable pub set_special : Bool → M (Unit {0})
set_special b = modify (λ s. record s { special = b })

unfoldable pub set_prepath : Bytes → M (Unit {0})
set_prepath path = modify (λ s. record s { prepath = path })

-- `goto error2`, unless it holds.
unfoldable pub ensure : Bool → M (Unit {0})
ensure true = pure tt
ensure false = stop broke

-- tline[ len - 1 ] of an empty line is outside tline.
unfoldable pub check_line : Bytes → M (Unit {0})
unfolding ensure ends_line
check_line [] = stop crashed
check_line (c ∷ line) =
    ensure (ends_line (c ∷ line)) >> ensure (ltb (length (c ∷ line)) (2 * max_path_len))

unfoldable pub is_positive : ℤ → Bool
is_positive rc = elim (sign rc) [ Ordering.gt ↦ true | _ ↦ false ]

unfoldable pub is_nil : Bytes → Bool
is_nil [] = true
is_nil (c ∷ s) = false

-- A line of one word.
unfoldable pub name_transcript : Bytes → M (Unit {0})
unfolding set_transcript ensure set_special same_string
name_transcript w = do
  set_transcript w
  ensure (get_or w (length w - 1) 0 == b':')
  set_transcript (take (length w - 1) w)
  set_special (same_string (take (length w - 1) w) (codes "special.T"))

-- NULL: "too long"
unfoldable pub decoded_path : Option Bytes → M Bytes
decoded_path none = stop (exited 1)
decoded_path (some path) = pure path

-- Whether it is present, and its type.
unfoldable pub known : Found → M (Bool × ℕ)
known (found t) = pure (true, t)
known unknown = stop broke
known absent = pure (false, b'X')
known Found.failed = stop broke

-- The words in front of the loop's tests: `command` and what is left of targv.
unfoldable pub take_sign : Bytes → List Bytes → M (List Bytes)
unfolding set_command ensure word_offset is_nil
take_sign tline [] = stop crashed
take_sign tline (w ∷ argv) = do
  transcript ← gets (λ s. s.transcript)
  ensure (not ((peek w == b'+') && is_nil transcript))
  (if (peek w == b'+') || (peek w == b'-')
      then (set_command (word_offset tline) >> pure argv)
      else pure (w ∷ argv))

module _ (g : Env) where
  -- The order of the paths, and the path's length.
  unfoldable pub check_order : Bytes → M (Unit {0})
  unfolding ensure pathcasecmp is_positive is_nil set_prepath
  check_order path = do
    prepath ← gets (λ s. s.prepath)
    ensure (is_nil prepath || is_positive (pathcasecmp path prepath g.case_sensitive))
    ensure (ltb (length path) max_path_len)
    set_prepath path

  unfoldable pub look : Bytes → M (Bool × ℕ)
  unfolding radstat known
  look path = emit (looked path) >> (radstat g path >>= known)

  unfoldable pub carry_out : Bytes → Bytes → Bool → M (Unit {0})
  unfolding minimize line_done set_change
  carry_out tline path present = do
    minimize g path
    transcript ← gets (λ s. s.transcript)
    line_done g tline transcript present
    set_change

  -- The object in the way, of a type that is not the line's, or of a line with '-'.
  unfoldable pub clear_way : Bytes → Bytes → Bool → Bool → Bool × ℕ → M (Unit {0})
  unfolding postpone remove_file carry_out
  clear_way tline path minus differs (present, fstype) = do
    transcript ← gets (λ s. s.transcript)
    (if fstype == b'd'
        then postpone g
            (record { path = path; context = if differs then some (tline, transcript) else none })
        else (remove_file g path >> (if minus then pure tt else carry_out tline path false)))

  unfoldable pub apply_object : Bytes → Bytes → ℕ → Bool → Bool × ℕ → M (Unit {0})
  unfolding clear_way carry_out
  apply_object tline path type minus (present, fstype) =
      let differs = present && not (fstype == type) in
      if minus || differs
      then clear_way tline path minus differs (present, fstype)
      else carry_out tline path present

  unfoldable pub apply_path : Bytes → List Bytes → Bool → Bytes → M (Unit {0})
  unfolding check_order look apply_object word_at
  apply_path tline argv minus path = do
    check_order path
    object ← look path
    type ← word_at argv 0
    apply_object tline path (peek type) minus object

  -- A download without a network is passed over.
  unfoldable pub apply_words : Bytes → List Bytes → ℕ → M (Unit {0})
  unfolding word_at decode_word decoded_path apply_path
  apply_words tline argv command = do
    network ← gets (λ s. s.network)
    (if (command == b'+') && not network then pure tt else (do
      w ← word_at argv 1
      d_path ← decode_word w
      path ← decoded_path d_path
      apply_path tline argv (command == b'-') path))

  unfoldable pub apply_signed : Bytes → List Bytes → M (Unit {0})
  unfolding take_sign byte_at apply_words
  apply_signed tline words = do
    argv ← take_sign tline words
    command ← gets (λ s. byte_at s.command s.targvline)
    apply_words tline argv command

  unfoldable pub apply_parsed : Bytes → List Bytes → M (Unit {0})
  unfolding name_transcript apply_signed
  apply_parsed tline [] = pure tt
  apply_parsed tline (w ∷ []) = if peek w == b'#' then pure tt else name_transcript w
  apply_parsed tline (w ∷ v ∷ argv) =
      if peek w == b'#' then pure tt else apply_signed tline (w ∷ v ∷ argv)

  -- One round of the loop; the length of the vector stays for the next one.
  unfoldable pub apply_line : ℕ → Bytes → M ℕ
  unfolding check_line parsed acav_parse set_targvline apply_parsed
  apply_line acv_argc tline = do
    check_line tline
    p ← parsed (acav_parse acv_argc tline)
    set_targvline p.stored
    apply_parsed tline p.argv
    pure p.acv_argc

  unfoldable pub apply_lines : List Bytes → ℕ → M (Unit {0})
  unfolding apply_line until_nul
  apply_lines [] acv_argc = pure tt
  apply_lines (line ∷ lines) acv_argc =
      let later = apply_lines lines in apply_line acv_argc (until_nul line) >>= later

  unfoldable pub if_hung_up : Answer → M (Unit {0})
  if_hung_up done = pure tt
  if_hung_up enoent = stop (exited 2)
  if_hung_up failed = stop (exited 2)

  -- The whole difference, and the end without an error.
  unfoldable pub apply : List Bytes → M (Unit {0})
  unfolding apply_lines clear ensure attempt if_hung_up
  apply lines = do
    apply_lines lines acv_argc_step
    clear g
    ensure g.fclose_works
    network ← gets (λ s. s.network)
    (if network then (attempt g hung_up >>= if_hung_up) else pure tt)
    stop (exited 0)

  -- error2 and error1
  unfoldable pub give_up : M (Unit {0})
  unfolding attempt
  give_up = do
    network ← gets (λ s. s.network)
    (if network then (attempt g hung_up >>= λ a. pure tt) else pure tt)
    change ← gets (λ s. s.change)
    stop (exited (if change then 1 else 2))

  unfoldable pub or_give_up : Out (Unit {0}) × State → Out (Unit {0}) × State
  unfolding give_up
  or_give_up (go u, s) = (go u, s)
  or_give_up (returned n, s) = (returned n, s)
  or_give_up (exited n, s) = (exited n, s)
  or_give_up (broke, s) = give_up s
  or_give_up (crashed, s) = (crashed, s)
  or_give_up (out_of_fuel, s) = (out_of_fuel, s)

  unfoldable pub main : Bytes → M (Unit {0})
  unfolding apply or_give_up file_lines
  main difference s = or_give_up (apply (file_lines max_path_len difference) s)
