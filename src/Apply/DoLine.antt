-- ===== src/Apply/DoLine.antt =====
-- do_line(): one line of a difference is carried out, which is a download or an update in place.
use radmind.Base.{
  ℕ, ◌*◌, Bool, true, false, ◌||◌, List, [], ◌∷◌, ◌++◌, Option, none, some, ◌==◌, leb,
  if◌then◌else◌, Bytes, length, peek, get_or, get_elem?, codes, max_path_len, ℤ,
}
use radmind.CLibrary.{strtol}
use radmind.ArgcArgv.{Parsed, acav_parse, acv_argc_step}
use radmind.Apply.{
  renamed, State, Env, Out, go, returned, exited, broke, crashed, out_of_fuel, M, ◌>>=◌, ◌>>◌, pure,
  gets, modify, stop, decode_word, must,
}
use radmind.Apply.Stats.{radstat}
use radmind.Apply.Update.{expected, target, when, stat_known, update}
use radmind.Apply.Download.{retr}

unfoldable pub parsed : Option Parsed → M Parsed
parsed none = stop crashed
parsed (some p) = pure p

-- A word that is read without a look at the count.
unfoldable pub given : Option Bytes → M Bytes
given none = stop crashed
given (some w) = pure w

unfoldable pub word_at : List Bytes → ℕ → M Bytes
unfolding given
word_at argv i = given (get_elem? argv i)

-- The sign in front, if there is one, and the words behind it.
unfoldable pub split_sign : List Bytes → M (ℕ × List Bytes)
split_sign [] = stop crashed
split_sign (w ∷ argv) =
    if (peek w == b'+') || (peek w == b'-') then pure (peek w, argv) else pure (0, w ∷ argv)

-- SZ_BASE64_E( EVP_MAX_MD_SIZE )
abbrev pub cksum_b64_size : ℕ
cksum_b64_size = 89

unfoldable pub describe : Bool → Bytes → Bytes → Bytes
describe true tran w = codes "SPECIAL " ++ w
describe false tran w = codes "FILE " ++ (tran ++ b' ' ∷ w)

unfoldable pub lose_network : M (Unit {0})
lose_network = modify (λ s. record s { network = false })

-- The switch on what retr() returns.
unfoldable pub downloaded : Out Bytes × State → Out Bytes × State
unfolding lose_network
downloaded (go temp, s) = (go temp, s)
downloaded (returned n, s) =
    (if n == 1 then stop (returned 1) else (lose_network >> stop (returned 1))) s
downloaded (exited n, s) = (exited n, s)
downloaded (broke, s) = (broke, s)
downloaded (crashed, s) = (crashed, s)
downloaded (out_of_fuel, s) = (out_of_fuel, s)

module _ (g : Env) where
  -- retr_applefile() is -1 where there are no such files.
  unfoldable pub retrieve : ℕ → Bytes → Bytes → ℤ → Bytes → M Bytes
  unfolding retr
  retrieve type pathdesc path transize trancksum =
      if type == b'a' then stop (returned 2) else retr g pathdesc path transize trancksum

  unfoldable pub fetch : ℕ → Bytes → Bytes → ℤ → Bytes → M Bytes
  unfolding retrieve downloaded
  fetch type pathdesc path transize trancksum s =
      downloaded (retrieve type pathdesc path transize trancksum s)

  -- `strcpy( cksum_b64, targv[ 7 ] )`
  unfoldable pub copy_cksum : List Bytes → M Bytes
  unfolding word_at
  copy_cksum argv =
      word_at argv 7 >>= λ w. if leb cksum_b64_size (length w) then stop crashed else pure w

  unfoldable pub download : Bytes → Bool → List Bytes → Bytes → M (Unit {0})
  unfolding word_at expected copy_cksum describe fetch radstat stat_known update must when strtol
  download tran present argv path = do
    type ← word_at argv 0
    expected ((peek type == b'f') || (peek type == b'a'))
    cksum ← copy_cksum argv
    special ← gets (λ s. s.special)
    (let pathdesc = describe special tran (get_or argv 1 []) in
        if leb (2 * max_path_len) (length pathdesc) then stop (returned 1) else (do
          temp ← fetch (peek type) pathdesc path (strtol (get_or argv 6 []) 10) cksum
          stat ← radstat g temp
          stat_known g stat
          value ← update g temp present argv
          when (value == 0) (must g (renamed temp path))))

  -- An update in place.
  unfoldable pub update_line : Bool → List Bytes → Bytes → M (Unit {0})
  unfolding when radstat stat_known update
  update_line present argv path = do
    when present (radstat g path >>= stat_known g)
    value ← update g path present argv
    pure tt

  unfoldable pub do_line : Bytes → Bytes → Bool → M (Unit {0})
  unfolding parsed acav_parse split_sign word_at decode_word target download update_line
  do_line tline tran present = do
    p ← parsed (acav_parse acv_argc_step tline)
    words ← split_sign p.argv
    w ← word_at (words.1) 1
    d_path ← decode_word w
    path ← target d_path
    (if words.0 == b'+'
        then download tran present (words.1) path
        else update_line present (words.1) path)
