-- ===== src/Transcript/Walk.antt =====
-- transcript(): what is done for one object of the filesystem, and for its end. The run is one
-- without -W, so that exclude_warnings is 0 and the excluded objects are not told on the output.
pub mod Ends
use Prim.Native.Nat.{bit_and}
use radmind.Base.{
  ℕ, zero, suc, ◌+◌, Bool, true, false, not, ◌&&◌, ◌||◌, List, [], ◌∷◌, ◌++◌, Option, none, some,
  ltb, ◌==◌, if◌then◌else◌, Bytes,
}
use radmind.HardLink.{hardlink}
use radmind.PathList.{check_nodes}
use radmind.Transcript.{
  Stat, PathInfo, Tran, Stop, memory_fault, out_of_fuel, Run, ok, stop, ◌>>=◌, Settings, World,
  is_negative,
}
use radmind.Transcript.Parse.{transcript_parse}
use radmind.Transcript.Print.{link_of}
use radmind.Transcript.Select.{t_exclude, Place, whole, total_weight, transcript_select}
use radmind.Transcript.Compare.{Move, move_tran, move_fs, move_both, t_compare}

-- What the caller found at a path. `linked_to` is what readlink() gives; `none` is its error.
pub record Found : Type 0 where
  pub path : Bytes
  pub st : Stat
  pub type : ℕ
  pub finder_info : Bytes
  pub linked_to : Option Bytes

-- S_ISDIR and S_ISLNK
abbrev pub is_dir : Stat → Bool
is_dir st = bit_and 0xF000 st.st_mode == 0x4000

abbrev pub is_lnk : Stat → Bool
is_lnk st = bit_and 0xF000 st.st_mode == 0xA000

abbrev pub info_of : Found → PathInfo
info_of f = record {
  pi_type = f.type;
  pi_minus = false;
  pi_name = f.path;
  pi_link = [];
  pi_stat = f.st;
  pi_cksum_b64 = b'-' ∷ [];
  ai_data = f.finder_info;
}

-- The target of a symbolic link; a failed readlink() has the NUL stored before the buffer.
unfoldable pub with_target : Found → PathInfo → Run PathInfo
with_target f pi =
    if is_lnk f.st
    then (elim f.linked_to [
      | some target ↦ ok (record pi { pi_link = target })
      | none ↦ stop memory_fault
    ])
    else ok pi

-- An object with several links is a hard link to the first of its names.
unfoldable pub with_links : Found → World → Run (PathInfo × World)
unfolding with_target
with_links f w =
    let pi = info_of f in
    let looked = hardlink w.dev_head (link_of pi) in
    let alone = with_target f pi >>= λ p. ok (p, w) in
    let first = with_target f pi >>= λ p. ok (p, record w { dev_head = looked.0 }) in
    if not (is_dir f.st) && ltb 1 f.st.st_nlink
    then (elim looked.1 [
      | some linkpath ↦
          ok (record pi { pi_type = b'h'; pi_link = linkpath }, record w { dev_head = looked.0 })
      | none ↦ first
    ])
    else alone

-- 1 to go into a directory, 2 for a directory of a negative transcript.
abbrev pub entered : Tran → ℕ → ℕ
entered tran enter = if is_negative tran.t_type && (tran.t_pinfo.pi_type == b'd') then 2 else enter

-- transcript_parse() of the selected transcript, in its place.
unfoldable pub move_on : Settings → Place → World → Run World
move_on g p w =
    transcript_parse g p.here >>= λ tran. ok (record w { trans = p.before ++ tran ∷ p.after })

-- After a comparison: the result, or another round.
unfoldable pub after_move :
    Settings → ℕ → Place → (World → Run (ℕ × World)) → Move × World → Run (ℕ × World)
unfolding move_on
after_move g enter p again (move_fs, w) = ok (enter, w)
after_move g enter p again (move_both, w) = move_on g p w >>= λ w'. ok (entered p.here enter, w')
after_move g enter p again (move_tran, w) = move_on g p w >>= again

unfoldable pub compare_rounds : ℕ → Settings → Option PathInfo → ℕ → World → Run (ℕ × World)
unfolding after_move
compare_rounds zero g fs enter w = stop out_of_fuel
compare_rounds (suc fuel) g fs enter w =
    let again = compare_rounds fuel g fs enter in
    transcript_select g w.trans >>= λ p.
    t_compare g fs p.here (record w { trans = whole p }) >>= after_move g enter p again

-- Each round but the last one moves on a transcript.
unfoldable pub compare_all : Settings → Option PathInfo → ℕ → World → Run (ℕ × World)
unfolding compare_rounds
compare_all g fs enter w = compare_rounds (suc (total_weight w.trans)) g fs enter w

-- An excluded object that is not special is passed over, once the transcripts have moved to it.
unfoldable pub is_excluded : Settings → Found → Bool → Run Bool
is_excluded g f parent_minus = t_exclude g f.path >>= λ excluded.
    ok (excluded && not parent_minus && not (check_nodes g.special_list f.path))

-- Nothing is printed where exclude_warnings is 0.
unfoldable pub skip_excluded : Settings → World → Run (ℕ × World)
skip_excluded g w = transcript_select g w.trans >>= λ p. ok (0, record w { trans = whole p })

unfoldable pub transcript : Settings → Option Found → Bool → World → Run (ℕ × World)
unfolding is_excluded skip_excluded with_links compare_all
transcript g none parent_minus w = compare_all g none 0 (record w { fs_minus = false })
transcript g (some f) parent_minus w =
    let w' = record w { fs_minus = false } in
    is_excluded g f parent_minus >>= λ excluded.
    if excluded
    then skip_excluded g w'
    else (with_links f w' >>= λ r. compare_all g (some r.0) (if is_dir f.st then 1 else 0) r.1)

-- transcript_free(): the end of the filesystem, and then all of the transcripts.
unfoldable pub transcript_free : Settings → World → Run World
unfolding transcript
transcript_free g w = transcript g none false w >>= λ r. ok (record (r.1) { trans = [] })
