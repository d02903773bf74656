-- ===== src/Transcript/Compare.antt =====
-- t_compare(): an object of the filesystem against the entry of a transcript.
pub mod Moves
pub mod Silent
use Prim.Native.Nat.{bit_and}
use radmind.Base.{
  ℕ, ◌+◌, Bool, true, false, not, ◌&&◌, ◌||◌, List, [], ◌∷◌, Option, none, some, ◌==◌,
  if◌then◌else◌, Bytes, ℤ, pos, negsuc, sign, Ordering,
}
use radmind.PathCmp.{is_zero, pathcasecmp}
use radmind.NameList.{str_compare}
use radmind.Transcript.{
  Stat, PathInfo, TranType, Tran, Stop, cksum_failed, Run, ok, stop, ◌>>=◌, Settings, World, t_mode,
  is_negative, is_applicable,
}
use radmind.Transcript.Print.{
  Flag, tran_only, fs_only, download, status, status_neg, mark_link, t_print,
}

-- T_MOVE_TRAN, T_MOVE_FS, T_MOVE_BOTH
pub data Move : Type 0 where
  move_tran move_fs move_both : Move

abbrev pub int_eq : ℤ → ℤ → Bool
int_eq (pos a) (pos b) = a == b
int_eq (negsuc a) (negsuc b) = a == b
int_eq (pos a) (negsuc b) = false
int_eq (negsuc a) (pos b) = false

-- `strcmp( a, b ) == 0`
unfoldable pub same_string : Bytes → Bytes → Bool
same_string a b = is_zero (str_compare a b true)

unfoldable pub same_owner : Stat → Stat → Bool
same_owner a b = (a.st_uid == b.st_uid) && (a.st_gid == b.st_gid)

unfoldable pub same_mode : Stat → Stat → Bool
same_mode a b = bit_and t_mode a.st_mode == bit_and t_mode b.st_mode

unfoldable pub same_rdev : Stat → Stat → Bool
same_rdev a b = (a.st_rdev.0 == b.st_rdev.0) && (a.st_rdev.1 == b.st_rdev.1)

-- A switch case's answer: what to print, if anything. The checksum of a file is put in its entry.
pub record Verdict : Type 0 where
  pub flag : Option Flag
  pub entry : PathInfo

abbrev pub quiet : PathInfo → Verdict
quiet fs = record { flag = none; entry = fs }

abbrev pub report : PathInfo → Flag → Verdict
report fs f = record { flag = some f; entry = fs }

abbrev pub report_unless : Bool → PathInfo → Flag → Verdict
report_unless same fs f = if same then quiet fs else report fs f

-- The end of the case of files: owner, group and mode.
unfoldable pub file_status : Settings → PathInfo → Tran → Verdict
unfolding same_owner same_mode
file_status g fs tran =
    report_unless
      (same_owner fs.pi_stat tran.t_pinfo.pi_stat && same_mode fs.pi_stat tran.t_pinfo.pi_stat) fs
      (if is_negative tran.t_type && is_applicable g.edit_path then status_neg else status)

-- The times of a file whose contents are the same.
unfoldable pub file_times : Settings → PathInfo → Tran → Verdict
unfolding file_status
file_times g fs tran =
    if not g.ignore_timestamps && not (int_eq fs.pi_stat.st_mtime tran.t_pinfo.pi_stat.st_mtime)
    then report fs status
    else file_status g fs tran

unfoldable pub file_cksum : Settings → PathInfo → Option Bytes
file_cksum g fs = if fs.pi_type == b'f' then g.do_cksum fs.pi_name else g.do_acksum fs.pi_name

-- case 'a' and case 'f'
unfoldable pub compare_file : Settings → PathInfo → Tran → Run Verdict
unfolding file_times file_cksum same_string
compare_file g fs tran =
    if is_negative tran.t_type
    then ok (file_status g fs tran)
    else (if not (int_eq fs.pi_stat.st_size tran.t_pinfo.pi_stat.st_size)
        then ok (report fs download)
        else (if g.cksum
            then (elim (file_cksum g fs) [
              | none ↦ stop cksum_failed
              | some sum ↦
                  let fs' = record fs { pi_cksum_b64 = sum } in
                  ok (
                    if same_string sum tran.t_pinfo.pi_cksum_b64
                    then file_times g fs' tran
                    else report fs' download)
            ])
            else (ok (
                if not g.ignore_timestamps
                  && not (int_eq fs.pi_stat.st_mtime tran.t_pinfo.pi_stat.st_mtime)
                then report fs download
                else file_times g fs tran))))

-- case 'd', case 'D', case 'p' and case 's', where the system is not Mac OS X
unfoldable pub compare_plain : PathInfo → Tran → Verdict
unfolding same_owner same_mode
compare_plain fs tran =
    report_unless
      (same_owner fs.pi_stat tran.t_pinfo.pi_stat && same_mode fs.pi_stat tran.t_pinfo.pi_stat) fs
      status

-- case 'l': the owner and the mode of a link count where the system can set them.
unfoldable pub compare_link : Settings → PathInfo → Tran → Verdict
unfolding same_owner same_mode same_string
compare_link g fs tran =
    report_unless
      (is_negative tran.t_type
        || (same_string fs.pi_link tran.t_pinfo.pi_link
            && (not g.have_lchown || same_owner fs.pi_stat tran.t_pinfo.pi_stat)
            && (not g.have_lchmod || same_mode fs.pi_stat tran.t_pinfo.pi_stat)))
      fs status

-- case 'c' and case 'b': of a negative character device only the numbers count.
unfoldable pub compare_device : PathInfo → Tran → Verdict
unfolding same_owner same_mode same_rdev
compare_device fs tran =
    let a = fs.pi_stat in
    let b = tran.t_pinfo.pi_stat in
    report_unless
      (same_rdev a b
        && ((fs.pi_type == b'c') && is_negative tran.t_type || (same_owner a b && same_mode a b)))
      fs status

-- case 'h': a hard link is reported if its target is another, or has changed itself.
unfoldable pub compare_hard : PathInfo → Tran → World → Run Verdict
unfolding same_string
compare_hard fs tran w =
    if same_string fs.pi_link tran.t_pinfo.pi_link
    then (mark_link fs false w >>= λ r. ok (report_unless (not r.1) fs status))
    else ok (report fs status)

-- The switch; an unknown type is told on stderr only.
unfoldable pub compare_type : Settings → PathInfo → Tran → World → Run Verdict
unfolding compare_file compare_plain compare_link compare_device compare_hard
compare_type g fs tran w =
    let c = fs.pi_type in
    if (c == b'a') || (c == b'f')
    then compare_file g fs tran
    else (if (c == b'd') || (c == b'D') || (c == b'p') || (c == b's')
        then ok (compare_plain fs tran)
        else (if c == b'l'
            then ok (compare_link g fs tran)
            else (if c == b'h'
                then compare_hard fs tran w
                else (if (c == b'c') || (c == b'b')
                    then ok (compare_device fs tran)
                    else ok (quiet fs)))))

unfoldable pub print_verdict : Settings → Tran → Verdict → World → Run World
print_verdict g tran v w = elim v.flag [ none ↦ ok w | some f ↦ t_print g (some v.entry) tran f w ]

-- The names are the same.
unfoldable pub compare_same : Settings → PathInfo → Tran → World → Run (Move × World)
unfolding compare_type print_verdict
compare_same g fs tran w =
    if fs.pi_type == tran.t_pinfo.pi_type
    then (do v ← compare_type g fs tran w; w' ← print_verdict g tran v w; ok (move_both, w'))
    else (t_print g (some fs) tran download w >>= λ w'. ok (move_both, w'))

-- By the order of the names.
unfoldable pub by_order : Settings → PathInfo → Tran → World → Ordering → Run (Move × World)
unfolding compare_same
by_order g fs tran w Ordering.gt = t_print g (some fs) tran tran_only w >>= λ w'. ok (move_tran, w')
by_order g fs tran w Ordering.lt = t_print g (some fs) tran fs_only w >>= λ w'. ok (move_fs, w')
by_order g fs tran w Ordering.eq = compare_same g fs tran w

unfoldable pub t_compare : Settings → Option PathInfo → Tran → World → Run (Move × World)
unfolding by_order
t_compare g none tran w =
    if tran.t_eof
    then ok (move_fs, w)
    else (t_print g none tran tran_only w >>= λ w'. ok (move_tran, w'))
t_compare g (some fs) tran w = by_order g fs tran w (
    if tran.t_eof
    then Ordering.lt
    else sign (pathcasecmp fs.pi_name (tran.t_pinfo).pi_name g.case_sensitive))
