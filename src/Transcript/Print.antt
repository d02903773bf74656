-- ===== src/Transcript/Print.antt =====
-- t_print(): a line of the difference between the filesystem and the transcripts.
pub mod Returns
pub mod Growth
use Prim.Native.Nat.{bit_and}
use radmind.Base.{
  ℕ, ◌+◌, ◌≤◌, ◌<◌, Bool, true, false, not, ◌&&◌, ◌||◌, List, [], ◌∷◌, ◌++◌, Option, none, some,
  ltb, leb, ◌==◌, if◌then◌else◌, Bytes, peek, ℤ, codes,
}
use radmind.CLibrary.{signed, unsigned, pad_left, pad_right, octal_4, int_of_u32}
use radmind.Code.{Coded, value, null, overrun, overread, encode_internal}
use radmind.HardLink.{Device, Link, hardlink_changed}
use radmind.Transcript.{
  Stat, PathInfo, Tran, EditPath, applicable, creatable, Stop, path_too_long, unknown_type,
  cksum_failed, link_not_found, null_pointer, memory_fault, Run, ok, stop, ◌>>=◌, Settings, World,
  t_mode, is_applicable,
}

-- PR_TRAN_ONLY, PR_FS_ONLY, PR_DOWNLOAD, PR_STATUS, PR_STATUS_NEG
pub data Flag : Type 0 where
  tran_only fs_only download status status_neg status_minus : Flag

abbrev pub is_tran_only : Flag → Bool
is_tran_only tran_only = true
is_tran_only _ = false

abbrev pub is_fs_only : Flag → Bool
is_fs_only fs_only = true
is_fs_only _ = false

abbrev pub is_download : Flag → Bool
is_download download = true
is_download _ = false

abbrev pub is_status_neg : Flag → Bool
is_status_neg status_neg = true
is_status_neg _ = false

abbrev pub is_status_minus : Flag → Bool
is_status_minus status_minus = true
is_status_minus _ = false

abbrev pub print : Bytes → World → World
print s w = record w { outtran = w.outtran ++ s }

abbrev pub link_of : PathInfo → Link
link_of pi = record { st_dev = pi.pi_stat.st_dev; st_ino = pi.pi_stat.st_ino; pi_name = pi.pi_name }

abbrev pub changed_world : World → Option (List Device × Bool) → Run (World × Bool)
changed_world w none = stop link_not_found
changed_world w (some (devs, flag)) = ok (record w { dev_head = devs }, flag)

-- hardlink_changed(), which exits for an inode that hardlink() has not seen.
unfoldable pub mark_link : PathInfo → Bool → World → Run (World × Bool)
mark_link fs set w = changed_world w (hardlink_changed w.dev_head (link_of fs) set)

-- With -A, a file with several links is remembered as changed.
unfoldable pub remember_link : Settings → Option PathInfo → World → Run World
unfolding mark_link
remember_link g none w = ok w
remember_link g (some fs) w =
    if is_applicable g.edit_path
      && not (fs.pi_type == b'd')
      && not (fs.pi_type == b'h')
      && ltb 1 fs.pi_stat.st_nlink
    then (mark_link fs true w >>= λ r. ok r.0)
    else ok w

same_tran : Option ℕ → ℕ → Bool
same_tran none n = false
same_tran (some m) n = m == n

-- The name of the transcript, when it is not that of the last line.
unfoldable pub print_tran_name : Settings → Tran → Flag → World → World
unfolding same_tran
print_tran_name g tran flag w =
    if is_applicable g.edit_path
      && (is_tran_only flag || is_download flag || is_status_neg flag)
      && not (same_tran w.prev_tran tran.t_num)
    then print (tran.t_shortname ++ codes ":\n") (record w { prev_tran = some tran.t_num })
    else w

-- Which of the two is printed, and whether as a removal.
unfoldable pub choose : Settings → Option PathInfo → Tran → Flag → Option PathInfo × Bool
choose g fs tran flag =
    if is_applicable g.edit_path
    then (if is_fs_only flag then (fs, true) else (some tran.t_pinfo, false))
    else (if is_tran_only flag || (elim fs [ none ↦ false | some p ↦ p.pi_type == b'X' ])
        then (some tran.t_pinfo, true)
        else (fs, false))

unfoldable pub encoded : Settings → Bytes → Run Bytes
encoded g name = elim (encode_internal name g.transcript_shell_escapes) [
  | value e ↦ ok e
  | null ↦ stop path_too_long
  | overrun ↦ stop memory_fault
  | overread ↦ stop memory_fault
]

-- "%c %-37s\t"
unfoldable pub print_name : PathInfo → Bytes → Bytes
unfolding pad_right
print_name cur epath = cur.pi_type ∷ b' ' ∷ (pad_right 37 epath ++ b'\t' ∷ [])

-- "%.4lo %5d %5d"
unfoldable pub print_owner : PathInfo → Bytes
unfolding octal_4 pad_left signed int_of_u32
print_owner cur =
    octal_4 (bit_and t_mode cur.pi_stat.st_mode)
    ++ (b' '
        ∷ (pad_left 5 (signed (int_of_u32 cur.pi_stat.st_uid))
            ++ (b' ' ∷ pad_left 5 (signed (int_of_u32 cur.pi_stat.st_gid)))))

-- The checksum of a file of the filesystem, where it is wanted and not known yet.
unfoldable pub wanted_cksum : Settings → PathInfo → Bool → Run Bytes
wanted_cksum g cur print_minus =
    if (peek cur.pi_cksum_b64 == b'-') && g.cksum && not print_minus
    then (elim (if cur.pi_type == b'f' then g.do_cksum cur.pi_name else g.do_acksum cur.pi_name) [
      | some sum ↦ ok sum
      | none ↦ stop cksum_failed
    ])
    else ok cur.pi_cksum_b64

-- The time of a line with PR_STATUS_NEG is that of the file.
line_mtime : Option PathInfo → PathInfo → Flag → Run ℤ
line_mtime fs cur flag =
    if is_status_neg flag
    then (elim fs [ some p ↦ ok p.pi_stat.st_mtime | none ↦ stop null_pointer ])
    else ok cur.pi_stat.st_mtime

unfoldable pub print_file : Settings → Option PathInfo → PathInfo → Flag → Bool → Bytes → Run Bytes
unfolding print_name print_owner wanted_cksum line_mtime
print_file g fs cur flag print_minus epath = do
  sum ← wanted_cksum g cur print_minus
  mtime ← line_mtime fs cur flag
  let plus =
      if is_applicable g.edit_path && (is_tran_only flag || is_download flag)
      then codes "+ "
      else []
  ok (
      plus
      ++ (print_name cur epath
          ++ (print_owner cur
              ++ (b' '
                  ∷ (pad_left 9 (signed mtime)
                      ++ (b' '
                          ∷ (pad_left 7 (signed cur.pi_stat.st_size)
                              ++ (b' ' ∷ (sum ++ b'\n' ∷ [])))))))))

-- The switch on the type: the line behind the signs.
unfoldable pub print_type : Settings → Option PathInfo → PathInfo → Flag → Bool → Bytes → Run Bytes
unfolding print_file encoded
print_type g fs cur flag print_minus epath =
    let c = cur.pi_type in
    if (c == b's') || (c == b'D') || (c == b'p') || (c == b'd')
    then ok (print_name cur epath ++ (print_owner cur ++ b'\n' ∷ []))
    else (if c == b'l'
        then (encoded g cur.pi_link >>= λ target.
            ok (print_name cur epath ++ (print_owner cur ++ (b' ' ∷ (target ++ b'\n' ∷ [])))))
        else (if c == b'h'
            then (encoded g cur.pi_link >>= λ target.
                ok (print_name cur epath ++ (target ++ b'\n' ∷ [])))
            else (if (c == b'a') || (c == b'f')
                then print_file g fs cur flag print_minus epath
                else (if (c == b'c') || (c == b'b')
                    then ok (
                        print_name cur epath
                        ++ (print_owner cur
                            ++ (b' '
                                ∷ (pad_left 5 (signed (int_of_u32 cur.pi_stat.st_rdev.0))
                                    ++ (b' '
                                        ∷ (pad_left 5 (signed (int_of_u32 cur.pi_stat.st_rdev.1))
                                            ++ b'\n' ∷ []))))))
                    else stop unknown_type))))

-- A removal sets fs_minus, so that a parent knows it.
unfoldable pub print_signs : Settings → Flag → Bool → World → World
print_signs g flag print_minus w =
    let w' =
      if is_applicable g.edit_path && is_status_minus flag && not print_minus
      then print (codes "- ") w
      else w in
    if print_minus then print (codes "- ") (record w' { fs_minus = true }) else w'

print_entry : Settings → Option PathInfo → Flag → Option PathInfo × Bool → World → Run World
unfolding encoded print_signs print_type
print_entry g fs flag (none, print_minus) w = stop null_pointer
print_entry g fs flag (some cur, print_minus) w = do
  let w' = print_signs g flag print_minus w
  epath ← encoded g cur.pi_name
  line ← print_type g fs cur flag print_minus epath
  ok (print line w')

unfoldable pub t_print : Settings → Option PathInfo → Tran → Flag → World → Run World
unfolding remember_link print_tran_name choose print_entry
t_print g fs tran flag w = do
  w' ← remember_link g fs w
  print_entry g fs flag (choose g fs tran flag) (print_tran_name g tran flag w')
