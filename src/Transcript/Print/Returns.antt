-- ===== src/Transcript/Print/Returns.antt =====
-- t_print() and t_compare() end.
use radmind.Base.{Bool, true, Option, none, some, Bytes, arith}
use radmind.Transcript.{PathInfo, Tran, Settings, World}
use radmind.Transcript.Print.{
  Flag, mark_link, remember_link, print_tran_name, choose, encoded, wanted_cksum, line_mtime,
  print_file, print_type, print_entry, t_print,
}
use radmind.Transcript.Runs.{Returns, bind-Returns}

pub mark_link-Returns : (fs : PathInfo) (set : Bool) (w : World) → Returns (mark_link fs set w)
unfolding mark_link
mark_link-Returns fs set w = ground arith

remember_link-Returns :
    (g : Settings) (fs : Option PathInfo) (w : World) → Returns (remember_link g fs w)
unfolding remember_link
remember_link-Returns g none w = ground arith
remember_link-Returns g (some fs) w = ground (arith, mark_link-Returns fs true w)

encoded-Returns : (g : Settings) (name : Bytes) → Returns (encoded g name)
unfolding encoded
encoded-Returns g name = ground arith

wanted_cksum-Returns :
    (g : Settings) (cur : PathInfo) (print_minus : Bool) → Returns (wanted_cksum g cur print_minus)
unfolding wanted_cksum
wanted_cksum-Returns g cur print_minus = ground arith

line_mtime-Returns :
    (fs : Option PathInfo) (cur : PathInfo) (flag : Flag) → Returns (line_mtime fs cur flag)
unfolding line_mtime
line_mtime-Returns fs cur flag = ground arith

print_file-Returns :
    (g : Settings) (fs : Option PathInfo) (cur : PathInfo) (flag : Flag) (print_minus : Bool)
    (epath : Bytes)
    → Returns (print_file g fs cur flag print_minus epath)
unfolding print_file
print_file-Returns g fs cur flag print_minus epath =
    bind-Returns _ _ (wanted_cksum-Returns g cur print_minus)
      (λ sum e. bind-Returns _ _ (line_mtime-Returns fs cur flag) (λ mtime e'. ground arith))

print_type-Returns :
    (g : Settings) (fs : Option PathInfo) (cur : PathInfo) (flag : Flag) (print_minus : Bool)
    (epath : Bytes)
    → Returns (print_type g fs cur flag print_minus epath)
unfolding print_type
print_type-Returns g fs cur flag print_minus epath =
    ground
      (arith, print_file-Returns g fs cur flag print_minus epath, encoded-Returns g cur.pi_link)

print_entry-Returns :
    (g : Settings) (fs : Option PathInfo) (flag : Flag) (chosen : Option PathInfo × Bool)
    (w : World)
    → Returns (print_entry g fs flag chosen w)
unfolding print_entry
print_entry-Returns g fs flag (none, print_minus) w = ground arith
print_entry-Returns g fs flag (some cur, print_minus) w =
    bind-Returns _ _ (encoded-Returns g cur.pi_name) (λ epath e.
      bind-Returns _ _ (print_type-Returns g fs cur flag print_minus epath)
        (λ line e'. ground arith))

pub t_print-Returns :
    (g : Settings) (fs : Option PathInfo) (tran : Tran) (flag : Flag) (w : World)
    → Returns (t_print g fs tran flag w)
unfolding t_print
t_print-Returns g fs tran flag w =
    bind-Returns _ _ (remember_link-Returns g fs w) (λ w' e.
      print_entry-Returns g fs flag (choose g fs tran flag) (print_tran_name g tran flag w'))
