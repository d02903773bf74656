-- ===== src/Transcript/Print/Growth.antt =====
-- t_print() prints a line whenever it returns.
use mathlib.Core.Path.{subst}
use radmind.Base.{
  ◌≤◌, ◌<◌, ◌≡◌, refl, ℕ, Bool, true, false, List, ◌∷◌, ◌++◌, Option, none, some, Bytes, length,
  codes, arith, if◌then◌else◌, ◌||◌, ◌==◌, length-append,
}
use radmind.HardLink.{Device, hardlink_changed}
use radmind.Transcript.{
  PathInfo, Tran, Stop, link_not_found, null_pointer, unknown_type, Run, ok, stop, ◌>>=◌, Settings,
  World,
}
use radmind.Transcript.Print.{
  Flag, print, link_of, changed_world, mark_link, remember_link, print_tran_name, encoded,
  wanted_cksum, line_mtime, print_name, print_file, print_type, print_signs, print_entry, t_print,
}
use radmind.Transcript.Runs.{bind-ok}

-- What the result is, if there is one.
abbrev Gives {ℓ} : {A : Type 0} (R : A → Type ℓ) → Run A → Type ℓ
Gives R x = (a : _) → x ≡ ok a → R a

ok-Gives {ℓ} : {A : Type 0} (R : A → Type ℓ) (a : A) → R a → Gives R (ok a)
ok-Gives R a h b e = subst R (cc) h

stop-Gives {ℓ} : {A : Type 0} (R : A → Type ℓ) (e : Stop) → Gives R (stop e)
stop-Gives R e a h = absurd (ground arith)

if-Gives {ℓ} :
    {A : Type 0} (R : A → Type ℓ) (b : Bool) (x y : Run A)
    → Gives R x
    → Gives R y
    → Gives R (if b then x else y)
if-Gives R true x y hx hy = hx
if-Gives R false x y hx hy = hy

bind-Gives {ℓ} :
    {A B : Type 0} (R : B → Type ℓ) (x : Run A) (f : A → Run B)
    → ((a : A) → Gives R (f a))
    → Gives R (x >>= f)
bind-Gives R x f h b e = let (a, ea, eb) = bind-ok x f b e in h a b eb

append_longer : (xs ys : Bytes) (c : ℕ) → 0 < length (xs ++ c ∷ ys)
append_longer xs ys c = omega (arith, length-append xs (c ∷ ys))

abbrev IsLine : Bytes → Type 0
IsLine line = 0 < length line

cons_printed : (c : ℕ) (xs : Bytes) → Gives IsLine (ok (c ∷ xs))
cons_printed c xs = ok-Gives IsLine (c ∷ xs) (omega arith)

print_file-IsLine :
    (g : Settings) (fs : Option PathInfo) (cur : PathInfo) (flag : Flag) (minus : Bool)
    (epath : Bytes)
    → Gives IsLine (print_file g fs cur flag minus epath)
unfolding print_file print_name
print_file-IsLine g fs cur flag minus epath = bind-Gives IsLine (wanted_cksum g cur minus) _ (λ sum.
    bind-Gives IsLine (line_mtime fs cur flag) _ (λ mtime. ok-Gives IsLine _ (append_longer _ _ _)))

print_type-IsLine :
    (g : Settings) (fs : Option PathInfo) (cur : PathInfo) (flag : Flag) (minus : Bool)
    (epath : Bytes)
    → Gives IsLine (print_type g fs cur flag minus epath)
unfolding print_type print_name
print_type-IsLine g fs cur flag minus epath =
    let c = cur.pi_type in
    if-Gives IsLine ((c == b's') || (c == b'D') || (c == b'p') || (c == b'd')) _ _
      (cons_printed _ _)
      (if-Gives IsLine (c == b'l') _ _
        (bind-Gives IsLine (encoded g cur.pi_link) _ (λ t. cons_printed _ _))
        (if-Gives IsLine (c == b'h') _ _
          (bind-Gives IsLine (encoded g cur.pi_link) _ (λ t. cons_printed _ _))
          (if-Gives IsLine ((c == b'a') || (c == b'f')) _ _
            (print_file-IsLine g fs cur flag minus epath)
            (if-Gives IsLine ((c == b'c') || (c == b'b')) _ _ (cons_printed _ _)
              (stop-Gives IsLine unknown_type)))))

abbrev SameOutput : World → World → Type 0
SameOutput w w' = length w'.outtran ≡ length w.outtran

changed_world-SameOutput :
    (w : World) (o : Option (List Device × Bool))
    → Gives (SameOutput w) (changed_world w o >>= λ r. ok r.0)
changed_world-SameOutput w none = stop-Gives (SameOutput w) link_not_found
changed_world-SameOutput w (some (devs, flag)) =
    ok-Gives (SameOutput w) (record w { dev_head = devs }) refl

remember_link-SameOutput :
    (g : Settings) (fs : Option PathInfo) (w : World) → Gives (SameOutput w) (remember_link g fs w)
unfolding remember_link mark_link
remember_link-SameOutput g none w = ok-Gives (SameOutput w) w refl
remember_link-SameOutput g (some fs) w =
    if-Gives (SameOutput w) _ _ _
      (changed_world-SameOutput w (hardlink_changed w.dev_head (link_of fs) true))
      (ok-Gives (SameOutput w) w refl)

print_tran_name-length :
    (g : Settings) (tran : Tran) (flag : Flag) (w : World)
    → length w.outtran ≤ length (print_tran_name g tran flag w).outtran
unfolding print_tran_name
print_tran_name-length g tran flag w =
    ground (arith, length-append w.outtran (tran.t_shortname ++ codes ":\n"))

print_signs-length :
    (g : Settings) (flag : Flag) (minus : Bool) (w : World)
    → length w.outtran ≤ length (print_signs g flag minus w).outtran
unfolding print_signs
print_signs-length g flag minus w = ground (arith, length-append w.outtran (codes "- "))

abbrev LongerOutput : World → World → Type 0
LongerOutput w w' = length w.outtran < length w'.outtran

print_entry-LongerOutput :
    (g : Settings) (fs : Option PathInfo) (flag : Flag) (chosen : Option PathInfo × Bool)
    (w : World)
    → Gives (LongerOutput w) (print_entry g fs flag chosen w)
unfolding print_entry
print_entry-LongerOutput g fs flag (none, minus) w = stop-Gives (LongerOutput w) null_pointer
print_entry-LongerOutput g fs flag (some cur, minus) w =
    bind-Gives (LongerOutput w) (encoded g cur.pi_name) _ (λ epath a e.
      let (line, printed, last) =
        bind-ok (print_type g fs cur flag minus epath)
          (λ line. ok (print line (print_signs g flag minus w))) a e in
      ok-Gives (LongerOutput w) (print line (print_signs g flag minus w))
        (omega (
          arith,
          print_signs-length g flag minus w,
          print_type-IsLine g fs cur flag minus epath line printed,
          length-append (print_signs g flag minus w).outtran line,
        ))
        a last)

-- What t_print() leaves in the output is longer than what it finds there.
pub t_print-length :
    (g : Settings) (fs : Option PathInfo) (tran : Tran) (flag : Flag) (w w' : World)
    → t_print g fs tran flag w ≡ ok w'
    → length w.outtran < length w'.outtran
unfolding t_print
t_print-length g fs tran flag w w' h =
    let (t, remembered, printed) = bind-ok (remember_link g fs w) _ w' h in
    omega (
      arith,
      remember_link-SameOutput g fs w t remembered,
      print_tran_name-length g tran flag t,
      print_entry-LongerOutput g fs flag _ (print_tran_name g tran flag t) w' printed,
    )
