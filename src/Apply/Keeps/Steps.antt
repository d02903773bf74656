-- ===== src/Apply/Keeps/Steps.antt =====
-- The steps of main() that only set a variable or test a line keep the removal list.
use radmind.Base.{refl, Bool, true, false, List, [], ◌∷◌, Bytes, ℕ}
use radmind.Apply.{broke, crashed}
use radmind.Apply.Stats.{Found, found, unknown, absent}
use radmind.Apply.Main.{
  set_targvline, set_command, set_transcript, set_special, ensure, check_line, name_transcript,
  known, take_sign,
}
use radmind.Apply.Keeps.{Keeps, Keeps-pure, Keeps-stop, Keeps-quiet, keeps_rules}

pub set_command-Keeps : (i : ℕ) → Keeps (set_command i)
unfolding set_command
set_command-Keeps i = Keeps-quiet _ (λ s. refl) (λ s. refl) (λ s. refl)

pub set_targvline-Keeps : (line : Bytes) → Keeps (set_targvline line)
unfolding set_targvline
set_targvline-Keeps line = Keeps-quiet _ (λ s. refl) (λ s. refl) (λ s. refl)

pub set_transcript-Keeps : (name : Bytes) → Keeps (set_transcript name)
unfolding set_transcript
set_transcript-Keeps name = Keeps-quiet _ (λ s. refl) (λ s. refl) (λ s. refl)

pub set_special-Keeps : (b : Bool) → Keeps (set_special b)
unfolding set_special
set_special-Keeps b = Keeps-quiet _ (λ s. refl) (λ s. refl) (λ s. refl)

pub ensure-Keeps : (b : Bool) → Keeps (ensure b)
unfolding ensure
ensure-Keeps true = Keeps-pure tt
ensure-Keeps false = Keeps-stop broke

pub check_line-Keeps : (line : Bytes) → Keeps (check_line line)
unfolding check_line
check_line-Keeps [] = Keeps-stop crashed
check_line-Keeps (c ∷ line) = search (keeps_rules, ensure-Keeps) depth 16

pub name_transcript-Keeps : (w : Bytes) → Keeps (name_transcript w)
unfolding name_transcript
name_transcript-Keeps w =
    search (keeps_rules, set_transcript-Keeps, ensure-Keeps, set_special-Keeps) depth 16

pub known-Keeps : (a : Found) → Keeps (known a)
unfolding known
known-Keeps (found t) = search keeps_rules depth 16
known-Keeps unknown = search keeps_rules depth 16
known-Keeps absent = search keeps_rules depth 16
known-Keeps Found.failed = search keeps_rules depth 16

pub take_sign-Keeps : (tline : Bytes) (argv : List Bytes) → Keeps (take_sign tline argv)
unfolding take_sign
take_sign-Keeps tline [] = Keeps-stop crashed
take_sign-Keeps tline (w ∷ argv) = search (keeps_rules, ensure-Keeps, set_command-Keeps) depth 16
