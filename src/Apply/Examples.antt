-- ===== src/Apply/Examples.antt =====
-- A difference is applied to a system where every call is done, and the theorems at concrete inputs.
use Prim.Native.Nat.{bit_and}
use radmind.Base.{
  ◌≡◌, refl, true, false, ℕ, List, [], ◌∷◌, ◌++◌, ◌==◌, if◌then◌else◌, none, Bytes, codes, pos,
}
use radmind.CLibrary.{strtol, atoi_u32}
use radmind.CLibrary.Strings.{same_string}
use radmind.Transcript.{empty_stat}
use radmind.Apply.{looked, removed, unlinked, Lstat, is, is_enoent, done, State, Env, exited}
use radmind.Apply.Settled.{Settled}
use radmind.Apply.Main.{main}
use radmind.Apply.Removals.{clear}
use radmind.Apply.Cleared.{Leaves, removals, paths_onto, clear-Leaves}
use radmind.Apply.Update.{set_ids, octal}
use radmind.Apply.Download.{fill}
use radmind.Apply.Metadata.File.{metadata_in}
use radmind.Apply.Received.{Fills, IsWhole, IsVerified, content, bytes_of, fill-Fills}

-- The directory /a and the file /a/x.
abbrev found_at : Bytes → Lstat
unfolding same_string
found_at path =
    if same_string path (codes "/a")
    then is (record empty_stat { st_mode = 0x41ED })
    else (if same_string path (codes "/a/x")
        then is (record empty_stat { st_mode = 0x81A4 })
        else is_enoent)

abbrev system : Env
system = record {
  case_sensitive = true;
  force = false;
  cksum = true;
  create_prefix = false;
  have_lchown = true;
  have_lchmod = false;
  pid = 7;
  fclose_works = true;
  e_uid = 0;
  digest = λ text. text;
  lstat = λ events path. found_at path;
  stat = λ events path. none;
  answer = λ events e. done;
}

abbrev start : List Bytes → State
start input = record {
  special = false;
  network = false;
  change = false;
  prepath = [];
  transcript = [];
  targvline = λ i. 0;
  command = none;
  head = [];
  st = empty_stat;
  buf = λ i. 0;
  input = input;
  events = [];
}

-- The directory goes with its file, and a link is made.
abbrev difference : Bytes
difference = codes "- d /a 0755 0 0" ++ (b'\n' ∷ (codes "- f /a/x 0644 0 0 0 1 -" ++ (b'\n' ∷ [])))

-- A chown() that clears the set-id bits.
abbrev cleared : ℕ → ℕ
cleared m = if bit_and m set_ids == 0 then m else bit_and m 0x3FF

-- Eight words: the type, the path, the mode, the owner, the group, the time, the size, the checksum.
abbrev file_line : List Bytes
file_line =
    codes "f"
    ∷ codes "/b"
    ∷ codes "4755"
    ∷ codes "5"
    ∷ codes "0"
    ∷ codes "9"
    ∷ codes "3"
    ∷ codes "-"
    ∷ []

line_metadata : metadata_in file_line ≡ record { mode = 0x9ED; uid = 5; gid = 0 }
unfolding octal strtol atoi_u32
line_metadata = refl

fill-Fills_example :
    Fills system
      (codes "/b.radmind.7")
      (λ u t.
        (got : Bytes) × (IsWhole system (codes "/b.radmind.7") [] 3 got t
          × IsVerified system (codes "/b.radmind.7") (codes "YWJj") got))
      (fill system
        (codes "/b.radmind.7")
        (pos 3)
        (codes "YWJj")
        (start (codes "abc" ∷ codes "." ∷ [])))
unfolding content bytes_of
fill-Fills_example =
    fill-Fills system (codes "/b.radmind.7") (pos 3) (codes "YWJj")
      (start (codes "abc" ∷ codes "." ∷ []))

-- The file goes first, and then the directory.
applied :
    (main system difference (start [])).1.events
    ≡ removed (codes "/a")
      ∷ unlinked (codes "/a/x")
      ∷ looked (codes "/a/x")
      ∷ looked (codes "/a")
      ∷ []
unfolding main
applied = refl

-- A link is made, and its line ends the run.
linked_b : (main system (codes "l /b /a" ++ (b'\n' ∷ [])) (start [])).0 ≡ exited 0
unfolding main
linked_b = refl

-- A directory that a line with '-' has postponed is removed, an error follows, and the exit status is
-- still that of a system without a change.
exit_two :
    (main system (codes "- d /a 0755 0 0" ++ (b'\n' ∷ (codes "l /b" ++ (b'\n' ∷ [])))) (start [])).0
    ≡ exited 2
unfolding main
exit_two = refl

-- /a/b was postponed after /a.
abbrev postponed : State
postponed = record (start []) {
  head =
      record { path = codes "/a/b"; context = none }
      ∷ record { path = codes "/a"; context = none }
      ∷ [];
}

clear-Leaves_example : Leaves [] (codes "/a" ∷ codes "/a/b" ∷ []) (clear system postponed)
unfolding removals paths_onto
clear-Leaves_example = clear-Leaves system postponed

abbrev two_lines : List Bytes
two_lines = (codes "- d /a 0755 0 0" ++ b'\n' ∷ []) ∷ (codes "- d /a/b 0755 0 0" ++ b'\n' ∷ []) ∷ []
