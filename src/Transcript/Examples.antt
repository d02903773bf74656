-- ===== src/Transcript/Examples.antt =====
-- A comparison with one transcript, and its parts, at concrete values.
use radmind.Base.{
  inr, ℕ, ◌≡◌, ◌≢◌, ◌≤◌, ◌↔◌, ◌⊎◌, refl, true, false, [], ◌∷◌, none, some, List, Bytes, codes,
  arith, sign, Ordering,
}
use radmind.PathCmp.{pathcasecmp, ischildcase}
use radmind.CLibrary.{repeat, fgets, ends_line, to_u32, atoi_u32}
use radmind.ArgcArgv.{acav_parse}
use radmind.Code.{decode}
use radmind.Wildcard.{wildcard}
use radmind.PathList.{check_nodes}
use radmind.Transcript.Chain.{t_new}
use radmind.Transcript.Chain.Numbers.{IsDescending, empty, added, Reached-IsDescending}
use radmind.Transcript.{
  null_tran, PathInfo, positive, special, Tran, creatable, relative, out_of_fuel, ok, stop,
  Settings, World, empty_stat, empty_info,
}
use radmind.Transcript.Parse.{transcript_parse, convert_path_type}
use radmind.Transcript.Parse.Returns.{transcript_parse-sorted}
use radmind.Transcript.Select.{
  Place, whole, find_begin, first_place, t_exclude, total_weight, transcript_select,
}
use radmind.Transcript.Least.{IsLeast, find_begin-IsLeast}
use radmind.Transcript.Weight.{transcript_select-shown}
use radmind.Transcript.Compare.{move_both, t_compare}
use radmind.Transcript.Compare.Moves.{move_of, order_of, t_compare-move}
use radmind.Transcript.Compare.Silent.{IsSameFile, t_compare-silent_iff}
use radmind.Transcript.Walk.{Found, is_excluded, transcript}
use radmind.Transcript.Walk.Ends.{transcript-ne-out_of_fuel}

abbrev settings : Settings
settings = record {
  edit_path = creatable;
  tran_format = relative;
  case_sensitive = true;
  ignore_timestamps = false;
  cksum = false;
  transcript_shell_escapes = false;
  path_prefix = none;
  exclude_list = codes "./tmp*" ∷ [];
  special_list = [];
  have_lchown = true;
  have_lchmod = false;
  do_cksum = λ path. some (codes "sum");
  do_acksum = λ path. none;
  stale = λ i. 0;
}

abbrev entry : Bytes → PathInfo
entry name = record empty_info {
  pi_type = b'd';
  pi_name = name;
  pi_stat = record empty_stat { st_mode = 0x1ED };
}

abbrev tran : Bytes → Bytes → Tran
tran name input = record {
  t_pinfo = entry name;
  t_type = positive;
  t_num = 1;
  t_fullname = codes "base.T";
  t_shortname = codes "base.T";
  t_kfile = codes "base.K";
  t_linenum = 0;
  t_eof = false;
  t_in = input;
}

abbrev second : Tran
second = record (tran (codes "./bin") []) { t_linenum = 1 }

second_line :
    transcript_parse settings (tran (codes "./a") (codes "d ./bin\t0755 0 0\n")) ≡ ok second
unfolding transcript_parse fgets ends_line acav_parse decode convert_path_type pathcasecmp
    empty_info to_u32 atoi_u32 repeat
second_line = refl

transcript_parse-sorted_example :
    (second.t_pinfo ≡ entry (codes "./a")) × (second.t_eof ≡ true)
    ⊎ (sign (pathcasecmp (codes "./bin") (codes "./a") true) ≡ Ordering.gt)
transcript_parse-sorted_example =
    transcript_parse-sorted settings (tran (codes "./a") (codes "d ./bin\t0755 0 0\n")) second
      second_line

abbrev others : List Tran
others = tran (codes "./a") [] ∷ tran (codes "./a") [] ∷ []

find_begin-IsLeast_example :
    IsLeast settings (find_begin settings (first_place (tran (codes "./b") [])) others)
    × (whole (find_begin settings (first_place (tran (codes "./b") [])) others)
        ≡ tran (codes "./b") [] ∷ others)
find_begin-IsLeast_example =
    find_begin-IsLeast settings (tran (codes "./b") []) others (omega arith) (ground arith)

-- The second transcript has an entry for the same path, and is moved to its end.
abbrev selected : Place
selected = record {
  before = [];
  here = tran (codes "./a") [];
  after = record (tran (codes "./a") []) { t_eof = true } ∷ [];
}

selects : transcript_select settings others ≡ ok selected
unfolding transcript_select pathcasecmp transcript_parse fgets empty_info wildcard ischildcase
selects = refl

transcript_select-shown_example :
    (total_weight (whole selected) ≤ total_weight others)
    × ((false ≡ true)
        ⊎ (false ≡ false)
          × ((positive ≡ special) ⊎ (t_exclude settings (codes "./a") ≡ ok false))
          × (ischildcase (codes "./a") none true ≡ true))
unfolding empty_info
transcript_select-shown_example = transcript_select-shown settings others selected selects

abbrev world : World
world = record { trans = others; prev_tran = none; dev_head = []; outtran = []; fs_minus = true }

same_object :
    t_compare settings (some (entry (codes "./a"))) (tran (codes "./a") []) world
    ≡ ok (move_both, world)
unfolding t_compare pathcasecmp
same_object = refl

t_compare-move_example :
    move_both ≡ move_of (order_of true (some (entry (codes "./a"))) (tran (codes "./a") []))
t_compare-move_example =
    t_compare-move settings (some (entry (codes "./a"))) (tran (codes "./a") []) world world
      move_both (omega arith, omega arith) same_object

abbrev file : PathInfo
file = record (entry (codes "./f")) { pi_type = b'f' }

abbrev file_tran : Tran
file_tran = record (tran (codes "./f") []) { t_pinfo = file }

same_file : t_compare settings (some file) file_tran world ≡ ok (move_both, world)
unfolding t_compare pathcasecmp
same_file = refl

t_compare-silent_iff_example : (world.outtran ≡ world.outtran) ↔ IsSameFile settings file file_tran
t_compare-silent_iff_example =
    t_compare-silent_iff settings file file_tran world world move_both (inr refl) same_file

abbrev temporary : Found
temporary = record {
  path = codes "./tmp1";
  st = record empty_stat { st_mode = 0x41ED };
  type = b'd';
  finder_info = repeat 32 0;
  linked_to = none;
}

is_temporary : is_excluded settings temporary false ≡ ok true
unfolding is_excluded t_exclude wildcard check_nodes
is_temporary = refl

abbrev moved : World
moved = record world { trans = whole selected; fs_minus = false }

abbrev skipped : ℕ
skipped = 0

skips_temporary : transcript settings (some temporary) false world ≡ ok (skipped, moved)
unfolding transcript t_exclude wildcard check_nodes transcript_select pathcasecmp transcript_parse
    fgets empty_info ischildcase
skips_temporary = refl

transcript-ne-out_of_fuel_example : transcript settings none false world ≢ stop out_of_fuel
transcript-ne-out_of_fuel_example = transcript-ne-out_of_fuel settings none false world

-- The null transcript, and a transcript without a line in front of it.
abbrev null_one : Tran
null_one = record {
  t_pinfo = empty_info;
  t_type = null_tran;
  t_num = 0;
  t_fullname = [];
  t_shortname = [];
  t_kfile = [];
  t_linenum = 0;
  t_eof = true;
  t_in = [];
}

abbrev empty_one : Tran
empty_one = record {
  t_pinfo = empty_info;
  t_type = positive;
  t_num = 1;
  t_fullname = codes "base.T";
  t_shortname = codes "base.T";
  t_kfile = codes "base.K";
  t_linenum = 0;
  t_eof = true;
  t_in = [];
}

null_added : t_new settings null_tran [] [] [] none [] ≡ ok (null_one ∷ [])
unfolding t_new empty_info repeat
null_added = refl

one_added :
    t_new settings positive
      (codes "base.T")
      (codes "base.T")
      (codes "base.K")
      (some [])
      (null_one ∷ [])
    ≡ ok (empty_one ∷ null_one ∷ [])
unfolding t_new transcript_parse fgets empty_info repeat
one_added = refl

Reached-IsDescending_example : IsDescending (empty_one ∷ null_one ∷ [])
Reached-IsDescending_example = Reached-IsDescending settings (empty_one ∷ null_one ∷ []) (
    added positive (codes "base.T") (codes "base.T") (codes "base.K") (some []) (null_one ∷ [])
      (empty_one ∷ null_one ∷ []) one_added
      (added null_tran [] [] [] none [] (null_one ∷ []) null_added empty))
