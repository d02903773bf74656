-- ===== src/HardLink/Table.antt =====
-- The lists as a map from device and inode to the first name, and what the operations do to it.
use mathlib.Core.Option
use radmind.Base.{
  ℕ, ◌+◌, ◌≤◌, ◌<◌, ◌≡◌, refl, false, ◌&&◌, List, [], ◌∷◌, ◌==◌, if◌then◌else◌, arith, Option, none,
  some, ◌∙◌,
}
use radmind.HardLink.{Inode, Device, Link, d_insert, i_insert, i_insert_at, hardlink}

-- The map, with no use of the order.
unfoldable pub find_ino : ℕ → List Inode → Option Inode
find_ino q [] = none
find_ino q (i ∷ inodes) = if i.ino == q then some i else find_ino q inodes

unfoldable pub find_dev : ℕ → List Device → List Inode
find_dev q [] = []
find_dev q (d ∷ devs) = if d.dev == q then d.inodes else find_dev q devs

unfoldable pub entry : List Device → ℕ → ℕ → Option Inode
entry devs dev ino = find_ino ino (find_dev dev devs)

-- Numbers that rise strictly, from a bound on.
abbrev pub InodesFrom : ℕ → List Inode → Type 0
InodesFrom lo [] = Unit
InodesFrom lo (i ∷ inodes) = (lo ≤ i.ino) × InodesFrom (i.ino + 1) inodes

abbrev pub DevicesFrom : ℕ → List Device → Type 0
DevicesFrom lo [] = Unit
DevicesFrom lo (d ∷ devs) = (lo ≤ d.dev) × InodesFrom 0 d.inodes × DevicesFrom (d.dev + 1) devs

-- The invariant of the table.
abbrev pub IsSorted : List Device → Type 0
IsSorted = DevicesFrom 0

abbrev pub new_inode : Link → Inode
new_inode pinfo = record { ino = pinfo.st_ino; name = pinfo.pi_name; flag = false }

pub find_ino-below : (q lo : ℕ) (is : List Inode) → InodesFrom lo is → q < lo → find_ino q is ≡ none
unfolding find_ino
find_ino-below q lo [] h lt = refl
find_ino-below q lo (i ∷ is) h lt = ground (arith, find_ino-below q (i.ino + 1) is)

pub find_dev-below : (q lo : ℕ) (ds : List Device) → DevicesFrom lo ds → q < lo → find_dev q ds ≡ []
unfolding find_dev
find_dev-below q lo [] h lt = refl
find_dev-below q lo (d ∷ ds) h lt = ground (arith, find_dev-below q (d.dev + 1) ds)

i_insert-InodesFrom :
    (lo : ℕ) (is : List Inode) (pinfo : Link)
    → InodesFrom lo is
    → lo ≤ pinfo.st_ino
    → InodesFrom lo (i_insert is pinfo).0
unfolding i_insert
i_insert-InodesFrom lo [] pinfo h le = ground arith
i_insert-InodesFrom lo (i ∷ is) pinfo h le =
    ground (arith, i_insert-InodesFrom (i.ino + 1) is pinfo)

-- The old entry, or the new one.
abbrev pub or_new : Link → Option Inode → Option Inode
or_new pinfo none = some (new_inode pinfo)
or_new pinfo (some i) = some i

find_ino-i_insert :
    (lo : ℕ) (is : List Inode) (pinfo : Link) (q : ℕ)
    → InodesFrom lo is
    → find_ino q (i_insert is pinfo).0
      ≡ (if pinfo.st_ino == q then or_new pinfo (find_ino q is) else find_ino q is)
unfolding i_insert find_ino
find_ino-i_insert lo [] pinfo q h = ground arith
find_ino-i_insert lo (i ∷ is) pinfo q h =
    ground
      (arith, find_ino-i_insert (i.ino + 1) is pinfo q, find_ino-below pinfo.st_ino (i.ino + 1) is)

i_insert_result :
    (lo : ℕ) (is : List Inode) (pinfo : Link)
    → InodesFrom lo is
    → (i_insert is pinfo).1 ≡ Option.map (λ i. i.name) (find_ino pinfo.st_ino is)
unfolding i_insert find_ino
i_insert_result lo [] pinfo h = refl
i_insert_result lo (i ∷ is) pinfo h =
    ground (arith, i_insert_result (i.ino + 1) is pinfo, find_ino-below pinfo.st_ino (i.ino + 1) is)

find_dev-hardlink :
    (lo : ℕ) (ds : List Device) (pinfo : Link) (q : ℕ)
    → DevicesFrom lo ds
    → find_dev q (hardlink ds pinfo).0
      ≡ (if pinfo.st_dev == q then (i_insert (find_dev q ds) pinfo).0 else find_dev q ds)
unfolding d_insert i_insert_at hardlink find_dev
find_dev-hardlink lo [] pinfo q h = ground arith
find_dev-hardlink lo (d ∷ ds) pinfo q h =
    ground
      (arith, find_dev-hardlink (d.dev + 1) ds pinfo q, find_dev-below pinfo.st_dev (d.dev + 1) ds)

hardlink_result :
    (lo : ℕ) (ds : List Device) (pinfo : Link)
    → DevicesFrom lo ds
    → (hardlink ds pinfo).1 ≡ (i_insert (find_dev pinfo.st_dev ds) pinfo).1
unfolding d_insert i_insert_at hardlink find_dev
hardlink_result lo [] pinfo h = ground arith
hardlink_result lo (d ∷ ds) pinfo h =
    ground (arith, hardlink_result (d.dev + 1) ds pinfo, find_dev-below pinfo.st_dev (d.dev + 1) ds)

hardlink-DevicesFrom :
    (lo : ℕ) (ds : List Device) (pinfo : Link)
    → DevicesFrom lo ds
    → lo ≤ pinfo.st_dev
    → DevicesFrom lo (hardlink ds pinfo).0
unfolding d_insert i_insert_at hardlink
hardlink-DevicesFrom lo [] pinfo h le = ground (arith, i_insert-InodesFrom 0 [] pinfo)
hardlink-DevicesFrom lo (d ∷ ds) pinfo h le = ground (
  arith,
  hardlink-DevicesFrom (d.dev + 1) ds pinfo,
  i_insert-InodesFrom 0 d.inodes pinfo,
  i_insert-InodesFrom 0 [] pinfo,
)

pub find_dev-InodesFrom :
    (lo q : ℕ) (ds : List Device) → DevicesFrom lo ds → InodesFrom 0 (find_dev q ds)
unfolding find_dev
find_dev-InodesFrom lo q [] h = tt
find_dev-InodesFrom lo q (d ∷ ds) h = ground (arith, find_dev-InodesFrom (d.dev + 1) q ds)

-- hardlink() keeps the table sorted, returns the name on record for the inode, NULL when there is
-- none, and then records the given name: it changes the entry of no other inode, and never a name.
pub hardlink_lem :
    (ds : List Device) (pinfo : Link) (dev ino : ℕ)
    → IsSorted ds
    → IsSorted (hardlink ds pinfo).0
      × ((hardlink ds pinfo).1 ≡ Option.map (λ i. i.name) (entry ds pinfo.st_dev pinfo.st_ino))
      × (entry (hardlink ds pinfo).0 dev ino ≡ (
          if (pinfo.st_dev == dev) && (pinfo.st_ino == ino)
          then or_new pinfo (entry ds dev ino)
          else entry ds dev ino))
unfolding entry
hardlink_lem ds pinfo dev ino h = (
  hardlink-DevicesFrom 0 ds pinfo h (omega arith),
  hardlink_result 0 ds pinfo h
      ∙ i_insert_result 0 (find_dev pinfo.st_dev ds) pinfo
          (find_dev-InodesFrom 0 pinfo.st_dev ds h),
  ground (
    arith,
    find_dev-hardlink 0 ds pinfo dev,
    find_ino-i_insert 0 (find_dev dev ds) pinfo ino,
    find_dev-InodesFrom 0 dev ds h,
  ),
)

-- The second name of an inode is answered with the first, whatever other inodes came in between.
abbrev pub SameInode : Link → Link → Type 0
SameInode a b = (a.st_dev ≡ b.st_dev) × (a.st_ino ≡ b.st_ino)

pub run_hardlinks : List Device → List Link → List Device
run_hardlinks ds [] = ds
run_hardlinks ds (l ∷ ls) = run_hardlinks (hardlink ds l).0 ls

recorded_stays :
    (ds : List Device) (ls : List Link) (dev ino : ℕ) (i : Inode)
    → IsSorted ds
    → entry ds dev ino ≡ some i
    → IsSorted (run_hardlinks ds ls) × (entry (run_hardlinks ds ls) dev ino ≡ some i)
unfolding run_hardlinks
recorded_stays ds [] dev ino i h e = (h, e)
recorded_stays ds (l ∷ ls) dev ino i h e =
    let (sorted, _, reads) = hardlink_lem ds l dev ino h in
    recorded_stays (hardlink ds l).0 ls dev ino i sorted (ground arith)

-- From an empty record of an inode, its first name is answered with NULL, and every later name of
-- the same inode with the first name, whatever names were asked for in between.
pub hardlink-first_name :
    (ds : List Device) (first second : Link) (between : List Link)
    → IsSorted ds
    → entry ds first.st_dev first.st_ino ≡ none
    → SameInode first second
    → ((hardlink ds first).1 ≡ none)
      × ((hardlink (run_hardlinks (hardlink ds first).0 between) second).1 ≡ some first.pi_name)
hardlink-first_name ds first second between h absent same =
    let (sorted, result, reads) = hardlink_lem ds first first.st_dev first.st_ino h in
    let recorded : entry (hardlink ds first).0 first.st_dev first.st_ino ≡ some (new_inode first) =
      ground arith in
    let (sorted', stays) =
      recorded_stays (hardlink ds first).0 between first.st_dev first.st_ino (new_inode first)
        sorted recorded in
    let (_, result', _) =
      hardlink_lem (run_hardlinks (hardlink ds first).0 between) second 0 0 sorted' in
    (ground arith, result' ∙ rw (← same.0, ← same.1, stays))
