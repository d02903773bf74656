-- ===== src/HardLink/Changed.antt =====
-- hardlink_changed(): the flag of an inode on record, and the exit for any other.
use mathlib.Core.Option
use mathlib.Core.Logic.{◌↔◌}
use radmind.Base.{
  ℕ, ◌+◌, ◌<◌, ◌≡◌, refl, Bool, true, ◌&&◌, List, [], ◌∷◌, ◌==◌, if◌then◌else◌, arith, none, some,
}
use radmind.HardLink.{Inode, Device, Link, i_changed, hardlink_changed}
use radmind.HardLink.Table.{
  find_ino, find_dev, entry, InodesFrom, DevicesFrom, IsSorted, find_ino-below, find_dev-below,
}

-- What `set` does to an inode.
abbrev pub marked : Bool → Inode → Inode
marked set i = record i { flag = if set then true else i.flag }

mark : Bool → ℕ → List Inode → List Inode
mark set ino [] = []
mark set ino (i ∷ is) = (if i.ino == ino then marked set i else i) ∷ mark set ino is

mark_dev : Bool → ℕ → ℕ → List Device → List Device
mark_dev set dev ino [] = []
mark_dev set dev ino (d ∷ ds) =
    (if d.dev == dev then record d { inodes = mark set ino d.inodes } else d)
    ∷ mark_dev set dev ino ds

mark-below :
    (set : Bool) (ino lo : ℕ) (is : List Inode) → InodesFrom lo is → ino < lo → mark set ino is ≡ is
unfolding mark
mark-below set ino lo [] h lt = refl
mark-below set ino lo (i ∷ is) h lt = ground (arith, mark-below set ino (i.ino + 1) is)

mark_dev-below :
    (set : Bool) (dev ino lo : ℕ) (ds : List Device)
    → DevicesFrom lo ds
    → dev < lo
    → mark_dev set dev ino ds ≡ ds
unfolding mark_dev
mark_dev-below set dev ino lo [] h lt = refl
mark_dev-below set dev ino lo (d ∷ ds) h lt =
    ground (arith, mark_dev-below set dev ino (d.dev + 1) ds)

i_changed_lem :
    (lo : ℕ) (is : List Inode) (ino : ℕ) (set : Bool)
    → InodesFrom lo is
    → i_changed is ino set
      ≡ Option.map (λ i. (mark set ino is, (marked set i).flag)) (find_ino ino is)
unfolding i_changed mark find_ino
i_changed_lem lo [] ino set h = refl
i_changed_lem lo (i ∷ is) ino set h = ground (
  arith,
  i_changed_lem (i.ino + 1) is ino set,
  find_ino-below ino (i.ino + 1) is,
  mark-below set ino (i.ino + 1) is,
)

find_ino-nil : (q : ℕ) → find_ino q [] ≡ none
unfolding find_ino
find_ino-nil q = refl

changed_found :
    (lo : ℕ) (ds : List Device) (pinfo : Link) (set : Bool)
    → DevicesFrom lo ds
    → hardlink_changed ds pinfo set
      ≡ Option.map
          (λ i. (mark_dev set pinfo.st_dev pinfo.st_ino ds, (marked set i).flag))
          (find_ino pinfo.st_ino (find_dev pinfo.st_dev ds))
unfolding hardlink_changed mark_dev find_dev
changed_found lo [] pinfo set h = unfold find_ino in refl
changed_found lo (d ∷ ds) pinfo set h = ground (
  arith,
  changed_found (d.dev + 1) ds pinfo set,
  find_dev-below pinfo.st_dev (d.dev + 1) ds,
  mark_dev-below set pinfo.st_dev pinfo.st_ino (d.dev + 1) ds,
  i_changed_lem 0 d.inodes pinfo.st_ino set,
  find_ino-nil pinfo.st_ino,
)

find_ino-mark :
    (set : Bool) (ino q : ℕ) (is : List Inode)
    → find_ino q (mark set ino is)
      ≡ (if ino == q then Option.map (marked set) (find_ino q is) else find_ino q is)
unfolding mark find_ino
find_ino-mark set ino q [] = ground arith
find_ino-mark set ino q (i ∷ is) = ground (arith, find_ino-mark set ino q is)

find_dev-mark_dev :
    (set : Bool) (dev ino q : ℕ) (ds : List Device)
    → find_dev q (mark_dev set dev ino ds)
      ≡ (if dev == q then mark set ino (find_dev q ds) else find_dev q ds)
unfolding mark_dev find_dev
find_dev-mark_dev set dev ino q [] = unfold mark in ground arith
find_dev-mark_dev set dev ino q (d ∷ ds) = ground (arith, find_dev-mark_dev set dev ino q ds)

-- hardlink_changed() exits exactly at an inode that is not on record.
pub hardlink_changed-none_iff :
    (ds : List Device) (pinfo : Link) (set : Bool)
    → IsSorted ds
    → (hardlink_changed ds pinfo set ≡ none) ↔ (entry ds pinfo.st_dev pinfo.st_ino ≡ none)
unfolding entry
hardlink_changed-none_iff ds pinfo set h = ground (arith, changed_found 0 ds pinfo set)

-- For an inode on record, hardlink_changed() returns the flag, set when `set` says so, and changes
-- nothing but that flag of that inode.
pub hardlink_changed_lem :
    (ds : List Device) (pinfo : Link) (set : Bool) (i : Inode) (dev ino : ℕ)
    → IsSorted ds
    → entry ds pinfo.st_dev pinfo.st_ino ≡ some i
    → (ds' : List Device) × (hardlink_changed ds pinfo set ≡ some (ds', (marked set i).flag))
      × (entry ds' dev ino ≡ (
          if (pinfo.st_dev == dev) && (pinfo.st_ino == ino)
          then some (marked set i)
          else entry ds dev ino))
unfolding entry
hardlink_changed_lem ds pinfo set i dev ino h e = (
  mark_dev set pinfo.st_dev pinfo.st_ino ds,
  ground (arith, changed_found 0 ds pinfo set),
  ground (
    arith,
    find_dev-mark_dev set pinfo.st_dev pinfo.st_ino dev ds,
    find_ino-mark set pinfo.st_ino ino (find_dev dev ds),
  ),
)
