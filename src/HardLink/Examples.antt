-- ===== src/HardLink/Examples.antt =====
-- The theorems on hard links at a table with two devices.

use mathlib.Core.Option
use radmind.Base.{
  ℕ, ◌≡◌, refl, true, false, List, [], ◌∷◌, Bytes, codes, ◌==◌, if◌then◌else◌, ◌&&◌, none, some,
  arith,
}
use radmind.HardLink.{Inode, Device, Link, hardlink, hardlink_changed}
use radmind.HardLink.Table.{
  find_ino, find_dev, entry, IsSorted, or_new, run_hardlinks, hardlink_lem, hardlink-first_name,
}
use radmind.HardLink.Changed.{marked, hardlink_changed_lem}

abbrev inode_7 : Inode
inode_7 = record { ino = 7; name = codes "./a"; flag = false }

abbrev devices : List Device
devices = record { dev = 1; inodes = inode_7 ∷ [] } ∷ record { dev = 4; inodes = [] } ∷ []

abbrev link : ℕ → ℕ → Bytes → Link
link dev ino name = record { st_dev = dev; st_ino = ino; pi_name = name }

hardlink_lem_example :
    IsSorted (hardlink devices (link 1 7 (codes "./b"))).0
    × ((hardlink devices (link 1 7 (codes "./b"))).1 ≡ Option.map (λ i. i.name) (entry devices 1 7))
    × (entry (hardlink devices (link 1 7 (codes "./b"))).0 4 7 ≡ (
        if (1 == 4) && (7 == 7)
        then or_new (link 1 7 (codes "./b")) (entry devices 4 7)
        else entry devices 4 7))
hardlink_lem_example = hardlink_lem devices (link 1 7 (codes "./b")) 4 7 (omega arith)

no_entry : entry devices 4 9 ≡ none
unfolding entry find_ino find_dev
no_entry = refl

inode_7-entry : entry devices 1 7 ≡ some inode_7
unfolding entry find_ino find_dev
inode_7-entry = refl

hardlink-first_name_example :
    ((hardlink devices (link 4 9 (codes "./x"))).1 ≡ none)
    × ((hardlink
          (run_hardlinks
            (hardlink devices (link 4 9 (codes "./x"))).0
            (link 2 9 (codes "./y") ∷ []))
          (link 4 9 (codes "./z"))).1
        ≡ some (codes "./x"))
hardlink-first_name_example =
    hardlink-first_name devices (link 4 9 (codes "./x")) (link 4 9 (codes "./z"))
      (link 2 9 (codes "./y") ∷ []) (omega arith) no_entry (refl, refl)

hardlink_changed_lem_example :
    (ds : List Device) × (hardlink_changed devices (link 1 7 (codes "./a")) true
      ≡ some (ds, (marked true inode_7).flag))
    × (entry ds 1 7
        ≡ (if (1 == 1) && (7 == 7) then some (marked true inode_7) else entry devices 1 7))
hardlink_changed_lem_example =
    hardlink_changed_lem devices (link 1 7 (codes "./a")) true inode_7 1 7 (omega arith)
      inode_7-entry
