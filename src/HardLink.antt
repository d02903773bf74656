-- ===== src/HardLink.antt =====
-- hardlink.c: the first name seen for each inode of each device, in lists sorted by number.
-- Memory allocation is taken to succeed; a pointer into the device list is an index.
pub mod Table
pub mod Changed
mod Examples
use radmind.Base.{
  ℕ, zero, suc, ◌≡◌, Bool, true, false, List, [], ◌∷◌, Option, none, some, leb, ◌==◌, if◌then◌else◌,
  Bytes,
}
use mathlib.Core.Option

-- struct inolist, struct devlist
pub record Inode : Type 0 where
  pub ino : ℕ
  pub name : Bytes
  pub flag : Bool

pub record Device : Type 0 where
  pub dev : ℕ
  pub inodes : List Inode

-- The fields of struct pathinfo that the table reads.
pub record Link : Type 0 where
  pub st_dev : ℕ
  pub st_ino : ℕ
  pub pi_name : Bytes

abbrev pub cons_fst {ℓ κ} : {A : Type ℓ} {B : Type κ} → A → List A × B → List A × B
cons_fst x r = (x ∷ r.0, r.1)

abbrev pub next_index : List Device × ℕ → List Device × ℕ
next_index r = (r.0, suc r.1)

-- The list with the device in it, and the device's place.
unfoldable pub d_insert : List Device → ℕ → List Device × ℕ
d_insert [] st_dev = (record { dev = st_dev; inodes = [] } ∷ [], 0)
d_insert (d ∷ devs) st_dev =
    let later = d_insert devs st_dev in
    if leb st_dev d.dev
    then (if st_dev == d.dev
        then (d ∷ devs, 0)
        else (record { dev = st_dev; inodes = [] } ∷ d ∷ devs, 0))
    else next_index (cons_fst d later)

-- The inode list afterwards, and the name on record or NULL.
unfoldable pub i_insert : List Inode → Link → List Inode × Option Bytes
i_insert [] pinfo = (record { ino = pinfo.st_ino; name = pinfo.pi_name; flag = false } ∷ [], none)
i_insert (i ∷ inodes) pinfo =
    let later = i_insert inodes pinfo in
    if leb pinfo.st_ino i.ino
    then (if pinfo.st_ino == i.ino
        then (i ∷ inodes, some i.name)
        else (record { ino = pinfo.st_ino; name = pinfo.pi_name; flag = false } ∷ i ∷ inodes, none))
    else cons_fst i later

-- i_insert() through the pointer that d_insert() returned.
unfoldable pub i_insert_at : List Device → ℕ → Link → List Device × Option Bytes
unfolding i_insert
i_insert_at [] n pinfo = ([], none)
i_insert_at (d ∷ devs) zero pinfo =
    let r = i_insert d.inodes pinfo in (record d { inodes = r.0 } ∷ devs, r.1)
i_insert_at (d ∷ devs) (suc n) pinfo = cons_fst d (i_insert_at devs n pinfo)

-- `dev_head` is the state; the result is the first name of the inode, or NULL for a new one.
unfoldable pub hardlink : List Device → Link → List Device × Option Bytes
unfolding d_insert i_insert_at
hardlink dev_head pinfo =
    let device = d_insert dev_head pinfo.st_dev in i_insert_at device.0 device.1 pinfo

-- The second half of hardlink_changed(). `none` is exit( 2 ).
unfoldable pub i_changed : List Inode → ℕ → Bool → Option (List Inode × Bool)
i_changed [] st_ino set = none
i_changed (i ∷ inodes) st_ino set =
    let later = i_changed inodes st_ino set in
    if leb st_ino i.ino
    then (if st_ino == i.ino
        then (let i' = record i { flag = if set then true else i.flag } in
            some (i' ∷ inodes, i'.flag))
        else none)
    else Option.map (cons_fst i) later

unfoldable pub hardlink_changed : List Device → Link → Bool → Option (List Device × Bool)
unfolding i_changed
hardlink_changed [] pinfo set = none
hardlink_changed (d ∷ devs) pinfo set =
    let later = hardlink_changed devs pinfo set in
    if leb pinfo.st_dev d.dev
    then (if pinfo.st_dev == d.dev
        then Option.map (λ r. (record d { inodes = r.0 } ∷ devs, r.1))
            (i_changed d.inodes pinfo.st_ino set)
        else none)
    else Option.map (cons_fst d) later

-- The loop frees every device with all its inodes.
unfoldable pub hardlink_free : List Device → List Device
hardlink_free [] = []
hardlink_free (d ∷ devs) = hardlink_free devs
