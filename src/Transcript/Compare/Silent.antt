-- ===== src/Transcript/Compare/Silent.antt =====
-- The objects that t_compare() prints nothing about.
use radmind.Base.{
  ◌≡◌, ◌↔◌, Bool, true, false, none, some, Option, Bytes, arith, Option-cases, Bool-cases, ==_iff,
  inl, inr, ◌⊎◌, ℕ, ap, refl, length, sign, Ordering, if◌then◌else◌, ◌==◌, ◌||◌,
}
use radmind.PathCmp.{pathcasecmp}
use radmind.Transcript.{PathInfo, Tran, ok, ◌>>=◌, Settings, World, is_negative}
use radmind.Transcript.Runs.{bind-ok}
use radmind.Transcript.Print.{Flag, tran_only, fs_only, download, t_print}
use radmind.Transcript.Print.Growth.{t_print-length}
use radmind.Transcript.Compare.{
  Move, move_tran, move_fs, move_both, Verdict, int_eq, same_owner, same_mode, same_string,
  file_status, file_times, file_cksum, compare_file, compare_type, print_verdict, compare_same,
  by_order, t_compare,
}

-- The contents are the same as far as the transcript's settings compare them.
abbrev pub SameContents : Settings → PathInfo → Tran → Type 0
SameContents g fs tran =
    (int_eq fs.pi_stat.st_size tran.t_pinfo.pi_stat.st_size ≡ true)
    × ((g.ignore_timestamps ≡ true)
        ⊎ (int_eq fs.pi_stat.st_mtime tran.t_pinfo.pi_stat.st_mtime ≡ true))
    × ((g.cksum ≡ false)
        ⊎ ((sum : Bytes) × (file_cksum g fs ≡ some sum)
            × (same_string sum tran.t_pinfo.pi_cksum_b64 ≡ true)))

abbrev pub SameStatus : PathInfo → Tran → Type 0
SameStatus fs tran =
    (same_owner fs.pi_stat tran.t_pinfo.pi_stat ≡ true)
    × (same_mode fs.pi_stat tran.t_pinfo.pi_stat ≡ true)

file_status-none_iff :
    (g : Settings) (fs : PathInfo) (tran : Tran)
    → ((file_status g fs tran).flag ≡ none) ↔ SameStatus fs tran
unfolding file_status
file_status-none_iff g fs tran = (λ h. ground arith, λ h. ground arith)

abbrev SameTimes : Settings → PathInfo → Tran → Type 0
SameTimes g fs tran =
    (g.ignore_timestamps ≡ true) ⊎ (int_eq fs.pi_stat.st_mtime tran.t_pinfo.pi_stat.st_mtime ≡ true)

file_times-none_iff :
    (g : Settings) (fs : PathInfo) (tran : Tran)
    → ((file_times g fs tran).flag ≡ none) ↔ SameTimes g fs tran × SameStatus fs tran
unfolding file_times
file_times-none_iff g fs tran =
    let status = file_status-none_iff g fs tran in (λ h. ground arith, λ h. ground arith)

compare_file-silent_iff :
    (g : Settings) (fs : PathInfo) (tran : Tran) (v : Verdict)
    → compare_file g fs tran ≡ ok v
    → (v.flag ≡ none)
      ↔ SameStatus fs tran × ((is_negative tran.t_type ≡ true) ⊎ SameContents g fs tran)
unfolding compare_file
compare_file-silent_iff g fs tran v h =
    let status = file_status-none_iff g fs tran in
    let times = file_times-none_iff g fs tran in
    elim (Option-cases (file_cksum g fs)) [
      | inl failed ↦ (λ e. ground arith, λ e. ground arith)
      | inr (sum, found) ↦
          let times' = file_times-none_iff g (record fs { pi_cksum_b64 = sum }) tran in
          (λ e. ground arith, λ e. ground arith)
    ]

print_verdict-none_iff :
    (g : Settings) (tran : Tran) (v : Verdict) (w w' : World)
    → print_verdict g tran v w ≡ ok w'
    → (w'.outtran ≡ w.outtran) ↔ (v.flag ≡ none)
unfolding print_verdict
print_verdict-none_iff g tran v w w' h = elim (Option-cases v.flag) [
  | inl e ↦ let same_world : ok w ≡ ok w' = rw e at h in (λ same. e, λ none_flag. cc)
  | inr (f, e) ↦
      let longer = t_print-length g (some v.entry) tran f w w' (rw e at h) in
      (λ same. absurd (omega (arith, longer, ap length same)), λ none_flag. absurd (cc))
]

-- The order that t_compare() goes by.
abbrev pub order_with : Settings → PathInfo → Tran → Ordering
order_with g fs tran =
    if tran.t_eof
    then Ordering.lt
    else sign (pathcasecmp fs.pi_name tran.t_pinfo.pi_name g.case_sensitive)

abbrev pub IsSameFile : Settings → PathInfo → Tran → Type 0
IsSameFile g fs tran =
    (order_with g fs tran ≡ Ordering.eq)
    × (fs.pi_type ≡ tran.t_pinfo.pi_type)
    × SameStatus fs tran
    × ((is_negative tran.t_type ≡ true) ⊎ SameContents g fs tran)

-- What is printed makes the output longer.
printed-differs :
    {P : Type 0} (g : Settings) (fs : Option PathInfo) (tran : Tran) (f : Flag) (m n : Move)
    (w w' : World)
    → ((◌>>=◌ {B = Move × World}) (t_print g fs tran f w) (λ x. ok (m, x))) ≡ ok (n, w')
    → w'.outtran ≡ w.outtran
    → P
printed-differs g fs tran f m n w w' h same =
    let (x, printed, last) = bind-ok (t_print g fs tran f w) (λ x. ok (m, x)) (n, w') h in
    let e : x ≡ w' = cc in
    let longer = t_print-length g fs tran f w w' (rw e at printed) in
    absurd (omega (arith, longer, ap length same))

is_file_test : (c : ℕ) → ((c ≡ b'a') ⊎ (c ≡ b'f')) → ((c == b'a') || (c == b'f')) ≡ true
is_file_test c (inl e) = ground arith
is_file_test c (inr e) = ground arith

is_true_branch :
    {A : Type 0} (b : Bool) (x y : A) {z : A} → b ≡ true → (if b then x else y) ≡ z → x ≡ z
is_true_branch b x y e h = rw e at h

file_verdict :
    (g : Settings) (fs : PathInfo) (tran : Tran) (w : World) (v : Verdict)
    → ((fs.pi_type ≡ b'a') ⊎ (fs.pi_type ≡ b'f'))
    → compare_type g fs tran w ≡ ok v
    → compare_file g fs tran ≡ ok v
unfolding compare_type
file_verdict g fs tran w v is_file h = is_true_branch _ _ _ (is_file_test fs.pi_type is_file) h

compare_same-silent_iff :
    (g : Settings) (fs : PathInfo) (tran : Tran) (w w' : World) (m : Move)
    → ((fs.pi_type ≡ b'a') ⊎ (fs.pi_type ≡ b'f'))
    → compare_same g fs tran w ≡ ok (m, w')
    → (w'.outtran ≡ w.outtran)
      ↔ (fs.pi_type ≡ tran.t_pinfo.pi_type)
        × SameStatus fs tran
        × ((is_negative tran.t_type ≡ true) ⊎ SameContents g fs tran)
unfolding compare_same
compare_same-silent_iff g fs tran w w' m is_file h =
    elim (Bool-cases (fs.pi_type == tran.t_pinfo.pi_type)) [
      | inl b ↦
          let (v, compared, rest) = bind-ok (compare_type g fs tran w) _ (m, w') (rw b at h) in
          let (x, printed, last) = bind-ok (print_verdict g tran v w) _ (m, w') rest in
          let e : x ≡ w' = cc in
          let shown = print_verdict-none_iff g tran v w w' (rw e at printed) in
          let same_fields =
            compare_file-silent_iff g fs tran v (file_verdict g fs tran w v is_file compared) in
          (
            λ silent. let t = same_fields.0 (shown.0 silent) in ((==_iff _ _).0 b, t.0, t.1),
            λ same. shown.1 (same_fields.1 (same.1, same.2)),
          )
      | inr b ↦ (
        printed-differs g (some fs) tran download move_both m w w' (rw b at h),
        λ same. ground (arith, (==_iff _ _).1 same.0),
      )
    ]

by_order-silent_iff :
    (o : Ordering) (g : Settings) (fs : PathInfo) (tran : Tran) (w w' : World) (m : Move)
    → ((fs.pi_type ≡ b'a') ⊎ (fs.pi_type ≡ b'f'))
    → by_order g fs tran w o ≡ ok (m, w')
    → (w'.outtran ≡ w.outtran)
      ↔ (o ≡ Ordering.eq)
        × (fs.pi_type ≡ tran.t_pinfo.pi_type)
        × SameStatus fs tran
        × ((is_negative tran.t_type ≡ true) ⊎ SameContents g fs tran)
unfolding by_order
by_order-silent_iff Ordering.lt g fs tran w w' m is_file h =
    (printed-differs g (some fs) tran fs_only move_fs m w w' h, λ same. absurd (cc))
by_order-silent_iff Ordering.gt g fs tran w w' m is_file h =
    (printed-differs g (some fs) tran tran_only move_tran m w w' h, λ same. absurd (cc))
by_order-silent_iff Ordering.eq g fs tran w w' m is_file h =
    let same_fields = compare_same-silent_iff g fs tran w w' m is_file h in
    (
      λ silent. let t = same_fields.0 silent in (refl, t.0, t.1, t.2),
      λ same. same_fields.1 (same.1, same.2, same.3),
    )

-- For a file or an applefile of the filesystem, where t_compare() returns: it has printed nothing
-- exactly if the transcript is not at its end and its entry has the same path, the same type, owner,
-- group and mode, and, unless the transcript is negative, the same size, the same time unless times are
-- ignored, and the same checksum if checksums are on.
pub t_compare-silent_iff :
    (g : Settings) (fs : PathInfo) (tran : Tran) (w w' : World) (m : Move)
    → ((fs.pi_type ≡ b'a') ⊎ (fs.pi_type ≡ b'f'))
    → t_compare g (some fs) tran w ≡ ok (m, w')
    → (w'.outtran ≡ w.outtran) ↔ IsSameFile g fs tran
unfolding t_compare
t_compare-silent_iff g fs tran w w' m is_file h =
    by_order-silent_iff (order_with g fs tran) g fs tran w w' m is_file h
