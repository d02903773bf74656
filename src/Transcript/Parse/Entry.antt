-- ===== src/Transcript/Parse/Entry.antt =====
-- The words of a line end as an entry whose path is behind that of the entry before.
use radmind.Base.{
  ℕ, ◌-◌, ◌≡◌, ◌≢◌, refl, Bool, true, false, List, Option, none, some, ◌==◌, Bytes, length, sign,
  Ordering, arith, leb,
}
use radmind.PathCmp.{pathcasecmp}
use radmind.Code.{Coded, decode}
use radmind.Base64.{base64_d}
use radmind.Transcript.{
  PathInfo, TranType, Stop, memory_fault, out_of_fuel, few_arguments, type_too_long, unknown_type,
  Run, Settings,
}
use radmind.Transcript.Parse.{
  decoded, converted, argument, expect, with_owner, store_finder_info, parse_dir, parse_plain,
  parse_device, link_owner, parse_link, parse_hard, parse_file, parse_type, first_length,
  entry_name, entry_head, type_words, convert_path_type, parse_entry,
}
use radmind.Transcript.Runs.{
  Returns, Ends, Any, bind-Ends, Returns-Ends, stop-Ends, ok-Ends, if-Ends,
}

decoded-Returns : (c : Coded) → Returns (decoded c)
unfolding decoded
decoded-Returns c = ground arith

converted-Returns : (o : Option Bytes) → Returns (converted o)
unfolding converted
converted-Returns o = ground arith

argument-Returns : (argv : List Bytes) (i : ℕ) → Returns (argument argv i)
unfolding argument
argument-Returns argv i = ground arith

pub expect-Ends :
    (b : Bool) (why : Stop) {A : Type 0} (R : A → Type 0) (x : Run A)
    → why ≢ out_of_fuel
    → Ends R x
    → Ends R (expect b why x)
unfolding expect
expect-Ends true why R x h hx = hx
expect-Ends false why R x h hx = stop-Ends R why h

-- Behind the path of an entry, its other fields.
abbrev Named : PathInfo → PathInfo → Type 0
Named pi p = p.pi_name ≡ pi.pi_name

argument-Ends : (argv : List Bytes) (i : ℕ) → Ends Any (argument argv i)
argument-Ends argv i = Returns-Ends (argument argv i) (argument-Returns argv i)

with_owner-Ends : (argv : List Bytes) (pi : PathInfo) → Ends (Named pi) (with_owner argv pi)
unfolding with_owner
with_owner-Ends argv pi = bind-Ends Any (Named pi) _ _ (argument-Ends argv 2) (λ mode u.
    bind-Ends Any (Named pi) _ _ (argument-Ends argv 3) (λ uid u'.
      bind-Ends Any (Named pi) _ _ (argument-Ends argv 4) (λ gid u''. ok-Ends (Named pi) _ refl)))

store_finder_info-Ends :
    (pi p : PathInfo) (d : Option Bytes) → Named pi p → Ends (Named pi) (store_finder_info p d)
unfolding store_finder_info
store_finder_info-Ends pi p none h = stop-Ends (Named pi) memory_fault (ground arith)
store_finder_info-Ends pi p (some d) h =
    if-Ends (Named pi) _ _ _ (stop-Ends (Named pi) memory_fault (ground arith))
      (ok-Ends (Named pi) _ h)

link_owner-Ends : (argv : List Bytes) (pi : PathInfo) → Ends (Named pi) (link_owner argv pi)
unfolding link_owner
link_owner-Ends argv pi =
    if-Ends (Named pi) _ _ _ (ok-Ends (Named pi) _ refl) (with_owner-Ends argv pi)

parse_dir-Ends : (argv : List Bytes) (pi : PathInfo) → Ends (Named pi) (parse_dir argv pi)
unfolding parse_dir
parse_dir-Ends argv pi =
    let R = Named pi in
    expect-Ends _ _ R _ (ground arith) (
      bind-Ends R R _ _ (with_owner-Ends argv pi) (λ p h.
        if-Ends R _ _ _
          (bind-Ends Any R _ _ (argument-Ends argv 5)
            (λ info u. store_finder_info-Ends pi p (base64_d info) h))
          (ok-Ends R _ h)))

parse_plain-Ends : (argv : List Bytes) (pi : PathInfo) → Ends (Named pi) (parse_plain argv pi)
unfolding parse_plain
parse_plain-Ends argv pi = expect-Ends _ _ (Named pi) _ (ground arith) (with_owner-Ends argv pi)

parse_device-Ends : (argv : List Bytes) (pi : PathInfo) → Ends (Named pi) (parse_device argv pi)
unfolding parse_device
parse_device-Ends argv pi =
    let R = Named pi in
    expect-Ends _ _ R _ (ground arith) (
      bind-Ends R R _ _ (with_owner-Ends argv pi) (λ p h.
        bind-Ends Any R _ _ (argument-Ends argv 5)
          (λ major u. bind-Ends Any R _ _ (argument-Ends argv 6) (λ minor u'. ok-Ends R _ h))))

decoded-Ends : (c : Coded) → Ends Any (decoded c)
decoded-Ends c = Returns-Ends (decoded c) (decoded-Returns c)

parse_link-Ends :
    (g : Settings) (argv : List Bytes) (pi : PathInfo) → Ends (Named pi) (parse_link g argv pi)
unfolding parse_link
parse_link-Ends g argv pi =
    let R = Named pi in
    expect-Ends _ _ R _ (ground arith) (
      bind-Ends R R _ _ (link_owner-Ends argv pi) (λ p h.
        bind-Ends Any R _ _ (argument-Ends argv (length argv - 1)) (λ target u.
          bind-Ends Any R _ _ (decoded-Ends (decode g.stale target)) (λ epath u'. ok-Ends R _ h))))

parse_hard-Ends :
    (g : Settings) (argv : List Bytes) (pi : PathInfo) → Ends (Named pi) (parse_hard g argv pi)
unfolding parse_hard
parse_hard-Ends g argv pi =
    let R = Named pi in
    expect-Ends _ _ R _ (ground arith) (
      bind-Ends Any R _ _ (argument-Ends argv 2) (λ target u.
        bind-Ends Any R _ _ (decoded-Ends (decode g.stale target)) (λ epath u'.
          bind-Ends Any R _ _
            (Returns-Ends _ (converted-Returns (convert_path_type g.tran_format epath)))
            (λ path u''. ok-Ends R _ refl))))

parse_file-Ends :
    (g : Settings) (t : TranType) (argv : List Bytes) (pi : PathInfo)
    → Ends (Named pi) (parse_file g t argv pi)
unfolding parse_file
parse_file-Ends g t argv pi =
    let R = Named pi in
    expect-Ends _ _ R _ (ground arith) (
      bind-Ends R R _ _ (with_owner-Ends argv pi) (λ p h.
        bind-Ends Any R _ _ (argument-Ends argv 5) (λ mtime u.
          bind-Ends Any R _ _ (argument-Ends argv 6) (λ size u'.
            bind-Ends Any R _ _ (argument-Ends argv 7)
              (λ sum u''. expect-Ends _ _ R _ (ground arith) (ok-Ends R _ h))))))

parse_type-Ends :
    (g : Settings) (t : TranType) (argv : List Bytes) (pi : PathInfo)
    → Ends (Named pi) (parse_type g t argv pi)
unfolding parse_type
parse_type-Ends g t argv pi =
    let R = Named pi in
    if-Ends R _ _ _ (parse_dir-Ends argv pi) (
      if-Ends R _ _ _ (parse_plain-Ends argv pi) (
        if-Ends R _ _ _ (parse_device-Ends argv pi) (
          if-Ends R _ _ _ (parse_link-Ends g argv pi) (
            if-Ends R _ _ _ (parse_hard-Ends g argv pi) (
              if-Ends R _ _ _ (parse_file-Ends g t argv pi)
                (stop-Ends R unknown_type (ground arith)))))))

-- The path of an entry, behind that of the entry before.
abbrev pub IsBehind : Settings → Bytes → Bytes → Type 0
IsBehind g old new = sign (pathcasecmp new old g.case_sensitive) ≡ Ordering.gt

entry_name-Ends :
    (g : Settings) (old : PathInfo) (words : List Bytes)
    → Ends (IsBehind g old.pi_name) (entry_name g old words)
unfolding entry_name expect
entry_name-Ends g old words =
    let R = IsBehind g old.pi_name in
    bind-Ends Any R _ _ (argument-Ends words 1) (λ word u.
      bind-Ends Any R _ _ (decoded-Ends (decode g.stale word)) (λ epath u'.
        bind-Ends Any R _ _
          (Returns-Ends _ (converted-Returns (convert_path_type g.tran_format epath)))
          (λ path u''. (ground arith, λ r e. ground arith))))

pub parse_entry-Ends :
    (g : Settings) (t : TranType) (old : PathInfo) (argv : List Bytes)
    → Ends (λ pi. IsBehind g old.pi_name pi.pi_name) (parse_entry g t old argv)
unfolding parse_entry entry_head
parse_entry-Ends g t old argv =
    let R : PathInfo → Type 0 = λ pi. IsBehind g old.pi_name pi.pi_name in
    expect-Ends (leb 3 (length argv)) few_arguments R _ (ground arith) (
      expect-Ends (first_length argv == 1) type_too_long R _ (ground arith) (
        bind-Ends (IsBehind g old.pi_name) R _ _ (entry_name-Ends g old (type_words argv))
          (λ path h.
            let (returns, named) =
              parse_type-Ends g t (type_words argv) (entry_head old argv path) in
            (returns, λ pi e. rw (named pi e) h))))
