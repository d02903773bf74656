-- ===== src/Server/Access.antt =====
-- What a client can read by RETR.
use mathlib.Core.Path.{subst}
use radmind.Base.{
  ◌≡◌, refl, sym, ap, Bool, true, false, List, ◌∷◌, ◌++◌, Option, none, some, ℕ, ◌==◌, leb, Bytes,
  length, codes, max_path_len, inl, inr, Bool-cases, if◌then◌else◌,
}
use radmind.Code.{Coded, value, null, overrun, overread, decode}
use radmind.CLibrary.Strings.{fitting}
use radmind.PathList.{list_check}
use radmind.Server.{
  Session, Env, Out, go, returned, exited, broke, crashed, out_of_fuel, M, ◌>>=◌, after, pure, gets,
  reject, decode_word, coded, buffer_after,
}
use radmind.Server.Keyword.{Key, command, transcript, special, file, word}
use radmind.Server.Tested.{Tested, HasPlainName, HasPlainRest, keyword-Tested}
use radmind.Server.Requests.{
  decoded, check_access, fitted, named_path, file_path, key_of, retr_path,
}

-- The name is what decode() makes of the word, whatever its buffer holds before.
abbrev pub IsDecoded : Bytes → Bytes → Type 0
IsDecoded w name = (buf : (ℕ → ℕ)) × (decode buf w ≡ value name)

abbrev pub IsListed : Session → Bytes → Type 0
IsListed s name = list_check s.access_list name ≡ true

-- The paths below command/, transcript/, file/ and the client's directory of special files. The names
-- are decoded from the words of the request, and but for special files and the client's own command
-- file one of the access list; keyword() has tested the words.
pub data Readable (s : Session) (av : List Bytes) : Bytes → Type 0 where
  own_command :
      (path : Bytes)
      → (length av == 2) ≡ true
      → path ≡ codes "command/" ++ s.command_file
      → Readable s av path
  listed_command :
      (path name : Bytes)
      → IsDecoded (word av 2) name
      → IsListed s name
      → path ≡ codes "command/" ++ name
      → Readable s av path
  listed_transcript :
      (path name : Bytes)
      → HasPlainName av
      → IsDecoded (word av 2) name
      → IsListed s name
      → path ≡ codes "transcript/" ++ name
      → Readable s av path
  listed_file :
      (path name rest : Bytes)
      → HasPlainName av × HasPlainRest av
      → IsDecoded (word av 2) name
      → IsDecoded (word av 3) rest
      → IsListed s name
      → path ≡ codes "file/" ++ (name ++ b'/' ∷ rest)
      → Readable s av path
  special_file :
      (path name : Bytes)
      → HasPlainName av
      → IsDecoded (word av 2) name
      → path ≡ s.special_dir ++ b'/' ∷ name
      → Readable s av path

module _ (s : Session) where
  -- What the paths are made of is as in s.
  record Same (t : Session) : Type 0 where
    same_list : t.access_list ≡ s.access_list
    same_command : t.command_file ≡ s.command_file
    same_special : t.special_dir ≡ s.special_dir

  abbrev Value : {A : Type 0} → (A → Type 0) → Out A → Type 0
  Value P (go a) = P a
  Value P (returned n) = Unit
  Value P (exited n) = Unit
  Value P broke = Unit
  Value P crashed = Unit
  Value P out_of_fuel = Unit

  -- The value of `m` has the property, and `m` leaves the rest alone.
  record Yields {A : Type 0} (P : A → Type 0) (m : M A) : Type 0 where
    at : (t : Session) → Same t → Value P (m t).0 × Same (m t).1

  after-Yields :
      {A B : Type 0} {P : A → Type 0} {Q : B → Type 0} (r : Out A × Session) (f : A → M B)
      → Value P r.0 × Same r.1
      → ((a : A) → P a → Yields Q (f a))
      → Value Q (after r f).0 × Same (after r f).1
  after-Yields (go a, t) f h k = (k a h.0).at t h.1
  after-Yields (returned n, t) f h k = h
  after-Yields (exited n, t) f h k = h
  after-Yields (broke, t) f h k = h
  after-Yields (crashed, t) f h k = h
  after-Yields (out_of_fuel, t) f h k = h

  Yields-bind :
      {A B : Type 0} {P : A → Type 0} {Q : B → Type 0} (m : M A) (f : A → M B)
      → Yields P m
      → ((a : A) → P a → Yields Q (f a))
      → Yields Q (m >>= f)
  Yields-bind m f h k = record { at = λ t e. after-Yields (m t) f (h.at t e) k }

  Yields-pure : {A : Type 0} {P : A → Type 0} (a : A) → P a → Yields P (pure a)
  Yields-pure a h = record { at = λ t e. (h, e) }

  Yields-reject : {A : Type 0} {P : A → Type 0} (n : ℕ) → Yields P (reject {A = A} n)
  Yields-reject n = record {
    at = λ t e. (
      tt,
      record {
        same_list = e.same_list;
        same_command = e.same_command;
        same_special = e.same_special;
      },
    );
  }

  Anything : {A : Type 0} → A → Type 0
  Anything a = Unit

  abbrev IsAnswer : Bytes → Option Bytes → Type 0
  IsAnswer w none = Unit
  IsAnswer w (some x) = IsDecoded w x

  coded_lem :
      (w : Bytes) (buf : ℕ → ℕ) (c : Coded) (t : Session)
      → decode buf w ≡ c
      → Same t
      → Value (IsAnswer w) (coded c t).0 × Same (coded c t).1
  coded_lem w buf (value x) t h e = ((buf, h), e)
  coded_lem w buf null t h e = (tt, e)
  coded_lem w buf overrun t h e = (tt, e)
  coded_lem w buf overread t h e = (tt, e)

  decode_word-Yields : (w : Bytes) → Yields (IsAnswer w) (decode_word w)
  unfolding decode_word
  decode_word-Yields w = record {
    at = λ t e.
        coded_lem w t.buf (decode t.buf w) (record t { buf = buffer_after t.buf w }) refl
          (record {
            same_list = e.same_list;
            same_command = e.same_command;
            same_special = e.same_special;
          });
  }

  answered :
      (w : Bytes) (o : Option Bytes)
      → IsAnswer w o
      → Yields (IsDecoded w) (elim o as (λ x. M Bytes) [ none ↦ reject 540 | some t ↦ pure t ])
  answered w none h = Yields-reject 540
  answered w (some t) h = Yields-pure t h

  decoded-Yields : (w : Bytes) → Yields (IsDecoded w) (decoded w)
  unfolding decoded
  decoded-Yields w = Yields-bind (decode_word w) _ (decode_word-Yields w) (λ o h. answered w o h)

  if_known-Yields :
      (name : Bytes) (b : Bool)
      → (b ≡ true → list_check s.access_list name ≡ true)
      → Yields (λ n. (n ≡ name) × IsListed s n) (if b then pure name else reject 540)
  if_known-Yields name true h = Yields-pure name (refl, h refl)
  if_known-Yields name false h = Yields-reject 540

  check_access-Yields : (name : Bytes) → Yields (λ n. (n ≡ name) × IsListed s n) (check_access name)
  unfolding check_access
  check_access-Yields name = record {
    at = λ t e.
        (if_known-Yields name (list_check t.access_list name) (λ q. cc (q, e.same_list))).at t e;
  }

  fitted-Yields : (path : Bytes) → Yields (λ p. p ≡ path) (fitted path)
  unfolding fitted fitting
  fitted-Yields path = elim (Bool-cases (leb max_path_len (length path))) [
    | inl b ↦ rw (fitted, fitting, b) (Yields-reject 540)
    | inr b ↦ rw (fitted, fitting, b) (Yields-pure path refl)
  ]

  gets-Yields :
      {A : Type 0} {P : A → Type 0} (f : Session → A)
      → ((t : Session) → Same t → P (f t))
      → Yields P (gets f)
  gets-Yields f h = record { at = λ t e. (h t e, e) }

  Value-weaken :
      {A : Type 0} (P Q : A → Type 0) → ((a : A) → P a → Q a) → (o : Out A) → Value P o → Value Q o
  Value-weaken P Q k (go a) h = k a h
  Value-weaken P Q k (returned n) h = h
  Value-weaken P Q k (exited n) h = h
  Value-weaken P Q k broke h = h
  Value-weaken P Q k crashed h = h
  Value-weaken P Q k out_of_fuel h = h

  Yields-weaken :
      {A : Type 0} {P Q : A → Type 0} (m : M A) → ((a : A) → P a → Q a) → Yields P m → Yields Q m
  Yields-weaken {A} {P} {Q} m k h = record {
    at = λ t e. (Value-weaken P Q k (m t).0 (h.at t e).0, (h.at t e).1);
  }

  module _ (av : List Bytes) where
    -- decode(), the access list, and a path.
    listed_path :
        (w : Bytes) (f : Bytes → Bytes)
        → ((name : Bytes) → IsDecoded w name → IsListed s name → Readable s av (f name))
        → Yields (Readable s av) (decoded w >>= check_access >>= λ name. fitted (f name))
    listed_path w f h =
        Yields-bind (decoded w >>= check_access) _
          (Yields-bind {Q = λ n. IsDecoded w n × IsListed s n} (decoded w) check_access
            (decoded-Yields w)
            (λ name d.
              Yields-weaken (check_access name) (λ n l. (subst (IsDecoded w) (sym l.0) d, l.1))
                (check_access-Yields name)))
          (λ name l.
            Yields-weaken (fitted (f name)) (λ p e. subst (Readable s av) (sym e) (h name l.0 l.1))
              (fitted-Yields (f name)))

    fitted_path : (path : Bytes) → Readable s av path → Yields (Readable s av) (fitted path)
    fitted_path path h =
        Yields-weaken (fitted path) (λ p e. subst (Readable s av) (sym e) h) (fitted-Yields path)

    named_path-Yields : (k : Key) → Tested av (some k) → Yields (Readable s av) (named_path av k)
    unfolding named_path
    named_path-Yields command h = elim (Bool-cases (length av == 2)) [
      | inl b ↦ rw b (
          Yields-bind (gets (λ t. t.command_file)) _
            (gets-Yields {P = λ name. name ≡ s.command_file} (λ t. t.command_file)
              (λ t e. e.same_command))
            (λ name e.
              fitted_path (codes "command/" ++ name)
                (own_command _ b (ap (λ (x : Bytes). codes "command/" ++ x) e))))
      | inr b ↦ rw b (
          listed_path (word av 2) (λ name. codes "command/" ++ name)
            (λ name d l. listed_command _ name d l refl))
    ]
    named_path-Yields transcript h =
        listed_path (word av 2) (λ name. codes "transcript/" ++ name)
          (λ name d l. listed_transcript _ name h d l refl)
    named_path-Yields special h =
        Yields-bind (decoded (word av 2)) _ (decoded-Yields (word av 2)) (λ name d.
          Yields-bind (gets (λ t. t.special_dir)) _
            (gets-Yields {P = λ dir. dir ≡ s.special_dir} (λ t. t.special_dir)
              (λ t e. e.same_special))
            (λ dir e.
              fitted_path (dir ++ b'/' ∷ name)
                (special_file _ name h d (ap (λ (x : Bytes). x ++ b'/' ∷ name) e))))
    named_path-Yields file h = record { at = λ t e. (tt, e) }

    file_path-Yields : Tested av (some file) → Yields (Readable s av) (file_path av)
    unfolding file_path
    file_path-Yields h = Yields-bind (decoded (word av 3)) _ (decoded-Yields (word av 3)) (λ path d.
        Yields-bind (decoded (word av 2)) _ (decoded-Yields (word av 2)) (λ tran d2.
          Yields-bind (check_access tran) _ (check_access-Yields tran) (λ name l.
            fitted_path (codes "file/" ++ (name ++ b'/' ∷ path))
              (listed_file _ name path h (subst (IsDecoded (word av 2)) (sym l.0) d2) d l.1 refl))))

    path_of : Option Key → M Bytes
    path_of k = elim k [
      | none ↦ reject 540
      | some key ↦ elim key [ file ↦ file_path av | other ↦ named_path av other ]
    ]

    path_of-Yields : (k : Option Key) → Tested av k → Yields (Readable s av) (path_of k)
    unfolding path_of
    path_of-Yields none h = Yields-reject 540
    path_of-Yields (some command) h = named_path-Yields command h
    path_of-Yields (some transcript) h = named_path-Yields transcript h
    path_of-Yields (some special) h = named_path-Yields special h
    path_of-Yields (some file) h = file_path-Yields h

    retr_path-Yields : (g : Env) → Yields (Readable s av) (retr_path g av)
    unfolding retr_path key_of path_of
    retr_path-Yields g =
        Yields-bind (key_of g av) path_of
          (gets-Yields {P = Tested av} _ (λ t e. keyword-Tested g.remote_host t.command_file av))
          path_of-Yields

-- A path that RETR goes on to open is that of the client's own command file, where the request has no
-- name, or is made of the names that decode(), with some old content of its buffer, gives for the
-- words of the request: below command/ and transcript/ a name of the access list, below file/ such a
-- name, a slash and another, below the client's directory of special files any name. But for command
-- files the words are those that keyword() lets pass, as they were sent, before decode(): the first
-- without "../", and the second of a file without "../" at its start and without "/../".
pub retr_path-Readable :
    (g : Env) (s : Session) (av : List Bytes) (path : Bytes)
    → (retr_path g av s).0 ≡ go path
    → Readable s av path
retr_path-Readable g s av path e =
    subst (Value s (Readable s av)) e
      ((retr_path-Yields s av g).at s
        (record { same_list = refl; same_command = refl; same_special = refl })).0
