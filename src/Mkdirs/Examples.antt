-- ===== src/Mkdirs/Examples.antt =====
-- A system in which the directories /a and /a/b are made for a file.
use radmind.Base.{
  ◌≡◌, refl, ◌+◌, ◌*◌, ◌⊎◌, inl, inr, List, [], ◌∷◌, leb, Bytes, length, codes, arith, Bool-cases,
  if◌then◌else◌,
}
use radmind.Mkdirs.{Made, done, exists, no_parent, mkdirs}
use radmind.Mkdirs.Parent.{mkdirs-There}
use radmind.CLibrary.Strings.{before_slash}

-- A directory can be made if its path is not too long for those that are there.
abbrev mkdir : Bytes → List Bytes → Made × List Bytes
mkdir path dirs =
    if leb (length path) (2 * (length dirs + 1)) then (done, path ∷ dirs) else (no_parent, dirs)

abbrev There : Bytes → List Bytes → Type 0
There path [] = ⊥
There path (dir ∷ dirs) = (dir ≡ path) ⊎ There path dirs

mkdir-There :
    (path : Bytes) (dirs : List Bytes) → (mkdir path dirs).0 ≡ done → There path (mkdir path dirs).1
mkdir-There path dirs e = elim (Bool-cases (leb (length path) (2 * (length dirs + 1)))) [
  | inl b ↦ rw b (inl refl)
  | inr b ↦ absurd (ground (arith, b, e))
]

mkdir-There_found :
    (path : Bytes) (dirs : List Bytes)
    → (mkdir path dirs).0 ≡ exists
    → There path (mkdir path dirs).1
mkdir-There_found path dirs e = absurd (ground (arith, e))

mkdirs-There_example : There (codes "/a/b") (mkdirs mkdir (codes "/a/b/f") []).1
unfolding mkdirs before_slash
mkdirs-There_example =
    mkdirs-There mkdir There mkdir-There mkdir-There_found (codes "/a/b/f") (codes "/a/b") [] refl
      refl
