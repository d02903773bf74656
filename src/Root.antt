-- ===== src/Root.antt =====
-- root.c: where the files and the transcripts of a loadset stand, by the place of a transcript. The
-- paths are those that realpath() gives, which is a parameter; messages are left out.
pub mod Places
mod Examples
use radmind.Base.{
  ℕ, Bool, true, false, List, [], ◌∷◌, ◌++◌, Option, none, some, leb, ◌==◌, if◌then◌else◌, Bytes,
  length, drop, codes, max_path_len,
}
use radmind.CLibrary.Strings.{fitting, holds}

-- The three buffers that a call fills.
pub record Roots : Type 0 where
  pub file_root : Bytes
  pub tran_root : Bytes
  pub tran_name : Bytes

-- 0, -1, and a path that has no '/' at all, for which strrchr() is NULL.
pub data Located : Type 0 where
  located : Roots → Located
  failed crashed : Located

-- What stands in front of the last '/', and behind it.
abbrev pub cut_before : ℕ → Bytes → Option (Bytes × Bytes) → Option (Bytes × Bytes)
cut_before c s (some (dir, name)) = some (c ∷ dir, name)
cut_before c s none = if c == b'/' then some ([], s) else none

unfoldable pub cut_last : Bytes → Option (Bytes × Bytes)
cut_last [] = none
cut_last (c ∷ s) = cut_before c s (cut_last s)

-- The two paths fit into buffers of MAXPATHLEN bytes, or else it is -1.
unfoldable pub both : Bytes → Option Bytes → Option Bytes → Located
both name (some f) (some t) = located (record { file_root = f; tran_root = t; tran_name = name })
both name (some f) none = failed
both name none t = failed

-- The roots for a transcript below the directory `test_path` of the radmind directory, which stand in
-- the directories `files` and `trans` of it.
unfoldable pub below : Bytes → Bytes → Bytes → Bytes → Bytes → Bytes → Located
unfolding both fitting
below radmind files trans test_path real_path name =
    let rest = drop (length test_path) real_path in
    both name (fitting (radmind ++ (files ++ rest))) (fitting (radmind ++ (trans ++ rest)))

-- Any other transcript; the last snprintf() is not tested.
unfoldable pub beside : Bytes → Bytes → Located
unfolding both fitting
beside real_path name = both name (fitting (real_path ++ codes "/../file")) (some real_path)

unfoldable pub in_transcript : Bytes → Bytes → Bytes → Option Bytes → Located
unfolding below beside holds
in_transcript radmind real_path name none = failed
in_transcript radmind real_path name (some test_path) =
    if holds real_path test_path
    then below radmind (codes "/file") (codes "/transcript") test_path real_path name
    else beside real_path name

unfoldable pub in_tmp : Bytes → Bytes → Bytes → Option Bytes → Located
unfolding below in_transcript holds fitting
in_tmp radmind real_path name none = failed
in_tmp radmind real_path name (some test_path) =
    if holds real_path test_path
    then below radmind (codes "/tmp/file") (codes "/tmp/transcript") test_path real_path name
    else in_transcript radmind real_path name (fitting (radmind ++ codes "/transcript"))

-- The place of the transcript, which is not in the root directory itself.
unfoldable pub by_place : Bytes → Option (Bytes × Bytes) → Located
unfolding in_tmp fitting
by_place radmind none = crashed
by_place radmind (some ([], name)) = failed
by_place radmind (some (c ∷ dir, name)) =
    if leb max_path_len (length name)
    then failed
    else in_tmp radmind (c ∷ dir) name (fitting (radmind ++ codes "/tmp/transcript"))

unfoldable pub of_real : Option Bytes → Option Bytes → Located
unfolding by_place cut_last
of_real none path = failed
of_real (some radmind) none = failed
of_real (some radmind) (some real_path) = by_place radmind (cut_last real_path)

unfoldable pub get_root : (Bytes → Option Bytes) → Bytes → Bytes → Located
unfolding of_real
get_root realpath radmind_path path = of_real (realpath radmind_path) (realpath path)
