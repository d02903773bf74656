-- ===== src/Apply/Stats.antt =====
-- radstat.c: the type of what lstat() finds.
use Prim.Native.Nat.{bit_and}
use radmind.Base.{ℕ, Option, none, some, ◌==◌, if◌then◌else◌, Bytes}
use radmind.Transcript.{empty_stat}
use radmind.Apply.{
  Lstat, is, is_enoent, is_enotdir, is_failed, Env, M, ◌>>=◌, ◌>>◌, pure, gets, set_st,
}

-- The return values 0 with the type, 1, and -1 with ENOENT and with another error.
pub data Found : Type 0 where
  found : ℕ → Found
  unknown absent failed : Found

-- The switch on S_IFMT, without applefiles and doors.
unfoldable pub type_of : ℕ → Option ℕ
type_of st_mode =
    let fmt = bit_and 0xF000 st_mode in
    if fmt == 0x8000
    then some b'f'
    else (if fmt == 0x4000
        then some b'd'
        else (if fmt == 0xA000
            then some b'l'
            else (if fmt == 0x2000
                then some b'c'
                else (if fmt == 0x6000
                    then some b'b'
                    else (if fmt == 0x1000
                        then some b'p'
                        else (if fmt == 0xC000 then some b's' else none))))))

abbrev pub found_type : Option ℕ → Found
found_type none = unknown
found_type (some t) = found t

unfoldable pub stat_found : Lstat → M Found
unfolding set_st type_of
stat_found (is st) = set_st st >> pure (found_type (type_of st.st_mode))
stat_found is_enoent = set_st empty_stat >> pure absent
stat_found is_enotdir = set_st empty_stat >> pure failed
stat_found is_failed = pure failed

unfoldable pub radstat : Env → Bytes → M Found
unfolding stat_found
radstat g path = gets (λ s. g.lstat s.events path) >>= stat_found
