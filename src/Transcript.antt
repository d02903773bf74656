-- ===== src/Transcript.antt =====
-- transcript.c and transcript.h: the entries of transcripts, and the state of a comparison with the
-- filesystem. The globals that no function of the file changes after its start are `Settings`.
pub mod Parse
pub mod Print
pub mod Compare
pub mod Select
pub mod Walk
pub mod Least
pub mod Runs
pub mod Weight
pub mod Chain
mod Examples
use radmind.Base.{
  ℕ, Bool, true, false, List, [], ◌∷◌, Option, none, some, ℤ, pos, ◌==◌, if◌then◌else◌, Bytes,
}
use radmind.CLibrary.{repeat}
use radmind.HardLink.{Device}

-- The fields of struct stat that the comparison reads. A device is its major and minor number.
pub record Stat : Type 0 where
  pub st_mode : ℕ
  pub st_uid : ℕ
  pub st_gid : ℕ
  pub st_mtime : ℤ
  pub st_size : ℤ
  pub st_rdev : ℕ × ℕ
  pub st_nlink : ℕ
  pub st_dev : ℕ
  pub st_ino : ℕ

-- struct pathinfo; pi_type is the character of the type.
pub record PathInfo : Type 0 where
  pub pi_type : ℕ
  pub pi_minus : Bool
  pub pi_name : Bytes
  pub pi_link : Bytes
  pub pi_stat : Stat
  pub pi_cksum_b64 : Bytes
  pub ai_data : Bytes

-- T_NULL, T_POSITIVE, T_NEGATIVE, T_SPECIAL
pub data TranType : Type 0 where
  null_tran positive negative special : TranType

-- struct transcript; t_in is what is left of the file, and the list's order is that of t_next.
pub record Tran : Type 0 where
  pub t_pinfo : PathInfo
  pub t_type : TranType
  pub t_num : ℕ
  pub t_fullname : Bytes
  pub t_shortname : Bytes
  pub t_kfile : Bytes
  pub t_linenum : ℕ
  pub t_eof : Bool
  pub t_in : Bytes

pub data EditPath : Type 0 where
  applicable creatable : EditPath

-- tran_format, which is neither constant before the first option sets it.
pub data TranFormat : Type 0 where
  unset relative absolute : TranFormat

-- What ends the process, or leaves it in no defined state.
pub data Stop : Type 0 where
  line_too_long few_arguments type_too_long path_too_long bad_sort_order : Stop
  wrong_arguments no_cksum unknown_type cksum_failed link_not_found cannot_open : Stop
  null_pointer memory_fault out_of_fuel : Stop

pub data Run {ℓ} (A : Type ℓ) : Type ℓ where
  ok : A → Run A
  stop : Stop → Run A

infixl 5 ◌>>=◌
abbrev pub ◌>>=◌ {ℓ κ} : {A : Type ℓ} {B : Type κ} → Run A → (A → Run B) → Run B
ok a >>= f = f a
stop e >>= f = stop e

-- do_cksum() and do_acksum() read a file and hash it with OpenSSL: `none` is their error. `stale`
-- holds the bytes that decode() finds in its buffer.
pub record Settings : Type 0 where
  pub edit_path : EditPath
  pub tran_format : TranFormat
  pub case_sensitive : Bool
  pub ignore_timestamps : Bool
  pub cksum : Bool
  pub transcript_shell_escapes : Bool
  pub path_prefix : Option Bytes
  pub exclude_list : List Bytes
  pub special_list : List Bytes
  pub have_lchown : Bool
  pub have_lchmod : Bool
  pub do_cksum : Bytes → Option Bytes
  pub do_acksum : Bytes → Option Bytes
  pub stale : ℕ → ℕ

-- prev_tran is a transcript by its number; outtran holds the bytes printed.
pub record World : Type 0 where
  pub trans : List Tran
  pub prev_tran : Option ℕ
  pub dev_head : List Device
  pub outtran : Bytes
  pub fs_minus : Bool

abbrev pub empty_stat : Stat
empty_stat = record {
  st_mode = 0;
  st_uid = 0;
  st_gid = 0;
  st_mtime = pos 0;
  st_size = pos 0;
  st_rdev = (0, 0);
  st_nlink = 0;
  st_dev = 0;
  st_ino = 0;
}

-- The memset() of t_new().
abbrev pub empty_info : PathInfo
unfolding repeat
empty_info = record {
  pi_type = 0;
  pi_minus = false;
  pi_name = [];
  pi_link = [];
  pi_stat = empty_stat;
  pi_cksum_b64 = [];
  ai_data = repeat 32 0;
}

-- T_MODE & st_mode
abbrev pub t_mode : ℕ
t_mode = 0x0FFF

abbrev pub is_negative : TranType → Bool
is_negative negative = true
is_negative null_tran = false
is_negative positive = false
is_negative special = false

abbrev pub is_applicable : EditPath → Bool
is_applicable applicable = true
is_applicable creatable = false
