-- ===== src/Server.antt =====
-- command.c: the server's side of a session with one client. The globals that a session changes are
-- `Session`; what the system answers may depend on all that was done before.
pub mod Keyword
pub mod Requests
pub mod Special
pub mod Store
pub mod Config
pub mod Rights
pub mod Loop
pub mod Adds
pub mod Reads
pub mod Files
pub mod Writes
pub mod Gate
pub mod Rounds
pub mod Encrypted
mod Examples
pub mod Masked
pub mod Twice
pub mod Access
pub mod Tested
pub mod Received
pub mod Trusted
use radmind.Base.{
  ℕ, zero, suc, ◌+◌, ◌*◌, ◌||◌, Bool, true, false, List, [], ◌∷◌, Option, none, some, ltb, leb,
  ◌==◌, if◌then◌else◌, Bytes, length, get_or, max_path_len,
}
unfoldable pub use radmind.Code.Buffer.{buffer_after}
use radmind.Code.{Coded, value, null, overrun, overread, backslash, unescape, decode}
use radmind.PathList.{PathList}
use radmind.Mkdirs.{Made}
pub use radmind.Effect.{
  Out, go, returned, exited, broke, crashed, out_of_fuel, Exec, after, ◌>>=◌, ◌>>◌, pure, gets,
  stop, modify,
}

-- What a session does that others can see, and the steps that give a client its rights.
pub data Event : Type 0 where
  reply : ℕ → Event
  opened statted made created unlinked : Bytes → Event
  wrote : Bytes → Bytes → Event
  reported sent : Bytes → Event
  described : List Bytes → Event
  tls_started logged_in no_delay_off : Event

-- The tables notls, noauth and auth.
pub data Table : Type 0 where
  notls noauth auth : Table

-- The pointer `password`.
pub data Password : Type 0 where
  unset freed : Password
  held : Bytes → Password

-- `buf` is the static buffer of decode(); `input` has what each call of snet_getline() and of
-- snet_read() gives, and at its end the connection is closed.
pub record Session : Type 0 where
  pub commands : Table
  pub authorized : Bool
  pub prevstor : Bool
  pub user : Option Bytes
  pub password : Password
  pub upload_xscript : Bytes
  pub command_file : Bytes
  pub special_dir : Bytes
  pub remote_cn : Option Bytes
  pub access_list : PathList
  pub zlib : Bool
  pub buf : ℕ → ℕ
  pub input : List Bytes
  pub events : List Event

-- snet_starttls(), and the name of the client's certificate.
pub data Tls : Type 0 where
  tls_failed tls_no_peer : Tls
  tls_peer : Bytes → Tls

-- Where the calls of PAM fail: before the password is freed, behind that, or nowhere.
pub data Pam : Type 0 where
  refused denied granted : Pam

-- The session's constants, and the answers of the system and of the libraries. `contents` is for
-- open() and fopen(), `config_lines` for the lines that libsnet reads of a file. `kfile_depth` bounds
-- the nesting of command files; it belongs to the model.
pub record Env : Type 0 where
  pub remote_host : Bytes
  pub remote_addr : Bytes
  pub authlevel : ℕ
  pub checkuser : Bool
  pub max_zlib_level : ℕ
  pub have_libpam : Bool
  pub have_zlib : Bool
  pub kfile_depth : ℕ
  pub busy : Bool
  pub hostname_works : Bool
  pub contents : List Event → Bytes → Option Bytes
  pub config_lines : List Event → Bytes → Option (List Bytes)
  pub stat_works : List Event → Bytes → Bool
  pub do_cksum : List Event → Bytes → Option Bytes
  pub send_works : List Event → Bytes → Bool
  pub mkdir : List Event → Bytes → Made
  pub create : List Event → Bytes → Bool
  pub write_works : List Event → Bytes → Bool
  pub close_works : List Event → Bytes → Bool
  pub no_delay_works : List Event → Bool
  pub starttls : List Event → Tls
  pub pam : List Event → Bytes → Bytes → Pam
  pub setcompression : List Event → Bool

abbrev pub M {ℓ} : Type ℓ → Type ℓ
M A = Exec Session A

abbrev pub emit : Event → M (Unit {0})
emit e s = (go tt, record s { events = e ∷ s.events })

-- snet_writef() of a code, and the return from the handler.
abbrev pub reject {ℓ} : {A : Type ℓ} → ℕ → M A
reject code s = (returned 1, record s { events = reply code ∷ s.events })

-- snet_writef() of a code, and exit( 1 ).
abbrev pub dismiss {ℓ} : {A : Type ℓ} → ℕ → M A
dismiss code s = (exited 1, record s { events = reply code ∷ s.events })

abbrev pub coded : Coded → M (Option Bytes)
coded (value t) s = (go (some t), s)
coded null s = (go none, s)
coded overrun s = (crashed, s)
coded overread s = (crashed, s)

-- decode(); `none` is NULL.
unfoldable pub decode_word : Bytes → M (Option Bytes)
unfolding decode buffer_after
decode_word line s = coded (decode s.buf line) (record s { buf = buffer_after s.buf line })
