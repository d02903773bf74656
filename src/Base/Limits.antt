-- ===== src/Base/Limits.antt =====
-- The system's limit on a path, which sizes every path buffer of the program.
use Prim.Native.Nat.{ℕ}

-- MAXPATHLEN of <sys/param.h> on Linux.
abbrev pub max_path_len : ℕ
max_path_len = 4096
