-- ===== src/Server/Keyword.antt =====
-- keyword(): the kind of file that a request names, and the tests of its names.
use radmind.Base.{
  ℕ, ◌+◌, ◌&&◌, ◌||◌, List, [], Option, none, some, ltb, ◌==◌, if◌then◌else◌, Bytes, length, drop,
  get_or, codes, max_path_len,
}
use radmind.CLibrary.Strings.{begins, holds, same_word}

-- K_COMMAND, K_TRANSCRIPT, K_SPECIAL, K_FILE
pub data Key : Type 0 where
  command transcript special file : Key

-- The word av[ i ]; the tests before make sure that there is one.
abbrev pub word : List Bytes → ℕ → Bytes
word av i = get_or av i []

-- `strlen( command_file + 5 )` is the length of what follows the fifth byte.
unfoldable pub command_key : Bytes → List Bytes → Option Key
command_key command_file av =
    if ltb 3 (length av)
    then none
    else (if (length av == 2) && ltb max_path_len (length (drop 5 command_file))
        then none
        else some Key.command)

unfoldable pub special_key : Bytes → List Bytes → Option Key
special_key remote_host av =
    if length av == 3
    then (if ltb max_path_len (length (word av 1) + length (word av 2) + length remote_host + 5)
        then none
        else some Key.special)
    else none

unfoldable pub transcript_key : List Bytes → Option Key
transcript_key av =
    if length av == 3
    then (if ltb max_path_len (length (word av 1) + length (word av 2) + 5)
        then none
        else some Key.transcript)
    else none

-- The names are tested as they were sent, before decode().
unfoldable pub file_key : List Bytes → Option Key
unfolding begins holds
file_key av =
    if length av == 4
    then (if begins (word av 3) (codes "../") || holds (word av 3) (codes "/../")
        then none
        else (if ltb max_path_len (length (word av 1) + length (word av 2) + length (word av 3) + 5)
            then none
            else some file))
    else none

-- The last test, of all kinds but K_COMMAND.
unfoldable pub no_parent : List Bytes → Option Key → Option Key
unfolding holds
no_parent av none = none
no_parent av (some key) = if holds (word av 2) (codes "../") then none else some key

-- `none` is -1.
unfoldable pub keyword : Bytes → Bytes → List Bytes → Option Key
unfolding same_word command_key special_key transcript_key file_key no_parent
keyword remote_host command_file av =
    if ltb (length av) 2
    then none
    else (if same_word (word av 1) (codes "COMMAND")
        then command_key command_file av
        else (if same_word (word av 1) (codes "SPECIAL")
            then no_parent av (special_key remote_host av)
            else (if same_word (word av 1) (codes "TRANSCRIPT")
                then no_parent av (transcript_key av)
                else (if same_word (word av 1) (codes "FILE")
                    then no_parent av (file_key av)
                    else none))))
