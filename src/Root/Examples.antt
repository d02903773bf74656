-- ===== src/Root/Examples.antt =====
-- Places of transcripts.
use radmind.Base.{◌≡◌, refl, Option, some, Bytes, codes, arith}
use radmind.CLibrary.Strings.{holds}
use radmind.Root.{located, get_root}
use radmind.Root.Places.{get_root-transcript}

abbrev same_path : Bytes → Option Bytes
same_path path = some path

get_root-transcript_example :
    get_root same_path (codes "/r") (codes "/r/transcript/a/t")
    ≡ located (record {
      file_root = codes "/r/file/a";
      tran_root = codes "/r/transcript/a";
      tran_name = codes "t";
    })
unfolding holds
get_root-transcript_example =
    get_root-transcript same_path (codes "/r") (codes "/r/transcript/a/t") (codes "/r") (codes "/a")
      (codes "t") refl refl (ground arith, tt) refl (omega arith) (omega arith)

-- strstr() finds the directory further on, and the offset is still that of the start.
other_place :
    get_root same_path (codes "/r") (codes "/x/r/transcript/a/t")
    ≡ located (record {
      file_root = codes "/r/filept/a";
      tran_root = codes "/r/transcriptpt/a";
      tran_name = codes "t";
    })
unfolding get_root
other_place = refl
