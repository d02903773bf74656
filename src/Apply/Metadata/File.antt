-- ===== src/Apply/Metadata/File.antt =====
-- The owner and the mode of a file, after the case of update() for its line.
use radmind.Base.{List, [], Bytes, get_or}
use radmind.CLibrary.{atoi_u32}
use radmind.Apply.Update.{octal}
use radmind.Apply.Metadata.{Metadata}

-- The line of a file, as update() reads it.
abbrev pub metadata_in : List Bytes → Metadata
metadata_in argv = record {
  mode = octal (get_or argv 2 []);
  uid = atoi_u32 (get_or argv 3 []);
  gid = atoi_u32 (get_or argv 4 []);
}
