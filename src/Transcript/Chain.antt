-- ===== src/Transcript/Chain.antt =====
-- t_new() and t_remove(): the chain of transcripts, which a transcript's number tells apart.
pub mod Numbers
use radmind.Base.{
  ℕ, suc, ◌+◌, Bool, true, false, ◌&&◌, List, [], ◌∷◌, Option, none, some, if◌then◌else◌, Bytes,
}
use radmind.CLibrary.Strings.{same_string}
use radmind.Transcript.{
  Tran, TranType, null_tran, positive, negative, special, Stop, cannot_open, null_pointer, Run, ok,
  stop, ◌>>=◌, Settings, empty_info,
}
use radmind.Transcript.Parse.{transcript_parse}

unfoldable pub same_type : TranType → TranType → Bool
same_type null_tran null_tran = true
same_type positive positive = true
same_type negative negative = true
same_type special special = true
same_type a b = false

-- `new->t_next->t_num + 1`, or the 0 of memset().
unfoldable pub next_num : List Tran → ℕ
next_num [] = 0
next_num (t ∷ trans) = t.t_num + 1

unfoldable pub opened : Settings → Tran → Option Bytes → Run Tran
unfolding transcript_parse
opened g new none = stop cannot_open
opened g new (some contents) = transcript_parse g (record new { t_in = contents })

-- The switch of t_new(); `file` is what fopen() finds.
unfoldable pub started : Settings → TranType → Tran → Option Bytes → Run Tran
unfolding opened
started g null_tran new file = ok (record new { t_eof = true })
started g positive new file = opened g new file
started g negative new file = opened g new file
started g special new file = opened g new file

-- The number of the memset() stands until the transcript has been read up to its first entry.
unfoldable pub t_new :
    Settings → TranType → Bytes → Bytes → Bytes → Option Bytes → List Tran → Run (List Tran)
unfolding started next_num
t_new g type fullname shortname kfile file trans = do
  new ←
      started g type
        (record {
          t_pinfo = empty_info;
          t_type = type;
          t_num = 0;
          t_fullname = fullname;
          t_shortname = shortname;
          t_kfile = kfile;
          t_linenum = 0;
          t_eof = false;
          t_in = [];
        })
        file
  ok (record new { t_num = next_num trans } ∷ trans)

abbrev pub cons_ok : Tran → Run (List Tran) → Run (List Tran)
cons_ok t (ok trans) = ok (t ∷ trans)
cons_ok t (stop e) = stop e

-- The loop ends at the null transcript, which every chain has at its end.
unfoldable pub t_remove : TranType → Bytes → List Tran → Run (List Tran)
unfolding same_type same_string
t_remove type shortname [] = stop null_pointer
t_remove type shortname (t ∷ trans) =
    let rest = t_remove type shortname trans in
    if same_type t.t_type null_tran
    then ok (t ∷ trans)
    else (if same_type t.t_type type && same_string t.t_shortname shortname
        then rest
        else cons_ok t rest)
