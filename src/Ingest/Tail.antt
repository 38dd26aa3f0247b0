-- ===== src/Ingest/Tail.antt =====
-- internal/ingest/logtailer.go: the tailer, whose loop reads the log line by line, and syslog.go,
-- whose loop reads a line from each packet. The file and the socket are the system's: what a read
-- returns, and what the system says of the file, are arguments. The clock is read at every line that
-- is not empty, so `clock` gives the reading at the line of each number. Until Stop, an event
-- waits for room in the channel, which is the daemon's.
pub mod Chunks
mod Tests
use sipreaper.Common.{
  ℕ, ◌+◌, ◌-◌, ◌*◌, ltb, leb, ◌==◌, if◌then◌else◌, Bool, true, false, not, List, [], ◌∷◌, ◌++◌,
  Option, none, some, Text, codes, text_eq, is_empty, length,
}
use sipreaper.Ingest.Log.{parse_line, parse_any_line}
use sipreaper.Ingest.Sip.{Find}
use sipreaper.Models.{SipEvent}
use sipreaper.Strings.{trim_newlines}

pub record LogTailer : Type 0 where
  pub format : Text
  pub patterns : List Text
  pub events : List SipEvent
  pub matched_count : ℕ
  pub unmatched_count : ℕ

abbrev pub max_log_line_len : ℕ
max_log_line_len = 64 * 1_024

abbrev pub poll_interval : ℕ
poll_interval = 100_000_000

abbrev pub rotate_check : ℕ
rotate_check = 1_000_000_000

-- The loop of `NewLogTailer`: `compiles` says which patterns `regexp.Compile` takes.
unfoldable pub all_compile : (Text → Bool) → List Text → Bool
all_compile compiles [] = true
all_compile compiles (p ∷ ps) =
    let rest = all_compile compiles ps in if compiles p then rest else false

unfoldable pub new_log_tailer : (Text → Bool) → Text → List Text → Option LogTailer
unfolding all_compile
new_log_tailer compiles format custom =
    if all_compile compiles custom
    then some (record {
      format = format;
      patterns = custom;
      events = [];
      matched_count = 0;
      unmatched_count = 0;
    })
    else none

abbrev pub from_log : SipEvent → SipEvent
from_log e = record e { source = codes "log" }

module _ (find : Find) (clock : ℕ → ℕ) where
  -- `handleLine`.
  unfoldable pub handle_line : LogTailer → Text → LogTailer
  unfolding parse_line
  handle_line lt line =
      let now = clock (lt.matched_count + lt.unmatched_count) in
      if is_empty line then lt else elim (parse_line find now lt.format lt.patterns line) [
        | none ↦ record lt { unmatched_count = lt.unmatched_count + 1 }
        | some e ↦ record lt {
          matched_count = lt.matched_count + 1;
          events = lt.events ++ from_log e ∷ [];
        }
      ]

-- What `os.File.Stat` and `os.Stat` say: which file it is, and its size.
pub record FileInfo : Type 0 where
  pub file : ℕ
  pub size : ℕ

pub data Rotation : Type 0 where
  kept : Rotation
  replaced : Rotation
  rewound : Rotation

-- `checkRotation`: what the open file and the path are, whether the path opens, where the reader
-- stands, and whether it can go back to the start.
unfoldable pub check_rotation :
    Option FileInfo → Option FileInfo → Bool → Option ℕ → Bool → Rotation
check_rotation none _ opens stands seeks = Rotation.kept
check_rotation (some cur) none opens stands seeks = Rotation.kept
check_rotation (some cur) (some disk) opens stands seeks =
    if not (cur.file == disk.file)
    then if opens then Rotation.replaced else Rotation.kept
    else elim stands [
      | none ↦ Rotation.kept
      | some here ↦
          if ltb disk.size here
          then if seeks then Rotation.rewound else Rotation.kept
          else Rotation.kept
    ]

-- The loop of `Run`: the line that is not finished, and when rotation was last checked.
pub record Tail : Type 0 where
  pub tailer : LogTailer
  pub partial : Text
  pub last_check : ℕ

-- What `reader.ReadString('\n')` returns: a chunk to the end of its line, or what there is to the
-- end of the file (or to an error), at a time and with the verdict a check of rotation has then.
pub data Read : Type 0 where
  whole : Text → Read
  ended : Text → ℕ → Rotation → Read

-- The part of the line that the end of the file cuts off.
abbrev pub hold : Text → Text → Text
hold partial chunk =
    if leb (length partial + length chunk) max_log_line_len then partial ++ chunk else []

-- The check of rotation, once a second; another file, or a file from the top, has no old partial line.
unfoldable pub idle : ℕ → Rotation → Tail → Tail
idle now verdict t =
    if leb rotate_check (now - t.last_check)
    then elim verdict [
      | Rotation.kept ↦ record t { last_check = now }
      | _ ↦ record t { last_check = now; partial = [] }
    ]
    else t

-- One round of the loop.
unfoldable pub on_read : Find → (ℕ → ℕ) → Tail → Read → Tail
unfolding handle_line trim_newlines idle
on_read find clock t (Read.ended chunk now verdict) =
    idle now verdict (record t { partial = hold t.partial chunk })
on_read find clock t (Read.whole chunk) =
    let line = if ltb 0 (length t.partial) then t.partial ++ chunk else chunk in
    record t { partial = []; tailer = handle_line find clock t.tailer (trim_newlines line) }

unfoldable pub on_reads : Find → (ℕ → ℕ) → Tail → List Read → Tail
unfolding on_read
on_reads find clock t [] = t
on_reads find clock t (r ∷ rs) = on_reads find clock (on_read find clock t r) rs

-- `open`: the file is read from its end when it was there at the start, else from its top. The
-- list says for each try whether the file opened; none when Stop came first.
unfoldable pub opens_at : ℕ → Bool → List Bool → Option ℕ
opens_at size warned [] = none
opens_at size warned (true ∷ tries) = some (if not warned then size else 0)
opens_at size warned (false ∷ tries) = opens_at size true tries

pub record SyslogIngest : Type 0 where
  pub events : List SipEvent
  pub matched_count : ℕ
  pub unmatched_count : ℕ

-- A packet of the loop of `Run`.
unfoldable pub on_packet : Find → (ℕ → ℕ) → SyslogIngest → Text → SyslogIngest
unfolding parse_any_line trim_newlines
on_packet find clock s packet =
    let line = trim_newlines packet in
    elim (is_empty line) [
      | true ↦ s
      | false ↦ elim (parse_any_line find (clock (s.matched_count + s.unmatched_count)) line) [
        | none ↦ record s { unmatched_count = s.unmatched_count + 1 }
        | some p ↦ record s {
          matched_count = s.matched_count + 1;
          events = s.events ++ record p.1 { source = codes "syslog" } ∷ [];
        }
      ]
    ]
