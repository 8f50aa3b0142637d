-- ===== src/Audit/Spool.antt =====
-- internal/audit/spool.go: the writer that keeps in a journal what the database does not take. The
-- lock makes an append one step.
use nut_operator.Prelude.{
  ℕ, suc, ◌+◌, Bool, true, false, not, ◌&&◌, ◌||◌, List, [], ◌∷◌, ◌++◌, Option, none, some,
  if◌then◌else◌, ◌==◌, ltb, length, is_empty,
}
use nut_operator.Prelude.Int.{ℤ, pos}
use nut_operator.Text.{Text, codes, text_eq, trim_space}
use nut_operator.Text.Lines.{newline}
use nut_operator.Audit.Journal.{Kind, kind_name, Entry, Json, Journal}

-- What errors.Join and the wrapping of errors keep: each error that took part. No error is the
-- empty list.
pub data Failure : Type 0 where
  writer_required directory_required directory_control directory_relative : Failure
  file_name_invalid max_bytes_negative : Failure
  canceled encode_record create_directory open_file stat_file close_file : Failure
  write_record sync_record close_record : Failure
  primary_refused : Text → Failure
  replay_refused : Text → Text → Failure
  read_journal stat_journal remove_journal : Failure

-- `SpoolWriter` with its options and `SpoolStats`.
pub record SpoolWriter : Type 0 where
  pub directory : Text
  pub file_name : Text
  pub disable_sync : Bool
  pub max_bytes : ℕ
  pub fallback_writes : ℕ
  pub last_primary_error : Text
  pub last_spool_path : Text
  pub dropped_writes : ℕ
  pub journal_bytes : ℕ

pub record SpoolOptions : Type 0 where
  pub directory : Text
  pub file_name : Text
  pub disable_sync : Bool
  pub max_bytes : ℤ

-- package path/filepath, on Unix.
pub record Paths : Type 0 where
  pub is_abs : Text → Bool
  pub base : Text → Text
  pub clean : Text → Text
  pub join : Text → Text → Text

unfoldable pub contains_control_character : Text → Bool
contains_control_character [] = false
contains_control_character (c ∷ cs) = ltb c 32 || (c == 127) || contains_control_character cs

abbrev pub default_spool_file_name : Text
default_spool_file_name = codes "audit-spool.jsonl"

abbrev pub or_default : Text → Text
or_default name = if is_empty name then default_spool_file_name else name

pub data Created : Type 0 where
  refused : Failure → Created
  created : SpoolWriter → Created

module _ (paths : Paths) where
  abbrev pub is_plain_name : Text → Bool
  is_plain_name name = text_eq (paths.base name) name && not (contains_control_character name)

  unfoldable pub new_spool_writer : Bool → SpoolOptions → Created
  unfolding contains_control_character text_eq trim_space
  new_spool_writer has_primary options =
      let directory = trim_space options.directory in
      let file_name = or_default options.file_name in
      if not has_primary
      then refused writer_required
      else if is_empty directory
      then refused directory_required
      else if contains_control_character directory
      then refused directory_control
      else if not (paths.is_abs directory)
      then refused directory_relative
      else if not (is_plain_name file_name)
      then refused file_name_invalid
      else elim options.max_bytes [
        | ℤ.negsuc n ↦ refused max_bytes_negative
        | pos limit ↦ created record {
          directory = paths.clean directory;
          file_name = file_name;
          disable_sync = options.disable_sync;
          max_bytes = limit;
          fallback_writes = 0;
          last_primary_error = [];
          last_spool_path = [];
          dropped_writes = 0;
          journal_bytes = 0;
        }
      ]

-- What the context, the clock and the file system answer to one append. A write that fails may have
-- written a beginning of its bytes.
pub record Disk : Type 0 where
  pub canceled_before : Bool
  pub canceled_locked : Bool
  pub clock : ℤ
  pub directory_fails : Bool
  pub open_fails : Bool
  pub new_inode : ℕ
  pub stat_fails : Bool
  pub cut_short : Option ℕ
  pub sync_fails : Bool
  pub close_fails : Bool
  pub now : ℕ

-- What an append leaves: the writer, the journal and the errors.
pub record Appended : Type 0 where
  pub writer : SpoolWriter
  pub file : Option Journal
  pub failures : List Failure

unfoldable pub take_front : ℕ → Text → Text
take_front n [] = []
take_front n (c ∷ cs) = elim n [ ℕ.zero ↦ [] | ℕ.suc m ↦ c ∷ take_front m cs ]

-- O_CREATE: an empty file where there is none.
abbrev pub opened : Disk → Option Journal → Journal
opened disk none = record { contents = []; inode = disk.new_inode; modified = disk.now }
opened disk (some f) = f

abbrev pub written : Disk → Text → Text
written disk bytes = elim disk.cut_short [ none ↦ bytes | some n ↦ take_front n bytes ]

abbrev pub extended : Disk → Text → Journal → Journal
extended disk bytes f = record f {
  contents = f.contents ++ written disk bytes;
  modified = disk.now;
}

abbrev pub failure_if : Bool → Failure → List Failure
failure_if true f = f ∷ []
failure_if false f = []

abbrev pub write_failures : SpoolWriter → Disk → List Failure
write_failures w disk = elim disk.cut_short [
  | none ↦
      failure_if (disk.sync_fails && not w.disable_sync) sync_record
      ++ failure_if disk.close_fails close_record
  | some n ↦ write_record ∷ failure_if disk.close_fails close_record
]

abbrev pub is_over : SpoolWriter → Journal → Text → Bool
is_over w f line = ltb 0 w.max_bytes && ltb w.max_bytes (length f.contents + length line)

abbrev pub dropping : SpoolWriter → Disk → Text → Journal → Appended
dropping w disk path f = record {
  writer = record w {
    dropped_writes = suc w.dropped_writes;
    journal_bytes = length f.contents;
    last_spool_path = path;
  };
  file = some f;
  failures = failure_if disk.close_fails close_file;
}

abbrev pub writing : SpoolWriter → Disk → Text → Text → Text → Journal → Appended
writing w disk path primary_error line f =
    let failures = write_failures w disk in
    record {
      writer =
          if is_empty failures
          then record w {
            fallback_writes = suc w.fallback_writes;
            last_primary_error = primary_error;
            last_spool_path = path;
            journal_bytes = length f.contents + length line;
          }
          else w;
      file = some (extended disk line f);
      failures = failures;
    }

abbrev pub failing : SpoolWriter → Option Journal → List Failure → Appended
failing w file failures = record { writer = w; file = file; failures = failures }

-- The part of `append` under the lock.
unfoldable pub append_line : SpoolWriter → Disk → Text → Text → Text → Option Journal → Appended
append_line w disk path primary_error line file =
    let f = opened disk file in
    if disk.canceled_locked
    then failing w file (canceled ∷ [])
    else if disk.directory_fails
    then failing w file (create_directory ∷ [])
    else if disk.open_fails
    then failing w file (open_file ∷ [])
    else if disk.stat_fails
    then failing w (some f) (stat_file ∷ failure_if disk.close_fails close_file)
    else if is_over w f line
    then dropping w disk path f
    else writing w disk path primary_error line f

module _ {Payload : Kind → Type 0} (json : Json Payload) (paths : Paths) where
  unfoldable pub append :
      SpoolWriter → Disk → Text → Text → Text → Entry Payload → Option Journal → Appended
  unfolding append_line
  append w disk kind key primary_error payload file =
      if disk.canceled_before
      then failing w file (canceled ∷ [])
      else elim (json.marshal record {
        kind = kind;
        key = key;
        spooled_at = disk.clock;
        primary_error = primary_error;
        payload = payload;
      }) [
        | none ↦ failing w file (encode_record ∷ [])
        | some line ↦
            append_line w disk (paths.join w.directory w.file_name) primary_error
              (line ++ newline ∷ []) file
      ]

  -- What `record` leaves: also the records that the primary writer has taken. It answers with an
  -- error, or with none.
  unfoldable pub record_entry :
      SpoolWriter → Disk → Text → Entry Payload → Option Text → Option Journal → Appended
  unfolding append kind_name
  record_entry w disk key entry primary_answer file = elim primary_answer [
    | none ↦ failing w file []
    | some why ↦
        let r = append w disk (kind_name entry.0) key why entry file in
        if is_empty r.failures then r else record r { failures = primary_refused why ∷ r.failures }
  ]
