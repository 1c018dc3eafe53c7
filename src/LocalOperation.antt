-- ===== src/LocalOperation.antt =====
-- internal/service/local_operation_service.go: reports that could not be delivered are kept in a file
-- for each hour, and are sent later. The JSON library and the scheduler are parameters.
pub mod Laws
use text.Mathlib.Text.{starts_with}
use dingospeed.Base.{
  ℕ, ◌+◌, String, List, [], ◌∷◌, ◌++◌, Bool, true, false, not, Option, some, none, Result, ok, err,
  panicked, ltb, leb, ◌==◌, if◌then◌else◌, length, map,
}
use Prim.Native.Char.{code}
use text.Mathlib.Text.{◌==◌ as str_eq}

-- data.FileProcessParam
pub record FileProcessParam : Type 0 where
  pub process_id : ℕ
  pub datatype : String
  pub org : String
  pub repo : String
  pub name : String
  pub etag : String
  pub file_size : ℕ
  pub start_pos : ℕ
  pub end_pos : ℕ
  pub status : ℕ

-- manager.FileProcessEntry
pub record FileProcessEntry : Type 0 where
  pub data_type : String
  pub org : String
  pub repo : String
  pub name : String
  pub etag : String
  pub instance_id : String
  pub start_pos : ℕ
  pub end_pos : ℕ
  pub file_size : ℕ
  pub status : ℕ
  pub process_id : ℕ

pub data SyncError : Type 0 where
  cannot_open bad_line bad_json rejected cannot_read : SyncError

-- What stands behind the first "] " of a line.
unfoldable pub extract_json : String → Option String
extract_json String.[] = none
extract_json (String.◌∷◌ c s) =
    let rest = extract_json s in
    if code c == b']' then (if starts_with s " " then some (after_space s) else rest) else rest
  where
    after_space : String → String
    after_space String.[] = ""
    after_space (String.◌∷◌ d t) = t

-- The first ten characters of a file name, which have to be digits.
unfoldable pub take_digits : ℕ → String → Option String
take_digits ℕ.zero s = some ""
take_digits (ℕ.suc n) String.[] = none
take_digits (ℕ.suc n) (String.◌∷◌ c s) =
    let rest = take_digits n s in
    if ltb (code c) b'0'
    then none
    else if ltb b'9' (code c)
    then none
    else elim rest [ none ↦ none | some t ↦ some (String.◌∷◌ c t) ]

unfoldable pub extract_time_prefix : String → Option String
unfolding take_digits
extract_time_prefix filename = take_digits 10 filename

-- SyncFileProcess: the entries of a request.
unfoldable pub entry_of : String → FileProcessParam → FileProcessEntry
entry_of instance_id p = record {
  data_type = p.datatype;
  org = p.org;
  repo = p.repo;
  name = p.name;
  etag = p.etag;
  instance_id = instance_id;
  start_pos = p.start_pos;
  end_pos = p.end_pos;
  file_size = p.file_size;
  status = p.status;
  process_id = p.process_id;
}

-- A call of the scheduler; the requests of the two other services are passed on as they are.
pub data Call (J M : Type 0) : Type 0 where
  update_cache_job_status : J → Call J M
  update_repository_mount_status : M → Call J M
  sync_file_process : List FileProcessEntry → Call J M

-- sonic.Unmarshal for each type; LocalOperation is its type's number and its body.
pub record Codec (J M : Type 0) : Type 0 where
  pub read_operation : String → Option (ℕ × String)
  pub read_job : String → Option J
  pub read_mount : String → Option M
  pub read_process : String → Option FileProcessParam

pub record SyncState (J M : Type 0) : Type 0 where
  pub process_params : List FileProcessParam
  pub count : ℕ
  pub calls : List (Call J M)

module _ {J M : Type 0} (codec : Codec J M) (instance_id : String) (accepts : Call J M → Bool) where
  abbrev pub Outcome : Type 0
  Outcome = Result SyncError (Unit {0}) × SyncState J M

  unfoldable pub call_scheduler : Call J M → SyncState J M → Outcome
  call_scheduler call s =
      (if accepts call then ok tt else err rejected, record s { calls = s.calls ++ (call ∷ []) })

  -- The rest of a step that may have failed.
  abbrev pub after_call : Outcome → (SyncState J M → Outcome) → Outcome
  after_call (ok done, s) next = next s
  after_call (err e, s) next = (err e, s)
  after_call (panicked, s) next = (panicked, s)

  unfoldable pub sync_batch : SyncState J M → Outcome
  unfolding call_scheduler entry_of
  sync_batch s = call_scheduler (sync_file_process (map (entry_of instance_id) s.process_params)) s

  -- A report; the tenth since the last batch sends one.
  unfoldable pub add_process : FileProcessParam → SyncState J M → Outcome
  unfolding sync_batch
  add_process p s =
      let added = record s { process_params = s.process_params ++ (p ∷ []); count = s.count + 1 } in
      if s.count + 1 == 10
      then after_call (sync_batch added) (λ t. (ok tt, record t { count = 0 }))
      else (ok tt, added)

  abbrev pub known_or :
      {A : Type 0} → Option A → (A → SyncState J M → Outcome) → SyncState J M → Outcome
  known_or none next s = (err bad_json, s)
  known_or (some a) next s = next a s

  -- consts.OperationPreheat and consts.OperationMount
  unfoldable pub run_operation : ℕ → String → SyncState J M → Outcome
  unfolding add_process
  run_operation type body s =
      if type == 2
      then known_or (codec.read_job body) (λ j. call_scheduler (update_cache_job_status j)) s
      else if type == 3
      then known_or (codec.read_mount body) (λ m. call_scheduler (update_repository_mount_status m))
          s
      else known_or (codec.read_process body) add_process s

  unfoldable pub sync_line : String → SyncState J M → Outcome
  unfolding extract_json run_operation
  sync_line line s = if str_eq line "" then (ok tt, s) else elim (extract_json line) [
    | none ↦ (err bad_line, s)
    | some json ↦ known_or (codec.read_operation json) (λ (type, body). run_operation type body) s
  ]

  unfoldable pub sync_lines : List String → SyncState J M → Outcome
  unfolding sync_line
  sync_lines [] s = (ok tt, s)
  sync_lines (line ∷ lines) s = after_call (sync_line line s) (sync_lines lines)

  -- What follows the loop over the lines.
  unfoldable pub sync_rest : Bool → SyncState J M → Outcome
  unfolding sync_batch
  sync_rest scan_failed s =
      after_call (if ltb 0 s.count then sync_batch s else (ok tt, s))
        (λ t. (if scan_failed then err cannot_read else ok tt, t))

  -- What the scanner found in the file: its lines, and whether it met an error behind them.
  unfoldable pub read_and_sync_file_process : Option (List String × Bool) → Outcome
  unfolding sync_lines sync_rest
  read_and_sync_file_process found =
      let start : SyncState J M = record { process_params = []; count = 0; calls = [] } in
      elim found [
        | none ↦ (err cannot_open, start)
        | some (lines, scan_failed) ↦ after_call (sync_lines lines start) (sync_rest scan_failed)
      ]

  -- FileProcessSync on the files that it lists: those that it deletes, and its calls. A file stays
  -- when its sync failed.
  unfoldable pub file_process_sync :
      Bool → List (String × Option (List String × Bool)) → List String × List (Call J M)
  unfolding read_and_sync_file_process
  file_process_sync standalone [] = ([], [])
  file_process_sync standalone ((path, found) ∷ files) =
      let (result, s) = read_and_sync_file_process found in
      let (deleted, calls) = file_process_sync standalone files in
      if standalone then ([], []) else elim result [
        | ok done ↦ (path ∷ deleted, s.calls ++ calls)
        | err e ↦ (deleted, s.calls ++ calls)
        | panicked ↦ (deleted, s.calls ++ calls)
      ]
