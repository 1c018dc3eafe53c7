-- ===== src/LocalOperation/Laws.antt =====
-- No report of a file is lost when its sync succeeds.
use text.Mathlib.Text.{◌==◌ as str_eq}
use dingospeed.Base.{
  ℕ, ◌+◌, ◌≡◌, ◌⊎◌, inl, inr, refl, ◌∙◌, String, List, [], ◌∷◌, ◌++◌, append-nil, append_assoc,
  Bool, Option, some, none, Result, ok, err, panicked, ltb, ◌==◌, if◌then◌else◌, either_way,
  Bool-cases, arith, map,
}
use dingospeed.LocalOperation.{
  FileProcessParam, Codec, Call, SyncState, SyncError, bad_line, update_cache_job_status,
  update_repository_mount_status, sync_file_process, extract_json, entry_of, call_scheduler,
  sync_batch, add_process, run_operation, sync_line, sync_lines, after_call, known_or, sync_rest,
  read_and_sync_file_process,
}

module _ {J M : Type 0} (codec : Codec J M) (instance_id : String) (accepts : Call J M → Bool) where
  abbrev pub reports_of : ℕ → String → List FileProcessParam
  reports_of type body =
      if type == 2
      then []
      else if type == 3
      then []
      else elim (codec.read_process body) [ none ↦ [] | some p ↦ p ∷ [] ]

  abbrev pub reports_in_json : Option (ℕ × String) → List FileProcessParam
  reports_in_json none = []
  reports_in_json (some (type, body)) = reports_of type body

  abbrev pub reports_in_found : Option String → List FileProcessParam
  reports_in_found none = []
  reports_in_found (some json) = reports_in_json (codec.read_operation json)

  -- The reports that the lines of a file hold, in order.
  abbrev pub reports : List String → List FileProcessParam
  reports [] = []
  reports (line ∷ lines) =
      (if str_eq line "" then [] else reports_in_found (extract_json line)) ++ reports lines

  -- One of the calls sent just these reports.
  pub record HasSent (l : List FileProcessParam) (calls : List (Call J M)) : Type 0 where
    pub before : List (Call J M)
    pub after : List (Call J M)
    pub split : calls ≡ before ++ (sync_file_process (map (entry_of instance_id) l) ∷ after)

  record Keeps (l : List FileProcessParam) (s : SyncState J M) : Type 0 where
    collected : s.process_params ≡ l
    batched : s.count ≡ 0 → (l ≡ []) ⊎ HasSent l s.calls

  HasSent-append :
      (l : List FileProcessParam) (calls more : List (Call J M))
      → HasSent l calls
      → HasSent l (calls ++ more)
  HasSent-append l calls more h = record {
    before = h.before;
    after = h.after ++ more;
    split = rw h.split (append_assoc h.before _ more);
  }

  abbrev Outcome : Type 0
  Outcome = Result SyncError (Unit {0}) × SyncState J M

  abbrev WhenOk : (SyncState J M → Type 0) → Outcome → Type 0
  WhenOk P (r, s) = r ≡ ok tt → P s

  abbrev Ends : List FileProcessParam → Outcome → Type 0
  Ends l = WhenOk (Keeps l)

  call_scheduler-Ends :
      (call : Call J M) (l : List FileProcessParam) (s : SyncState J M)
      → Keeps l s
      → Ends l (call_scheduler codec instance_id accepts call s)
  unfolding call_scheduler
  call_scheduler-Ends call l s k h = record {
    collected = k.collected;
    batched = λ z. elim (k.batched z) [
      | inl e ↦ inl e
      | inr sent ↦ inr (HasSent-append l s.calls (call ∷ []) sent)
    ];
  }

  sync_batch_sends :
      (s : SyncState J M)
      → HasSent s.process_params (sync_batch codec instance_id accepts s).1.calls
        × ((sync_batch codec instance_id accepts s).1.process_params ≡ s.process_params)
  unfolding sync_batch call_scheduler
  sync_batch_sends s = (record { before = s.calls; after = []; split = refl }, refl)

  after_call_ok :
      (P : SyncState J M → Type 0) (o : Outcome) (next : SyncState J M → Outcome)
      → (o.0 ≡ ok tt → WhenOk P (next o.1))
      → WhenOk P (after_call codec instance_id accepts o next)
  after_call_ok P (ok tt, s) next k h = k refl h
  after_call_ok P (err e, s) next k h = absurd (ground (arith, h))
  after_call_ok P (panicked, s) next k h = absurd (ground (arith, h))

  add_process-Ends :
      (p : FileProcessParam) (l : List FileProcessParam) (s : SyncState J M)
      → Keeps l s
      → Ends (l ++ (p ∷ [])) (add_process codec instance_id accepts p s)
  unfolding add_process
  add_process-Ends p l s k =
      let added = record s { process_params = s.process_params ++ (p ∷ []); count = s.count + 1 } in
      let (sent, same) = sync_batch_sends added in
      let all : s.process_params ++ (p ∷ []) ≡ l ++ (p ∷ []) = rw k.collected refl in
      either_way (Ends (l ++ (p ∷ []))) (s.count + 1 == 10)
        (λ tenth.
          after_call_ok (Keeps (l ++ (p ∷ []))) (sync_batch codec instance_id accepts added) _
            (λ accepted h. record { collected = same ∙ all; batched = λ z. inr (rw (← all) sent) }))
        (λ fewer h. record { collected = all; batched = λ z. absurd (omega (arith, z)) })

  known_or-Ends :
      {A : Type 0} (o : Option A) (next : A → SyncState J M → Outcome) (l : List FileProcessParam)
      (s : SyncState J M)
      → ((a : A) → o ≡ some a → Ends l (next a s))
      → Ends l (known_or codec instance_id accepts o next s)
  known_or-Ends none next l s k = λ h. absurd (ground (arith, h))
  known_or-Ends (some a) next l s k = k a refl

  run_operation-Ends :
      (type : ℕ) (body : String) (l : List FileProcessParam) (s : SyncState J M)
      → Keeps l s
      → Ends (l ++ reports_of type body) (run_operation codec instance_id accepts type body s)
  unfolding run_operation
  run_operation-Ends type body l s k = elim (Bool-cases (type == 2)) [
    | inl preheat ↦
        rw (preheat, append-nil l)
          (known_or-Ends (codec.read_job body)
            (λ j. call_scheduler codec instance_id accepts (update_cache_job_status j)) l s
            (λ j _. call_scheduler-Ends (update_cache_job_status j) l s k))
    | inr not_preheat ↦ elim (Bool-cases (type == 3)) [
      | inl mount ↦
          rw (not_preheat, mount, append-nil l)
            (known_or-Ends (codec.read_mount body)
              (λ m. call_scheduler codec instance_id accepts (update_repository_mount_status m)) l s
              (λ m _. call_scheduler-Ends (update_repository_mount_status m) l s k))
      | inr process ↦
          rw (not_preheat, process)
            (known_or-Ends (codec.read_process body) (add_process codec instance_id accepts) _ s
              (λ p e. rw e (add_process-Ends p l s k)))
    ]
  ]

  found_line-Ends :
      (found : Option String) (l : List FileProcessParam) (s : SyncState J M)
      → Keeps l s
      → Ends (l ++ reports_in_found found) (elim found [
        | none ↦ (err bad_line, s)
        | some json ↦
            known_or codec instance_id accepts
              (codec.read_operation json)
              (λ (type, body). run_operation codec instance_id accepts type body)
              s
      ])
  found_line-Ends none l s k = λ h. absurd (ground (arith, h))
  found_line-Ends (some json) l s k =
      known_or-Ends (codec.read_operation json)
        (λ (type, body). run_operation codec instance_id accepts type body) _ s
        (λ o e. rw e (run_operation-Ends o.0 o.1 l s k))

  line_reports : String → List FileProcessParam
  line_reports line = if str_eq line "" then [] else reports_in_found (extract_json line)

  sync_line-Ends :
      (line : String) (l : List FileProcessParam) (s : SyncState J M)
      → Keeps l s
      → Ends (l ++ line_reports line) (sync_line codec instance_id accepts line s)
  unfolding sync_line line_reports
  sync_line-Ends line l s k = elim (Bool-cases (str_eq line "")) [
    | inl blank ↦ rw (blank, append-nil l) (λ h. k)
    | inr filled ↦ rw filled (found_line-Ends (extract_json line) l s k)
  ]

  sync_lines-Ends :
      (lines : List String) (l : List FileProcessParam) (s : SyncState J M)
      → Keeps l s
      → Ends (l ++ reports lines) (sync_lines codec instance_id accepts lines s)
  unfolding sync_lines line_reports
  sync_lines-Ends [] l s k = rw (append-nil l) (λ h. k)
  sync_lines-Ends (line ∷ lines) l s k =
      after_call_ok (Keeps _) (sync_line codec instance_id accepts line s)
        (sync_lines codec instance_id accepts lines)
        (λ fine.
          rw (← append_assoc l (line_reports line) (reports lines))
            (sync_lines-Ends lines (l ++ line_reports line) _ (sync_line-Ends line l s k fine)))

  sync_rest_sends :
      (scan_failed : Bool) (l : List FileProcessParam) (s : SyncState J M)
      → Keeps l s
      → WhenOk
          (λ t. (l ≡ []) ⊎ HasSent l t.calls)
          (sync_rest codec instance_id accepts scan_failed s)
  unfolding sync_rest
  sync_rest_sends scan_failed l s k =
      let All : SyncState J M → Type 0 = λ t. (l ≡ []) ⊎ HasSent l t.calls in
      let batch : WhenOk All (sync_batch codec instance_id accepts s) =
        λ h. inr (rw (← k.collected) (sync_batch_sends s).0) in
      let done : WhenOk All
          (if ltb 0 s.count then sync_batch codec instance_id accepts s else (ok tt, s)) =
        either_way (WhenOk All) (ltb 0 s.count) (λ some_left. batch)
          (λ none_left h. k.batched (ground (arith, none_left))) in
      after_call_ok All _ _ (λ fine h. done fine)

  -- When a file of reports is synced without an error, so that it is deleted, one of the calls sent
  -- all reports of the file, in order, or there were none.
  pub read_and_sync_file_process-HasSent :
      (lines : List String) (scan_failed : Bool)
      → let r = read_and_sync_file_process codec instance_id accepts (some (lines, scan_failed)) in
        r.0 ≡ ok tt → (reports lines ≡ []) ⊎ HasSent (reports lines) r.1.calls
  unfolding read_and_sync_file_process
  read_and_sync_file_process-HasSent lines scan_failed h =
      let start : SyncState J M = record { process_params = []; count = 0; calls = [] } in
      let kept : Keeps [] start = record { collected = refl; batched = λ z. inl refl } in
      after_call_ok (λ t. (reports lines ≡ []) ⊎ HasSent (reports lines) t.calls)
        (sync_lines codec instance_id accepts lines start)
        (sync_rest codec instance_id accepts scan_failed)
        (λ fine.
          sync_rest_sends scan_failed (reports lines) _ (sync_lines-Ends lines [] start kept fine))
        h
