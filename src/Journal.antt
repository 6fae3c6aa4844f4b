-- ===== src/Journal.antt =====
-- The tables runs and events of crates/pengu-mesh-state/src/lib.rs, with the types of their rows in
-- crates/pengu-mesh-shared/src/types.rs. `last_sequence` is the counter that SQLite keeps for the
-- AUTOINCREMENT column; the JSON data of an event is its text. The clock and the unique suffix of an
-- identifier are arguments.
pub mod Tail
pub mod Append
pub mod Runs
mod Examples
use pengu_mesh.Prelude.{
  ℕ, ◌+◌, ltb, Bool, true, false, ◌&&◌, Option, none, some, List, [], ◌∷◌, ◌++◌, if◌then◌else◌,
  Text, text_eq, text_lt, keep, exists, Result, ok, err,
}
use pengu_mesh.StableId.{stable_id, run, event}
use pengu_mesh.Tables.{find_row, key_taken, update_row}
use pengu_mesh.Tables.Query.{order_by, limit}

pub data RunStatus : Type 0 where
  active completed : RunStatus

pub record CaptureRun : Type 0 where
  pub id : Text
  pub entrypoint : Text
  pub detail : Text
  pub status : RunStatus
  pub started_at : Text
  pub ended_at : Option Text

pub data EventLevel : Type 0 where
  info warning error : EventLevel

-- `schema_version` is always 1.
pub record RuntimeEvent : Type 0 where
  pub id : Text
  pub run_id : Text
  pub sequence : ℕ
  pub category : Text
  pub action : Text
  pub level : EventLevel
  pub message : Text
  pub instance_id : Option Text
  pub tab_id : Option Text
  pub artifact_id : Option Text
  pub payload : Text
  pub timestamp : Text

pub record Journal : Type 0 where
  pub runs : List CaptureRun
  pub events : List RuntimeEvent
  pub last_sequence : ℕ

-- The violation of a key.
pub data JournalError : Type 0 where
  constraint_failed : JournalError

abbrev pub run_key : CaptureRun → Text
run_key r = r.id

abbrev pub event_key : RuntimeEvent → Text
event_key e = e.id

abbrev pub is_active : CaptureRun → Bool
is_active r = elim r.status [ active ↦ true | completed ↦ false ]

unfoldable pub create_run :
    Journal → Text → Text → Text → Text → Result (CaptureRun × Journal) JournalError
create_run j entrypoint detail suffix now =
    let r : CaptureRun = record {
      id = stable_id run suffix;
      entrypoint = entrypoint;
      detail = detail;
      status = active;
      started_at = now;
      ended_at = none;
    } in
    if key_taken run_key j.runs r.id
    then err constraint_failed
    else ok (r, record j { runs = j.runs ++ r ∷ [] })

-- `ORDER BY started_at DESC`.
abbrev pub newer : CaptureRun → CaptureRun → Bool
newer r s = text_lt s.started_at r.started_at

abbrev pub head_of {ℓ} : {A : Type ℓ} → List A → Option A
head_of [] = none
head_of (x ∷ xs) = some x

unfoldable pub latest_active_run : Journal → Text → Option CaptureRun
unfolding order_by limit
latest_active_run j entrypoint =
    head_of
      (limit 1 (order_by newer (keep (λ r. text_eq r.entrypoint entrypoint && is_active r) j.runs)))

unfoldable pub get_run : Journal → Text → Option CaptureRun
get_run j run_id = find_row run_key j.runs run_id

unfoldable pub list_runs : Journal → ℕ → List CaptureRun
unfolding order_by limit
list_runs j n = limit n (order_by newer j.runs)

abbrev pub given_or : Option Text → Text → Text
given_or none detail = detail
given_or (some detail) _ = detail

abbrev pub ended : CaptureRun → Option Text → Text → CaptureRun
ended r detail now = record r {
  detail = given_or detail r.detail;
  status = completed;
  ended_at = some now;
}

abbrev pub complete_found :
    Journal → Option CaptureRun → Option Text → Text → Option CaptureRun × Journal
complete_found j none detail now = (none, j)
complete_found j (some r) detail now =
    if is_active r
    then (
      some (ended r detail now),
      record j { runs = update_row run_key j.runs (ended r detail now) },
    )
    else (some r, j)

unfoldable pub complete_run : Journal → Text → Option Text → Text → Option CaptureRun × Journal
unfolding get_run
complete_run j run_id detail now = complete_found j (get_run j run_id) detail now

-- The row that is inserted, with the next sequence number.
unfoldable pub append_event :
    Journal
    → Text
    → Text
    → Text
    → EventLevel
    → Text
    → Option Text
    → Option Text
    → Option Text
    → Text
    → Text
    → Text
    → Result (RuntimeEvent × Journal) JournalError
append_event j run_id category action level message instance_id tab_id artifact_id payload suffix
      now =
    let e : RuntimeEvent = record {
      id = stable_id event suffix;
      run_id = run_id;
      sequence = j.last_sequence + 1;
      category = category;
      action = action;
      level = level;
      message = message;
      instance_id = instance_id;
      tab_id = tab_id;
      artifact_id = artifact_id;
      payload = payload;
      timestamp = now;
    } in
    if key_taken event_key j.events e.id
    then err constraint_failed
    else ok (e, record j { events = j.events ++ e ∷ []; last_sequence = e.sequence })

-- `WHERE run_id = ?1`, where a run is given.
abbrev pub in_run : Option Text → RuntimeEvent → Bool
in_run none e = true
in_run (some run_id) e = text_eq e.run_id run_id

abbrev pub reversed {ℓ} : {A : Type ℓ} → List A → List A
reversed [] = []
reversed (x ∷ xs) = reversed xs ++ x ∷ []

-- `ORDER BY sequence DESC`, and `ASC`.
abbrev pub later : RuntimeEvent → RuntimeEvent → Bool
later d e = ltb e.sequence d.sequence

abbrev pub earlier : RuntimeEvent → RuntimeEvent → Bool
earlier d e = ltb d.sequence e.sequence

unfoldable pub tail_events : Journal → Option Text → ℕ → List RuntimeEvent
unfolding order_by limit
tail_events j run_id n = reversed (limit n (order_by later (keep (in_run run_id) j.events)))

unfoldable pub list_events_for_run : Journal → Text → List RuntimeEvent
unfolding order_by
list_events_for_run j run_id = order_by earlier (keep (in_run (some run_id)) j.events)
