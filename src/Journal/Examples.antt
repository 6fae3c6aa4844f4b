-- ===== src/Journal/Examples.antt =====
-- A journal (crates/pengu-mesh-state/src/lib.rs) of two runs, and its events.
use pengu_mesh.Prelude.{
  ℕ, ◌≡◌, refl, true, false, none, some, [], ◌∷◌, arith, Text, codes, text_eq, text_lt, keep, All,
  Memᴰ, Ensures,
}
use pengu_mesh.Journal.{
  Journal, CaptureRun, RuntimeEvent, active, info, append_event, complete_run, latest_active_run,
  tail_events, in_run, newer,
}
use pengu_mesh.Journal.Tail.{Sequenced, last, tail_events_lem}
use pengu_mesh.Journal.Append.{Appended, append_event_lem}
use pengu_mesh.Journal.Runs.{matches, latest_active_run_lem, complete_run_twice}

abbrev an_event : Text → Text → ℕ → RuntimeEvent
an_event id run_id sequence = record {
  id = id;
  run_id = run_id;
  sequence = sequence;
  category = codes "c";
  action = codes "a";
  level = info;
  message = codes "m";
  instance_id = none;
  tab_id = none;
  artifact_id = none;
  payload = codes "{}";
  timestamp = codes "t";
}

abbrev a_run : Text → Text → CaptureRun
a_run id started_at = record {
  id = id;
  entrypoint = codes "cli";
  detail = codes "d";
  status = active;
  started_at = started_at;
  ended_at = none;
}

abbrev journal : Journal
journal = record {
  runs = a_run (codes "r") (codes "1") ∷ a_run (codes "s") (codes "2") ∷ [];
  events =
      an_event (codes "x") (codes "r") 1
      ∷ an_event (codes "y") (codes "s") 2
      ∷ an_event (codes "z") (codes "r") 4
      ∷ [];
  last_sequence = 5;
}

journal-Sequenced : Sequenced journal
journal-Sequenced = record {
  rising = ((omega arith, (omega arith, tt)), ((omega arith, tt), (tt, tt)));
  below = (omega arith, (omega arith, (omega arith, tt)));
}

tail_events_lem_example :
    tail_events journal (some (codes "r")) 1
    ≡ last 1 (keep (in_run (some (codes "r"))) journal.events)
tail_events_lem_example = tail_events_lem journal (some (codes "r")) 1 journal-Sequenced

append_event_lem_example :
    Ensures
      (λ p. Appended journal p.1 (codes "s") p.0)
      (append_event journal
        (codes "s")
        (codes "c")
        (codes "a")
        info
        (codes "m")
        none
        none
        none
        (codes "{}")
        (codes "n")
        (codes "t"))
append_event_lem_example =
    append_event_lem journal (codes "s") (codes "c") (codes "a") info (codes "m") none none none
      (codes "{}") (codes "n") (codes "t") journal-Sequenced

latest_active_run_lem_example :
    ((r : CaptureRun)
      → latest_active_run journal (codes "cli") ≡ some r
      → Memᴰ r journal.runs
        × (matches (codes "cli") r ≡ true)
        × All (λ s. matches (codes "cli") s ≡ true → newer s r ≡ false) journal.runs)
    × (latest_active_run journal (codes "cli") ≡ none
        → All (λ s. matches (codes "cli") s ≡ true → ⊥) journal.runs)
latest_active_run_lem_example = latest_active_run_lem journal (codes "cli")

newest_found : latest_active_run journal (codes "cli") ≡ some (a_run (codes "s") (codes "2"))
unfolding latest_active_run text_eq text_lt
newest_found = refl

complete_run_twice_example :
    complete_run
      (complete_run journal (codes "r") (some (codes "done")) (codes "3")).1
      (codes "r")
      none
      (codes "4")
    ≡ complete_run journal (codes "r") (some (codes "done")) (codes "3")
complete_run_twice_example =
    complete_run_twice journal (codes "r") (some (codes "done")) none (codes "3") (codes "4")
