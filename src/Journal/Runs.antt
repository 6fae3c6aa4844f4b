-- ===== src/Journal/Runs.antt =====
-- What `latest_active_run` and `complete_run` of crates/pengu-mesh-state/src/lib.rs do.
use pengu_mesh.Prelude.{
  keep-All_inverse, All-mem, All-of-mem, ◌≡◌, refl, sym, ap, subst, ◌∙◌, inl, inr, Bool, true,
  false, ◌&&◌, Option, none, some, List, [], ◌∷◌, Bool-cases, Option-cases, Text, text_eq, keep,
  All, Memᴰ, Pairwise, keep-mem, kept_passes,
}
use pengu_mesh.Tables.{find_row, update_row}
use pengu_mesh.Tables.Laws.{find-mem, find-update_self}
use pengu_mesh.Tables.Query.{order_by, limit}
use pengu_mesh.Tables.Newest.{
  NotOlder, NotOlder-refl, order_by-All, order_by-All_inverse, order_by-Pairwise,
}
use pengu_mesh.Journal.{
  CaptureRun, Journal, run_key, is_active, newer, head_of, latest_active_run, get_run, ended,
  complete_run,
}

-- No run of the list is newer.
abbrev pub Newest : CaptureRun → List CaptureRun → Type 0
Newest r = All (λ s. newer s r ≡ false)

abbrev started : CaptureRun → Text
started r = r.started_at

abbrev pub matches : Text → CaptureRun → Bool
matches entrypoint r = text_eq r.entrypoint entrypoint && is_active r

-- The head of the ordered list is the newest, and one of the rows.
head_some :
    (rs : List CaptureRun) {r : CaptureRun}
    → Pairwise (NotOlder started) rs
    → head_of (limit 1 rs) ≡ some r
    → Newest r rs × Memᴰ r rs
unfolding limit
head_some [] h e = cc
head_some (x ∷ xs) {r} h e =
    let same : x ≡ r = cc in
    (subst (λ y. Newest y (x ∷ xs)) same (NotOlder-refl started x, h.0), Memᴰ.head (sym same))

head_none :
    (rs : List CaptureRun) (P : CaptureRun → Type 0) → head_of (limit 1 rs) ≡ none → All P rs
unfolding limit
head_none [] P e = tt
head_none (x ∷ xs) P e = cc

-- The run that `latest_active_run` returns is a row of the table, active, of the entrypoint, and no such
-- row was started later; where it returns none, the table has no such row.
pub latest_active_run_lem :
    (j : Journal) (entrypoint : Text)
    → ((r : CaptureRun)
        → latest_active_run j entrypoint ≡ some r
        → Memᴰ r j.runs
          × (matches entrypoint r ≡ true)
          × All (λ s. matches entrypoint s ≡ true → newer s r ≡ false) j.runs)
      × (latest_active_run j entrypoint ≡ none → All (λ s. matches entrypoint s ≡ true → ⊥) j.runs)
unfolding latest_active_run
latest_active_run_lem j entrypoint =
    let own = keep (matches entrypoint) j.runs in
    let sorted = order_by newer own in
    (
      λ r e.
          let (newest, at) = head_some sorted (order_by-Pairwise started own) e in
          let here =
            All-mem _ (order_by-All started (λ s. Memᴰ s own) own (All-of-mem _ own (λ s m. m)))
              at in
          (
            keep-mem (matches entrypoint) j.runs here,
            kept_passes (matches entrypoint) j.runs here,
            keep-All_inverse (matches entrypoint) _ j.runs
                (order_by-All_inverse started _ own newest),
          ),
      λ e.
          keep-All_inverse (matches entrypoint) (λ s. ⊥) j.runs
            (order_by-All_inverse started (λ s. ⊥) own (head_none sorted (λ s. ⊥) e)),
    )

-- There is nothing left to complete.
abbrev Settled : Option CaptureRun → Type 0
Settled none = Unit
Settled (some r) = is_active r ≡ false

complete_run-Settled :
    (j : Journal) (run_id : Text) (o : Option CaptureRun) (detail : Option Text) (now : Text)
    → get_run j run_id ≡ o
    → Settled o
    → complete_run j run_id detail now ≡ (o, j)
unfolding complete_run
complete_run-Settled j run_id none detail now e s = rw e refl
complete_run-Settled j run_id (some r) detail now e s = rw (e, s) refl

twice :
    (j j' : Journal) (run_id : Text) (o : Option CaptureRun) (detail detail' : Option Text)
    (now now' : Text)
    → complete_run j run_id detail now ≡ (o, j')
    → get_run j' run_id ≡ o
    → Settled o
    → complete_run (complete_run j run_id detail now).1 run_id detail' now'
      ≡ complete_run j run_id detail now
twice j j' run_id o detail detail' now now' first e s =
    ap (λ p. complete_run p.1 run_id detail' now') first
    ∙ complete_run-Settled j' run_id o detail' now' e s
    ∙ sym first

complete_run_active :
    (j : Journal) (run_id : Text) (r : CaptureRun) (detail : Option Text) (now : Text)
    → get_run j run_id ≡ some r
    → is_active r ≡ true
    → complete_run j run_id detail now ≡ (
      some (ended r detail now),
      record j { runs = update_row run_key j.runs (ended r detail now) },
    )
unfolding complete_run
complete_run_active j run_id r detail now e a = rw (e, a) refl

-- To complete a run once more returns the same run, whatever the detail and the time given, and
-- changes nothing.
pub complete_run_twice :
    (j : Journal) (run_id : Text) (detail detail' : Option Text) (now now' : Text)
    → complete_run (complete_run j run_id detail now).1 run_id detail' now'
      ≡ complete_run j run_id detail now
unfolding get_run
complete_run_twice j run_id detail detail' now now' =
    elim (Option-cases (find_row run_key j.runs run_id)) [
      | inl e ↦
          twice j j run_id none detail detail' now now'
            (complete_run-Settled j run_id none detail now e tt) e tt
      | inr (r, e) ↦ elim (Bool-cases (is_active r)) [
        | inl a ↦
            let key : r.id ≡ run_id = (find-mem run_key j.runs run_id {r = r} e).1 in
            let found : find_row run_key (update_row run_key j.runs (ended r detail now)) run_id
                ≡ some (ended r detail now) =
              ap (find_row run_key (update_row run_key j.runs (ended r detail now))) (sym key)
              ∙ find-update_self run_key j.runs (ended r detail now) {r = r}
                  (ap (find_row run_key j.runs) key ∙ e) in
            twice j _ run_id (some (ended r detail now)) detail detail' now now'
              (complete_run_active j run_id r detail now e a) found refl
        | inr a ↦
            twice j j run_id (some r) detail detail' now now'
              (complete_run-Settled j run_id (some r) detail now e a) e a
      ]
    ]
