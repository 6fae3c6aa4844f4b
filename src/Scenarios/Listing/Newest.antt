-- ===== src/Scenarios/Listing/Newest.antt =====
-- Which runs `list_scenario_runs` (crates/pengu-mesh-state/src/lib.rs) lists, and in which order.
use pengu_mesh.Prelude.{
  ℕ, min, ◌≡◌, ◌∙◌, ap, ◌⊎◌, true, false, Option, List, Text, text_lt, length, length-keep, count,
  keep, All, All-of-mem, Pairwise, Memᴰ, keep-mem, kept_passes, keep-All_inverse,
}
use pengu_mesh.Tables.Newest.{
  order_by-All, order_by-All_inverse, order_by-Pairwise, order_by-length, limit-length, limit-All,
  limit-Pairwise, limit-cut,
}
use pengu_mesh.Scenarios.{ScenarioRun, ScenarioStore}
use pengu_mesh.Scenarios.Listing.{family_matches, list_scenario_runs}

-- A run that did not start earlier than another.
abbrev pub NotOlder : ScenarioRun → ScenarioRun → Type 0
NotOlder r s = text_lt r.started_at s.started_at ≡ false

-- Runs that are the latest ones of the family that is asked for, or of all families: as many as
-- there are, up to the limit, in the store, the latest first, and no run left out is later than one
-- of them.
pub record ListsLatest (m : ScenarioStore) (family : Option Text) (n : ℕ) (runs : List ScenarioRun)
    : Type 0 where
  pub stored : All (λ r. Memᴰ r m.runs × (family_matches family r ≡ true)) runs
  pub up_to_limit : length runs ≡ min n (count (family_matches family) m.runs)
  pub latest_first : Pairwise NotOlder runs
  pub none_later :
      All (λ s. family_matches family s ≡ true → Memᴰ s runs ⊎ All (λ r. NotOlder r s) runs) m.runs

-- `list_scenario_runs` lists the latest runs, the latest first.
pub list_scenario_runs-ListsLatest :
    (m : ScenarioStore) (family : Option Text) (n : ℕ)
    → ListsLatest m family n (list_scenario_runs m family n)
unfolding list_scenario_runs
list_scenario_runs-ListsLatest m family n =
    let own = keep (family_matches family) m.runs in
    let started : ScenarioRun → Text = λ r. r.started_at in
    let sorted = order_by-Pairwise started own in
    record {
      stored = limit-All _ n _ (
          order_by-All started _ own (
            All-of-mem _ own (λ r k. (
              keep-mem (family_matches family) m.runs k,
              kept_passes (family_matches family) m.runs k,
            ))));
      up_to_limit =
          limit-length n _
          ∙ ap (min n) (order_by-length started own ∙ length-keep (family_matches family) m.runs);
      latest_first = limit-Pairwise _ n _ sorted;
      none_later =
          keep-All_inverse (family_matches family) _ m.runs
            (order_by-All_inverse started _ own (limit-cut NotOlder n _ sorted));
    }
