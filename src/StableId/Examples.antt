-- ===== src/StableId/Examples.antt =====
-- Identifiers of crates/pengu-mesh-shared/src/id.rs.
use pengu_mesh.Prelude.{◌≡◌, refl, codes}
use pengu_mesh.StableId.{stable_id, tab}

cleaned_seed : stable_id tab (codes "--Main Tab 1!") ≡ codes "tab_main_tab_1"
unfolding stable_id
cleaned_seed = refl
