-- ===== src/Leases.antt =====
-- crates/pengu-mesh-state/src/lib.rs: the leases table of the state store (`acquire_lease` and its
-- neighbours), with LeaseMode, LeaseResourceKind and LeaseRecord of
-- crates/pengu-mesh-shared/src/types.rs. A table is the list of its rows, oldest first; an SQL
-- statement is the function on rows that it denotes. The primary key `id` and the unique index on
-- (resource_kind, resource_id, holder_id, mode) are kept. A time is its text, which SQLite compares
-- as text. A failed statement rolls its transaction back.
pub mod Rows
pub mod Lookup
pub mod Exclusive
pub mod Acquire
pub mod Transfer
mod Examples
use pengu_mesh.Prelude.{
  ℕ, Bool, true, false, not, ◌&&◌, ◌||◌, Option, none, some, List, [], ◌∷◌, ◌++◌, map, ◌==◌,
  if◌then◌else◌, Text, text_eq, text_lt, keep, count, exists, Result, ok, err, codes,
}

pub data LeaseResourceKind : Type 0 where
  of_instance : LeaseResourceKind

pub data LeaseMode : Type 0 where
  writer observer : LeaseMode

-- `==` of `LeaseMode`.
abbrev pub mode_eq : LeaseMode → LeaseMode → Bool
mode_eq writer writer = true
mode_eq observer observer = true
mode_eq _ _ = false

abbrev pub kind_eq : LeaseResourceKind → LeaseResourceKind → Bool
kind_eq of_instance of_instance = true

pub record LeaseRecord : Type 0 where
  pub id : Text
  pub resource_kind : LeaseResourceKind
  pub resource_id : Text
  pub holder_id : Text
  pub holder_label : Option Text
  pub mode : LeaseMode
  pub granted_at : Text
  pub expires_at : Text
  pub last_heartbeat_at : Text

-- Why a statement or a transaction is refused.
pub data LeaseError : Type 0 where
  held_by : Text → Text → LeaseError  -- the writer, and until when
  no_active_writer : Text → LeaseError
  constraint_failed : LeaseError  -- another row has the id

-- `expires_at > now`; the statements that prune delete the rows with `expires_at <= now`.
abbrev pub is_active : Text → LeaseRecord → Bool
is_active now l = text_lt now l.expires_at

-- `resource_kind = ?1 AND resource_id = ?2`.
abbrev pub on_resource : LeaseResourceKind → Text → LeaseRecord → Bool
on_resource kind resource l = kind_eq l.resource_kind kind && text_eq l.resource_id resource

-- The columns of the unique index.
unfoldable pub same_identity : LeaseRecord → LeaseRecord → Bool
same_identity a l =
    on_resource a.resource_kind a.resource_id l
    && (text_eq l.holder_id a.holder_id && mode_eq l.mode a.mode)

-- `DO UPDATE SET id = excluded.id, ...` on the row of the same identity.
abbrev pub overwrite : LeaseRecord → LeaseRecord → LeaseRecord
overwrite a l =
    if same_identity a l
    then record l {
      id = a.id;
      holder_label = a.holder_label;
      granted_at = a.granted_at;
      expires_at = a.expires_at;
      last_heartbeat_at = a.last_heartbeat_at;
    }
    else l

-- A row of another identity has the id.
abbrev pub id_clash : LeaseRecord → LeaseRecord → Bool
id_clash a l = text_eq l.id a.id && not (same_identity a l)

-- `INSERT INTO leases ... ON CONFLICT(...) DO UPDATE`, which `upsert_lease`, `acquire_lease` and
-- `transfer_writer_lease` share.
unfoldable pub upsert_lease : List LeaseRecord → LeaseRecord → Result (List LeaseRecord) LeaseError
upsert_lease rows a =
    if exists (id_clash a) rows
    then err constraint_failed
    else if exists (same_identity a) rows
    then ok (map (overwrite a) rows)
    else ok (rows ++ a ∷ [])

-- `DELETE FROM leases WHERE expires_at <= ?1`: the rows left, and how many went.
unfoldable pub prune_expired_leases : List LeaseRecord → Text → List LeaseRecord × ℕ
prune_expired_leases rows now = (keep (is_active now) rows, count (λ l. not (is_active now l)) rows)

-- The first of the rows with the least `granted_at` (`ORDER BY granted_at ASC LIMIT 1`).
abbrev pub earlier : LeaseRecord → Option LeaseRecord → LeaseRecord
earlier l none = l
earlier l (some m) = if text_lt m.granted_at l.granted_at then m else l

abbrev pub earliest : List LeaseRecord → Option LeaseRecord
earliest [] = none
earliest (l ∷ ls) = some (earlier l (earliest ls))

abbrev pub is_writer_of : LeaseResourceKind → Text → Text → LeaseRecord → Bool
is_writer_of kind resource now l =
    on_resource kind resource l && (mode_eq l.mode writer && is_active now l)

unfoldable pub get_writer_lease : List LeaseRecord → Text → Text → Option LeaseRecord
get_writer_lease rows resource now = earliest (keep (is_writer_of of_instance resource now) rows)

-- The outcome of a transaction: on an error the table is as it was.
abbrev pub commit {ℓ} :
    {A : Type ℓ}
    → List LeaseRecord
    → Result (A × List LeaseRecord) LeaseError
    → Result A LeaseError × List LeaseRecord
commit rows (ok (a, rows')) = (ok a, rows')
commit rows (err e) = (err e, rows)

abbrev pub upsert_then {ℓ} :
    {A : Type ℓ}
    → A
    → Result (List LeaseRecord) LeaseError
    → Result (A × List LeaseRecord) LeaseError
upsert_then a (ok rows) = ok (a, rows)
upsert_then a (err e) = err e

-- The check of the active writer and the insert of `acquire_lease`, on the pruned rows.
unfoldable pub acquire_pruned :
    List LeaseRecord
    → LeaseRecord
    → Bool
    → Option LeaseRecord
    → Result (Bool × List LeaseRecord) LeaseError
unfolding upsert_lease
acquire_pruned rows a renewed none = upsert_then renewed (upsert_lease rows a)
acquire_pruned rows a renewed (some active_writer) =
    if text_eq active_writer.holder_id a.holder_id
    then upsert_then renewed (upsert_lease rows a)
    else err (held_by active_writer.holder_id active_writer.expires_at)

-- The active writer is asked for only when a writer lease is wanted.
abbrev pub active_writer : List LeaseRecord → LeaseRecord → Text → Option LeaseRecord
active_writer rows a now =
    if mode_eq a.mode writer
    then earliest (keep (is_writer_of a.resource_kind a.resource_id now) rows)
    else none

unfoldable pub acquire_lease :
    List LeaseRecord → LeaseRecord → Text → Result Bool LeaseError × List LeaseRecord
unfolding acquire_pruned prune_expired_leases
acquire_lease rows a now =
    let pruned = (prune_expired_leases rows now).0 in
    let renewed = exists (λ l. same_identity a l && is_active now l) pruned in
    commit rows (acquire_pruned pruned a renewed (active_writer pruned a now))

abbrev pub mode_matches : Option LeaseMode → LeaseRecord → Bool
mode_matches none l = true
mode_matches (some m) l = mode_eq l.mode m

abbrev pub is_lease_of : Text → Text → Option LeaseMode → LeaseRecord → Bool
is_lease_of resource holder mode l =
    on_resource of_instance resource l && (text_eq l.holder_id holder && mode_matches mode l)

-- The rows left, and how many went.
unfoldable pub delete_leases :
    List LeaseRecord → Text → Text → Option LeaseMode → List LeaseRecord × ℕ
delete_leases rows resource holder mode = (
  keep (λ l. not (is_lease_of resource holder mode l)) rows,
  count (is_lease_of resource holder mode) rows,
)

unfoldable pub transfer_writer_lease :
    List LeaseRecord
    → Text
    → Text
    → LeaseRecord
    → Text
    → Result (Unit {0}) LeaseError × List LeaseRecord
unfolding prune_expired_leases delete_leases upsert_lease
transfer_writer_lease rows resource from replacement now =
    let pruned = (prune_expired_leases rows now).0 in
    let r = delete_leases pruned resource from (some writer) in
    commit rows (
      if r.1 == 1
      then upsert_then tt (upsert_lease r.0 replacement)
      else err (no_active_writer from))

-- `mode.as_str()`.
abbrev pub mode_str : LeaseMode → Text
mode_str writer = codes "writer"
mode_str observer = codes "observer"

-- `ORDER BY resource_id ASC, mode ASC, granted_at ASC`: the first row comes before the second.
abbrev pub listed_before : LeaseRecord → LeaseRecord → Bool
listed_before l m =
    if not (text_eq l.resource_id m.resource_id)
    then text_lt l.resource_id m.resource_id
    else if not (mode_eq l.mode m.mode)
    then text_lt (mode_str l.mode) (mode_str m.mode)
    else text_lt l.granted_at m.granted_at

unfoldable pub insert_sorted : LeaseRecord → List LeaseRecord → List LeaseRecord
insert_sorted l [] = l ∷ []
insert_sorted l (m ∷ ms) =
    let rest = insert_sorted l ms in if listed_before m l then m ∷ rest else l ∷ m ∷ ms

unfoldable pub in_list_order : List LeaseRecord → List LeaseRecord
unfolding insert_sorted
in_list_order [] = []
in_list_order (l ∷ ls) = insert_sorted l (in_list_order ls)

abbrev pub resource_matches : Option Text → LeaseRecord → Bool
resource_matches none l = true
resource_matches (some resource) l = text_eq l.resource_id resource

unfoldable pub list_leases : List LeaseRecord → Option Text → Text → List LeaseRecord
unfolding in_list_order
list_leases rows resource now = in_list_order (
    keep
      (λ l. kind_eq l.resource_kind of_instance && (resource_matches resource l && is_active now l))
      rows)

unfoldable pub list_active_leases_for_holder : List LeaseRecord → Text → Text → List LeaseRecord
unfolding in_list_order
list_active_leases_for_holder rows holder now =
    in_list_order (keep (λ l. text_eq l.holder_id holder && is_active now l) rows)
