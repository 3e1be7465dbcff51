-- ===== src/Deployments/Targets.antt =====
-- deployments/domain/target.py, and DeploymentTargetStore of deployments/adapters/persistence.py:
-- how far each edge has got, written under the generation of the rollout. Of a deployment's row
-- only the identifier and the generation are kept here.
pub mod Takeover
use Prim.Native.Nat.{Ordering}
use Prim.Native.String.{compare}
use blitze_cdn_cp.Prelude.{
  ℕ, suc, ◌+◌, String, List, [], ◌∷◌, ◌++◌, Bool, true, false, not, ◌&&◌, ◌||◌, Option, none, some,
  leb, ltb, ◌==◌, nat_eq, string_eq, if◌then◌else◌,
}
use blitze_cdn_cp.Sql.{select_where, update_where, rows_affected, matches, first_where, order_by}

pub data TargetPhase : Type 0 where
  prepare validate stage activate verify : TargetPhase

pub data TargetStatus : Type 0 where
  pending running succeeded failed skipped : TargetStatus

abbrev pub phase_order : List TargetPhase
phase_order =
    TargetPhase.prepare ∷ TargetPhase.validate ∷ TargetPhase.stage ∷ TargetPhase.activate
    ∷ TargetPhase.verify ∷ []

-- PHASE_ORDER.index(phase)
unfoldable pub index : TargetPhase → ℕ
index TargetPhase.prepare = 0
index TargetPhase.validate = 1
index TargetPhase.stage = 2
index TargetPhase.activate = 3
index TargetPhase.verify = 4

-- What the serving probe says of one hostname.
pub record SiteResult : Type 0 where
  pub hostname : String
  pub served : Bool
  pub detail : String

-- The texts of errors and of `last_error`, by the f-string that they are written with: a text from
-- outside, `type: text`, an edge without address, an edge that does not serve, `at edge: …`, a
-- phase that failed, a failed recovery, a failed and a done withdrawal, a takeover, and an edge
-- that was not attempted.
pub data Detail : Type 0 where
  said : String → Detail
  raised : String → Detail → Detail
  no_address : String → Detail
  not_serving : String → List SiteResult → Detail
  at_edge : String → Detail → Detail
  phase_failed : TargetPhase → Detail → Detail
  recovery_failed : Detail → Detail
  rollback_failed : Detail → Detail → Detail
  restored : Detail → Detail
  taken_over : Detail
  not_attempted : String → Detail → Detail

pub record DeploymentTarget : Type 0 where
  pub deployment_id : String
  pub edge : String
  pub status : TargetStatus
  pub phase : Option TargetPhase
  pub attempts : ℕ
  pub fence : ℕ
  pub started_at : Option ℕ
  pub finished_at : Option ℕ
  pub last_error : Option Detail

unfoldable pub phase_behind : TargetPhase → Option TargetPhase
phase_behind TargetPhase.prepare = some TargetPhase.validate
phase_behind TargetPhase.validate = some TargetPhase.stage
phase_behind TargetPhase.stage = some TargetPhase.activate
phase_behind TargetPhase.activate = some TargetPhase.verify
phase_behind TargetPhase.verify = none

next_after : Option TargetPhase → Option TargetPhase
unfolding phase_behind
next_after none = some TargetPhase.prepare
next_after (some p) = phase_behind p

unfoldable pub next_phase : DeploymentTarget → Option TargetPhase
unfolding next_after
next_phase t = next_after t.phase

pub record DeploymentRow : Type 0 where
  pub id : String
  pub generation : ℕ

pub record Fleet : Type 0 where
  pub deployments : List DeploymentRow
  pub targets : List DeploymentTarget

unfoldable pub has_id : String → DeploymentRow → Bool
has_id id row = row.id == id

unfoldable pub of_deployment : String → DeploymentTarget → Bool
of_deployment id t = t.deployment_id == id

unfoldable pub stamp : String → ℕ → List DeploymentTarget → List DeploymentTarget
unfolding of_deployment
stamp id fence = update_where (of_deployment id) (λ t. record t { fence = fence })

claimed_as : String → Option DeploymentRow → Fleet → Option ℕ × Fleet
unfolding stamp
claimed_as id none db = (none, db)
claimed_as id (some row) db =
    (some row.generation, record db { targets = stamp id row.generation db.targets })

-- UPDATE … RETURNING, and the new stamp of every target. `none` is the NotFoundError.
unfoldable pub claim_generation : String → Fleet → Option ℕ × Fleet
unfolding claimed_as has_id
claim_generation id db =
    let rows =
      update_where (has_id id) (λ row. record row { generation = row.generation + 1 })
        db.deployments in
    claimed_as id (first_where (has_id id) rows) (record db { deployments = rows })

-- NotFoundError, ConflictError, and the IntegrityError of two rows under one primary key.
pub data PlanError : Type 0 where
  not_found stale repeated : PlanError

unfoldable pub has_edge : String → List DeploymentTarget → Bool
has_edge edge rows = matches (λ t. t.edge == edge) rows

abbrev pub new_target : String → ℕ → String → DeploymentTarget
new_target id fence edge = record {
  deployment_id = id;
  edge = edge;
  status = TargetStatus.pending;
  phase = none;
  attempts = 0;
  fence = fence;
  started_at = none;
  finished_at = none;
  last_error = none;
}

unfoldable pub add_missing :
    String → ℕ → List DeploymentTarget → List String → List DeploymentTarget → List DeploymentTarget
unfolding has_edge
add_missing id fence existing [] rows = rows
add_missing id fence existing (edge ∷ edges) rows =
    add_missing id fence existing edges
      (if has_edge edge existing then rows else rows ++ new_target id fence edge ∷ [])

-- An edge without a target is given twice: both rows would have the primary key of the table.
unfoldable pub is_repeated : List DeploymentTarget → List String → Bool
unfolding has_edge
is_repeated existing [] = false
is_repeated existing (edge ∷ edges) =
    (not (has_edge edge existing) && matches (λ other. other == edge) edges)
    || is_repeated existing edges

plan_for : String → List String → ℕ → Option DeploymentRow → Fleet → Option PlanError × Fleet
unfolding is_repeated add_missing stamp
plan_for id edges fence none db = (some not_found, db)
plan_for id edges fence (some row) db =
    let existing = select_where (of_deployment id) db.targets in
    if not (row.generation == fence)
    then (some stale, db)
    else (if is_repeated existing edges then (some repeated, db) else (
      none,
      record db { targets = stamp id fence (add_missing id fence existing edges db.targets) },
    ))

unfoldable pub plan : String → List String → ℕ → Fleet → Option PlanError × Fleet
unfolding plan_for has_id
plan id edges fence db = plan_for id edges fence (first_where (has_id id) db.deployments) db

-- ORDER BY edge
unfoldable pub by_edge : DeploymentTarget → DeploymentTarget → Bool
by_edge a b = elim (compare a.edge b.edge) [ Ordering.gt ↦ false | _ ↦ true ]

unfoldable pub targets : String → Fleet → List DeploymentTarget
unfolding by_edge of_deployment
targets id db = order_by by_edge (select_where (of_deployment id) db.targets)

-- WHERE deployment_id = :id AND edge = :edge AND fence = :fence
unfoldable pub owned : String → String → ℕ → DeploymentTarget → Bool
owned id edge fence t = t.deployment_id == id && (t.edge == edge && t.fence == fence)

-- _advance
unfoldable pub advance :
    String → String → ℕ → (DeploymentTarget → DeploymentTarget) → Fleet → Bool × Fleet
unfolding owned
advance id edge fence values db = (
  matches (owned id edge fence) db.targets,
  record db { targets = update_where (owned id edge fence) values db.targets },
)

unfoldable pub begin : String → String → ℕ → ℕ → Fleet → Bool × Fleet
unfolding advance
begin id edge fence now = advance id edge fence λ t. record t {
  status = TargetStatus.running;
  started_at = some now;
  attempts = t.attempts + 1;
}

unfoldable pub record_phase : String → String → TargetPhase → ℕ → Fleet → Bool × Fleet
unfolding advance
record_phase id edge phase fence = advance id edge fence λ t. record t { phase = some phase }

unfoldable pub finish :
    String → String → ℕ → TargetStatus → ℕ → Option Detail → Fleet → Bool × Fleet
unfolding advance
finish id edge fence status now error =
    advance id edge fence
      λ t. record t { status = status; finished_at = some now; last_error = error }

unfoldable pub is_pending : TargetStatus → Bool
is_pending TargetStatus.pending = true
is_pending _ = false

unfoldable pub unreached : String → ℕ → DeploymentTarget → Bool
unfolding is_pending
unreached id fence t = t.deployment_id == id && (is_pending t.status && t.fence == fence)

unfoldable pub skip_remaining : String → ℕ → ℕ → Detail → Fleet → ℕ × Fleet
unfolding unreached
skip_remaining id fence now reason db = (
  rows_affected (unreached id fence) db.targets,
  record db {
    targets =
        update_where (unreached id fence)
          (λ t. record t {
            status = TargetStatus.skipped;
            finished_at = some now;
            last_error = some reason;
          })
          db.targets;
  },
)
