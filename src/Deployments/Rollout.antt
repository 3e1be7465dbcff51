-- ===== src/Deployments/Rollout.antt =====
-- deployments/service/rollout.py: every edge through the phases, one at a time, stopping at the
-- first failure. The runner of Ansible, the serving probe, the addresses and the publication are
-- parameters: what they answer may depend on all calls made before. During a call other processes
-- may write to the database.
mod Histories
mod Touching
pub mod Stopping
pub mod DryRun
pub mod Commit
pub mod Order
use blitze_cdn_cp.Prelude.{
  ℕ, String, List, [], ◌∷◌, Bool, true, false, not, ◌&&◌, ◌||◌, Option, none, some, leb, ◌==◌,
  string_eq, if◌then◌else◌,
}
use blitze_cdn_cp.Sql.{select_where}
use blitze_cdn_cp.Deployments.Targets.{
  TargetPhase, TargetStatus, Detail, SiteResult, DeploymentTarget, Fleet, PlanError, index,
  claim_generation, plan, targets, begin, record_phase, finish, skip_remaining,
}

-- The tags of a tool run: none, or one of the four.
pub data Tags : Type 0 where
  whole stage activate commit rollback : Tags

-- What the rollout does outside the database, newest first in a history.
pub data Call : Type 0 where
  published : Call
  tool : (check : Bool) → (edge : String) → Tags → Call
  observed : String → Call

pub data RunStatus : Type 0 where
  succeeded failed timed_out unstarted : RunStatus

-- The part of an `AnsibleRun` that the rollout reads: its status and its `summary()`.
pub record AnsibleRun : Type 0 where
  pub status : RunStatus
  pub summary : String

run_succeeded : RunStatus → Bool
run_succeeded RunStatus.succeeded = true
run_succeeded _ = false

-- An exception with its text: the ExecutionError, or another with the name of its type.
pub data Failure : Type 0 where
  execution : Detail → Failure
  other : String → Detail → Failure

pub data Reply : Type 0 where
  ran : AnsibleRun → Reply
  raises : Failure → Reply

pub data Observation : Type 0 where
  answered : List SiteResult → Observation
  raises : Failure → Observation

pub record Outside : Type 0 where
  pub run : List Call → Bool → String → Tags → Reply
  pub verify : List Call → String → String → Observation
  pub public_address : List Call → String → Option String
  pub publish : List Call → Option Failure
  pub meanwhile : List Call → Fleet → Fleet
  pub clock : List Call → ℕ

pub record World : Type 0 where
  pub db : Fleet
  pub calls : List Call

-- str(exc), and f"{type(exc).__name__}: {exc}"
unfoldable pub text_of : Failure → Detail
text_of (execution text) = text
text_of (other type text) = text

unfoldable pub typed_text_of : Failure → Detail
typed_text_of (execution text) = Detail.raised "ExecutionError" text
typed_text_of (other type text) = Detail.raised type text

-- What a phase does: nothing, a run, or an exception.
pub data Produced : Type 0 where
  nothing : Produced
  ran : AnsibleRun → Produced
  raised : Failure → Produced

unfoldable pub produced_by : Reply → Produced
produced_by (Reply.ran r) = Produced.ran r
produced_by (Reply.raises f) = raised f

unfoldable pub unserved : List SiteResult → List SiteResult
unserved = select_where (λ result. not result.served)

unserved_failure : String → List SiteResult → List SiteResult → Option Failure
unserved_failure edge results [] = none
unserved_failure edge results (r ∷ rs) =
    some (other "RuntimeError" (Detail.not_serving edge results))

unfoldable pub judge : String → Observation → Option Failure
unfolding unserved_failure
judge edge (answered results) = unserved_failure edge results (unserved results)
judge edge (Observation.raises f) = some f

-- `_already_done`
unfoldable pub already_done : Option TargetPhase → TargetPhase → Bool
unfolding index
already_done none phase = false
already_done (some reached) phase = leb (index phase) (index reached)

unfoldable pub uncommitted : TargetPhase → Bool
uncommitted TargetPhase.activate = true
uncommitted TargetPhase.verify = true
uncommitted _ = false

unfoldable pub withdrawn : Detail → Reply → Detail
unfolding text_of run_succeeded
withdrawn detail (Reply.ran r) =
    if run_succeeded r.status
    then Detail.restored detail
    else Detail.rollback_failed detail (Detail.said r.summary)
withdrawn detail (Reply.raises f) = Detail.rollback_failed detail (text_of f)

-- `produced.summary() or …`
unfoldable pub failure_text : AnsibleRun → Detail
failure_text r =
    if r.summary == "" then Detail.said "the run reported a failure" else Detail.said r.summary

-- How the walk of one edge ends, with the last run that it saw.
pub data EdgeEnd : Type 0 where
  converged : Option AnsibleRun → EdgeEnd
  stopped : Detail → Option AnsibleRun → EdgeEnd
  escapes : Failure → EdgeEnd

unfoldable pub phases : Bool → List TargetPhase
phases true = TargetPhase.prepare ∷ TargetPhase.validate ∷ []
phases false =
    TargetPhase.prepare ∷ TargetPhase.validate ∷ TargetPhase.stage ∷ TargetPhase.activate
    ∷ TargetPhase.verify ∷ []

pub record RolloutOutcome : Type 0 where
  pub targets : List DeploymentTarget
  pub run : Option AnsibleRun
  pub error : Option Detail

unfoldable pub is_succeeded : TargetStatus → Bool
is_succeeded TargetStatus.succeeded = true
is_succeeded _ = false

all_succeeded : List DeploymentTarget → Bool
unfolding is_succeeded
all_succeeded [] = true
all_succeeded (t ∷ ts) = is_succeeded t.status && all_succeeded ts

outcome_clean : Option Detail → Bool
outcome_clean none = true
outcome_clean (some d) = false

-- RolloutOutcome.succeeded
unfoldable pub succeeds : RolloutOutcome → Bool
unfolding all_succeeded outcome_clean
succeeds o = outcome_clean o.error && all_succeeded o.targets

pub data Rolled : Type 0 where
  rolled : RolloutOutcome → Rolled
  escaped : Failure → Rolled
  unplanned : PlanError → Rolled

module _ (out : Outside) where
  unfoldable pub contact : Call → World → World
  contact call w = record { db = out.meanwhile w.calls w.db; calls = call ∷ w.calls }

  unfoldable pub run_tool : Bool → String → Tags → World → Reply × World
  unfolding contact
  run_tool check edge tags w = (out.run w.calls check edge tags, contact (tool check edge tags) w)

  verify_at : String → Option String → World → Option Failure × World
  unfolding contact judge
  verify_at edge none w = (some (other "RuntimeError" (Detail.no_address edge)), w)
  verify_at edge (some address) w =
      (judge edge (out.verify w.calls edge address), contact (observed edge) w)

  -- `_verify`, with what it raises.
  unfoldable pub verify_edge : String → World → Option Failure × World
  unfolding verify_at
  verify_edge edge w = verify_at edge (out.public_address w.calls edge) w

  produced_tool : Bool → String → Tags → World → Produced × World
  unfolding run_tool produced_by
  produced_tool check edge tags w =
      let (reply, w') = run_tool check edge tags w in (produced_by reply, w')

  commit_after : String → Option Failure → World → Produced × World
  unfolding produced_tool
  commit_after edge none w = produced_tool false edge commit w
  commit_after edge (some f) w = (raised f, w)

  -- `_run_phase`
  unfoldable pub run_phase : TargetPhase → String → Bool → World → Produced × World
  unfolding commit_after produced_tool verify_edge
  run_phase TargetPhase.prepare edge check w = (nothing, w)
  run_phase TargetPhase.validate edge check w = produced_tool true edge whole w
  run_phase TargetPhase.stage edge check w = produced_tool false edge Tags.stage w
  run_phase TargetPhase.activate edge check w = produced_tool check edge Tags.activate w
  run_phase TargetPhase.verify edge check w =
      let (failure, w') = verify_edge edge w in commit_after edge failure w'

  -- `_withdraw`
  unfoldable pub withdraw : TargetPhase → String → Detail → Bool → World → Detail × World
  unfolding uncommitted run_tool withdrawn
  withdraw phase edge detail check w =
      if check || not (uncommitted phase)
      then (detail, w)
      else (let (reply, w') = run_tool false edge rollback w in (withdrawn detail reply, w'))

  module _ (id : String) (fence : ℕ) where
    -- `_fail`
    unfoldable pub fail : String → TargetPhase → Detail → World → Detail × World
    fail edge phase detail w =
        let message = Detail.phase_failed phase detail in
        (
          message,
          record w {
            db =
                (finish id edge fence TargetStatus.failed (out.clock w.calls) (some message)
                  w.db).1;
          },
        )

    -- The failure of a phase: the withdrawal, then the row.
    unfoldable pub close : String → TargetPhase → Detail → Bool → World → Detail × World
    unfolding withdraw fail
    close edge phase detail check w =
        let (detail', w') = withdraw phase edge detail check w in fail edge phase detail' w'

    stop : String → TargetPhase → Detail → Bool → Option AnsibleRun → World → EdgeEnd × World
    unfolding close
    stop edge phase detail check last w =
        let (message, w') = close edge phase detail check w in (stopped message last, w')

    record_then :
        String
        → TargetPhase
        → (World → EdgeEnd × World)
        → Option AnsibleRun
        → World
        → EdgeEnd × World
    record_then edge phase go last w =
        let (recorded, db') = record_phase id edge phase fence w.db in
        let w' = record w { db = db' } in
        if recorded then go w' else (stopped Detail.taken_over last, w')

    -- What follows a phase: the next ones, or the end.
    after_phase :
        String
        → TargetPhase
        → Bool
        → (Option AnsibleRun → World → EdgeEnd × World)
        → Option AnsibleRun
        → Produced
        → World
        → EdgeEnd × World
    unfolding record_then stop run_succeeded failure_text text_of typed_text_of
    after_phase edge phase check go last nothing w = record_then edge phase (go last) last w
    after_phase edge phase check go last (Produced.ran r) w =
        if run_succeeded r.status
        then record_then edge phase (go (some r)) (some r) w
        else stop edge phase (failure_text r) check (some r) w
    after_phase edge phase check go last (raised (execution text)) w =
        let (message, w') = close edge phase text check w in (escapes (execution text), w')
    after_phase edge phase check go last (raised (other type text)) w =
        stop edge phase (Detail.raised type text) check last w

    -- The loop of `_converge_edge`, and its end.
    unfoldable pub walk :
        String
        → Bool
        → Option TargetPhase
        → List TargetPhase
        → Option AnsibleRun
        → World
        → EdgeEnd × World
    unfolding after_phase run_phase
    walk edge check reached [] last w = (
      converged last,
      record w {
        db = (finish id edge fence TargetStatus.succeeded (out.clock w.calls) none w.db).1;
      },
    )
    walk edge check reached (phase ∷ rest) last w = elim (already_done reached phase) [
      | true ↦ walk edge check reached rest last w
      | false ↦
          let (produced, w') = run_phase phase edge check w in
          after_phase edge phase check (walk edge check reached rest) last produced w'
    ]

    -- `_converge_edge`
    unfoldable pub converge_edge : DeploymentTarget → Bool → World → EdgeEnd × World
    unfolding walk phases
    converge_edge target check w =
        let (begun, db') = begin id target.edge fence (out.clock w.calls) w.db in
        let w' = record w { db = db' } in
        if begun
        then walk target.edge check target.phase (phases check) none w'
        else (stopped Detail.taken_over none, w')

    -- The end of a rollout that stopped at an edge.
    stop_rollout : String → Detail → Option AnsibleRun → World → Rolled × World
    stop_rollout edge detail last w =
        let db' =
          (skip_remaining id fence (out.clock w.calls) (Detail.not_attempted edge detail) w.db).1 in
        (
          rolled (record {
            targets = targets id db';
            run = last;
            error = some (Detail.at_edge edge detail);
          }),
          record w { db = db' },
        )

    after_recovery :
        String
        → (World → Rolled × World)
        → Option AnsibleRun
        → Option Failure
        → World
        → Rolled × World
    unfolding fail stop_rollout text_of
    after_recovery edge go last none w = go w
    after_recovery edge go last (some f) w =
        let (message, w') = fail edge TargetPhase.verify (Detail.recovery_failed (text_of f)) w in
        stop_rollout edge message last w'

    after_edge :
        String → (Option AnsibleRun → World → Rolled × World) → EdgeEnd → World → Rolled × World
    unfolding stop_rollout
    after_edge edge go (converged last) w = go last w
    after_edge edge go (stopped detail last) w = stop_rollout edge detail last w
    after_edge edge go (escapes f) w = (escaped f, w)

    -- An edge that has its configuration already: asked again whether it serves, in no dry run.
    recheck : Bool → String → (World → Rolled × World) → Option AnsibleRun → World → Rolled × World
    unfolding after_recovery verify_edge
    recheck true edge go last w = go w
    recheck false edge go last w =
        let (failure, w') = verify_edge edge w in after_recovery edge go last failure w'

    -- The loop of `converge` over the targets that it read.
    unfoldable pub roll : Bool → List DeploymentTarget → Option AnsibleRun → World → Rolled × World
    unfolding recheck after_edge converge_edge is_succeeded
    roll check [] last w =
        (rolled (record { targets = targets id w.db; run = last; error = none }), w)
    roll check (t ∷ ts) last w = elim (is_succeeded t.status) [
      | true ↦ recheck check t.edge (roll check ts last) last w
      | false ↦
          let (ending, w') = converge_edge t check w in after_edge t.edge (roll check ts) ending w'
    ]

  publish_then : (World → Rolled × World) → Option Failure → World → Rolled × World
  publish_then go none w = go w
  publish_then go (some f) w = (escaped f, w)

  plan_then : String → ℕ → Bool → Option PlanError → World → Rolled × World
  unfolding publish_then contact roll
  plan_then id fence check (some e) w = (unplanned e, w)
  plan_then id fence check none w =
      publish_then (λ w'. roll id fence check (targets id w'.db) none w') (out.publish w.calls)
        (contact published w)

  claim_then : String → List String → Bool → Option ℕ → World → Rolled × World
  unfolding plan_then
  claim_then id edges check none w = (unplanned PlanError.not_found, w)
  claim_then id edges check (some fence) w =
      let (error, db') = plan id edges fence w.db in
      plan_then id fence check error (record w { db = db' })

  unfoldable pub converge : String → List String → Bool → World → Rolled × World
  unfolding claim_then
  converge id edges check w =
      let (claimed, db') = claim_generation id w.db in
      claim_then id edges check claimed (record w { db = db' })
