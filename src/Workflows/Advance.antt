-- ===== src/Workflows/Advance.antt =====
-- `advance` of workflows/adapters/persistence.py on a row that is there.
use blitze_cdn_cp.Prelude.{ℕ, String, true, Option, some, ◌≡◌, ap, eq_iff, string_eq}
use blitze_cdn_cp.Sql.{first_where, update_where}
use blitze_cdn_cp.Sql.Laws.{first_where-some}
use blitze_cdn_cp.Workflows.{
  WorkflowStatus, WorkflowStep, Workflow, Journal, Explanation, answers, identified, is_valid,
  moved, advance,
}

pub advance_lem :
    (id : String) (status : WorkflowStatus) (step : Option WorkflowStep)
    (error : Option Explanation) (now : ℕ) (rows : Journal) {w : Workflow}
    → first_where (identified id) rows ≡ some w
    → is_valid status error ≡ true
    → advance id status step error now rows ≡ (
      answers (moved status step error now w),
      update_where (identified id) (moved status step error now) rows,
    )
unfolding advance
advance_lem id status step error now rows {w} h v =
    let same : w.id ≡ id =
      (eq_iff w.id id).0 (unfold identified in (first_where-some (identified id) rows h).1) in
    rw (h, v)
      (ap
        (λ i. (
          answers (moved status step error now w),
          update_where (identified i) (moved status step error now) rows,
        ))
        same)
