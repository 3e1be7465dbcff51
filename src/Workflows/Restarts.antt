-- ===== src/Workflows/Restarts.antt =====
-- What `reconcile_interrupted` of workflows/service/coordinator.py makes of a journal, in the words of
-- its columns.
use blitze_cdn_cp.Prelude.{
  ℕ, String, List, map, true, Option, none, some, ◌≡◌, refl, ap, ◌∙◌, ◌⊎◌, inl, inr, both, eq_iff,
  string_eq, Memᴰ,
}
use blitze_cdn_cp.Sql.Pruning.{DistinctIn}
use blitze_cdn_cp.Workflows.{
  WorkflowStatus, Workflow, Journal, restarted, moved, with_step, unfinished_row, is_unfinished,
}
use blitze_cdn_cp.Workflows.Coordinator.{reconcile_interrupted, concerns}
use blitze_cdn_cp.Workflows.Recovery.{Reviewed, is_due, Resolves, reconcile-Resolves}

-- Of this resource, if one is given.
unfoldable pub IsOf : Option String → Workflow → Type 0
IsOf none w = Unit
IsOf (some resource) w = w.resource_id ≡ some resource

-- A restart left the workflow pending or running, and it is of this resource.
abbrev pub IsInterrupted : Option String → Workflow → Type 0
IsInterrupted resource w =
    ((w.status ≡ WorkflowStatus.pending) ⊎ (w.status ≡ WorkflowStatus.running)) × IsOf resource w

-- The row as an operator is to look at it: all but the status, the error and the time of the change is
-- as before.
pub record UnderReview (before after : Workflow) : Type 0 where
  pub id : after.id ≡ before.id
  pub kind : after.kind ≡ before.kind
  pub resource : after.resource_id ≡ before.resource_id
  pub operator : after.operator ≡ before.operator
  pub created : after.created_at ≡ before.created_at
  pub steps : after.steps ≡ before.steps
  pub status : after.status ≡ WorkflowStatus.needs_review
  pub error : after.error ≡ some restarted

-- What a row was: itself, if no restart interrupted it, or the row that is now under review.
unfoldable pub Restarts : Option String → Journal → Workflow → Type 0
Restarts resource rows w =
    (before : Workflow) × Memᴰ before rows
    × (((¬ IsInterrupted resource before) × (w ≡ before))
        ⊎ (IsInterrupted resource before × UnderReview before w))

Reviewed-UnderReview : (before after : Workflow) → Reviewed before after → UnderReview before after
unfolding moved with_step
Reviewed-UnderReview before after (now, e) = record {
  id = ap (λ w. w.id) e;
  kind = ap (λ w. w.kind) e;
  resource = ap (λ w. w.resource_id) e;
  operator = ap (λ w. w.operator) e;
  created = ap (λ w. w.created_at) e;
  steps = ap (λ w. w.steps) e;
  status = ap (λ w. w.status) e;
  error = ap (λ w. w.error) e;
}

is_unfinished-cases :
    (status : WorkflowStatus)
    → is_unfinished status ≡ true
    → (status ≡ WorkflowStatus.pending) ⊎ (status ≡ WorkflowStatus.running)
unfolding is_unfinished
is_unfinished-cases WorkflowStatus.pending h = inl refl
is_unfinished-cases WorkflowStatus.running h = inr refl
is_unfinished-cases WorkflowStatus.succeeded h = absurd (cc h)
is_unfinished-cases WorkflowStatus.failed h = absurd (cc h)
is_unfinished-cases WorkflowStatus.needs_review h = absurd (cc h)

owned :
    (resource : String) (owner : Option String) (w : Workflow)
    → w.resource_id ≡ owner
    → concerns (some resource) w ≡ true
    → w.resource_id ≡ some resource
unfolding concerns
owned resource none w e h = absurd (cc (rw e at h))
owned resource (some r) w e h = e ∙ ap some ((eq_iff r resource).0 (rw e at h))

concerns-IsOf :
    (resource : Option String) (w : Workflow) → concerns resource w ≡ true → IsOf resource w
unfolding IsOf
concerns-IsOf none w h = tt
concerns-IsOf (some resource) w h = owned resource w.resource_id w refl h

IsOf-concerns :
    (resource : Option String) (w : Workflow) → IsOf resource w → concerns resource w ≡ true
unfolding IsOf concerns
IsOf-concerns none w h = refl
IsOf-concerns (some resource) w h = rw h (string_eq.reflexive resource)

due-IsInterrupted :
    (resource : Option String) (w : Workflow) → is_due resource w ≡ true → IsInterrupted resource w
unfolding is_due unfinished_row
due-IsInterrupted resource w h =
    let (left, of) = both (is_unfinished w.status) (concerns resource w) h in
    (is_unfinished-cases w.status left, concerns-IsOf resource w of)

IsInterrupted-due :
    (resource : Option String) (w : Workflow) → IsInterrupted resource w → is_due resource w ≡ true
unfolding is_due unfinished_row is_unfinished
IsInterrupted-due resource w (inl pending, of) = rw (IsOf-concerns resource w of, pending) refl
IsInterrupted-due resource w (inr running, of) = rw (IsOf-concerns resource w of, running) refl

Resolves-Restarts :
    (resource : Option String) (rows : Journal) (w : Workflow)
    → Resolves resource rows w
    → Restarts resource rows w
unfolding Resolves Restarts
Resolves-Restarts resource rows w (before, m, inl (past, e)) =
    (before, m, inl (λ left. absurd (cc (IsInterrupted-due resource before left, past)), e))
Resolves-Restarts resource rows w (before, m, inr (due, reviewed)) =
    (before, m, inr (due-IsInterrupted resource before due, Reviewed-UnderReview before w reviewed))

-- On a journal with identifiers of their own, a reconciliation succeeds and keeps the identifiers in
-- their order. Each row of it then is a row of before that was not interrupted (it was neither pending
-- nor running, or is of another resource than the one given), unchanged, or one that was, now under
-- review with the error of a restart, and with its kind, resource, operator, time of creation and steps
-- as before.
pub reconcile-Restarts :
    (clock : ℕ → ℕ) (resource : Option String) (rows : Journal)
    → DistinctIn (λ w. w.id) (λ w. true) (λ w. w.created_at) rows
    → (recovered : List Workflow) × (rows' : Journal) × (reconcile_interrupted clock resource rows
        ≡ (some recovered, rows'))
      × (map (λ w. w.id) rows' ≡ map (λ w. w.id) rows)
      × ((w : Workflow) → Memᴰ w rows' → Restarts resource rows w)
reconcile-Restarts clock resource rows unique =
    let (recovered, rows', e, ids, all) = reconcile-Resolves clock resource rows unique in
    (recovered, rows', e, ids, λ w m. Resolves-Restarts resource rows w (all w m))
