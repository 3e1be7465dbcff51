-- ===== src/Deployments/History/Choice.antt =====
-- `successful_rollback_target` of deployments/adapters/persistence.py.
use blitze_cdn_cp.Prelude.{
  ◌≤◌, String, [], ◌∷◌, true, Option, none, some, ◌≡◌, refl, sym, subst, ◌⊎◌, inl, inr, Memᴰ,
  leb→le, arith, false, not, both, eq_iff, Bool-cases, string_eq, ◌==◌,
}
use blitze_cdn_cp.Sql.{select_where, order_by}
use blitze_cdn_cp.Sql.Laws.{mem_of_select_where, mem-select_where}
use blitze_cdn_cp.Sql.Order.{
  IsOrder, IsSorted, order_by-IsSorted, mem_of_order_by, mem-order_by, first-least,
}
use blitze_cdn_cp.Deployments.History.{
  DeploymentStatus, Deployment, DeploymentTable, value, status_eq, is_fleet_wide, can_restore,
  latest_first, head, successful_rollback_target,
}

latest_first-IsOrder : IsOrder latest_first
unfolding latest_first
latest_first-IsOrder = record {
  total = λ a b h. ground arith;
  transitive = λ a b c h k. ground arith;
}

-- What a rollback may go back to: a deployment that succeeded, in earnest, of another release than
-- the current one, on the whole fleet.
pub record Restorable (current : String) (d : Deployment) : Type 0 where
  pub won : d.status ≡ DeploymentStatus.succeeded
  pub in_earnest : d.check_mode ≡ false
  pub other_release : ¬ (d.release_id ≡ current)
  pub whole_fleet : d.host_limit ≡ none

-- The answer is the newest deployment that can be restored, and there is one if any can.
unfoldable pub Newest : String → DeploymentTable → Option Deployment → Type 0
Newest current rows none = (d : Deployment) → Memᴰ d rows → ¬ Restorable current d
Newest current rows (some d) =
    Memᴰ d rows
    × Restorable current d
    × ((e : Deployment) → Memᴰ e rows → Restorable current e → e.created_at ≤ d.created_at)

won_status :
    (status : DeploymentStatus)
    → status_eq status DeploymentStatus.succeeded ≡ true
    → status ≡ DeploymentStatus.succeeded
unfolding status_eq value
won_status DeploymentStatus.queued h = absurd (cc h)
won_status DeploymentStatus.running h = absurd (cc h)
won_status DeploymentStatus.succeeded h = refl
won_status DeploymentStatus.failed h = absurd (cc h)
won_status DeploymentStatus.timed_out h = absurd (cc h)
won_status DeploymentStatus.abandoned h = absurd (cc h)

no_limit : (limit : Option String) → is_fleet_wide limit ≡ true → limit ≡ none
unfolding is_fleet_wide
no_limit none h = refl
no_limit (some pattern) h = absurd (cc h)

can_restore-Restorable :
    (current : String) (d : Deployment) → can_restore current d ≡ true → Restorable current d
unfolding can_restore
can_restore-Restorable current d h =
    let (won, h₁) = both (status_eq d.status DeploymentStatus.succeeded) _ h in
    let (earnest, h₂) = both (not d.check_mode) _ h₁ in
    let (other, whole) = both (not (d.release_id == current)) _ h₂ in
    record {
      won = won_status d.status won;
      in_earnest = ground arith;
      other_release = λ same. absurd (cc ((eq_iff d.release_id current).1 same, other));
      whole_fleet = no_limit d.host_limit whole;
    }

Restorable-can_restore :
    (current : String) (d : Deployment) → Restorable current d → can_restore current d ≡ true
unfolding can_restore status_eq value is_fleet_wide
Restorable-can_restore current d r = elim (Bool-cases (d.release_id == current)) [
  | inl same ↦ absurd (r.other_release ((eq_iff d.release_id current).0 same))
  | inr other ↦ rw (r.won, r.in_earnest, other, r.whole_fleet) refl
]

module _ (current : String) (rows : DeploymentTable) where
  head-Newest :
      (ds : DeploymentTable)
      → ds ≡ order_by latest_first (select_where (can_restore current) rows)
      → Newest current rows (head ds)
  unfolding head Newest latest_first
  head-Newest [] e = λ d m can.
      (let there =
          subst (λ z. Memᴰ d z) (sym e)
            (mem-order_by latest_first _ (
              mem-select_where (can_restore current) rows m
                (Restorable-can_restore current d can))) in
        elim there [ ])
  head-Newest (d ∷ ds) e =
      let there = mem_of_order_by latest_first _ (subst (λ z. Memᴰ d z) e (Memᴰ.head refl)) in
      let (m, can) = mem_of_select_where (can_restore current) rows there in
      (
        m,
        can_restore-Restorable current d can,
        λ x k c. newest x (
            first-least latest_first
              (subst (λ z. IsSorted latest_first z) (sym e)
                (order_by-IsSorted latest_first latest_first-IsOrder _))
              (subst (λ z. Memᴰ x z) (sym e)
                (mem-order_by latest_first _ (
                  mem-select_where (can_restore current) rows k
                    (Restorable-can_restore current x c))))),
      )
    where
      newest : (x : Deployment) → (x ≡ d) ⊎ (latest_first d x ≡ true) → x.created_at ≤ d.created_at
      newest x (inl same) = subst (λ z. z.created_at ≤ d.created_at) (sym same) (omega arith)
      newest x (inr h) = leb→le x.created_at d.created_at h

  -- The rollback target is a deployment of another release to the whole fleet that succeeded and was
  -- no dry run, and none of these is newer; there is no target only if there is no such deployment.
  pub successful_rollback_target-Newest :
      Newest current rows (successful_rollback_target current rows)
  unfolding successful_rollback_target
  successful_rollback_target-Newest = head-Newest _ refl
