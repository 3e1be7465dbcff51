-- ===== src/Deployments/History/Saving.antt =====
-- `save` of deployments/adapters/persistence.py on the row that the caller read.
use blitze_cdn_cp.Prelude.{
  Option, some, none, ◌⊎◌, inl, inr, Bool-cases, ◌≡◌, refl, eq_iff, string_eq, ◌==◌,
}
use blitze_cdn_cp.Sql.{first_where, update_where}
use blitze_cdn_cp.Sql.Laws.{first_where-update_where}
use blitze_cdn_cp.Deployments.History.{
  Deployment, DeploymentTable, keyed, saved, save, save_row, status_eq, value,
}

pub save_found :
    (d after : Deployment) (rows : DeploymentTable)
    → first_where (keyed d.id) rows ≡ some d
    → after.id ≡ d.id
    → save d after rows ≡ (some (saved after d), update_where (keyed d.id) (saved after) rows)
unfolding save save_row status_eq
save_found d after rows h same =
    rw ((eq_iff after.id d.id).1 same, h, string_eq.reflexive (value d.status)) refl

pub saved_found :
    (d after : Deployment) (rows : DeploymentTable)
    → first_where (keyed d.id) rows ≡ some d
    → first_where (keyed d.id) (update_where (keyed d.id) (saved after) rows) ≡ some (saved after d)
unfolding keyed saved
saved_found d after rows h = first_where-update_where (keyed d.id) (saved after) rows h (λ y k. k)

save_row-cases :
    (before after : Deployment) (found : Option Deployment) (rows : DeploymentTable)
    → (save_row before after found rows ≡ (none, rows))
      ⊎ ((row : Deployment) × (rows' : DeploymentTable) × (save_row before after found rows
            ≡ (some (saved after row), rows')))
unfolding save_row
save_row-cases before after none rows = inl refl
save_row-cases before after (some row) rows =
    elim (Bool-cases (status_eq row.status before.status)) [
      | inl e ↦ inr (row, update_where (keyed before.id) (saved after) rows, rw e refl)
      | inr e ↦ inl (rw e refl)
    ]

-- A save gives nothing and leaves the rows, or gives a row with what was saved.
pub save-cases :
    (before after : Deployment) (rows : DeploymentTable)
    → (save before after rows ≡ (none, rows))
      ⊎ ((row : Deployment) × (rows' : DeploymentTable) × (save before after rows
            ≡ (some (saved after row), rows')))
unfolding save
save-cases before after rows = elim (Bool-cases (after.id == before.id)) [
  | inl e ↦ rw e (save_row-cases before after (first_where (keyed before.id) rows) rows)
  | inr e ↦ inl (rw e refl)
]
