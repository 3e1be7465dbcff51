-- ===== src/Deployments/Targets/Takeover.antt =====
-- The writes of an earlier worker behind a takeover (DeploymentTargetStore).
use blitze_cdn_cp.Prelude.{
  ℕ, String, List, Bool, false, Option, none, some, ◌≡◌, ◌≢◌, refl, inl, inr, arith, eq_iff, All,
  All-of, All-mono, Bool-cases, string_eq, nat_eq, subst,
}
use blitze_cdn_cp.Sql.Laws.{All-update_where, matches_unmatched, update_where_unmatched}
use blitze_cdn_cp.Deployments.Targets.{
  Detail, DeploymentTarget, DeploymentRow, Fleet, TargetPhase, TargetStatus, stamp, claimed_as,
  claim_generation, owned, advance, begin, record_phase, finish, unreached, skip_remaining,
}

-- Every target of this deployment carries this fence.
abbrev pub Stamped : String → ℕ → DeploymentTarget → Type 0
Stamped id fence t = t.deployment_id ≡ id → t.fence ≡ fence

stamp-Stamped :
    (id : String) (fence : ℕ) (rows : List DeploymentTarget)
    → All (Stamped id fence) (stamp id fence rows)
unfolding stamp
stamp-Stamped id fence rows =
    All-update_where (λ _. Unit {0}) (Stamped id fence) _ _ rows (λ t _ _ _. refl)
      (λ t _ e same. absurd (cc (e, (eq_iff t.deployment_id id).1 same)))
      (All-of _ rows (λ _ _. tt))

claim_generation-Stamped :
    (id : String) (db : Fleet) (g : ℕ)
    → (claim_generation id db).0 ≡ some g
    → All (Stamped id g) (claim_generation id db).1.targets
unfolding claim_generation
claim_generation-Stamped id db g e = go _ _ e
  where
    go :
        (found : Option DeploymentRow) (db' : Fleet)
        → (claimed_as id found db').0 ≡ some g
        → All (Stamped id g) (claimed_as id found db').1.targets
    go none db' h = absurd (cc h)
    go (some row) db' h =
        let same : row.generation ≡ g = ground arith in
        subst (λ n. All (Stamped id n) (stamp id row.generation db'.targets)) same
          (stamp-Stamped id row.generation db'.targets)

-- A write that is refused and changes nothing.
abbrev pub Ignored : Fleet → Bool × Fleet → Type 0
Ignored db answer = (answer.0 ≡ false) × (answer.1 ≡ db)

module _ (id : String) (g fence : ℕ) (old : fence ≢ g) (db : Fleet)
    (stamped : All (Stamped id g) db.targets) where
  advance-Ignored :
      (edge : String) (values : DeploymentTarget → DeploymentTarget)
      → Ignored db (advance id edge fence values db)
  unfolding advance owned
  advance-Ignored edge values =
      (matches_unmatched _ _ missed, rw (update_where_unmatched _ values _ missed) refl)
    where
      missed : All (λ t. owned id edge fence t ≡ false) db.targets
      missed =
          All-mono (Stamped id g) _ db.targets
            (λ t k. elim (Bool-cases (owned id edge fence t)) [
              | inl e ↦ absurd (old (ground (arith, k, eq_iff t.deployment_id id)))
              | inr e ↦ e
            ])
            stamped

  skip_remaining-Ignored : (now : ℕ) (text : Detail) → (skip_remaining id fence now text db).1 ≡ db
  unfolding skip_remaining unreached
  skip_remaining-Ignored now text = rw (update_where_unmatched _ _ _ missed) refl
    where
      missed : All (λ t. unreached id fence t ≡ false) db.targets
      missed =
          All-mono (Stamped id g) _ db.targets
            (λ t k. elim (Bool-cases (unreached id fence t)) [
              | inl e ↦ absurd (old (ground (arith, k, eq_iff t.deployment_id id)))
              | inr e ↦ e
            ])
            stamped

  begin-Ignored : (edge : String) (now : ℕ) → Ignored db (begin id edge fence now db)
  unfolding begin
  begin-Ignored edge now = advance-Ignored edge _

  record_phase-Ignored :
      (edge : String) (phase : TargetPhase) → Ignored db (record_phase id edge phase fence db)
  unfolding record_phase
  record_phase-Ignored edge phase = advance-Ignored edge _

  finish-Ignored :
      (edge : String) (status : TargetStatus) (now : ℕ) (error : Option Detail)
      → Ignored db (finish id edge fence status now error db)
  unfolding finish
  finish-Ignored edge status now error = advance-Ignored edge _

-- After a takeover, a worker of another generation can begin no edge, record no phase, finish no
-- edge and skip none: its writes are refused, and change nothing.
pub takeover_shuts_out :
    (id : String) (db : Fleet) (g fence : ℕ) (edge : String) (phase : TargetPhase)
    (status : TargetStatus) (now : ℕ) (error : Option Detail) (text : Detail)
    → (claim_generation id db).0 ≡ some g
    → fence ≢ g
    → let db' = (claim_generation id db).1 in
      Ignored db' (begin id edge fence now db')
      × Ignored db' (record_phase id edge phase fence db')
      × Ignored db' (finish id edge fence status now error db')
      × ((skip_remaining id fence now text db').1 ≡ db')
takeover_shuts_out id db g fence edge phase status now error text e old =
    let db' = (claim_generation id db).1 in
    let stamped = claim_generation-Stamped id db g e in
    (
      begin-Ignored id g fence old db' stamped edge now,
      record_phase-Ignored id g fence old db' stamped edge phase,
      finish-Ignored id g fence old db' stamped edge status now error,
      skip_remaining-Ignored id g fence old db' stamped now text,
    )
