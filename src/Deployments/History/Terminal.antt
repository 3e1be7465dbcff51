-- ===== src/Deployments/History/Terminal.antt =====
-- What the calls of DeploymentStore (deployments/adapters/persistence.py) leave of a finished row.
use blitze_cdn_cp.Prelude.{
  ℕ, String, List, [], ◌∷◌, ◌++◌, Bool, true, false, ◌||◌, ◌&&◌, Option, none, some, ◌≡◌, refl, sym,
  subst, ap, ◌∙◌, inl, inr, Bool-cases, arith, eq_iff, ◌==◌, string_eq, if◌then◌else◌, Memᴰ, All-of,
  All-mono, Pairwise-snoc, mem-append_left,
}
use blitze_cdn_cp.Sql.{first_where, update_where, matches, drop_surplus}
use blitze_cdn_cp.Sql.Laws.{
  first_where-some, mem-update_where, Pairwise-update_where, Pairwise-select_where,
  unmatched_of_matches,
}
use blitze_cdn_cp.Sql.Pruning.{DistinctIn, same_row, drop_surplus-Prunes}
use blitze_cdn_cp.Deployments.Targets.{Detail}
use blitze_cdn_cp.Deployments.History.{
  DeploymentStatus, RecordedRun, Deployment, DeploymentTable, value, status_eq, is_final, is_lawful,
  keyed, saved, save, save_row, begin_deployment, finish_deployment, new_deployment,
  create_deployment, abandon_running, is_running, finished_check, prune_history,
}
use blitze_cdn_cp.Deployments.History.Events.{
  Event, submitted, begun, ended, restarted, pruned, happen, happen_all,
}

final_text : String → Bool
final_text text =
    text == "succeeded" || (text == "failed" || (text == "timed_out" || text == "abandoned"))

is_final-value : (s : DeploymentStatus) → is_final s ≡ final_text (value s)
unfolding is_final final_text value
is_final-value DeploymentStatus.queued = refl
is_final-value DeploymentStatus.running = refl
is_final-value DeploymentStatus.succeeded = refl
is_final-value DeploymentStatus.failed = refl
is_final-value DeploymentStatus.timed_out = refl
is_final-value DeploymentStatus.abandoned = refl

status_eq-is_final : (a b : DeploymentStatus) → status_eq a b ≡ true → is_final a ≡ is_final b
unfolding status_eq
status_eq-is_final a b h =
    is_final-value a ∙ ap final_text ((eq_iff (value a) (value b)).0 h) ∙ sym (is_final-value b)

lawful-open : (a b : DeploymentStatus) → is_lawful a b ≡ true → is_final a ≡ false
unfolding is_lawful is_final
lawful-open DeploymentStatus.queued b h = refl
lawful-open DeploymentStatus.running b h = refl
lawful-open DeploymentStatus.succeeded b h = absurd (cc h)
lawful-open DeploymentStatus.failed b h = absurd (cc h)
lawful-open DeploymentStatus.timed_out b h = absurd (cc h)
lawful-open DeploymentStatus.abandoned b h = absurd (cc h)

abbrev pub Distinct : DeploymentTable → Type 0
Distinct = DistinctIn (λ d. d.id) finished_check (λ d. d.created_at)

update-Distinct :
    (p : Deployment → Bool) (f : Deployment → Deployment) (rows : DeploymentTable)
    → ((d : Deployment) → (f d).id ≡ d.id)
    → Distinct rows
    → Distinct (update_where p f rows)
update-Distinct p f rows same h =
    Pairwise-update_where (λ _. Unit {0}) (λ a b. ¬ (a.id ≡ b.id)) p f rows
      (λ x y _ _ d e. d (sym (kept (p x) x) ∙ e ∙ kept (p y) y)) (All-of _ rows (λ _ _. tt)) h
  where
    kept : (b : Bool) (d : Deployment) → (if b then f d else d).id ≡ d.id
    kept true d = same d
    kept false d = refl

-- An update leaves the rows that it does not match.
mem-unmatched :
    (p : Deployment → Bool) (f : Deployment → Deployment) (rows : DeploymentTable) {r : Deployment}
    → Memᴰ r rows
    → p r ≡ false
    → Memᴰ r (update_where p f rows)
mem-unmatched p f rows {r} m h =
    subst (λ b. Memᴰ (if b then f r else r) (update_where p f rows)) h (mem-update_where p f rows m)

-- The rows still have identifiers of their own, and this finished row of no dry run is there.
abbrev Keeps : Deployment → DeploymentTable → Type 0
Keeps r rows = Distinct rows × Memᴰ r rows

module _ (r : Deployment) (final : is_final r.status ≡ true) where
  save_row-Keeps :
      (before after : Deployment) (found : Option Deployment) (rows : DeploymentTable)
      → first_where (keyed before.id) rows ≡ found
      → is_final before.status ≡ false
      → Keeps r rows
      → Keeps r (save_row before after found rows).1
  unfolding save_row
  save_row-Keeps before after none rows e o k = k
  save_row-Keeps before after (some row) rows e o (d, m) =
      elim (Bool-cases (status_eq row.status before.status)) [
        | inr h ↦ rw h (d, m)
        | inl h ↦ rw h (
          update-Distinct (keyed before.id) (saved after) rows (λ x. unfold saved in refl) d,
          mem-unmatched (keyed before.id) (saved after) rows m (other h),
        )
      ]
    where
      other : status_eq row.status before.status ≡ true → keyed before.id r ≡ false
      other h = elim (Bool-cases (keyed before.id r)) [
        | inr e' ↦ e'
        | inl e' ↦
            let (there, key) = first_where-some (keyed before.id) rows e in
            let ids : r.id ≡ row.id =
              unfold keyed in
              ((eq_iff r.id before.id).0 e' ∙ sym ((eq_iff row.id before.id).0 key)) in
            let same = same_row (λ d. d.id) finished_check (λ d. d.created_at) rows d m there ids in
            let closed : is_final before.status ≡ true =
              sym (status_eq-is_final row.status before.status h)
              ∙ ap (λ z. is_final z.status) (sym same)
              ∙ final in
            e' ∙ sym closed ∙ o
      ]

  save-Keeps :
      (before after : Deployment) (rows : DeploymentTable)
      → is_final before.status ≡ false
      → Keeps r rows
      → Keeps r (save before after rows).1
  unfolding save
  save-Keeps before after rows o k = elim (Bool-cases (after.id == before.id)) [
    | inl e ↦ rw e (save_row-Keeps before after _ rows refl o k)
    | inr e ↦ rw e k
  ]

  begun-Keeps :
      (before : Deployment) (now : ℕ) (rows : DeploymentTable)
      → Keeps r rows
      → Keeps r (happen (begun before now) rows)
  unfolding happen begin_deployment
  begun-Keeps before now rows k =
      elim (Bool-cases (is_lawful before.status DeploymentStatus.running)) [
        | inl e ↦ rw e (save-Keeps before _ rows (lawful-open before.status _ e) k)
        | inr e ↦ rw e k
      ]

  ended-Keeps :
      (before : Deployment) (status : DeploymentStatus) (now : ℕ) (result : Option RecordedRun)
      (error : Option Detail) (rows : DeploymentTable)
      → Keeps r rows
      → Keeps r (happen (ended before status now result error) rows)
  unfolding happen finish_deployment
  ended-Keeps before status now result error rows k =
      elim (Bool-cases (is_final status && is_lawful before.status status)) [
        | inl e ↦
            rw e (save-Keeps before _ rows (lawful-open before.status status (ground arith)) k)
        | inr e ↦ rw e k
      ]

  appended-Keeps :
      (row : Deployment) (rows : DeploymentTable)
      → matches (keyed row.id) rows ≡ false
      → Keeps r rows
      → Keeps r (rows ++ row ∷ [])
  unfolding keyed
  appended-Keeps row rows fresh (d, m) = (
    Pairwise-snoc _ rows row d (
        All-mono _ _ rows (λ x h same. ground (arith, h, eq_iff x.id row.id))
          (unmatched_of_matches (keyed row.id) rows fresh)),
    mem-append_left rows (row ∷ []) m,
  )

  restarted-Keeps :
      (draw : String) (now : ℕ) (rows : DeploymentTable)
      → Keeps r rows
      → Keeps r (happen (restarted draw now) rows)
  unfolding happen abandon_running
  restarted-Keeps draw now rows (d, m) =
      (update-Distinct is_running _ rows (λ x. refl) d, mem-unmatched is_running _ rows m still)
    where
      still : is_running r ≡ false
      still = elim (Bool-cases (is_running r)) [
        | inr e ↦ e
        | inl e ↦
            let unfinished : is_final r.status ≡ false =
              unfold is_running in
              (status_eq-is_final r.status DeploymentStatus.running e ∙ unfold is_final in refl) in
            e ∙ sym final ∙ unfinished
      ]

  pruned-Keeps :
      r.check_mode ≡ false
      → (keep : ℕ) (rows : DeploymentTable) → Keeps r rows
      → Keeps r (happen (pruned keep) rows)
  unfolding happen prune_history drop_surplus
  pruned-Keeps real keep rows (d, m) = (
    Pairwise-select_where _ _ rows d,
    (drop_surplus-Prunes (λ d. d.id) finished_check (λ d. d.created_at) keep rows d).unfinished_stay
        m (unfold finished_check in (rw real refl)),
  )

  happen-Keeps :
      r.check_mode ≡ false
      → (e : Event) (rows : DeploymentTable) → Keeps r rows
      → Keeps r (happen e rows)
  unfolding happen create_deployment
  happen-Keeps real (submitted id operator check release rollback limit digest now) rows k =
      elim (Bool-cases (matches (keyed id) rows)) [
        | inl e ↦ rw (e, happen) k
        | inr e ↦
            rw (e, happen)
              (appended-Keeps (new_deployment id operator check release rollback limit digest now)
                rows e k)
      ]
  happen-Keeps real (begun before now) rows k = begun-Keeps before now rows k
  happen-Keeps real (ended before status now result error) rows k =
      ended-Keeps before status now result error rows k
  happen-Keeps real (restarted draw now) rows k = restarted-Keeps draw now rows k
  happen-Keeps real (pruned keep) rows k = pruned-Keeps real keep rows k

  all-Keeps :
      r.check_mode ≡ false
      → (es : List Event) (rows : DeploymentTable) → Keeps r rows
      → Keeps r (happen_all es rows)
  unfolding happen_all
  all-Keeps real [] rows k = k
  all-Keeps real (e ∷ es) rows k = all-Keeps real es (happen e rows) (happen-Keeps real e rows k)

-- On a table with identifiers of their own, a finished deployment that is no dry run is never
-- changed and never dropped, whatever calls follow: new deployments, steps from copies of any age,
-- restarts of the controller and prunings.
pub finished_stays :
    (r : Deployment) (es : List Event) (rows : DeploymentTable)
    → Distinct rows
    → Memᴰ r rows
    → is_final r.status ≡ true
    → r.check_mode ≡ false
    → Memᴰ r (happen_all es rows)
finished_stays r es rows d m final real = (all-Keeps r final real es rows (d, m)).1
