-- ===== src/Deployments/Rollout/Stopping.antt =====
-- Which edges a rollout of deployments/service/rollout.py touches when it stops early.
use blitze_cdn_cp.Prelude.{
  ℕ, String, List, [], ◌∷◌, ◌++◌, map, Bool, true, false, Option, none, some, ◌≡◌, refl, ap, ◌⊎◌,
  inl, inr, Bool-cases,
}
use blitze_cdn_cp.Deployments.Targets.{Detail, at_edge, DeploymentTarget}
use blitze_cdn_cp.Deployments.Rollout.{
  AnsibleRun, Failure, Outside, World, EdgeEnd, converged, stopped, escapes, Rolled, rolled,
  escaped, unplanned, is_succeeded, verify_edge, fail, converge_edge, stop_rollout, after_recovery,
  recheck, after_edge, roll,
}
use blitze_cdn_cp.Deployments.Rollout.Touching.{
  Touches, Touches-refl, joined, verify_edge-Stays, converge_edge-Touches,
}

module _ (out : Outside) where
  module _ (id : String) (fence : ℕ) (check : Bool) where
    -- A rollout goes past this edge, from one state to the other: it converges from here; or it
    -- converged before, and serves when it is probed from here, or the rollout is a dry run.
    pub data Passes (t : DeploymentTarget) (w : World) : World → Type 0 where
      converges :
          (last : Option AnsibleRun)
          → is_succeeded t.status ≡ false
          → (converge_edge out id fence t check w).0 ≡ converged last
          → Passes t w (converge_edge out id fence t check w).1
      serves :
          is_succeeded t.status ≡ true
          → check ≡ false
          → (verify_edge out t.edge w).0 ≡ none
          → Passes t w (verify_edge out t.edge w).1
      left : is_succeeded t.status ≡ true → check ≡ true → Passes t w w

    -- A rollout goes past these edges, one after the other.
    pub data PassesAll : List DeploymentTarget → World → World → Type 0 where
      at_end : {w : World} → PassesAll [] w w
      past :
          {t : DeploymentTarget} {ts : List DeploymentTarget} {w w' w'' : World}
          → Passes t w w'
          → PassesAll ts w' w''
          → PassesAll (t ∷ ts) w w''

    -- The edge fails from here, with this error: it stops with this detail instead of converging, or,
    -- if it converged before, does not serve. Or it lets this exception through.
    unfoldable pub Fails : DeploymentTarget → World → Rolled → Type 0
    Fails t w (rolled o) =
        (detail : Detail) × (o.error ≡ some (at_edge t.edge detail))
        × (((is_succeeded t.status ≡ false)
              × ((last : Option AnsibleRun) × ((converge_edge out id fence t check w).0
                    ≡ stopped detail last)))
            ⊎ ((is_succeeded t.status ≡ true)
                × (check ≡ false)
                × ((f : Failure) × ((verify_edge out t.edge w).0 ≡ some f))))
    Fails t w (escaped f) =
        (is_succeeded t.status ≡ false) × ((converge_edge out id fence t check w).0 ≡ escapes f)
    Fails t w (unplanned e) = ⊥

    unfoldable pub IsClean : Rolled → Type 0
    IsClean (rolled o) = o.error ≡ none
    IsClean (escaped f) = ⊥
    IsClean (unplanned e) = ⊥

    abbrev pub Clean : List DeploymentTarget → World → Rolled × World → Type 0
    Clean ts w (r, w') =
        IsClean r × PassesAll ts w w' × Touches (map (λ t. t.edge) ts) w.calls w'.calls

    abbrev pub Halted : List DeploymentTarget → World → Rolled × World → Type 0
    Halted ts w (r, w') =
        (before : List DeploymentTarget) × (t : DeploymentTarget) × (after : List DeploymentTarget)
        × (there : World) × (ts ≡ before ++ t ∷ after)
        × PassesAll before w there
        × Fails t there r
        × Touches (map (λ t. t.edge) before) w.calls there.calls
        × Touches (t.edge ∷ []) there.calls w'.calls

    -- What holds of the rest of the edges, from where the first one ended, holds of all of them.
    later :
        (t : DeploymentTarget) (ts : List DeploymentTarget) (w w' : World) (r : Rolled × World)
        → Passes t w w'
        → Touches (t.edge ∷ []) w.calls w'.calls
        → Clean ts w' r ⊎ Halted ts w' r
        → Clean (t ∷ ts) w r ⊎ Halted (t ∷ ts) w r
    later t ts w w' r p h (inl (c, q, k)) =
        inl (c, past p q, joined t (map (λ t. t.edge) ts) w w' r.1 h k)
    later t ts w w' r p h (inr (before, s, after, there, e, q, f, k, i)) = inr (
      t ∷ before,
      s,
      after,
      there,
      ap (λ z. t ∷ z) e,
      past p q,
      f,
      joined t (map (λ t. t.edge) before) w w' there h k,
      i,
    )

    after_edge-Halted :
        (t : DeploymentTarget) (ts : List DeploymentTarget)
        (go : Option AnsibleRun → World → Rolled × World) (w : World) (ending : EdgeEnd)
        → (converge_edge out id fence t check w).0 ≡ ending
        → is_succeeded t.status ≡ false
        → let w' = (converge_edge out id fence t check w).1 in
          ((l : Option AnsibleRun) → Clean ts w' (go l w') ⊎ Halted ts w' (go l w'))
          → Clean (t ∷ ts) w (after_edge out id fence t.edge go ending w')
            ⊎ Halted (t ∷ ts) w (after_edge out id fence t.edge go ending w')
    unfolding after_edge stop_rollout Fails
    after_edge-Halted t ts go w (converged l) e s k =
        later t ts w _ (go l _) (converges l s e) (converge_edge-Touches out id fence t check w)
          (k l)
    after_edge-Halted t ts go w (stopped detail l) e s k = inr (
      [],
      t,
      ts,
      w,
      refl,
      at_end,
      (detail, refl, inl (s, (l, e))),
      Touches-refl [] w.calls,
      converge_edge-Touches out id fence t check w,
    )
    after_edge-Halted t ts go w (escapes f) e s k = inr (
      [],
      t,
      ts,
      w,
      refl,
      at_end,
      (s, e),
      Touches-refl [] w.calls,
      converge_edge-Touches out id fence t check w,
    )

    after_recovery-Halted :
        (t : DeploymentTarget) (ts : List DeploymentTarget) (go : World → Rolled × World)
        (last : Option AnsibleRun) (w : World) (failure : Option Failure)
        → (verify_edge out t.edge w).0 ≡ failure
        → is_succeeded t.status ≡ true
        → check ≡ false
        → let w' = (verify_edge out t.edge w).1 in
          (Clean ts w' (go w') ⊎ Halted ts w' (go w'))
          → Clean (t ∷ ts) w (after_recovery out id fence t.edge go last failure w')
            ⊎ Halted (t ∷ ts) w (after_recovery out id fence t.edge go last failure w')
    unfolding after_recovery stop_rollout fail Fails
    after_recovery-Halted t ts go last w none e s real k =
        later t ts w _ (go _) (serves s real e)
          (verify_edge-Stays out t.edge w w.calls (Touches-refl _ w.calls)) k
    after_recovery-Halted t ts go last w (some f) e s real k = inr (
      [],
      t,
      ts,
      w,
      refl,
      at_end,
      (_, refl, inr (s, real, (f, e))),
      Touches-refl [] w.calls,
      verify_edge-Stays out t.edge w w.calls (Touches-refl _ w.calls),
    )

    recheck-Halted :
        (dry : Bool) (t : DeploymentTarget) (ts : List DeploymentTarget)
        (go : World → Rolled × World) (last : Option AnsibleRun) (w : World)
        → check ≡ dry
        → is_succeeded t.status ≡ true
        → ((w' : World) → Clean ts w' (go w') ⊎ Halted ts w' (go w'))
        → Clean (t ∷ ts) w (recheck out id fence dry t.edge go last w)
          ⊎ Halted (t ∷ ts) w (recheck out id fence dry t.edge go last w)
    unfolding recheck
    recheck-Halted true t ts go last w dry s k =
        later t ts w w (go w) (left s dry) (Touches-refl _ w.calls) (k w)
    recheck-Halted false t ts go last w real s k =
        after_recovery-Halted t ts go last w (verify_edge out t.edge w).0 refl s real (k _)

    -- A rollout over a list of edges either ends without an error, and then it went past each of them:
    -- the edge converged in the state that those before it left, or it had converged before and
    -- served, or was left alone in a dry run. Or the rollout went past the edges before some edge that
    -- failed in the state that those left (it stopped with the detail that the error gives behind its
    -- name, or did not serve any more, or let the exception through that the rollout ends with), and
    -- after that it made calls for that edge alone.
    pub roll-Halted :
        (ts : List DeploymentTarget) (last : Option AnsibleRun) (w : World)
        → Clean ts w (roll out id fence check ts last w)
          ⊎ Halted ts w (roll out id fence check ts last w)
    unfolding roll IsClean
    roll-Halted [] last w = inl (refl, at_end, Touches-refl [] w.calls)
    roll-Halted (t ∷ ts) last w = elim (Bool-cases (is_succeeded t.status)) [
      | inl e ↦
          rw (e, roll)
            (recheck-Halted check t ts (roll out id fence check ts last) last w refl e
              (λ w'. roll-Halted ts last w'))
      | inr e ↦
          rw (e, roll)
            (after_edge-Halted t ts (roll out id fence check ts) w
              (converge_edge out id fence t check w).0 refl e (λ l. roll-Halted ts l _))
    ]
