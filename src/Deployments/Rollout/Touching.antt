-- ===== src/Deployments/Rollout/Touching.antt =====
-- The calls of a rollout (deployments/service/rollout.py) by the edge that they go to.
use blitze_cdn_cp.Prelude.{
  ℕ, String, List, [], ◌∷◌, ◌++◌, Memᴰ, Bool, true, false, not, ◌||◌, Option, none, some, ◌≡◌, refl,
  sym, ap, ◌∙◌, inl, inr, All, All-of, All-mono, All-append, Bool-cases,
}
use mathlib.Core.List.{append_assoc}
use blitze_cdn_cp.Deployments.Targets.{TargetPhase, Detail, DeploymentTarget}
use blitze_cdn_cp.Deployments.Rollout.{
  Tags, rollback, Call, published, tool, observed, Failure, Outside, World, phases, uncommitted,
  contact, run_tool, produced_tool, commit_after, verify_at, verify_edge, run_phase, withdraw,
  converge_edge,
}
use blitze_cdn_cp.Deployments.Rollout.Histories.{converge_edge_keeps}

-- The call goes to one of these edges.
unfoldable pub Concerns : List String → Call → Type 0
Concerns edges published = ⊥
Concerns edges (tool check edge tags) = Memᴰ edge edges
Concerns edges (observed edge) = Memᴰ edge edges

-- The calls since then go to these edges.
abbrev pub Touches : List String → List Call → List Call → Type 0
Touches edges before calls = (new : List Call) × (calls ≡ new ++ before) × All (Concerns edges) new

pub Touches-refl : (edges : List String) (calls : List Call) → Touches edges calls calls
Touches-refl edges calls = ([], refl, tt)

Touches-trans :
    (edges : List String) (a b c : List Call)
    → Touches edges a b
    → Touches edges b c
    → Touches edges a c
Touches-trans edges a b c (new, e, h) (new', e', h') = (
  new' ++ new,
  e' ∙ ap (λ z. new' ++ z) e ∙ sym (append_assoc new' new a),
  All-append (Concerns edges) new' new h' h,
)

Touches-more :
    (edges edges' : List String) (a b : List Call)
    → ((e : String) → Memᴰ e edges → Memᴰ e edges')
    → Touches edges a b
    → Touches edges' a b
Touches-more edges edges' a b more (new, e, h) =
    (new, e, All-mono (Concerns edges) (Concerns edges') new widen h)
  where
    widen : (call : Call) → Concerns edges call → Concerns edges' call
    widen published c = unfold Concerns in (absurd c)
    widen (tool check edge tags) c = unfold Concerns in (more edge c)
    widen (observed edge) c = unfold Concerns in (more edge c)

-- A step at one edge, and then steps at others.
pub joined :
    (t : DeploymentTarget) (edges : List String) (w w' w'' : World)
    → Touches (t.edge ∷ []) w.calls w'.calls
    → Touches edges w'.calls w''.calls
    → Touches (t.edge ∷ edges) w.calls w''.calls
joined t edges w w' w'' h k =
    Touches-trans (t.edge ∷ edges) w.calls w'.calls w''.calls
      (Touches-more (t.edge ∷ []) (t.edge ∷ edges) w.calls w'.calls only h)
      (Touches-more edges (t.edge ∷ edges) w'.calls w''.calls (λ e m. Memᴰ.tail m) k)
  where
    only : (e : String) → Memᴰ e (t.edge ∷ []) → Memᴰ e (t.edge ∷ edges)
    only e (Memᴰ.head p) = Memᴰ.head p
    only e (Memᴰ.tail m) = elim m [ ]

module _ (out : Outside) where
  abbrev Stays : String → World → World → Type 0
  Stays edge w w' =
      (before : List Call)
      → Touches (edge ∷ []) before w.calls
      → Touches (edge ∷ []) before w'.calls

  contact-Stays :
      (call : Call) (edge : String) (w : World)
      → Concerns (edge ∷ []) call
      → Stays edge w (contact out call w)
  unfolding contact
  contact-Stays call edge w c before (new, e, h) = (call ∷ new, ap (λ z. call ∷ z) e, (c, h))

  tool-Stays :
      (check : Bool) (edge : String) (tags : Tags) (w : World)
      → Stays edge w (produced_tool out check edge tags w).1
  unfolding produced_tool run_tool
  tool-Stays check edge tags w =
      contact-Stays (tool check edge tags) edge w (unfold Concerns in (Memᴰ.head refl))

  verify_at-Stays :
      (edge : String) (a : Option String) (w : World) → Stays edge w (verify_at out edge a w).1
  unfolding verify_at
  verify_at-Stays edge none w before h = h
  verify_at-Stays edge (some address) w before h =
      contact-Stays (observed edge) edge w (unfold Concerns in (Memᴰ.head refl)) before h

  pub verify_edge-Stays : (edge : String) (w : World) → Stays edge w (verify_edge out edge w).1
  unfolding verify_edge
  verify_edge-Stays edge w = verify_at-Stays edge _ w

  commit_after-Stays :
      (edge : String) (f : Option Failure) (w : World) → Stays edge w (commit_after out edge f w).1
  unfolding commit_after
  commit_after-Stays edge none w before h = tool-Stays false edge _ w before h
  commit_after-Stays edge (some f) w before h = h

  run_phase-Stays :
      (phase : TargetPhase) (edge : String) (check : Bool) (w : World)
      → Stays edge w (run_phase out phase edge check w).1
  unfolding run_phase
  run_phase-Stays TargetPhase.prepare edge check w before h = h
  run_phase-Stays TargetPhase.validate edge check w before h = tool-Stays true edge _ w before h
  run_phase-Stays TargetPhase.stage edge check w before h = tool-Stays false edge _ w before h
  run_phase-Stays TargetPhase.activate edge check w before h = tool-Stays check edge _ w before h
  run_phase-Stays TargetPhase.verify edge check w before h =
      commit_after-Stays edge _ _ before (verify_edge-Stays edge w before h)

  withdraw-Stays :
      (phase : TargetPhase) (edge : String) (detail : Detail) (check : Bool) (w : World)
      → Stays edge w (withdraw out phase edge detail check w).1
  unfolding withdraw run_tool
  withdraw-Stays phase edge detail check w before h =
      elim (Bool-cases (check || not (uncommitted phase))) [
        | inl e ↦ rw e h
        | inr e ↦ rw e (
            contact-Stays (tool false edge rollback) edge w (unfold Concerns in (Memᴰ.head refl))
              before h)
      ]

  pub converge_edge-Touches :
      (id : String) (fence : ℕ) (t : DeploymentTarget) (check : Bool) (w : World)
      → Touches (t.edge ∷ []) w.calls (converge_edge out id fence t check w).1.calls
  converge_edge-Touches id fence t check w =
      converge_edge_keeps out check (Touches (t.edge ∷ []) w.calls) (λ _. Unit {0}) t
        (λ phase w' _. run_phase-Stays phase t.edge check w' w.calls)
        (λ phase detail w'. withdraw-Stays phase t.edge detail check w' w.calls)
        (All-of _ (phases check) (λ _ _. tt)) id fence w (Touches-refl _ w.calls)
