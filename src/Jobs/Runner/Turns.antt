-- ===== src/Jobs/Runner/Turns.antt =====
-- When a worker's turn reports that it did nothing.
use blitze_cdn_cp.Prelude.{
  ℕ, String, List, [], ◌∷◌, Memᴰ, false, not, Option, none, some, ◌≡◌, refl,
}
use blitze_cdn_cp.Jobs.Domain.{Job, JobClaim}
use blitze_cdn_cp.Jobs.Store.Keys.{UniqueIds}
use blitze_cdn_cp.Jobs.Store.{Jobs}
use blitze_cdn_cp.Jobs.Store.Handing.{OnOffer, HandsOut, claim-HandsOut}
use blitze_cdn_cp.Jobs.Queue
use blitze_cdn_cp.Jobs.Queue.{JobQueue}
use blitze_cdn_cp.Jobs.Scheduler.{Readings, Tables, tick}
use blitze_cdn_cp.Jobs.Runner.{TurnClock, is_empty, after_claim, turn}

nothing_fired : (fired : List String) → not (is_empty fired) ≡ false → fired ≡ []
unfolding is_empty
nothing_fired [] h = refl
nothing_fired (x ∷ xs) h = absurd (cc h)

module _ (queue : JobQueue) (env : Readings) (clock : TurnClock) (db : Tables) where
  abbrev ticked : Tables
  ticked = (tick env clock.ticked db).1

  idle_after :
      (fired : List String) (answer : Option JobClaim × Jobs) (lease : ℕ)
      → (after_claim queue clock fired answer.0 (record ticked { jobs = answer.1 })).0 ≡ false
      → HandsOut queue.worker_id clock.claimed lease ticked.jobs answer
      → (fired ≡ [])
        × ((r : Job)
            → Memᴰ r
                (after_claim queue clock fired answer.0 (record ticked { jobs = answer.1 })).1.jobs
            → ¬ OnOffer clock.claimed r)
  unfolding after_claim HandsOut
  idle_after fired (none, jobs) lease h a = (nothing_fired fired h, a.1)
  idle_after fired (some c, jobs) lease h a = absurd (cc h)

  -- A turn that reports nothing to do has fired no schedule, and in the table that it leaves no job
  -- waits that is available at the time of its claim, and none has a lapsed lease and attempts left,
  -- if the identifiers are unique that the tick leaves.
  pub turn_idle :
      UniqueIds (tick env clock.ticked db).1.jobs
      → (turn queue env clock db).0 ≡ false
      → ((tick env clock.ticked db).0 ≡ [])
        × ((r : Job) → Memᴰ r (turn queue env clock db).1.jobs → ¬ OnOffer clock.claimed r)
  unfolding turn Queue.claim
  turn_idle unique h =
      idle_after (tick env clock.ticked db).0 _ _ h
        (claim-HandsOut queue.worker_id clock.claimed _ ticked.jobs unique)
