-- ===== src/Jobs/Queue/System.antt =====
-- The queue as a whole: the job table, the claims that workers hold, and the calls that publishers
-- and workers make, in any order. A worker that dies makes no further call; one that was paused
-- may report on a claim however old.
use blitze_cdn_cp.Prelude.{ℕ, String, List, [], ◌∷◌, Option, none, some, true, ◌≡◌, All, Memᴰ}
use blitze_cdn_cp.Jobs.Domain.{JobClaim, Payload, Message}
use blitze_cdn_cp.Jobs.Store
use blitze_cdn_cp.Jobs.Store.{Jobs, new_job}
use blitze_cdn_cp.Jobs.Queue.{Ending, settle, fail}

pub record System : Type 0 where
  pub rows : Jobs
  pub held : List JobClaim

abbrev pub empty : System
empty = record { rows = []; held = [] }

-- `uuid4` has not drawn this identifier for a job that some worker holds.
abbrev pub IsFresh : String → List JobClaim → Type 0
IsFresh id = All (λ c. ¬ (id ≡ c.job.id))

pub data Step (s : System) : System → Type 0 where
  publish :
      (id kind : String) (payload : Payload) (available_at : ℕ) (key : Option String)
      (max_attempts created_at : ℕ)
      → IsFresh id s.held
      → Step s (record s {
        rows =
            (Store.enqueue
              (new_job id kind payload available_at key max_attempts created_at)
              s.rows).1;
      })
  take :
      (worker : String) (now lease : ℕ) (c : JobClaim)
      → (Store.claim worker now lease s.rows).0 ≡ some c
      → Step s (record { rows = (Store.claim worker now lease s.rows).1; held = c ∷ s.held })
  idle :
      (worker : String) (now lease : ℕ)
      → (Store.claim worker now lease s.rows).0 ≡ none
      → Step s (record s { rows = (Store.claim worker now lease s.rows).1 })
  report :
      (c : JobClaim) (ending : Ending) (now : ℕ)
      → Memᴰ c s.held
      → Step s (record s { rows = (settle c ending now s.rows).1 })
  orphan :
      (c : JobClaim) (now : ℕ)
      → Memᴰ c s.held
      → Step s (record s { rows = (fail c (Message.no_handler c.job.kind) true now s.rows).1 })
  renews :
      (c : JobClaim) (until : ℕ)
      → Memᴰ c s.held
      → Step s (record s { rows = (Store.renew c.job.id c.fence until s.rows).1 })
  prunes : (keep : ℕ) → Step s (record s { rows = (Store.prune keep s.rows).1 })

pub data Reach (s : System) : System → Type 0 where
  here : Reach s s
  next : {t u : System} → Reach s t → Step t u → Reach s u
