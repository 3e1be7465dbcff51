-- ===== src/Jobs/Store/Ops.antt =====
-- The calls of the job store as data, so that a history is a list of them, from any number of
-- workers and in any order.
use blitze_cdn_cp.Prelude.{ℕ, String, List, [], ◌∷◌, Option, ◌≡◌}
use blitze_cdn_cp.Jobs.Domain.{Job, Payload, Message}
use blitze_cdn_cp.Jobs.Store.{Jobs, enqueue, claim, complete, fail, defer, renew, prune}

pub data Op : Type 0 where
  enqueues : Job → Op
  claims : String → ℕ → ℕ → Op
  completes : String → ℕ → ℕ → Option Payload → Op
  fails : String → ℕ → ℕ → Message → Option ℕ → Op
  defers : String → ℕ → ℕ → Message → Op
  renews : String → ℕ → ℕ → Op
  prunes : ℕ → Op

unfoldable pub apply : Op → Jobs → Jobs
apply (enqueues row) rows = (enqueue row rows).1
apply (claims worker now lease) rows = (claim worker now lease rows).1
apply (completes id fence now result) rows = (complete id fence now result rows).1
apply (fails id fence now error retry_at) rows = (fail id fence now error retry_at rows).1
apply (defers id fence retry_at error) rows = (defer id fence retry_at error rows).1
apply (renews id fence until) rows = (renew id fence until rows).1
apply (prunes keep) rows = (prune keep rows).1

unfoldable pub run_ops : List Op → Jobs → Jobs
run_ops [] rows = rows
run_ops (op ∷ ops) rows = run_ops ops (apply op rows)

-- The history does not insert a job under this identifier: `uuid4` does not repeat one.
abbrev pub NeverInserts : String → List Op → Type 0
NeverInserts id [] = Unit
NeverInserts id (enqueues row ∷ ops) = (¬ (row.id ≡ id)) × NeverInserts id ops
NeverInserts id (_ ∷ ops) = NeverInserts id ops
