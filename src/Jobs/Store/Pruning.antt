-- ===== src/Jobs/Store/Pruning.antt =====
-- `prune` of jobs/adapters/persistence.py, as the deletion of what is beyond the newest.
use blitze_cdn_cp.Prelude.{ℕ}
use blitze_cdn_cp.Sql.Pruning.{Prunes, drop_surplus-Prunes}
use blitze_cdn_cp.Sql.{newer, newest, surplus, drop_surplus}
use blitze_cdn_cp.Jobs.Domain.{is_terminal}
use blitze_cdn_cp.Jobs.Store.{Jobs, newest_first, survivors, prunable, prune}
use blitze_cdn_cp.Jobs.Store.Keys.{UniqueIds}

-- On a table with unique identifiers pruning adds no row and drops no unfinished one, leaves at
-- most `keep` finished ones, and exactly `keep` if it drops any, and drops no finished row that is
-- newer than one that it leaves.
pub prune-Prunes :
    (keep : ℕ) (rows : Jobs)
    → UniqueIds rows
    → Prunes
        (λ r. r.id)
        (λ r. is_terminal r.status)
        (λ r. r.created_at)
        keep
        rows
        (prune keep rows).1
unfolding prune prunable survivors newest_first drop_surplus surplus newest newer
prune-Prunes keep rows unique =
    drop_surplus-Prunes (λ r. r.id) (λ r. is_terminal r.status) (λ r. r.created_at) keep rows unique
