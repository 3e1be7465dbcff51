-- ===== src/Jobs/Operations.antt =====
-- jobs/service/operations.py: edge operations as jobs of declared kinds, run once.
pub mod Conflicts
use blitze_cdn_cp.Prelude.{
  ℕ, String, List, [], ◌∷◌, ◌++◌, Bool, true, false, Option, none, some, ◌≡◌, refl, arith, eq_iff,
  if◌then◌else◌, not, Bool-cases, ◌==◌, string_eq, ◌⊎◌, inl, inr,
}
use blitze_cdn_cp.Sql.{matches, first_where}
use blitze_cdn_cp.Jobs.Domain.{Job, JobStatus, Payload, is_terminal}
use blitze_cdn_cp.Jobs.Store
use blitze_cdn_cp.Jobs.Store.{Jobs, new_job, violates, in_flight, same_key}
use blitze_cdn_cp.Jobs.Schedule.{contains}

-- How a call ends: with a job, or with the exception that it raises.
pub data Answer : Type 0 where
  job : Job → Answer
  not_found : String → Answer
  conflict : String → Answer

accepted : String → Option Job × Jobs → Answer × Jobs
accepted kind (none, rows) = (conflict kind, rows)
accepted kind (some j, rows) = (job j, rows)

-- `kinds` are the declared ones.
unfoldable pub submit :
    List String → String → String → Payload → Option String → ℕ → ℕ → Jobs → Answer × Jobs
unfolding contains accepted
submit kinds id kind payload dedupe_key now created_at rows =
    if not (contains kinds kind)
    then (not_found kind, rows)
    else accepted kind (Store.enqueue (new_job id kind payload now dedupe_key 1 created_at) rows)

answer_of : List String → String → Option Job → Answer
unfolding contains
answer_of kinds id none = not_found id
answer_of kinds id (some j) = if not (contains kinds j.kind) then not_found id else job j

unfoldable pub get : List String → String → Jobs → Answer
unfolding answer_of
get kinds id rows = answer_of kinds id (Store.get id rows)
