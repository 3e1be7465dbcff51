-- ===== src/Lib.antt =====
-- The control plane of BlitzeCDN (src/blitzecdn) as far as its own logic decides what reaches
-- the edge servers: the durable job queue with its scheduler and worker, the rollout of a
-- release to the edges, the admission and the convergence of a deployment, the store of the
-- releases, the composition of what features contribute, the derivation of the virtual hosts
-- from the DNS zones, and the journal of workflows. The other parts are glue, input and output,
-- or checks of single fields, and are not modelled.
--
-- How the parts interact. The scheduler stores a due operation as a job; the worker claims a job
-- under a fence and a lease and hands it to the handler of its kind. One handler converges a
-- deployment, inside a workflow of the journal: it derives the hosts, compiles a release, and
-- walks each edge through the phases of a rollout, recording under a fence of its own how far
-- the edge has got. Each store is rows of SQLite; a call of a store is one transaction.
--
-- Files and code:
--   Prelude, Prelude/*: Boolean tests over native numbers and strings, lists, association lists.
--   Sql, Sql/*: SELECT, UPDATE, DELETE, ORDER BY and LIMIT as functions on the list of the rows
--     of a table, in insertion order, with the DELETE beyond the newest rows that two stores
--     share.
--   Jobs/Domain, Jobs/Backoff: src/blitzecdn/capabilities/jobs/domain/job.py (Job, JobStatus,
--     backoff_for).
--   Jobs/Store, Jobs/Store/*: JobStore of jobs/adapters/persistence.py: enqueue, claim,
--     complete, fail, defer, renew, get, prune. An insert that the partial unique indexes of
--     jobs/adapters/tables.py refuse answers none.
--   Jobs/Queue, Jobs/Queue/*: jobs/service/queue.py (JobQueue with its handlers), and the
--     relation of all the calls that processes make, in any order, at any time
--     (Jobs/Queue/System).
--   Jobs/Schedule, Jobs/Scheduler, Jobs/Scheduler/*: ScheduleStore of
--     jobs/adapters/persistence.py, jobs/domain/schedule.py and jobs/service/scheduling.py.
--   Jobs/Operations, Jobs/Runner: jobs/service/operations.py and the loop of
--     jobs/service/runner.py.
--   Deployments/Targets: deployments/domain/target.py and DeploymentTargetStore of
--     deployments/adapters/persistence.py: claim_generation, plan, begin, record_phase, finish,
--     skip_remaining.
--   Deployments/Rollout, Deployments/Rollout/*: deployments/service/rollout.py, with the status
--     of a run of core/domain/runs.py.
--   Deployments/History, Deployments/History/*: deployments/domain/deployment.py and
--     DeploymentStore of deployments/adapters/persistence.py.
--   Deployments/Convergence, Deployments/Convergence/*: converge of
--     deployments/service/convergence.py with deployments/service/rollback.py, which takes a
--     deployment from its start over the rollout to its result.
--   Deployments/Admission, Deployments/Admission/*: _queue of
--     deployments/service/convergence.py, the transaction that admits a deployment.
--   Releases, Releases/*: ReleaseStore of releases/adapters/persistence.py, and prepare of
--     releases/service/releases.py behind the compilation, with encode, digest and decode of
--     ReleaseInputs (releases/domain/inputs.py).
--   Features/*: src/blitzecdn/core/features: merge_variables of registry.py,
--     resolution/ansible.py and resolution/modules.py.
--   Dns/Texts, Dns/Names, Dns/Rules: dns/domain/rule.py, dns/domain/resolution.py and the names
--     of dns/domain/hosts.py (host_name, _origin_slug, _unique_name).
--   Dns/Groups, Dns/Hosts, Dns/Hosts/*: _derive of dns/domain/hosts.py, with its dictionaries as
--     association lists in insertion order; the origin of a host as its validation
--     (serving/domain/host.py, hostname of core/domain/validation.py) answers it.
--   Workflows, Workflows/*: workflows/domain/workflow.py, WorkflowStore of
--     workflows/adapters/persistence.py and workflows/service/coordinator.py.
--
-- State and failure. A handler's state is the rows it writes, passed on explicitly; an exception
-- is a value of a result type, and a transaction that raises leaves the rows as they were. Where
-- a function reads the database more than once outside a transaction, the writes of other
-- processes between are a parameter (`meanwhile` in the rollout, `elsewhere` in a workflow), or
-- steps of the relation (Jobs/Queue/System).
--
-- Parameters stand for code that is not here: the run of the tool, the probe, the addresses and
-- the publication of a rollout (the record Outside: each answer may depend on all calls before);
-- the handlers of jobs; the clock; the drawn identifiers; in the derivation the merge of a
-- policy with the settings of a rule, the validation of a host, and the digest of a name. A
-- convergence takes the releases, what other processes write to its rows meanwhile, and the
-- interrupt that cuts it short, if one comes before its result is saved (the record Setting), an
-- admission the releases on record and the enqueue of the job, the store of the releases JSON,
-- the validation of models, SHA-256 and the releases with their digests (the record Documents,
-- with what is relied on as its fields) and the renderer, and the search path of the roles the
-- directories of the host (Disk).
--
-- Bounds and fuel. Time is a natural number of the store's unit. The claim loop runs on as much
-- fuel as the table has rows, and one more: each round but the last retires a row. The numerals
-- of host names run on fuel equal to the number. A name has 998 alternatives, as the source's
-- range, and running out of them is the source's failure. A lease, a delay and a count never
-- wrap, since the source's integers do not.
--
-- Not modelled, and why: the other capabilities under src/blitzecdn/capabilities (edges,
-- certificates, cache, security, backup and the rest) and the shared core; of the releases their
-- compilation, and of the deployments their validation and reports, the choice of the release
-- that is deployed, and the workflow around a run; of the features the resolution of
-- configuration and of Nginx fragments; metrics, logs and audit rows, which decide nothing;
-- validators of single fields, which pydantic runs.
mod Prelude
pub mod Sql
pub mod Jobs
pub mod Deployments
pub mod Dns
pub mod Workflows
pub mod Features
pub mod Releases
