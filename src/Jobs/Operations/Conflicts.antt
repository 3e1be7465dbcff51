-- ===== src/Jobs/Operations/Conflicts.antt =====
-- What a submitted operation meets.
use blitze_cdn_cp.Prelude.{
  ℕ, String, List, [], ◌∷◌, ◌++◌, Memᴰ, true, false, Option, some, ◌≡◌, refl, inl, inr, arith,
  eq_iff, All, Bool-cases, ◌==◌, string_eq,
}
use blitze_cdn_cp.Sql.{matches, first_where}
use blitze_cdn_cp.Sql.Laws.{matches-mem, unmatched_of_matches}
use blitze_cdn_cp.Jobs.Domain.{Job, Payload, is_terminal}
use blitze_cdn_cp.Jobs.Store
use blitze_cdn_cp.Jobs.Store.{Jobs, new_job, violates, in_flight, same_key}
use blitze_cdn_cp.Jobs.Schedule.{contains}
use blitze_cdn_cp.Jobs.Operations.{job, conflict, submit, get}

in_flight_held :
    (key : String) (r : Job)
    → is_terminal r.status ≡ false
    → r.dedupe_key ≡ some key
    → in_flight (some key) r ≡ true
unfolding in_flight same_key
in_flight_held key r open_ e = ground (arith, eq_iff key key)

-- While an unfinished job holds a key, a second operation of a declared kind under that key is
-- refused, and nothing is written.
pub submit_busy :
    (kinds : List String) (id kind : String) (payload : Payload) (key : String) (now created_at : ℕ)
    (rows : Jobs) (r : Job)
    → contains kinds kind ≡ true
    → Memᴰ r rows
    → is_terminal r.status ≡ false
    → r.dedupe_key ≡ some key
    → submit kinds id kind payload (some key) now created_at rows ≡ (conflict kind, rows)
unfolding submit Store.enqueue
submit_busy kinds id kind payload key now created_at rows r declared m open_ e =
    ground (arith, matches-mem (in_flight (some key)) rows m (in_flight_held key r open_ e))

first_where-snoc :
    (id : String) (row : Job) (rows : Jobs)
    → row.id ≡ id
    → All (λ r. (r.id == id) ≡ false) rows
    → first_where (λ r. r.id == id) (rows ++ row ∷ []) ≡ some row
unfolding first_where
first_where-snoc id row [] e h = ground (arith, eq_iff row.id id)
first_where-snoc id row (x ∷ rows) e h = rw h.0 (first_where-snoc id row rows e h.1)

-- An operation that was accepted is read back, as the job that was answered, under its identifier.
pub get-submit :
    (kinds : List String) (id kind : String) (payload : Payload) (key : Option String)
    (now created_at : ℕ) (rows : Jobs) (j : Job)
    → (submit kinds id kind payload key now created_at rows).0 ≡ job j
    → get kinds id (submit kinds id kind payload key now created_at rows).1 ≡ job j
unfolding submit get Store.get Store.enqueue
get-submit kinds id kind payload key now created_at rows j h =
    elim (Bool-cases (matches (λ r. r.id == id) rows)) [
      | inl taken ↦ absurd (refused taken)
      | inr fresh ↦ ground (
        arith,
        first_where-snoc id (new_job id kind payload now key 1 created_at) rows refl
            (unmatched_of_matches _ rows fresh),
      )
    ]
  where
    refused : matches (λ r. r.id == id) rows ≡ true → ⊥
    refused taken = ground arith
