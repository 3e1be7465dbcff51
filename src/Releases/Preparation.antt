-- ===== src/Releases/Preparation.antt =====
-- The recording of a compiled release by releases/service/releases.py.
use blitze_cdn_cp.Prelude.{ℕ, List, Option, nat_eq, list_eq, if◌then◌else◌}
use blitze_cdn_cp.Releases.{
  Digest, Documents, Tables, not_found, unrendered, Answer, answers, fails, or_fail, short_id, save,
  save_configuration, configuration, prune,
}

module _ {R I B : Type 0} (doc : Documents R I B) where
  record_if : R → Option B → ℕ → Tables → Answer B → Answer Tables
  unfolding save_configuration or_fail
  record_if r rendered now db (answers b) = answers db
  record_if r rendered now db (fails not_found) =
      or_fail unrendered (λ b. save_configuration doc r b now db) rendered
  record_if r rendered now db (fails e) = fails e

  record_stored : (R → Option B) → R → ℕ → Tables → Answer Tables
  unfolding record_if configuration short_id
  record_stored render r now db =
      if doc.has_artifacts r
      then record_if r (render r) now db (configuration doc (short_id (doc.digest r)) db)
      else answers db

  after_saving :
      (R → Option B) → R → ℕ → List Digest → ℕ → Answer Tables → Tables → Answer Tables × Tables
  unfolding record_stored prune
  after_saving render r keep in_use now (fails e) db = (fails e, db)
  after_saving render r keep in_use now (answers db') db =
      let pruned = (prune doc keep in_use db').1 in (record_stored render r now pruned, pruned)

  -- `prepare` behind the compilation: what it ends with, and the tables before the configuration is
  -- recorded, which stay if it is not.
  unfoldable pub prepare :
      (R → Option B) → R → I → ℕ → List Digest → ℕ → Tables → Answer Tables × Tables
  unfolding after_saving save
  prepare render r i keep in_use now db =
      after_saving render r keep in_use now (save doc r i now db) db
