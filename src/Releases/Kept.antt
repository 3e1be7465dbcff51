-- ===== src/Releases/Kept.antt =====
-- The calls of ReleaseStore (releases/adapters/persistence.py) on sound tables.
use blitze_cdn_cp.Prelude.{
  ℕ, List, [], ◌∷◌, Bool, true, false, not, ◌==◌, nat_eq, list_eq, All, All-snoc, All-mono,
  Pairwise-snoc, ◌≡◌, ◌≢◌, refl, sym, subst, inl, inr, Bool-cases,
}
use blitze_cdn_cp.Sql.{delete_where, matches}
use blitze_cdn_cp.Sql.Laws.{unmatched_of_matches, All-select_where, Pairwise-select_where}
use blitze_cdn_cp.Releases.{
  digest_of_inputs, Digest, Documents, ReleaseRow, Tables, Answer, answers, fails, short_id,
  has_digest, of_release, same_release, insert_inputs, release_row, insert_release, with_releases,
  save, save_configuration, is_dropped, prune,
}
use blitze_cdn_cp.Releases.Calls.{Call, saves, records, prunes, left, step, run, of_answers}
use blitze_cdn_cp.Releases.Sound.{
  Consistent, Referenced, Unique, Sound, insert_inputs-records, insert_release-rows,
}

module _ {R I B : Type 0} (doc : Documents R I B) where
  with_releases-answers :
      (i : I) (now : ℕ) (db db' : Tables) (inserted : Answer (List ReleaseRow))
      → with_releases doc i now db inserted ≡ answers db'
      → (rows : List ReleaseRow) × (inserted ≡ answers rows)
        × (record db { inputs = insert_inputs doc i now db.inputs; releases = rows } ≡ db')
  unfolding with_releases
  with_releases-answers i now db db' (fails e) h = absurd (cc h)
  with_releases-answers i now db db' (answers rows) h = (rows, refl, of_answers h)

  pub save-answers :
      (r : R) (i : I) (now : ℕ) (db db' : Tables)
      → save doc r i now db ≡ answers db'
      → (doc.inputs_digest r ≡ digest_of_inputs doc i)
        × ((rows : List ReleaseRow) × (insert_release doc r now db.releases ≡ answers rows)
            × (record db { inputs = insert_inputs doc i now db.inputs; releases = rows } ≡ db'))
  unfolding save
  save-answers r i now db db' h =
      elim (Bool-cases (doc.inputs_digest r == digest_of_inputs doc i)) [
        | inl e ↦ (
          list_eq.sound (doc.inputs_digest r) (digest_of_inputs doc i) e,
          with_releases-answers i now db db' (insert_release doc r now db.releases) (rw e at h),
        )
        | inr e ↦ absurd (cc (rw e at h))
      ]

  new_id :
      (r : R) (now : ℕ) (rows : List ReleaseRow)
      → matches (λ row. row.id == short_id (doc.digest r)) rows ≡ false
      → All (λ a. a.id ≢ (release_row doc r now).id) rows
  unfolding release_row
  new_id r now rows out =
      All-mono (λ row. (row.id == short_id (doc.digest r)) ≡ false)
        (λ a. a.id ≢ short_id (doc.digest r)) rows
        (λ row other same.
          cc (subst (λ z. (row.id == z) ≡ false) (sym same) other, list_eq.reflexive row.id))
        (unmatched_of_matches (λ row. row.id == short_id (doc.digest r)) rows out)

  saved-Sound :
      (r : R) (i : I) (now : ℕ) (db : Tables) (rows : List ReleaseRow)
      → doc.inputs_digest r ≡ digest_of_inputs doc i
      → insert_release doc r now db.releases ≡ answers rows
      → Sound doc db
      → Sound doc (record db { inputs = insert_inputs doc i now db.inputs; releases = rows })
  unfolding Consistent Referenced Unique release_row
  saved-Sound r i now db rows same h sound =
      let (intact, there, more) = insert_inputs-records doc i now db.inputs sound.intact in
      let inputs = insert_inputs doc i now db.inputs in
      let kept : All (Referenced doc inputs) db.releases =
        All-mono (Referenced doc db.inputs) (Referenced doc inputs) db.releases
          (λ row k. more row.inputs_digest k) sound.referenced in
      elim (insert_release-rows doc r now db.releases rows h) [
        | inl (_, e) ↦ record {
          consistent = subst (λ z. All (Consistent doc) z) e sound.consistent;
          unique = subst (λ z. (Unique doc) z) e sound.unique;
          referenced = subst (λ z. All (Referenced doc inputs) z) e kept;
          intact = intact;
        }
        | inr (out, e) ↦ record {
          consistent =
              subst (λ z. All (Consistent doc) z) e
                (All-snoc (Consistent doc) db.releases (release_row doc r now) sound.consistent
                  (r, doc.validate-dump r, refl, refl, refl));
          unique =
              subst (λ z. (Unique doc) z) e
                (Pairwise-snoc (λ a b. a.id ≢ b.id) db.releases (release_row doc r now) sound.unique
                  (new_id r now db.releases out));
          referenced =
              subst (λ z. All (Referenced doc inputs) z) e
                (All-snoc (Referenced doc inputs) db.releases (release_row doc r now) kept
                  (subst (λ z. matches (has_digest z) inputs ≡ true) (sym same) there));
          intact = intact;
        }
      ]

  -- The tables that calls leave are sound if they were.
  pub saves-Sound :
      (r : R) (i : I) (now : ℕ) (db db' : Tables)
      → save doc r i now db ≡ answers db'
      → Sound doc db
      → Sound doc db'
  saves-Sound r i now db db' h sound =
      let (same, (rows, inserted, e)) = save-answers r i now db db' h in
      subst (λ z. (Sound doc) z) e (saved-Sound r i now db rows same inserted sound)

  left-Sound :
      (a : Answer Tables) (db : Tables)
      → ((db' : Tables) → a ≡ answers db' → Sound doc db')
      → Sound doc db
      → Sound doc (left doc a db)
  unfolding left
  left-Sound (answers db') db f sound = f db' refl
  left-Sound (fails e) db f sound = sound

  records-Sound :
      (r : R) (b : B) (now : ℕ) (db : Tables)
      → Sound doc db
      → Sound doc (left doc (save_configuration doc r b now db) db)
  unfolding save_configuration left
  records-Sound r b now db sound =
      elim (Bool-cases (matches (of_release (doc.digest r)) db.configurations)) [
        | inl e ↦ rw e sound
        | inr e ↦ elim (Bool-cases (matches (same_release doc (doc.digest r)) db.releases)) [
          | inl e' ↦
              rw (e, e')
                (record {
                  consistent = sound.consistent;
                  unique = sound.unique;
                  referenced = sound.referenced;
                  intact = sound.intact;
                })
          | inr e' ↦ rw (e, e') sound
        ]
      ]

  prunes-Sound :
      (keep : ℕ) (in_use : List Digest) (db : Tables)
      → Sound doc db
      → Sound doc (prune doc keep in_use db).1
  unfolding prune delete_where Unique
  prunes-Sound keep in_use db sound =
      let kept : ReleaseRow → Bool = λ row. not (is_dropped doc keep in_use db.releases row) in
      record {
        consistent = All-select_where (Consistent doc) kept db.releases sound.consistent;
        unique = Pairwise-select_where (λ a b. a.id ≢ b.id) kept db.releases sound.unique;
        referenced = All-select_where (Referenced doc db.inputs) kept db.releases sound.referenced;
        intact = sound.intact;
      }

  pub run-Sound : (cs : List (Call R I B)) (db : Tables) → Sound doc db → Sound doc (run doc cs db)
  unfolding run step
  run-Sound [] db sound = sound
  run-Sound (saves r i now ∷ cs) db sound =
      run-Sound cs (left doc (save doc r i now db) db)
        (left-Sound (save doc r i now db) db (λ db' e. saves-Sound r i now db db' e sound) sound)
  run-Sound (records r b now ∷ cs) db sound =
      run-Sound cs (left doc (save_configuration doc r b now db) db)
        (records-Sound r b now db sound)
  run-Sound (prunes keep in_use ∷ cs) db sound =
      run-Sound cs (prune doc keep in_use db).1 (prunes-Sound keep in_use db sound)
