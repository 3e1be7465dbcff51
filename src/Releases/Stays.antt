-- ===== src/Releases/Stays.antt =====
-- What calls of ReleaseStore (releases/adapters/persistence.py) leave of a release that is in use.
use blitze_cdn_cp.Prelude.{
  ℕ, List, [], ◌∷◌, Bool, true, not, some, ◌==◌, nat_eq, list_eq, Memᴰ, All, ◌≡◌, refl, sym, subst,
  inl, inr, Bool-cases,
}
use blitze_cdn_cp.Sql.{delete_where, first_where, matches}
use blitze_cdn_cp.Sql.Laws.{
  first_where-append, first_where-select_where, first_where-some, matches-mem,
}
use blitze_cdn_cp.Releases.{
  digest_of_inputs, Digest, Documents, InputsRow, ReleaseRow, ConfigurationRow, Tables, Answer,
  answers, fails, or_fail, short_id, has_digest, of_release, named, same_release, insert_inputs,
  insert_release, with_releases, save, save_configuration, get, inputs_of, inputs_for,
  configuration_of, configuration, is_dropped, prune, not_found,
}
use blitze_cdn_cp.Releases.Calls.{
  of_answers, or_fail-answers, kept_by_use, Call, saves, records, prunes, left, step, run, Spares,
}

module _ {R I B : Type 0} (doc : Documents R I B) where
  -- What is found of the release is found in the other tables too.
  record Stays (name : Digest) (row : ReleaseRow) (db db' : Tables) : Type 0 where
    release : first_where (named doc name) db'.releases ≡ some row
    inputs :
        (stored : InputsRow)
        → first_where (has_digest row.inputs_digest) db.inputs ≡ some stored
        → first_where (has_digest row.inputs_digest) db'.inputs ≡ some stored
    rendered :
        (stored : ConfigurationRow)
        → first_where (of_release row.digest) db.configurations ≡ some stored
        → first_where (of_release row.digest) db'.configurations ≡ some stored

  same-Stays :
      (name : Digest) (row : ReleaseRow) (db : Tables)
      → first_where (named doc name) db.releases ≡ some row
      → Stays name row db db
  same-Stays name row db h = record {
    release = h;
    inputs = λ stored e. e;
    rendered = λ stored e. e;
  }

  insert_inputs-keeps :
      (i : I) (now : ℕ) (rows : List InputsRow) (p : InputsRow → Bool) (stored : InputsRow)
      → first_where p rows ≡ some stored
      → first_where p (insert_inputs doc i now rows) ≡ some stored
  unfolding insert_inputs
  insert_inputs-keeps i now rows p stored h =
      elim (Bool-cases (matches (has_digest (digest_of_inputs doc i)) rows)) [
        | inl e ↦ rw e h
        | inr e ↦ rw e (first_where-append p rows _ h)
      ]

  with_releases-Stays :
      (name : Digest) (row : ReleaseRow) (i : I) (now : ℕ) (db : Tables)
      (inserted : Answer (List ReleaseRow))
      → first_where (named doc name) db.releases ≡ some row
      → ((rows : List ReleaseRow)
          → inserted ≡ answers rows
          → first_where (named doc name) rows ≡ some row)
      → Stays name row db (left doc (with_releases doc i now db inserted) db)
  unfolding with_releases left
  with_releases-Stays name row i now db (fails e) h f = same-Stays name row db h
  with_releases-Stays name row i now db (answers rows) h f = record {
    release = f rows refl;
    inputs =
        λ stored e. insert_inputs-keeps i now db.inputs (has_digest row.inputs_digest) stored e;
    rendered = λ stored e. e;
  }

  insert_release-keeps :
      (r : R) (now : ℕ) (rows rows' : List ReleaseRow) (p : ReleaseRow → Bool) (row : ReleaseRow)
      → insert_release doc r now rows ≡ answers rows'
      → first_where p rows ≡ some row
      → first_where p rows' ≡ some row
  unfolding insert_release
  insert_release-keeps r now rows rows' p row h found =
      elim (Bool-cases (matches (same_release doc (doc.digest r)) rows)) [
        | inl e ↦ subst (λ z. first_where p z ≡ some row) (of_answers (rw e at h)) found
        | inr e ↦ elim (Bool-cases (matches (λ row. row.id == short_id (doc.digest r)) rows)) [
          | inl e' ↦ absurd (cc (rw (e, e') at h))
          | inr e' ↦
              subst (λ z. first_where p z ≡ some row) (of_answers (rw (e, e') at h))
                (first_where-append p rows _ found)
        ]
      ]

  save-Stays :
      (name : Digest) (row : ReleaseRow) (r : R) (i : I) (now : ℕ) (db : Tables)
      → first_where (named doc name) db.releases ≡ some row
      → Stays name row db (left doc (save doc r i now db) db)
  unfolding save left
  save-Stays name row r i now db h =
      elim (Bool-cases (doc.inputs_digest r == digest_of_inputs doc i)) [
        | inl e ↦ rw e (
            with_releases-Stays name row i now db (insert_release doc r now db.releases) h
              (λ rows f. insert_release-keeps r now db.releases rows (named doc name) row f h))
        | inr e ↦ rw e (same-Stays name row db h)
      ]

  record-Stays :
      (name : Digest) (row : ReleaseRow) (r : R) (b : B) (now : ℕ) (db : Tables)
      → first_where (named doc name) db.releases ≡ some row
      → Stays name row db (left doc (save_configuration doc r b now db) db)
  unfolding save_configuration left
  record-Stays name row r b now db h =
      elim (Bool-cases (matches (of_release (doc.digest r)) db.configurations)) [
        | inl e ↦ rw e (same-Stays name row db h)
        | inr e ↦ elim (Bool-cases (matches (same_release doc (doc.digest r)) db.releases)) [
          | inl e' ↦
              rw (e, e')
                (record {
                  release = h;
                  inputs = λ stored f. f;
                  rendered =
                      λ stored f. first_where-append (of_release row.digest) db.configurations _ f;
                })
          | inr e' ↦ rw (e, e') (same-Stays name row db h)
        ]
      ]

  prune-Stays :
      (name : Digest) (row : ReleaseRow) (keep : ℕ) (in_use : List Digest) (db : Tables)
      → first_where (named doc name) db.releases ≡ some row
      → Memᴰ row.id in_use
      → Stays name row db (prune doc keep in_use db).1
  unfolding prune is_dropped delete_where of_release same_release
  prune-Stays name row keep in_use db h spared =
      let named_there : matches (λ id. id == row.id) in_use ≡ true =
        matches-mem (λ id. id == row.id) in_use spared (list_eq.reflexive row.id) in
      let stays : not (is_dropped doc keep in_use db.releases row) ≡ true =
        rw named_there (kept_by_use _) in
      let release =
        first_where-select_where (named doc name)
          (λ r. not (is_dropped doc keep in_use db.releases r)) db.releases h stays in
      record {
        release = release;
        inputs = λ stored e. e;
        rendered = λ stored e.
            let (_, same) = first_where-some (of_release row.digest) db.configurations e in
            let digest : stored.release_digest ≡ row.digest =
              list_eq.sound stored.release_digest row.digest same in
            let (m, _) =
              first_where-some (named doc name)
                (delete_where (is_dropped doc keep in_use db.releases) db.releases) release in
            first_where-select_where (of_release row.digest)
              (λ c.
                matches (same_release doc c.release_digest)
                  (delete_where (is_dropped doc keep in_use db.releases) db.releases))
              db.configurations e
              (matches-mem (same_release doc stored.release_digest) _ m (
                subst (λ z. (row.digest == z) ≡ true) (sym digest) (list_eq.reflexive row.digest)));
      }

  step-Stays :
      (name : Digest) (row : ReleaseRow) (c : Call R I B) (db : Tables)
      → first_where (named doc name) db.releases ≡ some row
      → Spares doc row.id c
      → Stays name row db (step doc c db)
  unfolding step Spares
  step-Stays name row (saves r i now) db h spared = save-Stays name row r i now db h
  step-Stays name row (records r b now) db h spared = record-Stays name row r b now db h
  step-Stays name row (prunes keep in_use) db h spared =
      prune-Stays name row keep in_use db h spared

  run-Stays :
      (name : Digest) (row : ReleaseRow) (cs : List (Call R I B)) (db : Tables)
      → first_where (named doc name) db.releases ≡ some row
      → All (Spares doc row.id) cs
      → Stays name row db (run doc cs db)
  unfolding run
  run-Stays name row [] db h spared = same-Stays name row db h
  run-Stays name row (c ∷ cs) db h (now, later) =
      let first = step-Stays name row c db h now in
      let rest = run-Stays name row cs (step doc c db) first.release later in
      record {
        release = rest.release;
        inputs = λ stored e. rest.inputs stored (first.inputs stored e);
        rendered = λ stored e. rest.rendered stored (first.rendered stored e);
      }

  inputs-Stays :
      (name : Digest) (row : ReleaseRow) (db db' : Tables) (i : I)
      → Stays name row db db'
      → inputs_of doc db row ≡ answers i
      → inputs_of doc db' row ≡ answers i
  unfolding inputs_of or_fail
  inputs-Stays name row db db' i stays h =
      let (stored, found, decoded) =
        or_fail-answers not_found _ (first_where (has_digest row.inputs_digest) db.inputs) i h in
      rw (stays.inputs stored found) decoded

  configuration-Stays :
      (name : Digest) (row : ReleaseRow) (db db' : Tables) (b : B)
      → Stays name row db db'
      → configuration_of doc db row ≡ answers b
      → configuration_of doc db' row ≡ answers b
  unfolding configuration_of or_fail
  configuration-Stays name row db db' b stays h =
      let (stored, found, decoded) =
        or_fail-answers not_found _ (first_where (of_release row.digest) db.configurations) b h in
      rw (stays.rendered stored found) decoded

  -- As long as each pruning counts a release as one in use, whatever other releases and configurations
  -- are saved, this release answers by its name what it did: itself, the inputs that it was compiled from, and the
  -- configuration that it was rendered to, once it has them.
  pub in_use_stays :
      (name : Digest) (row : ReleaseRow) (cs : List (Call R I B)) (db : Tables)
      → first_where (named doc name) db.releases ≡ some row
      → All (Spares doc row.id) cs
      → (get doc name (run doc cs db) ≡ get doc name db)
        × ((i : I)
            → inputs_for doc name db ≡ answers i
            → inputs_for doc name (run doc cs db) ≡ answers i)
        × ((b : B)
            → configuration doc name db ≡ answers b
            → configuration doc name (run doc cs db) ≡ answers b)
  unfolding get inputs_for configuration or_fail
  in_use_stays name row cs db h spared =
      let stays = run-Stays name row cs db h spared in
      (
        rw (h, stays.release) refl,
        λ i e. rw stays.release (inputs-Stays name row db (run doc cs db) i stays (rw h at e)),
        λ b e.
            rw stays.release (configuration-Stays name row db (run doc cs db) b stays (rw h at e)),
      )
