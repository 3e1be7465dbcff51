-- ===== src/Releases/Reading.antt =====
-- What ReleaseStore (releases/adapters/persistence.py) reads back.
use blitze_cdn_cp.Prelude.{
  ℕ, List, [], take, length, length-take, true, some, ◌==◌, nat_eq, list_eq, Memᴰ, All-at, ◌≡◌,
  refl, sym, ap, ◌∙◌, subst, inl, inr, Bool-cases, arith, mem-append_right,
}
use blitze_cdn_cp.Sql.{first_where}
use blitze_cdn_cp.Sql.Laws.{first_where-some, first_where-found, mem_of_matches}
use blitze_cdn_cp.Releases.{
  digest_of_inputs, Digest, Documents, ReleaseRow, Tables, answers, or_fail, short_id, has_digest,
  named, same_release, release_row, insert_release, save, same_document, checked_release, get,
  inputs_of, inputs_for, checked_inputs,
}
use blitze_cdn_cp.Releases.Calls.{Call, run}
use blitze_cdn_cp.Releases.Sound.{
  Consistent, Referenced, Intact, Unique, Sound, same_id, insert_release-rows,
}
use blitze_cdn_cp.Releases.Kept.{save-answers, saves-Sound, run-Sound}

module _ {R I B : Type 0} (doc : Documents R I B) where
  -- The release that was saved is on record under its digest.
  on_record :
      (r : R) (now : ℕ) (rows rows' : List ReleaseRow)
      → insert_release doc r now rows ≡ answers rows'
      → (row : ReleaseRow) × Memᴰ row rows' × (row.digest ≡ doc.digest r)
  unfolding same_release release_row
  on_record r now rows rows' h = elim (insert_release-rows doc r now rows rows' h) [
    | inl (there, e) ↦
        let (row, m, same) = mem_of_matches (same_release doc (doc.digest r)) rows there in
        (row, subst (λ z. Memᴰ row z) e m, list_eq.sound row.digest (doc.digest r) same)
    | inr (_, e) ↦ (
      release_row doc r now,
      subst (λ z. Memᴰ (release_row doc r now) z) e (mem-append_right rows _ (Memᴰ.head refl)),
      refl,
    )
  ]

  longer_than_id :
      (row : ReleaseRow) (digest : Digest) → Consistent doc row → row.digest ≡ short_id digest → ⊥
  unfolding Consistent short_id
  longer_than_id row digest (r, _, same, _, _) e =
      let long : length (take 16 digest) ≡ 64 = ap length (sym e ∙ same) ∙ doc.hexadecimal r in
      omega (arith, long, length-take 16 digest)

  found_by_id :
      (db : Tables) (row : ReleaseRow)
      → Sound doc db
      → Memᴰ row db.releases
      → first_where (named doc (short_id row.digest)) db.releases ≡ some row
  unfolding named Consistent short_id
  found_by_id db row sound m =
      let name = short_id row.digest in
      let (_, _, _, own, _) = All-at (Consistent doc) db.releases sound.consistent m in
      let own_id : (row.id == name) ≡ true =
        subst (λ z. (row.id == z) ≡ true) own (list_eq.reflexive row.id) in
      let hit : named doc name row ≡ true = rw own_id refl in
      let (other, found) = first_where-found (named doc name) db.releases m hit in
      let (there, hits) = first_where-some (named doc name) db.releases found in
      elim (Bool-cases (other.id == name)) [
        | inl e ↦
            let same =
              same_id doc db.releases sound.unique there m
                (list_eq.sound other.id name e ∙ sym own) in
            subst (λ z. first_where (named doc name) db.releases ≡ some z) same found
        | inr e ↦ absurd (
            longer_than_id other row.digest
              (All-at (Consistent doc) db.releases sound.consistent there)
              (list_eq.sound other.digest name (rw e at hits)))
      ]

  checked_release-answers :
      (row : ReleaseRow)
      → Consistent doc row
      → (r : R) × (checked_release doc row ≡ answers r)
        × (row.digest ≡ doc.digest r)
        × (row.inputs_digest ≡ doc.inputs_digest r)
  unfolding checked_release or_fail same_document Consistent
  checked_release-answers row (r, read, digest, id, inputs) = (
    r,
    rw
        (
          read,
          (subst (λ z. (doc.digest r == z) ≡ true) (sym digest) (list_eq.reflexive (doc.digest r))),
          (subst (λ z. (short_id (doc.digest r) == z) ≡ true) (ap short_id (sym digest) ∙ sym id)
              (list_eq.reflexive (short_id (doc.digest r)))),
          (subst (λ z. (doc.inputs_digest r == z) ≡ true) (sym inputs)
              (list_eq.reflexive (doc.inputs_digest r))),
        )
        refl,
    digest,
    inputs,
  )

  inputs_of-answers :
      (db : Tables) (row : ReleaseRow)
      → Sound doc db
      → Memᴰ row db.releases
      → (i : I) × (inputs_of doc db row ≡ answers i) × (digest_of_inputs doc i ≡ row.inputs_digest)
  unfolding inputs_of or_fail checked_inputs Referenced Intact
  inputs_of-answers db row sound m =
      let (some_row, k, hit) =
        mem_of_matches (has_digest row.inputs_digest) db.inputs
          (All-at (Referenced doc db.inputs) db.releases sound.referenced m) in
      let (stored, found) = first_where-found (has_digest row.inputs_digest) db.inputs k hit in
      let (there, same) = first_where-some (has_digest row.inputs_digest) db.inputs found in
      let (i, decoded, digest) = All-at (Intact doc) db.inputs sound.intact there in
      let whole : digest_of_inputs doc i ≡ row.inputs_digest =
        digest ∙ list_eq.sound stored.digest row.inputs_digest same in
      (
        i,
        rw
            (
              found,
              decoded,
              (subst (λ z. (digest_of_inputs doc i == z) ≡ true) whole
                  (list_eq.reflexive (digest_of_inputs doc i))),
            )
            refl,
        whole,
      )

  no_tables-Sound : Sound doc (record { inputs = []; releases = []; configurations = [] })
  unfolding Unique
  no_tables-Sound = record { consistent = tt; unique = tt; referenced = tt; intact = tt }

  -- Whatever calls filled empty tables, a release that is saved behind them is read back by its short
  -- identifier, as a release of the same digest, with inputs of the digest that was saved.
  pub saved_is_read :
      (cs : List (Call R I B)) (r : R) (i : I) (now : ℕ) (db' : Tables)
      → save doc r i now (run doc cs (record { inputs = []; releases = []; configurations = [] }))
        ≡ answers db'
      → let name = short_id (doc.digest r) in
        ((r' : R) × (get doc name db' ≡ answers r') × (doc.digest r' ≡ doc.digest r))
        × ((i' : I) × (inputs_for doc name db' ≡ answers i')
            × (digest_of_inputs doc i' ≡ digest_of_inputs doc i))
  unfolding get inputs_for or_fail Consistent
  saved_is_read cs r i now db' h =
      let db = run doc cs (record { inputs = []; releases = []; configurations = [] }) in
      let sound = saves-Sound doc r i now db db' h (run-Sound doc cs _ no_tables-Sound) in
      let (named_inputs, (rows, inserted, e)) = save-answers doc r i now db db' h in
      let (row, m, digest) = on_record r now db.releases rows inserted in
      let there : Memᴰ row db'.releases = subst (λ z. Memᴰ row z.releases) e m in
      let found =
        subst (λ z. first_where (named doc (short_id z)) db'.releases ≡ some row) digest
          (found_by_id db' row sound there) in
      let consistent = All-at (Consistent doc) db'.releases sound.consistent there in
      let (i', answered, inputs) = inputs_of-answers db' row sound there in
      let (r', read, own, own_inputs) = checked_release-answers row consistent in
      let same : doc.digest r' ≡ doc.digest r = sym own ∙ digest in
      (
        (r', rw found read, same),
        (i', rw found answered, inputs ∙ own_inputs ∙ doc.names_inputs r' r same ∙ named_inputs),
      )
