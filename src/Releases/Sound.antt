-- ===== src/Releases/Sound.antt =====
-- What ReleaseStore (releases/adapters/persistence.py) keeps true of its tables, and what is read back.
use blitze_cdn_cp.Prelude.{
  ℕ, List, [], ◌∷◌, ◌++◌, Bool, true, false, some, ◌==◌, nat_eq, list_eq, Memᴰ, All, All-at,
  All-snoc, Pairwise, ◌≡◌, ◌≢◌, refl, sym, ap, ◌∙◌, ◌⊎◌, inl, inr, Bool-cases, mem-append_right,
}
use blitze_cdn_cp.Sql.{matches}
use blitze_cdn_cp.Sql.Laws.{matches-mem}
use blitze_cdn_cp.Releases.{
  digest_of_inputs, encode_inputs, decode_inputs, decode_inputs-encode_inputs, Digest, Documents,
  InputsRow, ReleaseRow, Tables, answers, short_id, has_digest, same_release, insert_inputs,
  release_row, insert_release,
}
use blitze_cdn_cp.Releases.Calls.{of_answers}

module _ {R I B : Type 0} (doc : Documents R I B) where
  -- A row says of its document what the document says.
  unfoldable pub Consistent : ReleaseRow → Type 0
  Consistent row =
      (r : R) × (doc.validate row.document ≡ some r)
      × (row.digest ≡ doc.digest r)
      × (row.id ≡ short_id row.digest)
      × (row.inputs_digest ≡ doc.inputs_digest r)

  unfoldable pub Referenced : List InputsRow → ReleaseRow → Type 0
  Referenced inputs row = matches (has_digest row.inputs_digest) inputs ≡ true

  unfoldable pub Intact : InputsRow → Type 0
  Intact stored =
      (i : I) × (decode_inputs doc stored.document ≡ some i)
      × (digest_of_inputs doc i ≡ stored.digest)

  unfoldable pub Unique : List ReleaseRow → Type 0
  Unique = Pairwise (λ a b. a.id ≢ b.id)

  pub record Sound (db : Tables) : Type 0 where
    pub consistent : All Consistent db.releases
    pub unique : Unique db.releases
    pub referenced : All (Referenced db.inputs) db.releases
    pub intact : All Intact db.inputs

  pub same_id :
      {a b : ReleaseRow} (rows : List ReleaseRow)
      → Unique rows
      → Memᴰ a rows
      → Memᴰ b rows
      → a.id ≡ b.id
      → a ≡ b
  unfolding Unique
  same_id [] h m k e = elim m [ ]
  same_id (z ∷ rows) h (Memᴰ.head p) (Memᴰ.head q) e = p ∙ sym q
  same_id (z ∷ rows) h (Memᴰ.head p) (Memᴰ.tail k) e =
      absurd (All-at _ rows h.0 k (ap (λ r. r.id) (sym p) ∙ e))
  same_id (z ∷ rows) h (Memᴰ.tail m) (Memᴰ.head q) e =
      absurd (All-at _ rows h.0 m (ap (λ r. r.id) (sym q) ∙ sym e))
  same_id (z ∷ rows) h (Memᴰ.tail m) (Memᴰ.tail k) e = same_id rows h.1 m k e

  matches-snoc_more :
      {A : Type 0} (p : A → Bool) (xs ys : List A)
      → matches p xs ≡ true
      → matches p (xs ++ ys) ≡ true
  unfolding matches
  matches-snoc_more p [] ys h = absurd (cc h)
  matches-snoc_more p (x ∷ xs) ys h = elim (Bool-cases (p x)) [
    | inl e ↦ rw e refl
    | inr e ↦ rw e (matches-snoc_more p xs ys (rw e at h))
  ]

  -- The inputs are on record behind the insert, intact, and the others are still there.
  pub insert_inputs-records :
      (i : I) (now : ℕ) (rows : List InputsRow)
      → All Intact rows
      → All Intact (insert_inputs doc i now rows)
        × (matches (has_digest (digest_of_inputs doc i)) (insert_inputs doc i now rows) ≡ true)
        × ((digest : Digest)
            → matches (has_digest digest) rows ≡ true
            → matches (has_digest digest) (insert_inputs doc i now rows) ≡ true)
  unfolding insert_inputs Intact has_digest
  insert_inputs-records i now rows h =
      elim (Bool-cases (matches (has_digest (digest_of_inputs doc i)) rows)) [
        | inl e ↦ rw e (h, e, λ digest there. there)
        | inr e ↦
            let added : InputsRow = record {
              digest = digest_of_inputs doc i;
              document = encode_inputs doc i;
              created_at = now;
            } in
            rw e (
              All-snoc Intact rows added h (i, decode_inputs-encode_inputs doc i, refl),
              matches-mem (has_digest (digest_of_inputs doc i)) (rows ++ added ∷ [])
                  (mem-append_right rows (added ∷ []) (Memᴰ.head refl))
                  (list_eq.reflexive (digest_of_inputs doc i)),
              λ digest there. matches-snoc_more (has_digest digest) rows (added ∷ []) there,
            )
      ]

  -- The rows behind an insert: those before, and the release if none has its digest.
  pub insert_release-rows :
      (r : R) (now : ℕ) (rows rows' : List ReleaseRow)
      → insert_release doc r now rows ≡ answers rows'
      → ((matches (same_release doc (doc.digest r)) rows ≡ true) × (rows ≡ rows'))
        ⊎ ((matches (λ row. row.id == short_id (doc.digest r)) rows ≡ false)
            × (rows ++ release_row doc r now ∷ [] ≡ rows'))
  unfolding insert_release
  insert_release-rows r now rows rows' h =
      elim (Bool-cases (matches (same_release doc (doc.digest r)) rows)) [
        | inl e ↦ inl (e, of_answers (rw e at h))
        | inr e ↦ elim (Bool-cases (matches (λ row. row.id == short_id (doc.digest r)) rows)) [
          | inl e' ↦ absurd (cc (rw (e, e') at h))
          | inr e' ↦ inr (e', of_answers (rw (e, e') at h))
        ]
      ]
