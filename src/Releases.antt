-- ===== src/Releases.antt =====
-- ReleaseStore of releases/adapters/persistence.py over releases/adapters/tables.py, and the recording
-- of a compiled release by releases/service/releases.py. Digests are texts of hexadecimal digits; the
-- documents with their digests, and what they are encoded to, are parameters, as is the renderer.
pub mod Sound
pub mod Kept
pub mod Reading
pub mod Calls
pub mod Stays
pub mod Preparation
mod Examples
use blitze_cdn_cp.Prelude.{
  ℕ, String, List, [], ◌∷◌, ◌++◌, map, take, length, Bool, true, false, not, ◌&&◌, ◌||◌, Option,
  none, some, ◌==◌, nat_eq, list_eq, string_eq, lookup, subst, leb, ◌≡◌, if◌then◌else◌,
}
use blitze_cdn_cp.Sql.{select_where, delete_where, first_where, matches, order_by, rows_affected}

abbrev pub Digest : Type 0
Digest = List ℕ

-- A member of a JSON object: a number, or another value by its JSON text.
pub data Member : Type 0 where
  number : ℕ → Member
  other : String → Member

-- A JSON value: an object by its members, or another value by its JSON text.
pub data Json : Type 0 where
  object : List (String × Member) → Json
  no_object : String → Json

abbrev pub inputs_schema_version : ℕ
inputs_schema_version = 4

-- What is used of pydantic, JSON and SHA-256: the JSON of releases and inputs (`model_dump`) and their
-- validation, the text of a JSON value and its reading, the digests. A model is validated from its own
-- JSON, the text of the JSON of inputs is read back, and it holds the version that is the field's default;
-- a SHA-256 has 64 digits. What is known of a release: its digest, that of the inputs that it names, and
-- whether it has artifacts; releases with one digest, which covers that of the inputs, name the same ones.
-- Last, what rendered trees are stored as.
pub record Documents (R I B : Type 0) : Type 0 where
  pub digest : R → Digest
  pub inputs_digest : R → Digest
  pub has_artifacts : R → Bool
  pub dump : R → Json
  pub validate : Json → Option R
  pub dump_inputs : I → Json
  pub validate_inputs : Json → Option I
  pub dumps : Json → String
  pub loads : String → Option Json
  pub sha256 : String → Digest
  pub bundle_digest : B → Digest
  pub encode_bundle : B → String
  pub decode_bundle : String → Option B
  pub validate-dump : (r : R) → validate (dump r) ≡ some r
  pub validate_inputs-dump_inputs : (i : I) → validate_inputs (dump_inputs i) ≡ some i
  pub loads-dumps : (i : I) → loads (dumps (dump_inputs i)) ≡ some (dump_inputs i)
  pub versioned :
      (i : I)
      → (members : List (String × Member)) × (dump_inputs i ≡ object members)
        × (lookup "schema_version" members ≡ some (number inputs_schema_version))
  pub hexadecimal : (r : R) → length (digest r) ≡ 64
  pub names_inputs : (r r' : R) → digest r ≡ digest r' → inputs_digest r ≡ inputs_digest r'

pub record InputsRow : Type 0 where
  pub digest : Digest
  pub document : String
  pub created_at : ℕ

pub record ReleaseRow : Type 0 where
  pub digest : Digest
  pub id : Digest
  pub inputs_digest : Digest
  pub created_at : ℕ
  pub document : Json

pub record ConfigurationRow : Type 0 where
  pub release_digest : Digest
  pub digest : Digest
  pub created_at : ℕ
  pub document : String

pub record Tables : Type 0 where
  pub inputs : List InputsRow
  pub releases : List ReleaseRow
  pub configurations : List ConfigurationRow

-- NotFoundError, ConfigurationError, the ValueError of a text that is no such document, and the
-- IntegrityError of a constraint of the tables; last, whatever the renderer raises.
pub data StoreError : Type 0 where
  not_found failed_verification undecodable constraint unrendered : StoreError

pub data Answer (A : Type 0) : Type 0 where
  answers : A → Answer A
  fails : StoreError → Answer A

unfoldable pub or_fail : {A B : Type 0} → StoreError → (A → Answer B) → Option A → Answer B
or_fail e go none = fails e
or_fail e go (some a) = go a

-- Release.id
unfoldable pub short_id : Digest → Digest
short_id digest = take 16 digest

unfoldable pub has_digest : Digest → InputsRow → Bool
has_digest digest row = row.digest == digest

unfoldable pub of_release : Digest → ConfigurationRow → Bool
of_release digest row = row.release_digest == digest

is_current : Option Member → Bool
is_current none = false
is_current (some (number n)) = n == inputs_schema_version
is_current (some (other text)) = false

module _ {R I B : Type 0} (doc : Documents R I B) where
  -- ReleaseInputs.encode
  unfoldable pub encode_inputs : I → String
  encode_inputs i = doc.dumps (doc.dump_inputs i)

  -- ReleaseInputs.digest
  unfoldable pub digest_of_inputs : I → Digest
  unfolding encode_inputs
  digest_of_inputs i = doc.sha256 (encode_inputs i)

  decode_json : Option Json → Option I
  unfolding is_current
  decode_json none = none
  decode_json (some (no_object text)) = none
  decode_json (some (object members)) =
      if is_current (lookup "schema_version" members)
      then doc.validate_inputs (object members)
      else none

  -- ReleaseInputs.decode; `none` is a ValueError.
  unfoldable pub decode_inputs : String → Option I
  unfolding decode_json
  decode_inputs document = decode_json (doc.loads document)

  pub decode_inputs-encode_inputs : (i : I) → decode_inputs (encode_inputs i) ≡ some i
  unfolding decode_inputs encode_inputs decode_json is_current
  decode_inputs-encode_inputs i =
      let (members, shape, version) = doc.versioned i in
      rw (doc.loads-dumps i, shape, version)
        (subst (λ j. doc.validate_inputs j ≡ some i) shape (doc.validate_inputs-dump_inputs i))

  unfoldable pub named : Digest → ReleaseRow → Bool
  named name row = row.id == name || row.digest == name

  unfoldable pub same_release : Digest → ReleaseRow → Bool
  same_release digest row = row.digest == digest

  unfoldable pub insert_inputs : I → ℕ → List InputsRow → List InputsRow
  unfolding has_digest
  insert_inputs i now rows =
      if matches (has_digest (digest_of_inputs i)) rows
      then rows
      else rows
        ++ record { digest = digest_of_inputs i; document = encode_inputs i; created_at = now } ∷ []

  unfoldable pub release_row : R → ℕ → ReleaseRow
  unfolding short_id
  release_row r now = record {
    digest = doc.digest r;
    id = short_id (doc.digest r);
    inputs_digest = doc.inputs_digest r;
    created_at = now;
    document = doc.dump r;
  }

  -- The index on the short digests is unique, and only a conflict of the digests does nothing.
  unfoldable pub insert_release : R → ℕ → List ReleaseRow → Answer (List ReleaseRow)
  unfolding same_release release_row short_id
  insert_release r now rows =
      if matches (same_release (doc.digest r)) rows
      then answers rows
      else (if matches (λ row. row.id == short_id (doc.digest r)) rows
          then fails constraint
          else answers (rows ++ release_row r now ∷ []))

  unfoldable pub with_releases : I → ℕ → Tables → Answer (List ReleaseRow) → Answer Tables
  unfolding insert_inputs
  with_releases i now db (fails e) = fails e
  with_releases i now db (answers rows) =
      answers (record db { inputs = insert_inputs i now db.inputs; releases = rows })

  -- A failure leaves the tables as they were, here and below.
  unfoldable pub save : R → I → ℕ → Tables → Answer Tables
  unfolding with_releases insert_release
  save r i now db =
      if doc.inputs_digest r == digest_of_inputs i
      then with_releases i now db (insert_release r now db.releases)
      else fails failed_verification

  unfoldable pub save_configuration : R → B → ℕ → Tables → Answer Tables
  unfolding of_release same_release
  save_configuration r b now db =
      if matches (of_release (doc.digest r)) db.configurations
      then answers db
      else (if matches (same_release (doc.digest r)) db.releases
          then answers (record db {
            configurations =
                db.configurations
                ++ record {
                  release_digest = doc.digest r;
                  digest = doc.bundle_digest b;
                  created_at = now;
                  document = doc.encode_bundle b;
                }
                  ∷ [];
          })
          else fails constraint)

  same_document : ReleaseRow → R → Answer R
  unfolding short_id
  same_document row r =
      if doc.digest r == row.digest
        && (short_id (doc.digest r) == row.id && doc.inputs_digest r == row.inputs_digest)
      then answers r
      else fails failed_verification

  unfoldable pub checked_release : ReleaseRow → Answer R
  unfolding or_fail same_document
  checked_release row = or_fail undecodable (same_document row) (doc.validate row.document)

  unfoldable pub get : Digest → Tables → Answer R
  unfolding or_fail named checked_release
  get name db = or_fail not_found checked_release (first_where (named name) db.releases)

  checked_inputs : ReleaseRow → I → Answer I
  checked_inputs row i =
      if digest_of_inputs i == row.inputs_digest then answers i else fails failed_verification

  unfoldable pub inputs_of : Tables → ReleaseRow → Answer I
  unfolding or_fail has_digest checked_inputs
  inputs_of db row =
      or_fail not_found
        (λ stored. or_fail undecodable (checked_inputs row) (decode_inputs stored.document))
        (first_where (has_digest row.inputs_digest) db.inputs)

  unfoldable pub inputs_for : Digest → Tables → Answer I
  unfolding or_fail named inputs_of
  inputs_for name db = or_fail not_found (inputs_of db) (first_where (named name) db.releases)

  checked_bundle : ConfigurationRow → B → Answer B
  checked_bundle stored b =
      if doc.bundle_digest b == stored.digest then answers b else fails failed_verification

  unfoldable pub configuration_of : Tables → ReleaseRow → Answer B
  unfolding or_fail of_release checked_bundle
  configuration_of db row =
      or_fail not_found
        (λ stored.
          or_fail failed_verification (checked_bundle stored) (doc.decode_bundle stored.document))
        (first_where (of_release row.digest) db.configurations)

  unfoldable pub configuration : Digest → Tables → Answer B
  unfolding or_fail named configuration_of
  configuration name db =
      or_fail not_found (configuration_of db) (first_where (named name) db.releases)

  unfoldable pub newest_first : ReleaseRow → ReleaseRow → Bool
  newest_first a b = leb b.created_at a.created_at

  unfoldable pub is_dropped : ℕ → List Digest → List ReleaseRow → ReleaseRow → Bool
  unfolding newest_first
  is_dropped keep in_use rows row =
      not (matches (λ kept. kept.digest == row.digest) (take keep (order_by newest_first rows)))
      && not (matches (λ id. id == row.id) in_use)

  -- The configurations go with their releases, by ON DELETE CASCADE.
  unfoldable pub prune : ℕ → List Digest → Tables → ℕ × Tables
  unfolding is_dropped same_release
  prune keep in_use db =
      let rows = delete_where (is_dropped keep in_use db.releases) db.releases in
      (
        rows_affected (is_dropped keep in_use db.releases) db.releases,
        record db {
          releases = rows;
          configurations =
              select_where (λ c. matches (same_release c.release_digest) rows) db.configurations;
        },
      )
