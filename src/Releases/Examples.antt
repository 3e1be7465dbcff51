-- ===== src/Releases/Examples.antt =====
-- A store of small releases, and the theorems of releases/ applied to it.
use blitze_cdn_cp.Prelude.{
  ℕ, String, List, [], ◌∷◌, take, Bool, true, false, not, Option, some, none, ◌==◌, nat_eq, list_eq,
  string_eq, lookup, ◌≡◌, refl, ap, All, Memᴰ, if◌then◌else◌,
}
use blitze_cdn_cp.Sql.{matches, first_where, select_where, delete_where, order_by}
use blitze_cdn_cp.Releases.{
  Json, object, number, other, inputs_schema_version, digest_of_inputs, encode_inputs,
  decode_inputs, Digest, Documents, Tables, answers, fails, constraint, save, get, inputs_for,
  configuration, prune, save_configuration, short_id, named, release_row,
}
use blitze_cdn_cp.Releases.Calls.{Call, saves, records, prunes, run, Spares}
use blitze_cdn_cp.Releases.Stays.{in_use_stays}
use blitze_cdn_cp.Releases.Preparation.{prepare}
use blitze_cdn_cp.Releases.Reading.{saved_is_read}

-- A digest with a number in its first digit.
abbrev digits : ℕ → Digest
digits n =
    n ∷ 0 ∷ 0 ∷ 0 ∷ 0 ∷ 0 ∷ 0 ∷ 0 ∷ 0 ∷ 0 ∷ 0 ∷ 0 ∷ 0 ∷ 0 ∷ 0 ∷ 0 ∷ 0 ∷ 0 ∷ 0 ∷ 0 ∷ 0 ∷ 0 ∷ 0 ∷ 0
    ∷ 0 ∷ 0 ∷ 0 ∷ 0 ∷ 0 ∷ 0 ∷ 0 ∷ 0 ∷ 0 ∷ 0 ∷ 0 ∷ 0 ∷ 0 ∷ 0 ∷ 0 ∷ 0 ∷ 0 ∷ 0 ∷ 0 ∷ 0 ∷ 0 ∷ 0 ∷ 0 ∷ 0
    ∷ 0 ∷ 0 ∷ 0 ∷ 0 ∷ 0 ∷ 0 ∷ 0 ∷ 0 ∷ 0 ∷ 0 ∷ 0 ∷ 0 ∷ 0 ∷ 0 ∷ 0 ∷ 0 ∷ []

same_number : (m n : ℕ) → digits m ≡ digits n → m ≡ n
same_number m n e = cc

abbrev flag : Bool → ℕ
flag true = 1
flag false = 0

abbrev written : Bool → String
written true = "full"
written false = "empty"

abbrev read : String → Option Bool
read s = if s == "full" then some true else (if s == "empty" then some false else none)

read-written : (b : Bool) → read (written b) ≡ some b
read-written true = refl
read-written false = refl

abbrev dumped : ℕ → Json
dumped r = object (("number", number r) ∷ [])

abbrev validated : Json → Option ℕ
validated (object ((k, number r) ∷ [])) = some r
validated _ = none

abbrev dumped_inputs : Bool → Json
dumped_inputs i =
    object (("schema_version", number inputs_schema_version) ∷ ("size", other (written i)) ∷ [])

abbrev validated_inputs : Json → Option Bool
validated_inputs (object (version ∷ (k, other text) ∷ [])) = read text
validated_inputs _ = none

abbrev json_text : Json → String
json_text (object (version ∷ (k, other text) ∷ [])) = text
json_text _ = "other"

abbrev loaded : Option Bool → Option Json
loaded none = none
loaded (some i) = some (dumped_inputs i)

loaded-json_text : (i : Bool) → loaded (read (json_text (dumped_inputs i))) ≡ some (dumped_inputs i)
loaded-json_text true = refl
loaded-json_text false = refl

-- A release is a number, and is compiled from full inputs but for the first; inputs are full or empty.
abbrev documents : Documents ℕ Bool Bool
documents = record {
  digest = digits;
  inputs_digest = λ r. digits (flag (not (r == 0)));
  has_artifacts = λ r. true;
  dump = dumped;
  validate = validated;
  dump_inputs = dumped_inputs;
  validate_inputs = validated_inputs;
  dumps = json_text;
  loads = λ s. loaded (read s);
  sha256 = λ s. digits (flag (s == "full"));
  bundle_digest = λ b. digits (flag b);
  encode_bundle = written;
  decode_bundle = read;
  validate-dump = λ r. refl;
  validate_inputs-dump_inputs = read-written;
  loads-dumps = loaded-json_text;
  versioned = λ i. (_, refl, unfold lookup in refl);
  hexadecimal = λ r. refl;
  names_inputs = λ r r' e. ap (λ n. digits (flag (not (n == 0)))) (same_number r r' e);
}

abbrev first_id : Digest
first_id = take 16 (digits 0)

-- The first release is saved and rendered, then another, and the first is in use at the pruning.
abbrev history : List (Call ℕ Bool Bool)
history = saves 0 false 1 ∷ records 0 true 2 ∷ saves 1 true 3 ∷ prunes 1 (first_id ∷ []) ∷ []

abbrev no_tables : Tables
no_tables = record { inputs = []; releases = []; configurations = [] }

both_rendered : configuration documents first_id (run documents history no_tables) ≡ answers true
unfolding digest_of_inputs encode_inputs decode_inputs configuration run matches order_by
    delete_where select_where first_where prune save save_configuration
both_rendered = refl

abbrev again : Tables
again = record {
  inputs =
      (record { digest = digits 0; document = "empty"; created_at = 1 })
      ∷ (record { digest = digits 1; document = "full"; created_at = 3 })
      ∷ [];
  releases = release_row documents 0 1 ∷ release_row documents 1 3 ∷ release_row documents 2 4 ∷ [];
  configurations =
      (record { release_digest = digits 0; digest = digits 1; created_at = 2; document = "full" })
      ∷ [];
}

saved_again : save documents 2 true 4 (run documents history no_tables) ≡ answers again
unfolding digest_of_inputs encode_inputs save run matches order_by delete_where select_where
    release_row prune save_configuration
saved_again = refl

saved_is_read_example :
    let name = short_id (digits 2) in
    ((r' : ℕ) × (get documents name again ≡ answers r') × (digits r' ≡ digits 2))
    × ((i' : Bool) × (inputs_for documents name again ≡ answers i')
        × (digest_of_inputs documents i' ≡ digest_of_inputs documents true))
saved_is_read_example = saved_is_read documents history 2 true 4 again saved_again

abbrev more_calls : List (Call ℕ Bool Bool)
more_calls = records 0 false 5 ∷ prunes 1 (first_id ∷ []) ∷ []

first_found :
    first_where (named documents first_id) again.releases ≡ some (release_row documents 0 1)
unfolding first_where named release_row
first_found = refl

spared : All (Spares documents (release_row documents 0 1).id) more_calls
unfolding Spares release_row
spared = (tt, (Memᴰ.head refl, tt))

-- It is not rendered again, and not pruned.
in_use_stays_example :
    (get documents first_id (run documents more_calls again) ≡ get documents first_id again)
    × ((i : Bool)
        → inputs_for documents first_id again ≡ answers i
        → inputs_for documents first_id (run documents more_calls again) ≡ answers i)
    × ((b : Bool)
        → configuration documents first_id again ≡ answers b
        → configuration documents first_id (run documents more_calls again) ≡ answers b)
in_use_stays_example =
    in_use_stays documents first_id (release_row documents 0 1) more_calls again first_found spared

-- The state is the first one again, and nothing uses its release any more: the release is on record, and
-- not written again, so that the pruning drops it, and its configuration cannot be recorded.
prepared_is_dropped : (prepare documents (λ r. some true) 0 false 1 [] 5 again).0 ≡ fails constraint
unfolding digest_of_inputs encode_inputs prepare matches order_by delete_where select_where
    first_where release_row
prepared_is_dropped = refl
