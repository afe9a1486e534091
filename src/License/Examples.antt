-- ===== src/License/Examples.antt =====
-- Two keys, one of them without an id.
use pgvector_ragindexer.Base.{
  ℕ, String, ◌≡◌, ◌≢◌, refl, false, not, ◌&&◌, none, some, List, [], ◌∷◌, ◌==◌, string_eq, nat_eq,
  strip, if◌then◌else◌, Option,
}
use pgvector_ragindexer.License.{
  raw_keys, Edition, team, organization, LicenseInfo, Payload, Decoded, payload, invalid_token,
  Checked, valid, invalid, edition_rank, is_expired, rs256, validate_license_key, load_all_licenses,
}
use pgvector_ragindexer.License.Stacked.{
  sum_seats, highest_rank, key_ids, usable_keys, load_all_licenses-sums,
}

abbrev info : Edition → ℕ → String → LicenseInfo
info e n id = record {
  edition = e;
  org_name = "Acme";
  seats = n;
  expiry_timestamp = 100;
  issued_at = 1;
  key_id = id;
}

abbrev check_key : String → Checked
check_key key =
    if key == "A"
    then valid (info team 5 "a")
    else if key == "B"
    then valid (info organization 7 "")
    else invalid

abbrev in_database : Option (List String)
in_database = some ("A" ∷ "C" ∷ [])

has_id :
    ◌≢◌ {A = List String}
      (key_ids (usable_keys check_key none 50 (raw_keys in_database (some "B"))))
      []
unfolding key_ids usable_keys is_expired raw_keys string_eq
has_id e = cc

load_all_licenses-sums_example :
    let license = load_all_licenses check_key none 50 in_database (some "B") in
    (license.seats ≡ sum_seats (usable_keys check_key none 50 (raw_keys in_database (some "B"))))
    × ((edition_rank license.edition
          ≡ highest_rank (usable_keys check_key none 50 (raw_keys in_database (some "B"))))
        × (license.active_key_ids
            ≡ key_ids (usable_keys check_key none 50 (raw_keys in_database (some "B")))))
load_all_licenses-sums_example =
    load_all_licenses-sums check_key none 50 in_database (some "B") has_id

no_id : key_ids (usable_keys check_key none 50 (raw_keys none (some "B"))) ≡ []
unfolding key_ids usable_keys is_expired raw_keys string_eq
no_id = refl

abbrev claims : Payload
claims = record {
  edition = "team";
  org = "Acme";
  seats = some 5;
  exp = 100;
  iat = none;
  kid = none;
  jti = some "a";
}

-- One decoder accepts every algorithm, the other one only RS256.
abbrev accepts_all : String → String → List String → Decoded
accepts_all key secret algorithms = payload claims

abbrev accepts_rs256 : String → String → List String → Decoded
accepts_rs256 key secret [] = invalid_token
accepts_rs256 key secret (a ∷ as') = if a == "RS256" then payload claims else invalid_token

no_secret : (◌==◌ {A = String} "" "" && not (◌==◌ {A = String} "" "")) ≡ false
unfolding string_eq
no_secret = refl

they_agree : (k s : String) → accepts_all k s rs256 ≡ accepts_rs256 k s rs256
unfolding string_eq
they_agree k s = refl

is_valid :
    validate_license_key "PEM" accepts_all "key" "" (some rs256)
    ≡ valid (record {
      edition = team;
      org_name = "Acme";
      seats = 5;
      expiry_timestamp = 100;
      issued_at = 0;
      key_id = "a";
    })
unfolding validate_license_key strip string_eq
is_valid = refl
