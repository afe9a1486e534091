-- ===== src/License.antt =====
-- license.py and license_utils.py: which keys are accepted, and what several keys give together.
-- PyJWT's `decode`, the environment, the stored keys and the revocation service are parameters.
-- Times are seconds.
pub mod Stacked
pub mod Verification
mod Examples
use pgvector_ragindexer.Base.{
  ℕ, ◌+◌, String, Bool, true, false, not, ◌&&◌, ◌||◌, Option, none, some, List, [], ◌∷◌, ◌++◌, ◌==◌,
  contains, string_eq, nat_eq, ltb, strip, if◌then◌else◌,
}

pub data Edition : Type 0 where
  community team organization : Edition

pub record LicenseInfo : Type 0 where
  pub edition : Edition
  pub org_name : String
  pub seats : ℕ
  pub expiry_timestamp : ℕ
  pub issued_at : ℕ
  pub key_id : String

abbrev pub is_team : Edition → Bool
is_team community = false
is_team team = true
is_team organization = true

-- A timestamp 0 never expires.
unfoldable pub is_expired : ℕ → ℕ → Bool
is_expired expiry now = ltb 0 expiry && ltb expiry now

-- The claims that are read, `edition` in lower case; the others are `none` when they are missing. A
-- claim of seats or a time that is no natural number is left out.
pub record Payload : Type 0 where
  pub edition : String
  pub org : String
  pub seats : Option ℕ
  pub exp : ℕ
  pub iat : Option ℕ
  pub kid : Option String
  pub jti : Option String

-- What `jwt.decode` gives: the claims, ExpiredSignatureError, or another InvalidTokenError.
pub data Decoded : Type 0 where
  payload : Payload → Decoded
  expired_signature : Decoded
  invalid_token : Decoded

-- LicenseExpiredError and LicenseInvalidError
pub data Checked : Type 0 where
  valid : LicenseInfo → Checked
  expired : Checked
  invalid : Checked

abbrev pub edition_of : String → Option Edition
edition_of s =
    if s == "community"
    then some community
    else if s == "team"
    then some team
    else if s == "organization"
    then some organization
    else none

abbrev pub or_else {ℓ} : {A : Type ℓ} → A → Option A → A
or_else d none = d
or_else d (some a) = a

abbrev pub info_of : Edition → Payload → LicenseInfo
info_of e p = record {
  edition = e;
  org_name = p.org;
  seats = or_else 1 p.seats;
  expiry_timestamp = p.exp;
  issued_at = or_else 0 p.iat;
  key_id = or_else (or_else "" p.jti) p.kid;
}

abbrev pub checked_claims : Option Edition → Payload → Checked
checked_claims none p = invalid
checked_claims (some e) p = if p.org == "" && is_team e then invalid else valid (info_of e p)

abbrev pub checked_payload : Decoded → Checked
checked_payload (payload p) = checked_claims (edition_of p.edition) p
checked_payload expired_signature = expired
checked_payload invalid_token = invalid

abbrev pub rs256 : List String
rs256 = "RS256" ∷ []

abbrev pub hs256_rs256 : List String
hs256_rs256 = "HS256" ∷ "RS256" ∷ []

abbrev pub algorithms_for : String → Option (List String) → List String
algorithms_for secret none = if secret == "" then rs256 else hs256_rs256
algorithms_for secret (some a) = a

-- PUBLIC_KEY_DEFAULT, and `jwt_decode key secret algorithms`
module _ (public_key_default : String) (jwt_decode : String → String → List String → Decoded) where
  unfoldable pub validate_license_key : String → String → Option (List String) → Checked
  validate_license_key key secret allowed =
      let decoded =
        jwt_decode (strip key) (if secret == "" then public_key_default else secret)
          (algorithms_for secret allowed) in
      if strip key == "" then invalid else checked_payload decoded

-- The override of a caller, or the variables LICENSE_PUBLIC_KEY and LICENSE_SIGNING_SECRET.
unfoldable pub resolve_verification_context :
    Option String → String → String → String × Option (List String)
resolve_verification_context (some secret) public_key hmac_secret = (secret, none)
resolve_verification_context none public_key hmac_secret =
    if public_key == ""
    then (if hmac_secret == "" then ("", some rs256) else (hmac_secret, some hs256_rs256))
    else (public_key, some rs256)

-- The keys of the database (`none` where reading them raises), and the one of the file with its
-- white space removed, unless it is among them.
abbrev pub database_keys : Option (List String) → List String
database_keys none = []
database_keys (some keys) = keys

unfoldable pub raw_keys : Option (List String) → Option String → List String
raw_keys db none = database_keys db
raw_keys db (some fs_key) =
    if fs_key == "" || contains (database_keys db) fs_key
    then database_keys db
    else database_keys db ++ (fs_key ∷ [])

pub record Totals : Type 0 where
  pub total_seats : ℕ
  pub highest_edition : Edition
  pub first_org : String
  pub first_kid : String
  pub earliest_expiry : ℕ
  pub active_kids : List String

abbrev pub no_totals : Totals
no_totals = record {
  total_seats = 0;
  highest_edition = community;
  first_org = "";
  first_kid = "";
  earliest_expiry = 0;
  active_kids = [];
}

abbrev pub edition_rank : Edition → ℕ
edition_rank community = 0
edition_rank team = 1
edition_rank organization = 2

abbrev pub earlier : ℕ → ℕ → ℕ
earlier expiry earliest =
    if expiry == 0
    then earliest
    else if earliest == 0 || ltb expiry earliest
    then expiry
    else earliest

-- One turn of the loop, for a key that is neither expired nor revoked.
unfoldable pub add_key : LicenseInfo → Totals → Totals
add_key i t = record {
  total_seats = t.total_seats + i.seats;
  highest_edition =
      if ltb (edition_rank t.highest_edition) (edition_rank i.edition)
      then i.edition
      else t.highest_edition;
  first_org = if t.first_org == "" then i.org_name else t.first_org;
  first_kid = if t.first_org == "" then i.key_id else t.first_kid;
  earliest_expiry = earlier i.expiry_timestamp t.earliest_expiry;
  active_kids = if i.key_id == "" then t.active_kids else t.active_kids ++ (i.key_id ∷ []);
}

-- LICENSE_REVOCATION_URL is `none` when it is empty; a check that fails is `false`.
abbrev pub is_revoked : Option (String → Bool) → LicenseInfo → Bool
is_revoked none i = false
is_revoked (some revoked) i = is_team i.edition && not (i.key_id == "") && revoked i.key_id

abbrev pub usable : Option (String → Bool) → ℕ → Checked → Option LicenseInfo
usable service now expired = none
usable service now invalid = none
usable service now (valid i) =
    if is_expired i.expiry_timestamp now || is_revoked service i then none else some i

abbrev pub add_usable : Option LicenseInfo → Totals → Totals
add_usable none t = t
add_usable (some i) t = add_key i t

pub record AggregatedLicense : Type 0 where
  pub edition : Edition
  pub org_name : String
  pub seats : ℕ
  pub active_key_ids : List String
  pub expiry_timestamp : ℕ
  pub key_id : String

abbrev pub community_license : AggregatedLicense
community_license = record {
  edition = community;
  org_name = "";
  seats = 0;
  active_key_ids = [];
  expiry_timestamp = 0;
  key_id = "";
}

abbrev pub license_of : Totals → AggregatedLicense
license_of t = record {
  edition = t.highest_edition;
  org_name = t.first_org;
  seats = t.total_seats;
  active_key_ids = t.active_kids;
  expiry_timestamp = t.earliest_expiry;
  key_id = t.first_kid;
}

-- `if not active_kids`
abbrev pub conclude : List String → Totals → AggregatedLicense
conclude [] t = community_license
conclude (k ∷ ks) t = license_of t

module _ (validate : String → Checked) (service : Option (String → Bool)) (now : ℕ) where
  unfoldable pub add_keys : List String → Totals → Totals
  unfolding is_expired
  add_keys [] t = t
  add_keys (k ∷ ks) t = add_keys ks (add_usable (usable service now (validate k)) t)

  unfoldable pub aggregate : List String → AggregatedLicense
  unfolding add_keys
  aggregate keys = let t = add_keys keys no_totals in conclude t.active_kids t

  -- `validate` is validate_license_key in the resolved context; `db` and `fs` are the stored keys.
  unfoldable pub load_all_licenses : Option (List String) → Option String → AggregatedLicense
  unfolding raw_keys aggregate
  load_all_licenses db fs = aggregate (raw_keys db fs)
