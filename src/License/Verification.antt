-- ===== src/License/Verification.antt =====
-- Which algorithms a key is verified with, and what a valid key says.
use pgvector_ragindexer.Base.{
  subst, String, ◌≡◌, inl, inr, refl, true, false, not, ◌&&◌, Option, none, some, List, ◌==◌,
  string_eq, strip, if◌then◌else◌, arith, Bool-cases,
}
use pgvector_ragindexer.License.{
  Edition, is_team, LicenseInfo, Payload, Decoded, payload, expired_signature, invalid_token, valid,
  edition_of, checked_claims, info_of, algorithms_for, checked_payload, rs256, validate_license_key,
  resolve_verification_context,
}

-- Without LICENSE_SIGNING_SECRET, or with LICENSE_PUBLIC_KEY beside it, a key is only ever verified with
-- RS256: two decoders that agree on RS256 give the same outcome, whatever they do with HS256.
pub validate_license_key-rs256 :
    (pem key public_key hmac_secret : String) (d d' : String → String → List String → Decoded)
    → (public_key == "" && not (hmac_secret == "")) ≡ false
    → ((k s : String) → d k s rs256 ≡ d' k s rs256)
    → let context = resolve_verification_context none public_key hmac_secret in
      validate_license_key pem d key context.0 context.1
      ≡ validate_license_key pem d' key context.0 context.1
unfolding resolve_verification_context validate_license_key
validate_license_key-rs256 pem key public_key hmac_secret d d' h agree =
    elim (Bool-cases (public_key == "")) [
      | inl y ↦ elim (Bool-cases (hmac_secret == "")) [
        | inl z ↦ rw (y, z, agree) refl
        | inr z ↦ ground arith
      ]
      | inr n ↦ rw (n, agree) refl
    ]

claims-org :
    (e : Option Edition) (p : Payload) {i : LicenseInfo}
    → checked_claims e p ≡ valid i
    → is_team i.edition ≡ true
    → (i.org_name == "") ≡ false
claims-org none p h t = cc
claims-org (some e) p {i} h t = elim (Bool-cases (p.org == "" && is_team e)) [
  | inl y ↦ ground arith
  | inr n ↦
      let same : info_of e p ≡ i = ground arith in
      subst (λ j. is_team j.edition ≡ true → (j.org_name == "") ≡ false) same (λ u. ground arith) t
]

payload-org :
    (d : Decoded) {i : LicenseInfo}
    → checked_payload d ≡ valid i
    → is_team i.edition ≡ true
    → (i.org_name == "") ≡ false
payload-org (payload p) h t = claims-org (edition_of p.edition) p h t
payload-org expired_signature h t = cc
payload-org invalid_token h t = cc

-- A key that is accepted as a Team or Organization key names an organization.
pub validate_license_key-org :
    (pem key secret : String) (allowed : Option (List String))
    (d : String → String → List String → Decoded) {i : LicenseInfo}
    → validate_license_key pem d key secret allowed ≡ valid i
    → is_team i.edition ≡ true
    → (i.org_name == "") ≡ false
unfolding validate_license_key
validate_license_key-org pem key secret allowed d {i} h t =
    payload-org
      (d (strip key) (if secret == "" then pem else secret) (algorithms_for secret allowed)) {i = i}
      (ground arith) t
