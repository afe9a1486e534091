-- ===== src/License/Stacked.antt =====
-- What the license of several keys is, in terms of the keys that can be used.
use pgvector_ragindexer.Base.{
  ◌≢◌, ℕ, ◌+◌, max, String, ◌≡◌, inl, inr, refl, sym, ap, ◌∙◌, Bool, Option, none, some, List, [],
  ◌∷◌, ◌++◌, ◌==◌, string_eq, nat_eq, ltb, if◌then◌else◌, arith, Bool-cases, append_nil,
}
use pgvector_ragindexer.License.{
  raw_keys, aggregate, LicenseInfo, Checked, Totals, no_totals, edition_rank, earlier, add_key,
  usable, add_usable, community_license, license_of, conclude, add_keys, load_all_licenses,
}

-- The keys that are valid, not expired and not revoked, in their order.
abbrev pub add_info : Option LicenseInfo → List LicenseInfo → List LicenseInfo
add_info none is = is
add_info (some i) is = i ∷ is

unfoldable pub sum_seats : List LicenseInfo → ℕ
sum_seats [] = 0
sum_seats (i ∷ is) = i.seats + sum_seats is

unfoldable pub highest_rank : List LicenseInfo → ℕ
highest_rank [] = 0
highest_rank (i ∷ is) = max (edition_rank i.edition) (highest_rank is)

unfoldable pub key_ids : List LicenseInfo → List String
key_ids [] = []
key_ids (i ∷ is) = let rest = key_ids is in if i.key_id == "" then rest else i.key_id ∷ rest

-- The earliest expiry of those that have one, or 0.
unfoldable pub first_expiry : ℕ → List LicenseInfo → ℕ
first_expiry e [] = e
first_expiry e (i ∷ is) = first_expiry (earlier i.expiry_timestamp e) is

module _ (validate : String → Checked) (service : Option (String → Bool)) (now : ℕ) where
  unfoldable pub usable_keys : List String → List LicenseInfo
  usable_keys [] = []
  usable_keys (k ∷ ks) = add_info (usable service now (validate k)) (usable_keys ks)

  abbrev total : List String → Totals → Totals
  total = add_keys validate service now

  add_keys-seats :
      (ks : List String) (t : Totals)
      → (total ks t).total_seats ≡ t.total_seats + sum_seats (usable_keys ks)
  unfolding add_keys usable_keys sum_seats add_key
  add_keys-seats [] t = omega arith
  add_keys-seats (k ∷ ks) t = step (λ u. add_keys-seats ks u) (usable service now (validate k))
    where
      step :
          ((u : Totals) → (total ks u).total_seats ≡ u.total_seats + sum_seats (usable_keys ks))
          → (o : Option LicenseInfo)
          → (total ks (add_usable o t)).total_seats
            ≡ t.total_seats + sum_seats (add_info o (usable_keys ks))
      step ih none = ih t
      step ih (some i) = omega (arith, ih (add_key i t))

  add_key-rank :
      (i : LicenseInfo) (t : Totals)
      → edition_rank (add_key i t).highest_edition
        ≡ max (edition_rank t.highest_edition) (edition_rank i.edition)
  unfolding add_key
  add_key-rank i t =
      elim (Bool-cases (ltb (edition_rank t.highest_edition) (edition_rank i.edition))) [
        | inl y ↦ rw y (ground arith)
        | inr n ↦ rw n (ground arith)
      ]

  add_keys-rank :
      (ks : List String) (t : Totals)
      → edition_rank (total ks t).highest_edition
        ≡ max (edition_rank t.highest_edition) (highest_rank (usable_keys ks))
  unfolding add_keys usable_keys highest_rank
  add_keys-rank [] t = omega arith
  add_keys-rank (k ∷ ks) t = step (λ u. add_keys-rank ks u) (usable service now (validate k))
    where
      step :
          ((u : Totals)
            → edition_rank (total ks u).highest_edition
              ≡ max (edition_rank u.highest_edition) (highest_rank (usable_keys ks)))
          → (o : Option LicenseInfo)
          → edition_rank (total ks (add_usable o t)).highest_edition
            ≡ max (edition_rank t.highest_edition) (highest_rank (add_info o (usable_keys ks)))
      step ih none = ih t
      step ih (some i) = omega (arith, ih (add_key i t), add_key-rank i t)

  append_assoc : (xs ys zs : List String) → (xs ++ ys) ++ zs ≡ xs ++ (ys ++ zs)
  append_assoc [] ys zs = refl
  append_assoc (x ∷ xs) ys zs = ap (λ w. x ∷ w) (append_assoc xs ys zs)

  add_keys-kids :
      (ks : List String) (t : Totals)
      → (total ks t).active_kids ≡ t.active_kids ++ key_ids (usable_keys ks)
  unfolding add_keys usable_keys key_ids add_key
  add_keys-kids [] t = sym (append_nil t.active_kids)
  add_keys-kids (k ∷ ks) t = step (λ u. add_keys-kids ks u) (usable service now (validate k))
    where
      step :
          ((u : Totals) → (total ks u).active_kids ≡ u.active_kids ++ key_ids (usable_keys ks))
          → (o : Option LicenseInfo)
          → (total ks (add_usable o t)).active_kids
            ≡ t.active_kids ++ key_ids (add_info o (usable_keys ks))
      step ih none = ih t
      step ih (some i) = elim (Bool-cases (i.key_id == "")) [
        | inl y ↦ ih (add_key i t) ∙ rw y refl
        | inr n ↦
            ih (add_key i t)
            ∙ rw n (append_assoc t.active_kids (i.key_id ∷ []) (key_ids (usable_keys ks)))
      ]

  conclude-totals : (kids : List String) (t : Totals) → (kids ≢ []) → conclude kids t ≡ license_of t
  conclude-totals [] t h = absurd (h refl)
  conclude-totals (k ∷ kids) t h = refl

  -- If at least one usable key has an id, the license has the seats of all usable keys together, with
  -- or without an id, the highest of their editions, and the ids of those that have one. The keys are
  -- those of the database and the one of the file.
  pub load_all_licenses-sums :
      (db : Option (List String)) (fs : Option String)
      → key_ids (usable_keys (raw_keys db fs)) ≢ []
      → let license = load_all_licenses validate service now db fs in
        (license.seats ≡ sum_seats (usable_keys (raw_keys db fs)))
        × ((edition_rank license.edition ≡ highest_rank (usable_keys (raw_keys db fs)))
            × (license.active_key_ids ≡ key_ids (usable_keys (raw_keys db fs))))
  unfolding load_all_licenses aggregate
  load_all_licenses-sums db fs h =
      let keys = raw_keys db fs in
      let t = total keys no_totals in
      let kids : t.active_kids ≡ key_ids (usable_keys keys) = add_keys-kids keys no_totals in
      let some_kid : t.active_kids ≢ [] = λ e. h (sym kids ∙ e) in
      rw (conclude-totals t.active_kids t some_kid) (
        omega (arith, add_keys-seats keys no_totals),
        (omega (arith, add_keys-rank keys no_totals), kids),
      )

  -- If no usable key has an id, the license is the community one without seats, even where there are
  -- usable keys.
  pub load_all_licenses-without_ids :
      (db : Option (List String)) (fs : Option String)
      → key_ids (usable_keys (raw_keys db fs)) ≡ []
      → load_all_licenses validate service now db fs ≡ community_license
  unfolding load_all_licenses aggregate
  load_all_licenses-without_ids db fs h =
      let t = total (raw_keys db fs) no_totals in
      let kids : t.active_kids ≡ [] = add_keys-kids (raw_keys db fs) no_totals ∙ h in
      ap (λ ks. conclude ks t) kids
