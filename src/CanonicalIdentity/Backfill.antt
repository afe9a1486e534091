-- ===== src/CanonicalIdentity/Backfill.antt =====
-- What a backfill of the keys of a folder leaves to do.
use pgvector_ragindexer.Base.{
  subst, ℕ, String, ◌≡◌, refl, sym, ap, Bool, true, false, some, List, [], ◌∷◌, ◌==◌, ==_refl,
  contains, nat_eq, All, arith, Bool-cases, inl, inr,
}
use pgvector_ragindexer.Sql.{fails, up, is_true, of_bool, ◌and◌, select, update, count}
use pgvector_ragindexer.Sql.Laws.{select-none}
use pgvector_ragindexer.Chunks.{Chunk, touched}
use pgvector_ragindexer.CanonicalIdentity.{
  with_id, pending, key_for, set_keys, bulk_set_canonical_keys,
}

abbrev ids : List Chunk → List ℕ
ids [] = []
ids (c ∷ cs) = c.chunk_id ∷ ids cs

keyed : {A : Type 0} (b : Bool) → is_true (of_bool b and fails) ≡ true → A
keyed true h = cc
keyed false h = cc

unequal : {A : Type 0} {b : Bool} → b ≡ false → b ≡ true → A
unequal n y = cc

module _ (folder : String) where
  -- Every row that is still to be keyed is one of the listed ones.
  abbrev Covered : List Chunk → Chunk → Type 0
  Covered cs r = is_true (pending folder r) ≡ true → contains (ids cs) r.chunk_id ≡ true

  Covered-more : (c : Chunk) (cs rs : List Chunk) → All (Covered cs) rs → All (Covered (c ∷ cs)) rs
  Covered-more c cs [] a = tt
  Covered-more c cs (r ∷ rs) (a, as') = (λ h. ground (arith, a h), Covered-more c cs rs as')

  select-Covered : (rows : List Chunk) → All (Covered (select (pending folder) rows)) rows
  unfolding select
  select-Covered [] = tt
  select-Covered (r ∷ rs) = elim (Bool-cases (is_true (pending folder r))) [
    | inl y ↦
        let picked : select (pending folder) (r ∷ rs) ≡ r ∷ select (pending folder) rs =
          rw y refl in
        subst (λ cs. All (Covered cs) (r ∷ rs)) (sym picked)
          (
            λ h. ground (arith, ==_refl r.chunk_id),
            Covered-more r (select (pending folder) rs) rs (select-Covered rs),
          )
    | inr n ↦
        let passed : select (pending folder) (r ∷ rs) ≡ select (pending folder) rs = rw n refl in
        subst (λ cs. All (Covered cs) (r ∷ rs)) (sym passed) (λ h. unequal n h, select-Covered rs)
  ]

  Covered-update :
      (now : ℕ) (c : Chunk) (cs : List Chunk) (key : String) (rows : List Chunk)
      → All (Covered (c ∷ cs)) rows
      → All (Covered cs) (
          update
            (with_id c.chunk_id)
            (λ r. touched now (record r { canonical_source_key = some key }))
            rows)
  unfolding update
  Covered-update now c cs key [] a = tt
  Covered-update now c cs key (r ∷ rs) (a, as') = elim (Bool-cases (r.chunk_id == c.chunk_id)) [
    | inl y ↦ rw y (λ h. keyed _ h, Covered-update now c cs key rs as')
    | inr n ↦ rw n (λ h. ground (arith, a h), Covered-update now c cs key rs as')
  ]

  none_left : (rows : List Chunk) → All (Covered []) rows → count (pending folder) rows ≡ 0
  unfolding count
  none_left [] a = refl
  none_left (r ∷ rs) (a, as') = elim (Bool-cases (is_true (pending folder r))) [
    | inl y ↦ ground (arith, a y)
    | inr n ↦ rw n (none_left rs as')
  ]

  set_keys_complete :
      (scope identity : String) (now : ℕ) (cs rows : List Chunk)
      → All (Covered cs) rows
      → count (pending folder) (set_keys folder scope identity now cs rows).1 ≡ 0
  unfolding set_keys
  set_keys_complete scope identity now [] rows a = none_left rows a
  set_keys_complete scope identity now (c ∷ cs) rows a =
      set_keys_complete scope identity now cs _
        (Covered-update now c cs (key_for folder scope identity c) rows a)

  -- A backfill that the database answers leaves no chunk that matches the folder without a key: a second
  -- one, for any scope and identity, sets none and changes nothing.
  pub bulk_set_canonical_keys-again :
      (scope identity scope' identity' : String) (now later : ℕ) (rows : List Chunk)
      → let rows' = (bulk_set_canonical_keys up folder scope identity now rows).1 in
        bulk_set_canonical_keys up folder scope' identity' later rows' ≡ (0, rows')
  unfolding bulk_set_canonical_keys set_keys
  bulk_set_canonical_keys-again scope identity scope' identity' now later rows =
      let done =
        set_keys_complete scope identity now (select (pending folder) rows) rows
          (select-Covered rows) in
      let rows' = (set_keys folder scope identity now (select (pending folder) rows) rows).1 in
      ap (λ cs. set_keys folder scope' identity' later cs rows')
        (select-none (pending folder) rows' done)
