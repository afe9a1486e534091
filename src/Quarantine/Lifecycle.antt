-- ===== src/Quarantine/Lifecycle.antt =====
-- From the mark to the purge.
use pgvector_ragindexer.Base.{
  ℕ, String, ◌≡◌, refl, true, false, Option, none, List, [], ◌∷◌, ◌==◌, string_eq, arith, All,
  ==_sound, if◌then◌else◌, Bool-cases, inl, inr,
}
use pgvector_ragindexer.Sql.{Truth, Link, up, down, is_true, is_null, ◌and◌, delete, update, count}
use pgvector_ragindexer.Sql.Laws.{count-update_clears, update-none, count-delete_apart}
use pgvector_ragindexer.Chunks.{Chunk, touched}
use pgvector_ragindexer.Quarantine.{
  ℤ, Environment, at_uri, mark, quarantine_chunks, restore_chunks, before_window, overdue,
  or_environment, purge_expired,
}

-- The chunks of a source that is not in quarantine.
abbrev pub IsActive : String → List Chunk → Type 0
IsActive uri =
    All (λ c. c.source_uri ≡ uri → (c.quarantined_at ≡ none) × (c.quarantine_reason ≡ none))

module _ (uri : String) where
  -- If no chunk of a source is in quarantine or has a reason, quarantining the source and then
  -- restoring it gives the table as it was, but for the column updated_at of the chunks of the source,
  -- which has the time of the restoring.
  pub restore-quarantine :
      (reason : String) (now later : ℕ) (rows : List Chunk)
      → IsActive uri rows
      → (restore_chunks up uri later (quarantine_chunks up uri reason now rows).1).1
        ≡ update (at_uri uri) (touched later) rows
  unfolding restore_chunks quarantine_chunks update
  restore-quarantine reason now later [] h = refl
  restore-quarantine reason now later (c ∷ cs) (h, hs) = elim (Bool-cases (c.source_uri == uri)) [
    | inl y ↦
        let a = h (==_sound _ _ y) in ground (arith, restore-quarantine reason now later cs hs)
    | inr n ↦ ground (arith, restore-quarantine reason now later cs hs)
  ]

  abbrev unmarked : Chunk → Truth
  unmarked c = at_uri uri c and is_null c.quarantined_at

  marked : (c : Chunk) (now : ℕ) (reason : String) → is_true (unmarked (mark now reason c)) ≡ false
  marked c now reason = ground arith

  -- A source that is missing in a later scan too is not marked again: its retention window goes on
  -- from the first mark.
  pub quarantine-again :
      (reason later_reason : String) (now later : ℕ) (rows : List Chunk)
      → quarantine_chunks up uri later_reason later (quarantine_chunks up uri reason now rows).1
        ≡ (0, (quarantine_chunks up uri reason now rows).1)
  unfolding quarantine_chunks
  quarantine-again reason later_reason now later rows =
      let none_left =
        count-update_clears unmarked (mark now reason) (λ c. marked c now reason) rows in
      rw (none_left, update-none unmarked (mark later later_reason) _ none_left)

  -- How many chunks a source has.
  abbrev pub chunks_of : List Chunk → ℕ
  chunks_of = count (at_uri uri)

  -- A source without a quarantined chunk or a reason that goes into quarantine at `now` keeps all its chunks in a purge at `later`
  -- if the window has not passed, and has none left once it has.
  pub purge-quarantine :
      (env : Environment) (days : Option ℤ) (reason : String) (now later : ℕ) (rows : List Chunk)
      → IsActive uri rows
      → chunks_of (purge_expired up env days later (quarantine_chunks up uri reason now rows).1).1
        ≡ (if before_window (or_environment env days) later now then 0 else chunks_of rows)
  unfolding purge_expired quarantine_chunks update delete count
  purge-quarantine env days reason now later [] h = ground arith
  purge-quarantine env days reason now later (c ∷ cs) (h, hs) =
      elim (Bool-cases (c.source_uri == uri)) [
        | inl y ↦
            let (fresh, _) = h (==_sound _ _ y) in
            rw (y, fresh) (ground (arith, purge-quarantine env days reason now later cs hs))
        | inr n ↦ rw n (ground (arith, purge-quarantine env days reason now later cs hs))
      ]

overdue-not_null :
    (days : ℤ) (now : ℕ) (p : Chunk → Truth) (c : Chunk)
    → is_true (overdue days now c) ≡ true
    → is_true (is_null c.quarantined_at and p c) ≡ false
overdue-not_null days now p c h = ground arith

-- A purge deletes no chunk that is not in quarantine, whatever the window is.
pub purge-keeps_active :
    (k : Link) (env : Environment) (days : Option ℤ) (now : ℕ) (p : Chunk → Truth)
    (rows : List Chunk)
    → count (λ c. is_null c.quarantined_at and p c) (purge_expired k env days now rows).1
      ≡ count (λ c. is_null c.quarantined_at and p c) rows
unfolding purge_expired
purge-keeps_active down env days now p rows = refl
purge-keeps_active up env days now p rows =
    count-delete_apart _ (overdue (or_environment env days) now)
      (λ c late. overdue-not_null (or_environment env days) now p c late) rows
