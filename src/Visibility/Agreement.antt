-- ===== src/Visibility/Agreement.antt =====
-- The two ways to hide documents agree: what the WHERE clause shows is what the exclusion list
-- leaves in the search results.
use pgvector_ragindexer.Base.{
  ◌≤◌, String, ◌≡◌, ◌≢◌, ◌↔◌, refl, Bool, true, false, not, Option, none, some, List, [], ◌∷◌,
  ==_ne, contains, string_eq, arith, All, Bool-cases, inl, inr,
}
use pgvector_ragindexer.Sql.{Truth, Link, up, down, of_bool, is_true, ◌and◌, select, count}
use pgvector_ragindexer.Chunks.{Chunk}
use pgvector_ragindexer.Visibility.{
  shared, private, valid_visibilities, visibility_where_clause,
  visibility_where_clause_for_document, of_document, document_clause, hidden_where, documents_of,
  Answer, returned, raised, get_hidden_document_ids, Caller, local, unlinked, linked,
  search_exclusions_for_key_record, keep_visible, filter_by, is_admin_key_record,
  filter_entries_by_hidden_source,
}

abbrev pub has_visibility : Option String → Bool
has_visibility none = true
has_visibility (some v) = contains valid_visibilities v

-- The visibility is NULL, 'shared' or 'private'.
abbrev pub HasVisibility : Chunk → Type 0
HasVisibility c = has_visibility c.visibility ≡ true

pub private_ne_shared : private ≢ shared
unfolding string_eq
private_ne_shared = ==_ne private shared refl

-- Of a chunk with a valid visibility, each user who is no admin either sees it or has it hidden.
clause-hidden :
    (user : Option String) (c : Chunk)
    → HasVisibility c
    → is_true (visibility_where_clause user false c) ≡ not (is_true (hidden_where user c))
unfolding visibility_where_clause hidden_where
clause-hidden user c h = ground (arith, private_ne_shared)

module _ (doc : String) (q hid : Chunk → Truth) where
  abbrev Opposite : List Chunk → Type 0
  Opposite = All (λ c. is_true (q c) ≡ not (is_true (hid c)))

  count-and-le :
      (rows : List Chunk)
      → count (λ c. of_document doc c and q c) rows ≤ count (of_document doc) rows
  unfolding count
  count-and-le [] = omega arith
  count-and-le (c ∷ cs) = ground (arith, count-and-le cs)

  unlisted→all_shown :
      (rows : List Chunk)
      → Opposite rows
      → contains (documents_of (select hid rows)) doc ≡ false
      → count (λ c. of_document doc c and q c) rows ≡ count (of_document doc) rows
  unfolding documents_of select count
  unlisted→all_shown [] o h = refl
  unlisted→all_shown (c ∷ cs) (o, os) h = ground (arith, unlisted→all_shown cs os)

  all_shown→unlisted :
      (rows : List Chunk)
      → Opposite rows
      → count (λ c. of_document doc c and q c) rows ≡ count (of_document doc) rows
      → contains (documents_of (select hid rows)) doc ≡ false
  unfolding documents_of select count
  all_shown→unlisted [] o h = refl
  all_shown→unlisted (c ∷ cs) (o, os) h = ground (arith, all_shown→unlisted cs os, count-and-le cs)

opposite :
    (user : Option String) (rows : List Chunk)
    → All HasVisibility rows
    → All
        (λ c. is_true (visibility_where_clause user false c) ≡ not (is_true (hidden_where user c)))
        rows
opposite user [] h = tt
opposite user (c ∷ cs) (h, hs) = (clause-hidden user c h, opposite user cs hs)

-- The document has no chunk that the caller may not see.
abbrev pub AllShown : String → Caller → List Chunk → Type 0
AllShown doc caller rows = count (document_clause doc caller) rows ≡ count (of_document doc) rows

everything :
    (doc : String) (rows : List Chunk)
    → count (λ c. of_document doc c and of_bool true) rows ≡ count (of_document doc) rows
unfolding count
everything doc [] = refl
everything doc (c ∷ cs) = ground (arith, everything doc cs)

agree :
    (k : Link) (doc : String) (user : Option String) (rows : List Chunk) {hidden : List String}
    → All HasVisibility rows
    → get_hidden_document_ids k user false rows ≡ returned hidden
    → (contains hidden doc ≡ false) ↔ (
        count (λ c. of_document doc c and visibility_where_clause user false c) rows
        ≡ count (of_document doc) rows)
unfolding get_hidden_document_ids
agree down doc user rows v e = cc
agree up doc user rows {hidden} v e =
    let eq : documents_of (select (hidden_where user) rows) ≡ hidden = cc in
    let q = visibility_where_clause user false in
    rw (← eq) (
      unlisted→all_shown doc q (hidden_where user) rows (opposite user rows v),
      all_shown→unlisted doc q (hidden_where user) rows (opposite user rows v),
    )

-- With valid visibilities, a document is left in the search results of a caller exactly if the WHERE
-- clause of that caller shows every chunk of it. This holds of each kind of caller: local ones, keys
-- with no user, users and admins.
pub exclusions-agree :
    (k : Link) (doc : String) (caller : Caller) (rows : List Chunk) {hidden : List String}
    → All HasVisibility rows
    → search_exclusions_for_key_record k caller rows ≡ returned hidden
    → (contains hidden doc ≡ false) ↔ AllShown doc caller rows
unfolding search_exclusions_for_key_record get_hidden_document_ids
    visibility_where_clause_for_document
exclusions-agree k doc local rows {hidden} v e =
    let eq : [] ≡ hidden = cc in rw (← eq) (λ _. refl, λ _. refl)
exclusions-agree k doc unlinked rows {hidden} v e = agree k doc none rows v e
exclusions-agree k doc (linked user true) rows {hidden} v e =
    let eq : [] ≡ hidden = cc in rw (← eq) (λ _. everything doc rows, λ _. refl)
exclusions-agree k doc (linked user false) rows {hidden} v e = agree k doc (some user) rows v e

module _ {Entry : Type 0} (document_of : String → String) (uri_of : Entry → String) where
  kept-unlisted :
      (hidden : List String) (es : List Entry)
      → All
          (λ e. contains hidden (document_of (uri_of e)) ≡ false)
          (keep_visible document_of uri_of hidden es)
  unfolding keep_visible
  kept-unlisted hidden [] = tt
  kept-unlisted hidden (e ∷ es) = elim (Bool-cases (contains hidden (document_of (uri_of e)))) [
    | inl y ↦ rw y (kept-unlisted hidden es)
    | inr n ↦ rw n (n, kept-unlisted hidden es)
  ]

  module _ (k : Link) (caller : Caller) (rows : List Chunk) (v : All HasVisibility rows) where
    all_shown :
        (hidden : List String) (es : List Entry)
        → search_exclusions_for_key_record k caller rows ≡ returned hidden
        → All (λ e. contains hidden (document_of (uri_of e)) ≡ false) es
        → All (λ e. AllShown (document_of (uri_of e)) caller rows) es
    all_shown hidden [] e h = tt
    all_shown hidden (x ∷ es) e (h, hs) = (
      (exclusions-agree k (document_of (uri_of x)) caller rows v e).0 h,
      all_shown hidden es e hs,
    )

    filter_by-shown :
        (answer : Answer (List String)) (entries kept : List Entry)
        → search_exclusions_for_key_record k caller rows ≡ answer
        → filter_by document_of uri_of answer entries ≡ returned kept
        → All (λ e. AllShown (document_of (uri_of e)) caller rows) kept
    unfolding filter_by
    filter_by-shown raised entries kept a e = cc
    filter_by-shown (returned hidden) entries kept a e =
        let same : keep_visible document_of uri_of hidden entries ≡ kept = cc in
        rw (← same) (all_shown hidden _ a (kept-unlisted hidden entries))

    -- With valid visibilities, every lock, run or other entry that the filter returns belongs to a
    -- document whose chunks the caller may all see (a path with no indexed document has none).
    pub filter_entries-shown :
        (entries kept : List Entry)
        → filter_entries_by_hidden_source document_of uri_of k caller rows entries ≡ returned kept
        → All (λ e. AllShown (document_of (uri_of e)) caller rows) kept
    unfolding filter_entries_by_hidden_source
    filter_entries-shown entries kept e =
        filter_by-shown (search_exclusions_for_key_record k caller rows) entries kept refl e

  -- If the hidden documents cannot be read, the filter raises for every caller who is neither local
  -- nor an admin, and lets no entry through.
  pub filter_entries-fails_closed :
      (caller : Caller) (rows : List Chunk) (entries : List Entry)
      → is_admin_key_record caller ≡ false
      → filter_entries_by_hidden_source document_of uri_of down caller rows entries ≡ raised
  unfolding filter_entries_by_hidden_source search_exclusions_for_key_record get_hidden_document_ids
      is_admin_key_record
  filter_entries-fails_closed local rows entries h = cc
  filter_entries-fails_closed unlinked rows entries h = refl
  filter_entries-fails_closed (linked user true) rows entries h = cc
  filter_entries-fails_closed (linked user false) rows entries h = refl
