-- ===== src/Visibility/Changes.antt =====
-- Who sees a document after its owner or its visibility was set.
use pgvector_ragindexer.Base.{
  ℕ, String, ◌≡◌, ◌≢◌, refl, ap, ◌∙◌, Bool, true, false, ◌&&◌, ◌||◌, some, List, [], ◌∷◌, ◌==◌,
  contains, string_eq, arith, All, ltb, if◌then◌else◌, Bool-cases, inl, inr,
}
use pgvector_ragindexer.Sql.{Truth, Link, up, down, is_true, update, count}
use pgvector_ragindexer.Chunks.{Chunk, touched}
use pgvector_ragindexer.Visibility.{
  shared, private, valid_visibilities, visibility_where_clause_for_document, of_document,
  document_clause, returned, Caller, local, unlinked, linked, document_visible_for_key_record,
  rewritten, if_valid, set_document_owner, set_document_visibility,
  set_document_owner_and_visibility, bulk_set_visibility, transfer_ownership,
}
use pgvector_ragindexer.Visibility.Agreement.{HasVisibility, private_ne_shared}

-- Who may see a private document of an owner.
abbrev pub may_see : String → Caller → Bool
may_see owner local = true
may_see owner unlinked = false
may_see owner (linked user admin) = admin || user == owner

-- What the caller is told, where `there` says whether the document has chunks.
abbrev pub told : String → Caller → Bool → Bool
told owner local there = true
told owner unlinked there = false
told owner (linked user admin) there = (admin || user == owner) && there

abbrev own : ℕ → String → String → Chunk → Chunk
own now owner v c = touched now (record c { owner_id = some owner; visibility = some v })

shown_private :
    (now : ℕ) (doc owner : String) (caller : Caller) (rows : List Chunk)
    → owner ≢ ""
    → count (document_clause doc caller) (update (of_document doc) (own now owner private) rows)
      ≡ (if may_see owner caller then count (of_document doc) rows else 0)
unfolding count update visibility_where_clause_for_document
shown_private now doc owner local [] h = refl
shown_private now doc owner unlinked [] h = refl
shown_private now doc owner (linked user admin) [] h = ground arith
shown_private now doc owner local (c ∷ cs) h =
    ground (arith, shown_private now doc owner local cs h)
shown_private now doc owner unlinked (c ∷ cs) h =
    ground (arith, shown_private now doc owner unlinked cs h, private_ne_shared)
shown_private now doc owner (linked user admin) (c ∷ cs) h =
    ground (arith, shown_private now doc owner (linked user admin) cs h, private_ne_shared)

-- Let a document be made private with an owner whose id is not empty. Then it is visible, as far as
-- it has chunks, to that owner and to admins, and to no other user and no key without a user. Local
-- callers are told so of any id.
pub private-visible :
    (now : ℕ) (doc owner : String) (caller : Caller) (rows : List Chunk)
    → owner ≢ ""
    → document_visible_for_key_record up doc caller
        (set_document_owner_and_visibility up now doc owner private rows).1
      ≡ returned (told owner caller (ltb 0 (count (of_document doc) rows)))
unfolding document_visible_for_key_record set_document_owner_and_visibility string_eq
private-visible now doc owner local rows h = refl
private-visible now doc owner unlinked rows h =
    ap (λ n. returned (ltb 0 n)) (shown_private now doc owner unlinked rows h)
private-visible now doc owner (linked user true) rows h =
    ap (λ n. returned (ltb 0 n)) (shown_private now doc owner (linked user true) rows h)
private-visible now doc owner (linked user false) rows h =
    ap (λ n. returned (ltb 0 n)) (shown_private now doc owner (linked user false) rows h)
    ∙ ground arith

shown_shared :
    (now : ℕ) (doc : String) (caller : Caller) (rows : List Chunk)
    → count
        (document_clause doc caller)
        (update (of_document doc) (λ c. touched now (record c { visibility = some shared })) rows)
      ≡ count (of_document doc) rows
unfolding count update visibility_where_clause_for_document
shown_shared now doc local [] = refl
shown_shared now doc unlinked [] = refl
shown_shared now doc (linked user admin) [] = refl
shown_shared now doc local (c ∷ cs) = ground (arith, shown_shared now doc local cs)
shown_shared now doc unlinked (c ∷ cs) = ground (arith, shown_shared now doc unlinked cs)
shown_shared now doc (linked user admin) (c ∷ cs) =
    ground (arith, shown_shared now doc (linked user admin) cs)

-- A document that is made shared is visible, as far as it has chunks, to every caller but the local
-- ones, who are told so of any id.
pub shared-visible :
    (now : ℕ) (doc : String) (caller : Caller) (rows : List Chunk)
    → caller ≢ local
    → document_visible_for_key_record up doc caller
        (set_document_visibility up now doc shared rows).1
      ≡ returned (ltb 0 (count (of_document doc) rows))
unfolding document_visible_for_key_record set_document_visibility string_eq
shared-visible now doc local rows l = absurd (l refl)
shared-visible now doc unlinked rows l =
    ap (λ n. returned (ltb 0 n)) (shown_shared now doc unlinked rows)
shared-visible now doc (linked user admin) rows l =
    ap (λ n. returned (ltb 0 n)) (shown_shared now doc (linked user admin) rows)

-- The calls of the module that write rows.
pub data Step : List Chunk → List Chunk → Type 0 where
  sets_owner :
      (k : Link) (now : ℕ) (doc owner : String) {rows : List Chunk}
      → Step rows (set_document_owner k now doc owner rows).1
  sets_visibility :
      (k : Link) (now : ℕ) (doc v : String) {rows : List Chunk}
      → Step rows (set_document_visibility k now doc v rows).1
  sets_both :
      (k : Link) (now : ℕ) (doc owner v : String) {rows : List Chunk}
      → Step rows (set_document_owner_and_visibility k now doc owner v rows).1
  sets_many :
      (k : Link) (now : ℕ) (docs : List String) (v : String) {rows : List Chunk}
      → Step rows (bulk_set_visibility k now docs v rows).1
  transfers :
      (k : Link) (now : ℕ) (doc owner : String) {rows : List Chunk}
      → Step rows (transfer_ownership k now doc owner rows).1

pub data Reach (start : List Chunk) : List Chunk → Type 0 where
  here : Reach start start
  next : {rows rows' : List Chunk} → Reach start rows → Step rows rows' → Reach start rows'

All-update :
    (p : Chunk → Truth) (f : Chunk → Chunk) (rows : List Chunk)
    → ((c : Chunk) → HasVisibility c → HasVisibility (f c))
    → All HasVisibility rows
    → All HasVisibility (update p f rows)
unfolding update
All-update p f [] keeps a = tt
All-update p f (c ∷ cs) keeps (a, as') = elim (Bool-cases (is_true (p c))) [
  | inl y ↦ rw y (keeps c a, All-update p f cs keeps as')
  | inr n ↦ rw n (a, All-update p f cs keeps as')
]

All-if_valid :
    (k : Link) (now : ℕ) (v : String) (p : Chunk → Truth) (f : Chunk → Chunk) (rows : List Chunk)
    → ((c : Chunk) → contains valid_visibilities v ≡ true → HasVisibility (f c))
    → All HasVisibility rows
    → All HasVisibility (if_valid v (rewritten k now p f rows) rows).1
All-if_valid down now v p f rows makes a = elim (Bool-cases (contains valid_visibilities v)) [
  | inl y ↦ rw y a
  | inr n ↦ rw n a
]
All-if_valid up now v p f rows makes a = elim (Bool-cases (contains valid_visibilities v)) [
  | inl y ↦ rw y (All-update p (λ c. touched now (f c)) rows (λ c _. makes c y) a)
  | inr n ↦ rw n a
]

Step-HasVisibility :
    {rows rows' : List Chunk} → Step rows rows' → All HasVisibility rows → All HasVisibility rows'
unfolding set_document_owner set_document_visibility set_document_owner_and_visibility
    bulk_set_visibility transfer_ownership
Step-HasVisibility (sets_owner down now doc owner {rows}) a = a
Step-HasVisibility (sets_owner up now doc owner {rows}) a = All-update _ _ rows (λ c h. h) a
Step-HasVisibility (sets_visibility k now doc v {rows}) a =
    All-if_valid k now v _ _ rows (λ c y. y) a
Step-HasVisibility (sets_both k now doc owner v {rows}) a =
    All-if_valid k now v _ _ rows (λ c y. y) a
Step-HasVisibility (sets_many k now [] v {rows}) a =
    elim (Bool-cases (contains valid_visibilities v)) [ inl y ↦ rw y a | inr n ↦ rw n a ]
Step-HasVisibility (sets_many k now (d ∷ ds) v {rows}) a =
    All-if_valid k now v _ _ rows (λ c y. y) a
Step-HasVisibility (transfers down now doc owner {rows}) a = a
Step-HasVisibility (transfers up now doc owner {rows}) a = All-update _ _ rows (λ c h. h) a

-- Whatever calls are made, with whatever texts, every visibility in the table stays NULL, 'shared'
-- or 'private' if it was so at the start.
pub Reach-HasVisibility :
    {start rows : List Chunk} → Reach start rows → All HasVisibility start → All HasVisibility rows
Reach-HasVisibility here a = a
Reach-HasVisibility (next r s) a = Step-HasVisibility s (Reach-HasVisibility r a)
