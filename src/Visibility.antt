-- ===== src/Visibility.antt =====
-- document_visibility.py: which chunks a caller may see, as a WHERE clause on queries and as a list
-- of hidden documents for search, and the calls that change owners and visibilities.
pub mod Agreement
pub mod Changes
mod Examples
use pgvector_ragindexer.Base.{
  ℕ, suc, String, Bool, true, false, not, ◌&&◌, ◌||◌, Option, none, some, List, [], ◌∷◌, ◌==◌,
  contains, string_eq, ltb, if◌then◌else◌,
}
use pgvector_ragindexer.Sql.{
  Truth, Link, up, down, of_bool, is_null, is_not_null, equals, negate, ◌and◌, ◌or◌, select, update,
  count,
}
use pgvector_ragindexer.Chunks.{Chunk, touched}
use pgvector_ragindexer.Users.{User, get_user_by_api_key}
use pgvector_ragindexer.Roles.{Config, has_permission, system_admin}

abbrev pub shared : String
shared = "shared"

abbrev pub private : String
private = "private"

abbrev pub valid_visibilities : List String
valid_visibilities = shared ∷ private ∷ []

-- `not user_id`
abbrev pub no_user : Option String → Bool
no_user none = true
no_user (some u) = u == ""

abbrev pub user_or_empty : Option String → String
user_or_empty none = ""
user_or_empty (some u) = u

-- visibility = 'shared' OR visibility IS NULL OR owner_id IS NULL
abbrev pub open_to_all : Chunk → Truth
open_to_all c = equals c.visibility shared or is_null c.visibility or is_null c.owner_id

-- The fragment that is ANDed into a query; an empty fragment holds of every row.
unfoldable pub visibility_where_clause : Option String → Bool → Chunk → Truth
visibility_where_clause user is_admin c =
    if is_admin
    then of_bool true
    else if no_user user
    then open_to_all c
    else equals c.visibility shared
      or is_null c.visibility
      or is_null c.owner_id
      or equals c.owner_id (user_or_empty user)

abbrev pub of_document : String → Chunk → Truth
of_document doc c = of_bool (c.document_id == doc)

unfoldable pub visibility_where_clause_for_document : String → Option String → Bool → Chunk → Truth
unfolding visibility_where_clause
visibility_where_clause_for_document doc user is_admin c =
    of_document doc c and visibility_where_clause user is_admin c

-- WHERE visibility = 'private' AND owner_id IS NOT NULL AND owner_id != user
unfoldable pub hidden_where : Option String → Chunk → Truth
hidden_where user c =
    if no_user user
    then equals c.visibility private and is_not_null c.owner_id
    else equals c.visibility private
      and is_not_null c.owner_id
      and negate (equals c.owner_id (user_or_empty user))

unfoldable pub documents_of : List Chunk → List String
documents_of [] = []
documents_of (c ∷ cs) = c.document_id ∷ documents_of cs

-- What a call that does not catch its exceptions gives.
pub data Answer {ℓ} (A : Type ℓ) : Type ℓ where
  returned : A → Answer A
  raised : Answer A

-- The ids of the answer, which SELECT DISTINCT lists once each.
unfoldable pub get_hidden_document_ids :
    Link → Option String → Bool → List Chunk → Answer (List String)
unfolding hidden_where documents_of
get_hidden_document_ids k user true rows = returned []
get_hidden_document_ids down user false rows = raised
get_hidden_document_ids up user false rows =
    returned (documents_of (select (hidden_where user) rows))

-- Whom an API key record stands for. `none`: authentication is off, and there is no record.
pub data Caller : Type 0 where
  local : Caller
  unlinked : Caller
  linked : String → Bool → Caller

abbrev pub caller_of_user : Config → Option User → Caller
caller_of_user c none = unlinked
caller_of_user c (some u) = linked u.id (has_permission c u.role system_admin)

-- The steps that the functions below begin with: the user that the key is linked to, and whether
-- that user's role has system.admin.
unfoldable pub resolve_caller : Link → Config → List User → Option ℕ → Caller
resolve_caller k c users none = local
resolve_caller k c users (some key) = caller_of_user c (get_user_by_api_key k key users)

unfoldable pub visibility_clause_for_key_record : Caller → Chunk → Truth
unfolding visibility_where_clause
visibility_clause_for_key_record local c = of_bool true
visibility_clause_for_key_record unlinked c = visibility_where_clause none false c
visibility_clause_for_key_record (linked user admin) c = visibility_where_clause (some user) admin c

abbrev pub document_clause : String → Caller → Chunk → Truth
document_clause doc local c = of_document doc c
document_clause doc unlinked c = visibility_where_clause_for_document doc none false c
document_clause doc (linked user admin) c =
    visibility_where_clause_for_document doc (some user) admin c

unfoldable pub document_visible_for_key_record : Link → String → Caller → List Chunk → Answer Bool
document_visible_for_key_record k doc local rows = returned true
document_visible_for_key_record down doc caller rows = raised
document_visible_for_key_record up doc caller rows =
    returned (ltb 0 (count (document_clause doc caller) rows))

unfoldable pub is_admin_key_record : Caller → Bool
is_admin_key_record local = true
is_admin_key_record unlinked = false
is_admin_key_record (linked user admin) = admin

unfoldable pub search_exclusions_for_key_record : Link → Caller → List Chunk → Answer (List String)
unfolding get_hidden_document_ids
search_exclusions_for_key_record k local rows = returned []
search_exclusions_for_key_record k unlinked rows = get_hidden_document_ids k none false rows
search_exclusions_for_key_record k (linked user admin) rows =
    get_hidden_document_ids k (some user) admin rows

-- Entries whose path hashes to none of the hidden ids; `document_of` is
-- `sha256(path).hexdigest()[:16]`.
module _ {Entry : Type 0} (document_of : String → String) (uri_of : Entry → String) where
  unfoldable pub keep_visible : List String → List Entry → List Entry
  keep_visible hidden [] = []
  keep_visible hidden (e ∷ es) =
      let rest = keep_visible hidden es in
      if contains hidden (document_of (uri_of e)) then rest else e ∷ rest

  filter_by : Answer (List String) → List Entry → Answer (List Entry)
  filter_by raised entries = raised
  filter_by (returned hidden) entries = returned (keep_visible hidden entries)

  unfoldable pub filter_entries_by_hidden_source :
      Link → Caller → List Chunk → List Entry → Answer (List Entry)
  unfolding keep_visible filter_by
  filter_entries_by_hidden_source k caller rows entries =
      filter_by (search_exclusions_for_key_record k caller rows) entries

-- The UPDATE statements return their rowcount; they raise where the database does.
abbrev pub rewritten :
    Link → ℕ → (Chunk → Truth) → (Chunk → Chunk) → List Chunk → Answer ℕ × List Chunk
rewritten down now p f rows = (raised, rows)
rewritten up now p f rows = (returned (count p rows), update p (λ c. touched now (f c)) rows)

unfoldable pub set_document_owner : Link → ℕ → String → String → List Chunk → Answer ℕ × List Chunk
set_document_owner k now doc owner rows =
    rewritten k now (of_document doc) (λ c. record c { owner_id = some owner }) rows

-- `none` is the answer -1, for an invalid visibility.
abbrev pub if_valid : String → Answer ℕ × List Chunk → List Chunk → Answer (Option ℕ) × List Chunk
if_valid v (raised, rows') rows =
    if contains valid_visibilities v then (raised, rows') else (returned none, rows)
if_valid v (returned n, rows') rows =
    if contains valid_visibilities v then (returned (some n), rows') else (returned none, rows)

unfoldable pub set_document_visibility :
    Link → ℕ → String → String → List Chunk → Answer (Option ℕ) × List Chunk
set_document_visibility k now doc v rows =
    if_valid v (rewritten k now (of_document doc) (λ c. record c { visibility = some v }) rows) rows

unfoldable pub set_document_owner_and_visibility :
    Link → ℕ → String → String → String → List Chunk → Answer (Option ℕ) × List Chunk
set_document_owner_and_visibility k now doc owner v rows =
    if_valid v
      (rewritten k now (of_document doc)
        (λ c. record c { owner_id = some owner; visibility = some v }) rows)
      rows

unfoldable pub bulk_set_visibility :
    Link → ℕ → List String → String → List Chunk → Answer (Option ℕ) × List Chunk
bulk_set_visibility k now [] v rows =
    if contains valid_visibilities v then (returned (some 0), rows) else (returned none, rows)
bulk_set_visibility k now (d ∷ ds) v rows =
    if_valid v
      (rewritten k now (λ c. of_bool (contains (d ∷ ds) c.document_id))
        (λ c. record c { visibility = some v }) rows)
      rows

-- This one catches the exception, and answers 0.
unfoldable pub transfer_ownership : Link → ℕ → String → String → List Chunk → ℕ × List Chunk
transfer_ownership down now doc owner rows = (0, rows)
transfer_ownership up now doc owner rows = (
  count (of_document doc) rows,
  update (of_document doc) (λ c. touched now (record c { owner_id = some owner })) rows,
)
