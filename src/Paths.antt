-- ===== src/Paths.antt =====
-- path_utils.py: which documents are under a folder, in Python and as a LIKE pattern for SQL.
pub mod Under
mod Examples
use Prim.Native.Char.{Char}
use pgvector_ragindexer.Base.{
  ℕ, String, Bool, true, false, not, ◌&&◌, ◌||◌, Option, none, some, List, [], ◌∷◌, ◌==◌, string_eq,
  same_char, append, has_prefix, rstrip, if◌then◌else◌,
}

-- s.replace(c, d), for one character by another one
unfoldable pub replace : Char → Char → String → String
replace c d String.[] = String.[]
replace c d (String.◌∷◌ e s) = String.◌∷◌ (if same_char c e then d else e) (replace c d s)

-- s.replace(c, d + c), for a character put before each `c`
unfoldable pub put_before : Char → Char → String → String
put_before c d String.[] = String.[]
put_before c d (String.◌∷◌ e s) =
    let rest = put_before c d s in
    if same_char c e then String.◌∷◌ d (String.◌∷◌ e rest) else String.◌∷◌ e rest

unfoldable pub normalize_path : String → String
unfolding replace
normalize_path path = replace "\r" "/" (replace "\n" "/" (replace "\t" "/" (replace "\\" "/" path)))

-- The pattern `<prefix>/%`; `none` for an empty or root prefix.
unfoldable pub folder_prefix_like_pattern : String → Option String
unfolding put_before
folder_prefix_like_pattern prefix =
    let norm = rstrip "/" (normalize_path prefix) in
    if norm == "" then none else some (append (put_before "_" "\\" (put_before "%" "\\" norm)) "/%")

unfoldable pub is_path_under : String → String → Bool
is_path_under path ancestor =
    let p = rstrip "/" (normalize_path path) in
    let a = rstrip "/" (normalize_path ancestor) in not (a == "") && has_prefix (append a "/") p

-- The LIKE of PostgreSQL, with its escape character, the backslash.
pub data Token : Type 0 where
  any one : Token
  exactly : Char → Token

abbrev pub token : Char → Token
token c = if same_char c "%" then any else if same_char c "_" then one else exactly c

unfoldable pub tokens : Bool → String → List Token
tokens escaped String.[] = []
tokens true (String.◌∷◌ c s) = exactly c ∷ tokens false s
tokens false (String.◌∷◌ c s) =
    let rest = tokens false s in
    let escaped = tokens true s in if same_char c "\\" then escaped else token c ∷ rest

unfoldable pub any_suffix : (String → Bool) → String → Bool
any_suffix p String.[] = p String.[]
any_suffix p (String.◌∷◌ c s) = let rest = any_suffix p s in p (String.◌∷◌ c s) || rest

abbrev pub is_nil : String → Bool
is_nil String.[] = true
is_nil (String.◌∷◌ c s) = false

unfoldable pub matches : List Token → String → Bool
unfolding any_suffix
matches [] s = is_nil s
matches (any ∷ ts) s = any_suffix (matches ts) s
matches (one ∷ ts) String.[] = false
matches (one ∷ ts) (String.◌∷◌ c s) = matches ts s
matches (exactly d ∷ ts) String.[] = false
matches (exactly d ∷ ts) (String.◌∷◌ c s) = let rest = matches ts s in same_char d c && rest

abbrev pub like : String → String → Bool
like text pattern = matches (tokens false pattern) text
