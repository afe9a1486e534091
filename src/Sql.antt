-- ===== src/Sql.antt =====
-- The part of SQL that the statements of the program use: the three truth values of a WHERE
-- clause, and SELECT, DELETE and UPDATE over a table that is the list of its rows.
pub mod Laws
pub mod Members
use pgvector_ragindexer.Base.{
  ℕ, suc, Bool, true, false, Option, none, some, List, [], ◌∷◌, ltb, Eq, ◌==◌, if◌then◌else◌,
}

-- A comparison with NULL is `unknown`.
pub data Truth : Type 0 where
  holds fails unknown : Truth

infixr 35 ◌and◌
infixr 30 ◌or◌
abbrev pub ◌and◌ : Truth → Truth → Truth
holds and q = q
fails and q = fails
unknown and holds = unknown
unknown and fails = fails
unknown and unknown = unknown

abbrev pub ◌or◌ : Truth → Truth → Truth
holds or q = holds
fails or q = q
unknown or holds = holds
unknown or fails = unknown
unknown or unknown = unknown

-- A row is selected when its condition holds, and not when it is unknown.
abbrev pub is_true : Truth → Bool
is_true holds = true
is_true fails = false
is_true unknown = false

abbrev pub of_bool : Bool → Truth
of_bool true = holds
of_bool false = fails

abbrev pub negate : Truth → Truth
negate holds = fails
negate fails = holds
negate unknown = unknown

-- column IS NULL, column IS NOT NULL
abbrev pub is_null {ℓ} : {A : Type ℓ} → Option A → Truth
is_null none = holds
is_null (some a) = fails

abbrev pub is_not_null {ℓ} : {A : Type ℓ} → Option A → Truth
is_not_null none = fails
is_not_null (some a) = holds

-- column = value, for a column that may be NULL
abbrev pub equals {ℓ} : {A : Type ℓ} ⦃e : Eq A⦄ → Option A → A → Truth
equals none v = unknown
equals (some a) v = of_bool (a == v)

-- column < value
abbrev pub less : Option ℕ → ℕ → Truth
less none v = unknown
less (some a) v = of_bool (ltb a v)

-- Whether the database answers. When it does not, the connection is rolled back and the call
-- raises, so that the tables stay as they were.
pub data Link : Type 0 where
  up down : Link

module _ {ℓ} {Row : Type ℓ} where
  -- SELECT * FROM rows WHERE p
  unfoldable pub select : (Row → Truth) → List Row → List Row
  select p [] = []
  select p (r ∷ rs) = let rest = select p rs in if is_true (p r) then r ∷ rest else rest

  -- DELETE FROM rows WHERE p
  unfoldable pub delete : (Row → Truth) → List Row → List Row
  delete p [] = []
  delete p (r ∷ rs) = let rest = delete p rs in if is_true (p r) then rest else r ∷ rest

  -- UPDATE rows SET f WHERE p
  unfoldable pub update : (Row → Truth) → (Row → Row) → List Row → List Row
  update p f [] = []
  update p f (r ∷ rs) = (if is_true (p r) then f r else r) ∷ update p f rs

  -- SELECT COUNT(*) FROM rows WHERE p, and the rowcount of the statements above
  unfoldable pub count : (Row → Truth) → List Row → ℕ
  count p [] = 0
  count p (r ∷ rs) = let rest = count p rs in if is_true (p r) then suc rest else rest
