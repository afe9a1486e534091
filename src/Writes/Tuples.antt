-- ===== src/Writes/Tuples.antt =====
-- The tuples that go into the table and come out of it, and their order.
use pgvector_ragindexer.Base.{
  ℕ, suc, ◌≤◌, String, ◌≡◌, refl, ap, true, some, List, [], ◌∷◌, map, ◌==◌, string_eq, arith, All,
  leb, le→leb, leb→le, Bool-cases, inl, inr,
}
use pgvector_ragindexer.Sql.{select, delete}
use pgvector_ragindexer.Chunks.{Chunk}
use pgvector_ragindexer.Visibility.{of_document}
use pgvector_ragindexer.Writes.{
  ChunkTuple, metadata_json, inserted_rows, tuple_of, insert_by_index, order_by_index,
  document_chunks,
}

-- The tuple that a stored tuple is read back as.
abbrev pub stored : ChunkTuple → ChunkTuple
stored t = record t { metadata = some (metadata_json t.metadata) }

abbrev pub OfDocument : String → ChunkTuple → Type 0
OfDocument doc t = (t.document_id == doc) ≡ true

pub tuples-inserted :
    (doc : String) (id now : ℕ) (ts : List ChunkTuple)
    → All (OfDocument doc) ts
    → map tuple_of (select (of_document doc) (inserted_rows id now ts)) ≡ map stored ts
unfolding select inserted_rows
tuples-inserted doc id now [] a = refl
tuples-inserted doc id now (t ∷ ts) (a, as') =
    rw (a) (ap (λ us. stored t ∷ us) (tuples-inserted doc (suc id) now ts as'))

pub delete-inserted :
    (doc : String) (id now : ℕ) (ts : List ChunkTuple)
    → All (OfDocument doc) ts
    → delete (of_document doc) (inserted_rows id now ts) ≡ []
unfolding delete inserted_rows
delete-inserted doc id now [] a = refl
delete-inserted doc id now (t ∷ ts) (a, as') = rw (a) (delete-inserted doc (suc id) now ts as')

Below : ChunkTuple → List ChunkTuple → Type 0
Below t [] = Unit
Below t (u ∷ us) = t.chunk_index ≤ u.chunk_index

Ordered : List ChunkTuple → Type 0
unfolding Below
Ordered [] = Unit
Ordered (t ∷ ts) = Below t ts × Ordered ts

insert-Below : (t : ChunkTuple) (us : List ChunkTuple) → Below t us → insert_by_index t us ≡ t ∷ us
unfolding insert_by_index Below
insert-Below t [] b = refl
insert-Below t (u ∷ us) b = rw (le→leb t.chunk_index u.chunk_index b) refl

Below-insert :
    (v t : ChunkTuple) (us : List ChunkTuple)
    → v.chunk_index ≤ t.chunk_index
    → Below v us
    → Below v (insert_by_index t us)
unfolding insert_by_index Below
Below-insert v t [] h b = h
Below-insert v t (u ∷ us) h b = elim (Bool-cases (leb t.chunk_index u.chunk_index)) [
  | inl y ↦ rw y h
  | inr n ↦ rw n b
]

insert-Ordered :
    (t : ChunkTuple) (us : List ChunkTuple) → Ordered us → Ordered (insert_by_index t us)
unfolding insert_by_index Ordered Below
insert-Ordered t [] o = (tt, tt)
insert-Ordered t (u ∷ us) (b, o) = elim (Bool-cases (leb t.chunk_index u.chunk_index)) [
  | inl y ↦ rw y (leb→le t.chunk_index u.chunk_index y, (b, o))
  | inr n ↦ rw n (Below-insert u t us (ground arith) b, insert-Ordered t us o)
]

order-Ordered : (ts : List ChunkTuple) → Ordered (order_by_index ts)
unfolding order_by_index Ordered
order-Ordered [] = tt
order-Ordered (t ∷ ts) = insert-Ordered t (order_by_index ts) (order-Ordered ts)

Ordered-order : (ts : List ChunkTuple) → Ordered ts → order_by_index ts ≡ ts
unfolding order_by_index Ordered
Ordered-order [] o = refl
Ordered-order (t ∷ ts) (b, o) = rw (Ordered-order ts o) (insert-Below t ts b)

-- Ordering a list of tuples twice is ordering it once.
pub order-order : (ts : List ChunkTuple) → order_by_index (order_by_index ts) ≡ order_by_index ts
order-order ts = Ordered-order (order_by_index ts) (order-Ordered ts)

module _ (P : ChunkTuple → Type 0) where
  All-insert :
      (t : ChunkTuple) (us : List ChunkTuple) → P t → All P us → All P (insert_by_index t us)
  unfolding insert_by_index
  All-insert t [] p a = (p, tt)
  All-insert t (u ∷ us) p (b, bs) = elim (Bool-cases (leb t.chunk_index u.chunk_index)) [
    | inl y ↦ rw y (p, (b, bs))
    | inr n ↦ rw n (b, All-insert t us p bs)
  ]

  pub All-order : (ts : List ChunkTuple) → All P ts → All P (order_by_index ts)
  unfolding order_by_index
  All-order [] a = tt
  All-order (t ∷ ts) (p, ps) = All-insert t (order_by_index ts) p (All-order ts ps)

-- A tuple that was read from the rows of a document.
abbrev pub IsRead : String → ChunkTuple → Type 0
IsRead doc t = OfDocument doc t × (stored t ≡ t)

select-IsRead :
    (doc : String) (rows : List Chunk)
    → All (IsRead doc) (map tuple_of (select (of_document doc) rows))
unfolding select
select-IsRead doc [] = tt
select-IsRead doc (c ∷ cs) = elim (Bool-cases (c.document_id == doc)) [
  | inl y ↦ rw y ((y, refl), select-IsRead doc cs)
  | inr n ↦ rw n (select-IsRead doc cs)
]

pub document_chunks-IsRead :
    (doc : String) (rows : List Chunk) → All (IsRead doc) (document_chunks doc rows)
document_chunks-IsRead doc rows = All-order (IsRead doc) _ (select-IsRead doc rows)

pub IsRead-OfDocument :
    (doc : String) (ts : List ChunkTuple) → All (IsRead doc) ts → All (OfDocument doc) ts
IsRead-OfDocument doc [] a = tt
IsRead-OfDocument doc (t ∷ ts) (a, as') = (a.0, IsRead-OfDocument doc ts as')

pub map-stored : (doc : String) (ts : List ChunkTuple) → All (IsRead doc) ts → map stored ts ≡ ts
map-stored doc [] a = refl
map-stored doc (t ∷ ts) (a, as') = rw (map-stored doc ts as') (ap (λ u. u ∷ ts) a.1)
