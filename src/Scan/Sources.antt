-- ===== src/Scan/Sources.antt =====
-- The quarantine after a scan: it says which files are there.
use pgvector_ragindexer.Base.{
  ℕ, String, ◌≡◌, refl, sym, ap, ◌∙◌, subst, ◌⊎◌, inl, inr, Bool, true, false, not, ◌&&◌, ◌||◌,
  List, [], ◌∷◌, ◌==◌, string_eq, arith, All, All-map, Bool-cases, Option-cases, ==_refl, ==_sound,
  if◌then◌else◌,
}
use pgvector_ragindexer.Sql.{up, is_true, is_null, is_not_null, ◌and◌}
use pgvector_ragindexer.Sql.Laws.{All-update}
use pgvector_ragindexer.Chunks.{Chunk}
use pgvector_ragindexer.Paths.{like}
use pgvector_ragindexer.Quarantine.{at_uri, mark, unmark, quarantine_chunks, restore_chunks}
use pgvector_ragindexer.Scan.{
  is_quarantined, same_bool, has_source, add_source, distinct_sources, file_missing, scan_pattern,
  settle_source, settle_sources, quarantine_missing_sources,
}

-- A chunk that the pattern matches is in quarantine exactly if its file is not there.
abbrev pub IsSettled : (String → Bool) → String → Chunk → Type 0
IsSettled is_file pattern c =
    like c.source_uri pattern ≡ true → is_quarantined c ≡ not (is_file c.source_uri)

has_source-add_self :
    (u : String) (q : Bool) (rest : List (String × Bool))
    → has_source u q (add_source u q rest) ≡ true
unfolding has_source
has_source-add_self u q rest = ground (arith, ==_refl u)

has_source-add :
    (u v : String) (q b : Bool) (rest : List (String × Bool))
    → has_source u q rest ≡ true
    → has_source u q (add_source v b rest) ≡ true
unfolding has_source
has_source-add u v q b rest h = ground arith

same_bool-eq : (q b : Bool) → same_bool q b ≡ true → b ≡ q
same_bool-eq true b h = h
same_bool-eq false true h = sym h
same_bool-eq false false h = refl

and_parts : (a b : Bool) → (a && b) ≡ true → (a ≡ true) × (b ≡ true)
and_parts true b h = (refl, h)
and_parts false b h = cc

module _ (is_file : String → Bool) (pattern : String) where
  -- A chunk that is settled, or that waits for its turn.
  abbrev Waits : List (String × Bool) → Chunk → Type 0
  Waits sources c =
      like c.source_uri pattern ≡ true
      → (has_source c.source_uri (is_quarantined c) sources ≡ true)
        ⊎ (is_quarantined c ≡ not (is_file c.source_uri))

  module _ (now : ℕ) (u : String) (rest : List (String × Bool)) where
    -- another source
    other-Waits :
        (q : Bool) (c : Chunk)
        → (c.source_uri == u) ≡ false
        → Waits ((u, q) ∷ rest) c
        → Waits rest c
    unfolding has_source
    other-Waits q c n h m = elim (h m) [
      | inl w ↦ inl (ground (arith, ==_refl u))
      | inr done ↦ inr done
    ]

    restored-Waits :
        (c : Chunk)
        → is_file u ≡ true
        → Waits ((u, true) ∷ rest) c
        → Waits rest
            (if is_true (at_uri u c and is_not_null c.quarantined_at) then unmark now c else c)
    restored-Waits c there h = elim (Bool-cases (c.source_uri == u)) [
      | inl y ↦ elim (Option-cases c.quarantined_at) [
        | inl e ↦ rw (y, e) (λ m. inr (sym (ap not (ap is_file (==_sound _ _ y) ∙ there))))
        | inr (t, e) ↦ rw (y, e) (λ m. inr (sym (ap not (ap is_file (==_sound _ _ y) ∙ there))))
      ]
      | inr n ↦ rw n (other-Waits true c n h)
    ]

    marked-Waits :
        (c : Chunk)
        → is_file u ≡ false
        → Waits ((u, false) ∷ rest) c
        → Waits rest (
            if is_true (at_uri u c and is_null c.quarantined_at)
            then mark now file_missing c
            else c)
    marked-Waits c gone h = elim (Bool-cases (c.source_uri == u)) [
      | inl y ↦ elim (Option-cases c.quarantined_at) [
        | inl e ↦ rw (y, e) (λ m. inr (sym (ap not (ap is_file (==_sound _ _ y) ∙ gone))))
        | inr (t, e) ↦ rw (y, e) (λ m. inr (sym (ap not (ap is_file (==_sound _ _ y) ∙ gone))))
      ]
      | inr n ↦ rw n (other-Waits false c n h)
    ]

    its_turn :
        (q : Bool) (v : String) (b here : Bool)
        → here ≡ (u == v && same_bool q b)
        → q ≡ not (is_file u)
        → (here || has_source v b rest) ≡ true
        → (has_source v b rest ≡ true) ⊎ (b ≡ not (is_file v))
    its_turn q v b false h e w = inl w
    its_turn q v b true h e w =
        let both = and_parts (u == v) (same_bool q b) (sym h) in
        inr (same_bool-eq q b both.1 ∙ e ∙ ap (λ x. not (is_file x)) (==_sound u v both.0))

    kept-Waits :
        (q : Bool) (c : Chunk) → q ≡ not (is_file u) → Waits ((u, q) ∷ rest) c → Waits rest c
    unfolding has_source
    kept-Waits q c e h m = elim (h m) [
      | inl w ↦ its_turn q c.source_uri (is_quarantined c) _ refl e w
      | inr done ↦ inr done
    ]

    settle_source-Waits :
        (q : Bool) (rows : List Chunk)
        → All (Waits ((u, q) ∷ rest)) rows
        → All (Waits rest) (settle_source is_file up now u q rows)
    unfolding settle_source restore_chunks quarantine_chunks
    settle_source-Waits true rows h = elim (Bool-cases (is_file u)) [
      | inl there ↦
          rw there (All-update (Waits rest) _ _ rows (All-map (λ c. restored-Waits c there) rows h))
      | inr gone ↦ rw gone (All-map (λ c. kept-Waits true c (sym (ap not gone))) rows h)
    ]
    settle_source-Waits false rows h = elim (Bool-cases (is_file u)) [
      | inl there ↦ rw there (All-map (λ c. kept-Waits false c (sym (ap not there))) rows h)
      | inr gone ↦
          rw gone (All-update (Waits rest) _ _ rows (All-map (λ c. marked-Waits c gone) rows h))
    ]

  settle_sources-IsSettled :
      (now : ℕ) (sources : List (String × Bool)) (rows : List Chunk)
      → All (Waits sources) rows
      → All (IsSettled is_file pattern) (settle_sources is_file (λ _. up) now sources rows)
  unfolding settle_sources has_source
  settle_sources-IsSettled now [] rows h =
      All-map (λ c w m. elim (w m) [ inl none_left ↦ cc | inr done ↦ done ]) rows h
  settle_sources-IsSettled now ((u, q) ∷ rest) rows h =
      settle_sources-IsSettled now rest _ (settle_source-Waits now u rest q rows h)

  Waits-add :
      (v : String) (b : Bool) (sources : List (String × Bool)) (c : Chunk)
      → Waits sources c
      → Waits (add_source v b sources) c
  Waits-add v b sources c w m = elim (w m) [
    | inl here ↦ inl (has_source-add c.source_uri v (is_quarantined c) b sources here)
    | inr done ↦ inr done
  ]

  distinct_sources-Waits : (rows : List Chunk) → All (Waits (distinct_sources pattern rows)) rows
  unfolding distinct_sources
  distinct_sources-Waits [] = tt
  distinct_sources-Waits (c ∷ cs) =
      let rest = distinct_sources pattern cs in
      elim (Bool-cases (like c.source_uri pattern)) [
        | inl y ↦
            subst
              (λ b.
                All (Waits (if b then add_source c.source_uri (is_quarantined c) rest else rest))
                  (c ∷ cs))
              (sym y)
              (
                (λ _. inl (has_source-add_self c.source_uri (is_quarantined c) rest)),
                All-map (λ d. Waits-add c.source_uri (is_quarantined c) rest d) cs
                    (distinct_sources-Waits cs),
              )
        | inr n ↦
            subst
              (λ b.
                All (Waits (if b then add_source c.source_uri (is_quarantined c) rest else rest))
                  (c ∷ cs))
              (sym n) ((λ m. cc), distinct_sources-Waits cs)
      ]

-- After a scan's last step, with the database up, a chunk whose path the pattern of the folder
-- matches is in quarantine exactly if its file is not there, whatever was in quarantine before.
pub quarantine_missing_sources-IsSettled :
    (is_file : String → Bool) (now : ℕ) (folder : String) (rows : List Chunk)
    → All
        (IsSettled is_file (scan_pattern folder))
        (quarantine_missing_sources up (λ _. up) is_file now folder rows)
unfolding quarantine_missing_sources
quarantine_missing_sources-IsSettled is_file now folder rows =
    settle_sources-IsSettled is_file (scan_pattern folder) now _ rows
      (distinct_sources-Waits is_file (scan_pattern folder) rows)
