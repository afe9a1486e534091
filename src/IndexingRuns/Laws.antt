-- ===== src/IndexingRuns/Laws.antt =====
-- The totals of the summary.
use pgvector_ragindexer.Base.{
  ℕ, ◌+◌, ◌≡◌, true, inl, inr, List, [], ◌∷◌, arith, Bool-cases, if◌then◌else◌,
}
use pgvector_ragindexer.Sql.{Link, up, down, is_true, select, count}
use pgvector_ragindexer.IndexingRuns.{
  Run, RunStatus, running, success, partial, failed, terminal, has_status, counted, ended,
  get_run_summary,
}

one_of_three :
    (s : RunStatus) (a b c n : ℕ)
    → n ≡ a + b + c
    → terminal s ≡ true
    → n + 1
      ≡ (if has_status success s then a + 1 else a)
        + (if has_status failed s then b + 1 else b)
        + (if has_status partial s then c + 1 else c)
one_of_three running a b c n e t = cc
one_of_three success a b c n e t = omega (arith, e)
one_of_three partial a b c n e t = omega (arith, e)
one_of_three failed a b c n e t = omega (arith, e)

ended-counted :
    (rows : List Run)
    → count ended rows
      ≡ counted success (select ended rows)
        + counted failed (select ended rows)
        + counted partial (select ended rows)
unfolding count select
ended-counted [] = omega arith
ended-counted (r ∷ rs) = elim (Bool-cases (is_true (ended r))) [
  | inl y ↦
      let n =
        one_of_three r.status (counted success (select ended rs)) (counted failed (select ended rs))
          (counted partial (select ended rs)) (count ended rs) (ended-counted rs)
          (ground (arith, y)) in
      rw y (ground (arith, n))
  | inr n ↦ rw n (ended-counted rs)
]

-- The total of the summary is the sum of its three parts, and no run that is under way is in it:
-- every run that ended is counted once.
pub get_run_summary-total :
    (k : Link) (rows : List Run)
    → let s = get_run_summary k rows in s.total_runs ≡ s.successful + s.failed + s.partial
unfolding get_run_summary
get_run_summary-total down rows = omega arith
get_run_summary-total up rows = ended-counted rows
