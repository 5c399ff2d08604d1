-- ===== src/Jobs/Dependencies.antt =====
-- set_dependencies and dependencies_of: the edges between jobs, and the check that a job does not
-- come to depend on itself.
pub mod Effects
pub mod Reach
pub mod Acyclic
use otto_factory.Common.{
  Bool, List, [], if◌then◌else◌, not, suc, zero, ℕ, ◌&&◌, ◌++◌, ◌==◌, ◌||◌, ◌∷◌,
}
use otto_factory.Common.Lists.{is_empty, length}
use otto_factory.Common.Text.{Text, text_eq}
use otto_factory.Error.{
  Result, db, dependency_cycle, empty_dependencies, guard, invalid, job_not_found, ok, ◌>>=◌, ◌>>◌,
}
use otto_factory.Jobs.Claim.{has_id, sort_dedup}
use otto_factory.Jobs.Row.{is_job}
use otto_factory.Store.{Dependency, Job, Store, Tx}
use otto_factory.Table.{delete_where, exists_where}

-- The edges of one org.
unfoldable pub edges : ℕ → List Dependency → List (Text × Text)
edges org [] = []
edges org (d ∷ ds) =
    if d.org_id == org then (d.job_id, d.depends_on) ∷ edges org ds else edges org ds

-- The recursive term of `reach`: what the rows found so far depend on, without the rows found.
unfoldable pub step : List (Text × Text) → List Text → List Text
step [] found = []
step ((a, b) ∷ es) found =
    if has_id found a && not (has_id found b) then b ∷ step es found else step es found

-- `WITH RECURSIVE … UNION …`: until a round finds nothing new. A round that finds something uses up
-- an edge, so the number of edges is enough fuel.
unfoldable pub close_under : ℕ → List (Text × Text) → List Text → List Text
close_under zero es found = found
close_under (suc fuel) es found = elim (step es found) [
  | [] ↦ found
  | x ∷ xs ↦ close_under fuel es ((x ∷ xs) ++ found)
]

unfoldable pub direct : List (Text × Text) → Text → List Text
direct [] id = []
direct ((a, b) ∷ es) id = if text_eq a id then b ∷ direct es id else direct es id

-- Every job that `id` depends on, directly or through others.
unfoldable pub reach : List (Text × Text) → Text → List Text
unfolding close_under step direct
reach es id = close_under (length es) es (direct es id)

unfoldable pub same_edge : ℕ → Text → Text → Dependency → Bool
same_edge org id dep d = d.org_id == org && text_eq d.job_id id && text_eq d.depends_on dep

-- `INSERT … ON CONFLICT DO NOTHING`.
unfoldable pub insert_edge : ℕ → Text → Text → List Dependency → List Dependency
unfolding same_edge
insert_edge org id dep deps =
    if exists_where (same_edge org id dep) deps
    then deps
    else deps ++ record { org_id = org; job_id = id; depends_on = dep } ∷ []

unfoldable pub add_all :
    ℕ → Text → List Job → List Text → List Dependency → Result (List Dependency)
unfolding insert_edge
add_all org id jobs [] deps = ok deps
add_all org id jobs (dep ∷ rest) deps = do
  guard (not (text_eq dep id)) (dependency_cycle id id)
  guard (exists_where (is_job org dep) jobs) (job_not_found dep)
  add_all org id jobs rest (insert_edge org id dep deps)

unfoldable pub remove_all : ℕ → Text → List Text → List Dependency → List Dependency
unfolding same_edge
remove_all org id [] deps = deps
remove_all org id (dep ∷ rest) deps =
    remove_all org id rest (delete_where (same_edge org id dep) deps)

-- `ORDER BY depends_on`; the primary key leaves no edge twice.
unfoldable pub dependencies_of : Tx → Text → Store → List Text
unfolding edges direct
dependencies_of tx id s = sort_dedup (direct (edges tx.org s.job_dependencies) id)

-- The row of `job_dependencies` has a foreign key on `job_id`, checked by the inserts.
unfoldable pub set_dependencies :
    Tx → Text → List Text → List Text → Store → Result (List Text × Store)
unfolding add_all remove_all edges reach dependencies_of
set_dependencies tx id add remove s = do
  guard (not (is_empty add && is_empty remove)) (invalid empty_dependencies)
  added ← add_all tx.org id s.jobs add s.job_dependencies
  guard (is_empty add || exists_where (is_job tx.org id) s.jobs) db
  let deps = remove_all tx.org id remove added
  guard (not (has_id (reach (edges tx.org deps) id) id)) (dependency_cycle id id)
  let s1 = record s { job_dependencies = deps }
  ok (dependencies_of tx id s1, s1)
