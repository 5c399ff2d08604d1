-- ===== src/Jobs/Dependencies/Effects.antt =====
-- What a successful set_dependencies checked, and the store that it left.
use otto_factory.Common.{List, arith, false, not, ◌&&◌, ◌||◌, ◌≡◌}
use otto_factory.Common.Lists.{is_empty}
use otto_factory.Common.Text.{Text}
use otto_factory.Error.{db, dependency_cycle, empty_dependencies, invalid, ok}
use otto_factory.Error.Laws.{>>=-eq-ok, guard-eq-ok}
use otto_factory.Jobs.Claim.{has_id}
use otto_factory.Jobs.Dependencies.{
  add_all, dependencies_of, edges, reach, remove_all, set_dependencies,
}
use otto_factory.Jobs.Row.{is_job}
use otto_factory.Store.{Dependency, Store, Tx}
use otto_factory.Table.{exists_where}

pub record Linked (tx : Tx) (id : Text) (add remove : List Text) (s : Store) (deps : List Text)
    (s' : Store) : Type 0 where
  pub added : List Dependency
  pub inserted : add_all tx.org id s.jobs add s.job_dependencies ≡ ok added
  pub acyclic : has_id (reach (edges tx.org (remove_all tx.org id remove added)) id) id ≡ false
  pub store : s' ≡ record s { job_dependencies = remove_all tx.org id remove added }
  pub answer : deps ≡ dependencies_of tx id s'

module _ (tx : Tx) (id : Text) (add remove : List Text) (s : Store) (deps : List Text)
    (s' : Store) where
  pub set_dependencies_ok :
      set_dependencies tx id add remove s ≡ ok (deps, s') → Linked tx id add remove s deps s'
  unfolding set_dependencies
  set_dependencies_ok h =
      let (e0, h0) =
        guard-eq-ok (not (is_empty add && is_empty remove)) (invalid empty_dependencies) _ h in
      let (added, e1, h1) = >>=-eq-ok (add_all tx.org id s.jobs add s.job_dependencies) _ h0 in
      let (e2, h2) = guard-eq-ok (is_empty add || exists_where (is_job tx.org id) s.jobs) db _ h1 in
      let (e3, h3) =
        guard-eq-ok (not (has_id (reach (edges tx.org (remove_all tx.org id remove added)) id) id))
          (dependency_cycle id id) _ h2 in
      record {
        added = added;
        inserted = e1;
        acyclic = ground arith;
        store = ground arith;
        answer = ground arith;
      }
