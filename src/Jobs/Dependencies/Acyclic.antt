-- ===== src/Jobs/Dependencies/Acyclic.antt =====
-- set_dependencies and the deletes leave no job that depends on itself, directly or through others.
use native.Mathlib.Decide.{ℕ_discrete}
use otto_factory.Common.{
  Bool, Bool-cases, List, [], arith, inl, inr, not, subst, sym, true, ℕ, ◌&&◌, ◌++◌, ◌==◌, ◌||◌,
  ◌∷◌, ◌≡◌, ◌⊎◌,
}
use otto_factory.Common.Text.{Text, text_eq, text_eq_refl, text_eq_sound}
use otto_factory.Error.{dependency_cycle, job_not_found, ok}
use otto_factory.Error.Laws.{guard-eq-ok}
use otto_factory.Jobs.Dependencies.{
  add_all, edges, insert_edge, remove_all, same_edge, set_dependencies,
}
use otto_factory.Jobs.Dependencies.Effects.{set_dependencies_ok}
use otto_factory.Jobs.Dependencies.Reach.{
  Leads, and_then, by_edge, has_edge, Leads-trans, reach_complete,
}
use otto_factory.Jobs.Row.{is_job}
use otto_factory.Store.{Dependency, Job, Store, Tx}
use otto_factory.Table.{delete_where, exists_where}

unfoldable pub IsAcyclic : List (Text × Text) → Type 0
IsAcyclic es = (a : Text) → ¬ Leads es a a

abbrev SomeEdge : List (Text × Text) → List (Text × Text) → Text → Type 0
SomeEdge new old i =
    (a b : Text) → has_edge new a b ≡ true → (has_edge old a b || text_eq a i) ≡ true

module _ (new old : List (Text × Text)) where
  Leads-more :
      ((a b : Text) → has_edge new a b ≡ true → has_edge old a b ≡ true)
      → (a b : Text) → Leads new a b
      → Leads old a b
  Leads-more sub a b (by_edge e) = by_edge (sub a b e)
  Leads-more sub a b (and_then e p) = and_then (sub a _ e) (Leads-more sub _ b p)

  -- A graph with fewer edges has no more cycles.
  pub fewer-IsAcyclic :
      ((a b : Text) → has_edge new a b ≡ true → has_edge old a b ≡ true)
      → IsAcyclic old
      → IsAcyclic new
  unfolding IsAcyclic
  fewer-IsAcyclic sub acyclic a p = acyclic a (Leads-more sub a a p)

  module _ (i : Text) (some_edge : SomeEdge new old i) where
    -- A path is a path of old edges, or it goes through `i`.
    through :
        (a b : Text) → Leads new a b → Leads old a b ⊎ (((a ≡ i) ⊎ Leads new a i) × Leads new i b)
    through a b (by_edge e) = elim (Bool-cases (has_edge old a b)) [
      | inl o ↦ inl (by_edge o)
      | inr n ↦
          let here : a ≡ i = text_eq_sound a i (ground (arith, some_edge a b e)) in
          inr (inl here, subst (λ x. Leads new x b) here (by_edge e))
    ]
    through a b (and_then {b = c} e p) = elim (Bool-cases (has_edge old a c)) [
      | inl o ↦ elim (through c b p) [
        | inl q ↦ inl (and_then o q)
        | inr (inl h, q) ↦ inr (inr (subst (λ x. Leads new a x) h (by_edge e)), q)
        | inr (inr l, q) ↦ inr (inr (and_then e l), q)
      ]
      | inr n ↦
          let here : a ≡ i = text_eq_sound a i (ground (arith, some_edge a c e)) in
          inr (inl here, subst (λ x. Leads new x b) here (and_then e p))
    ]

    -- If every new edge leaves `i` and no path leads from `i` to itself, no cycle is new.
    pub added-IsAcyclic : ¬ Leads new i i → IsAcyclic old → IsAcyclic new
    unfolding IsAcyclic
    added-IsAcyclic none_at acyclic a p = elim (through a a p) [
      | inl q ↦ acyclic a q
      | inr (inl h, q) ↦ none_at (subst (λ x. Leads new i x) h q)
      | inr (inr l, q) ↦ none_at (Leads-trans new i a i q l)
    ]

edge-append :
    (o : ℕ) (deps : List Dependency) (d : Dependency) (a b : Text)
    → has_edge (edges o (deps ++ d ∷ [])) a b ≡ (
        has_edge (edges o deps) a b
        || (d.org_id == o && text_eq d.job_id a && text_eq d.depends_on b))
unfolding edges has_edge
edge-append o [] d a b = ground arith
edge-append o (x ∷ xs) d a b = ground (arith, edge-append o xs d a b)

pub edge-delete :
    (o : ℕ) (p : Dependency → Bool) (deps : List Dependency) (a b : Text)
    → has_edge (edges o (delete_where p deps)) a b ≡ true
    → has_edge (edges o deps) a b ≡ true
unfolding edges has_edge delete_where
edge-delete o p [] a b h = h
edge-delete o p (x ∷ xs) a b h = ground (arith, edge-delete o p xs a b)

edge-insert :
    (o org : ℕ) (i dep : Text) (deps : List Dependency) (a b : Text)
    → has_edge (edges o (insert_edge org i dep deps)) a b ≡ true
    → (has_edge (edges o deps) a b || (org == o && text_eq i a)) ≡ true
unfolding insert_edge
edge-insert o org i dep deps a b h =
    ground (arith, edge-append o deps (record { org_id = org; job_id = i; depends_on = dep }) a b)

edge-add_all :
    (o org : ℕ) (i : Text) (jobs : List Job) (add : List Text) (deps added : List Dependency)
    (a b : Text)
    → add_all org i jobs add deps ≡ ok added
    → has_edge (edges o added) a b ≡ true
    → (has_edge (edges o deps) a b || (org == o && text_eq i a)) ≡ true
unfolding add_all
edge-add_all o org i jobs [] deps added a b e h = ground arith
edge-add_all o org i jobs (dep ∷ rest) deps added a b e h =
    let (e0, h0) = guard-eq-ok (not (text_eq dep i)) (dependency_cycle i i) _ e in
    let (e1, h1) = guard-eq-ok (exists_where (is_job org dep) jobs) (job_not_found dep) _ h0 in
    ground (
      arith,
      edge-add_all o org i jobs rest (insert_edge org i dep deps) added a b h1 h,
      edge-insert o org i dep deps a b,
    )

edge-remove_all :
    (o org : ℕ) (i : Text) (remove : List Text) (deps : List Dependency) (a b : Text)
    → has_edge (edges o (remove_all org i remove deps)) a b ≡ true
    → has_edge (edges o deps) a b ≡ true
unfolding remove_all
edge-remove_all o org i [] deps a b h = h
edge-remove_all o org i (dep ∷ rest) deps a b h =
    edge-delete o (same_edge org i dep) deps a b
      (edge-remove_all o org i rest (delete_where (same_edge org i dep) deps) a b h)

-- No org has a job that depends on itself.
unfoldable pub NoCycles : Store → Type 0
NoCycles s = (o : ℕ) → IsAcyclic (edges o s.job_dependencies)

pub same-NoCycles :
    (s s' : Store) → s'.job_dependencies ≡ s.job_dependencies → NoCycles s → NoCycles s'
unfolding NoCycles
same-NoCycles s s' e v o = subst (λ d. IsAcyclic (edges o d)) (sym e) (v o)

pub set_dependencies-NoCycles :
    (tx : Tx) (i : Text) (add remove : List Text) (s : Store) (deps : List Text) (s' : Store)
    → set_dependencies tx i add remove s ≡ ok (deps, s')
    → NoCycles s
    → NoCycles s'
unfolding NoCycles
set_dependencies-NoCycles tx i add remove s deps s' h v o =
    let l = set_dependencies_ok tx i add remove s deps s' h in
    let new = remove_all tx.org i remove l.added in
    let sub = λ (a b : Text) (e : has_edge (edges o new) a b ≡ true).
      edge-add_all o tx.org i s.jobs add s.job_dependencies l.added a b l.inserted
        (edge-remove_all o tx.org i remove l.added a b e) in
    let graph : IsAcyclic (edges o new) = elim (ℕ_discrete tx.org o) [
      | yes e ↦
          let checked : ¬ Leads (edges o new) i i =
            λ p. ground (arith, l.acyclic, e, reach_complete (edges o new) i i p) in
          added-IsAcyclic (edges o new) (edges o s.job_dependencies) i
            (λ a b x. ground (arith, sub a b x, text_eq_sound i a, text_eq_refl a)) checked (v o)
      | no n ↦
          fewer-IsAcyclic (edges o new) (edges o s.job_dependencies)
            (λ a b x. ground (arith, sub a b x, n)) (v o)
    ] in
    subst (λ (t : Store). IsAcyclic (edges o t.job_dependencies)) (sym l.store) graph
