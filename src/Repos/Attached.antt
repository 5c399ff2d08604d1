-- ===== src/Repos/Attached.antt =====
-- What attach_remote and attach_all leave, when they succeed, of the remotes of a repo that was just added.
use otto_factory.Common.{
  Bool, Bool-cases, List, Option-cases, [], ap, arith, false, inl, inr, none, refl, some, subst,
  sym, true, ℕ, ◌&&◌, ◌++◌, ◌==◌, ◌∙◌, ◌∷◌, ◌≡◌,
}
use otto_factory.Common.Lists.{All, All-append}
use otto_factory.Common.Text.{Text, text_eq, text_eq_refl}
use otto_factory.Error.{ok}
use otto_factory.Error.Laws.{>>=-eq-ok}
use otto_factory.Repos.{Registry, attach_all, attach_remote, has_remote, repo_of_remote}
use otto_factory.Store.{Repo, RepoRemote, Tx}
use otto_factory.Table.{exists_where, fetch_optional}
use mathlib.Core.List.{append-nil, append_assoc}
use otto_factory.Table.Rows.{All-fetch, fetch_optional-exists, fetch_optional-test}
use otto_factory.Table.Append.{exists-append, fetch-append, fetch-append_found, exists-fetch}

abbrev pub has_id_of : ℕ → Repo → Bool
has_id_of id r = r.id == id

-- Each remote leads to a repo that is there, and that is of the org of the remote.
pub record IsLinked (g : Registry) : Type 0 where
  pub there : All (λ (m : RepoRemote). exists_where (has_id_of m.repo_id) g.repos ≡ true) g.remotes
  pub same_org :
      All
        (λ (r : Repo).
          All (λ (m : RepoRemote). (m.repo_id == r.id) ≡ true → m.org_id ≡ r.org_id) g.remotes)
        g.repos

-- The rows that a registration has added to the remotes so far.
abbrev pub IsAdded : Tx → ℕ → List RepoRemote → Type 0
IsAdded tx id added = All (λ (m : RepoRemote). (m.org_id ≡ tx.org) × (m.repo_id ≡ id)) added

module _ (tx : Tx) (id : ℕ) (g : Registry) (k : IsLinked g)
    (fresh : exists_where (has_id_of id) g.repos ≡ false) where
  -- A remote of the table that was there belongs to another repo, which is still there.
  old_owner :
      (m : RepoRemote) (repo : Repo)
      → exists_where (has_id_of m.repo_id) g.repos ≡ true
      → (r : Repo) × (repo_of_remote m (g.repos ++ repo ∷ []) ≡ some r)
  unfolding repo_of_remote
  old_owner m repo h = elim (Option-cases (fetch_optional (has_id_of m.repo_id) g.repos)) [
    | inl e ↦ absurd (ground (arith, fetch_optional-exists (has_id_of m.repo_id) g.repos))
    | inr (r, e) ↦ (r, fetch-append_found (has_id_of m.repo_id) g.repos (repo ∷ []) h ∙ e)
  ]

  not_mine :
      (m : RepoRemote)
      → exists_where (has_id_of m.repo_id) g.repos ≡ true
      → (m.repo_id == id) ≡ false
  not_mine m h = elim (Bool-cases (m.repo_id == id)) [
    | inl e ↦
        let same : m.repo_id ≡ id = ground arith in
        absurd (ground (arith, ap (λ (i : ℕ). exists_where (has_id_of i) g.repos) same))
    | inr e ↦ e
  ]

  abbrev pub during : Repo → List RepoRemote → Registry
  during repo added = record { repos = g.repos ++ repo ∷ []; remotes = g.remotes ++ added }

  abbrev pub is_mine : Text → RepoRemote → Bool
  is_mine n m = m.repo_id == id && text_eq m.normalized n

  -- The key leads to the new repo, by rows that were added for it.
  abbrev Attached : Repo → Text → List RepoRemote → Registry → Type 0
  Attached repo n added t =
      (more : List RepoRemote) × (t ≡ during repo (added ++ more))
      × IsAdded tx id more
      × (exists_where (is_mine n) (g.remotes ++ (added ++ more)) ≡ true)

  taken :
      (repo : Repo) (n : Text) (added : List RepoRemote) (t : Registry)
      → attach_remote tx id n (during repo added) ≡ ok t
      → exists_where (has_remote tx.org n) g.remotes ≡ true
      → ⊥
  unfolding attach_remote
  taken repo n added t h e = elim (Option-cases (fetch_optional (has_remote tx.org n) g.remotes)) [
    | inl e1 ↦ ground (arith, fetch_optional-exists (has_remote tx.org n) g.remotes)
    | inr (m, e1) ↦
        let there =
          All-fetch (λ (x : RepoRemote). exists_where (has_id_of x.repo_id) g.repos ≡ true)
            (has_remote tx.org n) g.remotes m e1 k.there in
        let (r, e2) = old_owner m repo there in
        ground
          (arith, e2, not_mine m there, fetch-append_found (has_remote tx.org n) g.remotes added e)
  ]

  attach_new :
      (repo : Repo) (n : Text) (added : List RepoRemote) (t : Registry)
      → attach_remote tx id n (during repo added) ≡ ok t
      → fetch_optional (has_remote tx.org n) (g.remotes ++ added) ≡ none
      → Attached repo n added t
  unfolding attach_remote exists_where
  attach_new repo n added t h e =
      let new : RepoRemote = record { org_id = tx.org; repo_id = id; normalized = n } in
      let mine = is_mine n in
      let last : exists_where mine (new ∷ []) ≡ true = ground (arith, text_eq_refl n) in
      (
        new ∷ [],
        ground (arith, append_assoc g.remotes added (new ∷ [])),
        ((refl, refl), tt),
        exists-append mine g.remotes (added ++ new ∷ [])
            ∙ ground (arith, exists-append mine added (new ∷ [])),
      )

  attach_again :
      (repo : Repo) (n : Text) (added : List RepoRemote) (t : Registry)
      → attach_remote tx id n (during repo added) ≡ ok t
      → (m : RepoRemote) → fetch_optional (has_remote tx.org n) (g.remotes ++ added) ≡ some m
      → fetch_optional (has_remote tx.org n) added ≡ some m
      → (m.repo_id ≡ id)
      → Attached repo n added t
  unfolding attach_remote has_remote
  attach_again repo n added t h m e e1 own =
      let mine = is_mine n in
      let found = fetch_optional-test (has_remote tx.org n) added m e1 in
      let here = exists-fetch (has_remote tx.org n) mine added m e1 (ground arith) in
      (
        [],
        rw (append-nil added) (elim (Option-cases (repo_of_remote m (g.repos ++ repo ∷ []))) [
          | inl e2 ↦ ground (arith, e, e2)
          | inr (r, e2) ↦ ground (arith, e, e2, own)
        ]),
        tt,
        rw (append-nil added) (exists-append mine g.remotes added ∙ ground (arith, here)),
      )

  -- A key that is attached was free before the registration.
  attach_ok :
      (repo : Repo) (n : Text) (added : List RepoRemote) (t : Registry)
      → IsAdded tx id added
      → attach_remote tx id n (during repo added) ≡ ok t
      → (exists_where (has_remote tx.org n) g.remotes ≡ false) × Attached repo n added t
  attach_ok repo n added t a h =
      let key = has_remote tx.org n in
      elim (Bool-cases (exists_where key g.remotes)) [
        | inl e ↦ absurd (taken repo n added t h e)
        | inr e ↦ (
          e,
          elim (Option-cases (fetch_optional key added)) [
            | inl e1 ↦ attach_new repo n added t h (fetch-append key g.remotes added e ∙ e1)
            | inr (m, e1) ↦
                attach_again repo n added t h m (fetch-append key g.remotes added e ∙ e1) e1
                  (All-fetch (λ (x : RepoRemote). (x.org_id ≡ tx.org) × (x.repo_id ≡ id)) key added
                    m e1 a).1
          ],
        )
      ]

  -- Every key that is attached was free before, and leads to the new repo afterwards.
  abbrev AllAttached : Repo → List Text → List RepoRemote → Registry → Type 0
  AllAttached repo ns added t =
      (more : List RepoRemote) × (t ≡ during repo (added ++ more))
      × IsAdded tx id (added ++ more)
      × All (λ n. exists_where (has_remote tx.org n) g.remotes ≡ false) ns
      × All (λ n. exists_where (is_mine n) (g.remotes ++ (added ++ more)) ≡ true) ns

  pub attach_all_ok :
      (repo : Repo) (ns : List Text) (added : List RepoRemote) (t : Registry)
      → IsAdded tx id added
      → attach_all tx id ns (during repo added) ≡ ok t
      → AllAttached repo ns added t
  unfolding attach_all
  attach_all_ok repo [] added t a h =
      ([], rw (append-nil added) (ground arith), rw (append-nil added) a, tt, tt)
  attach_all_ok repo (n ∷ ns) added t a h =
      let (t1, e, h1) = >>=-eq-ok (attach_remote tx id n (during repo added)) _ h in
      let (free, (more1, e1, a1, reached)) = attach_ok repo n added t1 a e in
      let a2 =
        All-append (λ (m : RepoRemote). (m.org_id ≡ tx.org) × (m.repo_id ≡ id)) added more1 a a1 in
      let (more2, e2, a3, frees, rest) =
        attach_all_ok repo ns (added ++ more1) t a2 (sym (ap (attach_all tx id ns) e1) ∙ h1) in
      let order = append_assoc added more1 more2 in
      (
        more1 ++ more2,
        e2 ∙ ap (during repo) order,
        subst (IsAdded tx id) order a3,
        (free, frees),
        (
          still_reached n (added ++ more1) more2 (added ++ (more1 ++ more2)) order reached,
          subst (λ l. All (λ n. exists_where (is_mine n) (g.remotes ++ l) ≡ true) ns) order rest,
        ),
      )
    where
      still_reached :
          (n : Text) (l more all : List RepoRemote)
          → l ++ more ≡ all
          → exists_where (is_mine n) (g.remotes ++ l) ≡ true
          → exists_where (is_mine n) (g.remotes ++ all) ≡ true
      still_reached n l more all e h =
          subst (λ a. exists_where (is_mine n) (g.remotes ++ a) ≡ true) e
            (ground (
              arith,
              exists-append (is_mine n) g.remotes (l ++ more),
              exists-append (is_mine n) l more,
              exists-append (is_mine n) g.remotes l,
            ))
