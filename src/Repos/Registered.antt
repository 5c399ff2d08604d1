-- ===== src/Repos/Registered.antt =====
-- How a repo that was registered resolves, under its slug and under its remotes.
use otto_factory.Common.{
  Bool-cases, List, [], ap, arith, false, inl, inr, none, not, refl, some, subst, true, ℕ, ◌&&◌,
  ◌++◌, ◌==◌, ◌∙◌, ◌∷◌, ◌≡◌, ◌⊎◌,
}
use otto_factory.Common.Lists.{All, any}
use otto_factory.Common.Text.{Text, text_eq, text_eq_refl, text_eq_sound}
use otto_factory.Error.{ok, repo_slug_taken}
use otto_factory.Error.Laws.{>>=-eq-ok, guard-eq-ok}
use otto_factory.Remote.{normalize_remote}
use otto_factory.Repos.{
  NewRepo, Registry, RepoRef, attach_all, get_repo_by_slug, has_remote, has_slug, keys_of, named,
  register_repo, repo_by_remote, or_unresolved, repo_row, resolve_repo, team_in_org,
}
use otto_factory.Repos.Hidden.{is_reached, resolve_repo-remote, resolve_repo-slug}
use otto_factory.RepoSlug.{validate}
use otto_factory.Store.{Repo, RepoRemote, Tx}
use otto_factory.Table.{exists_where, fetch_optional}
use mathlib.Core.List.{append-nil}
use otto_factory.Table.Rows.{All-both, All-map, exists-false}
use otto_factory.Table.Each.{exists-none}
use otto_factory.Table.Append.{exists-append, fetch-append}
use otto_factory.Repos.Attached.{has_id_of, IsLinked, IsAdded, during, is_mine, attach_all_ok}

module _ (tx : Tx) (id : ℕ) (g : Registry) (k : IsLinked g)
    (fresh : exists_where (has_id_of id) g.repos ≡ false) where
  -- A key that was free leads to none of the repos that were there.
  unreached :
      (n : Text) (added : List RepoRemote) (r : Repo)
      → IsAdded tx id added
      → exists_where (has_remote tx.org n) g.remotes ≡ false
      → has_id_of id r ≡ false
      → All (λ (m : RepoRemote). (m.repo_id == r.id) ≡ true → m.org_id ≡ r.org_id) g.remotes
      → is_reached tx n (g.remotes ++ added) r ≡ false
  unfolding has_remote
  unreached n added r a free other same = elim (Bool-cases (r.org_id == tx.org)) [
    | inr e ↦ rw e refl
    | inl e ↦
        let leads = λ (m : RepoRemote). m.repo_id == r.id && text_eq m.normalized n in
        let before : exists_where leads g.remotes ≡ false = exists-none leads g.remotes (
          All-map
            (λ (m : RepoRemote).
              (has_remote tx.org n m ≡ false) × ((m.repo_id == r.id) ≡ true → m.org_id ≡ r.org_id))
            (λ (m : RepoRemote). leads m ≡ false) g.remotes
            (λ m h. elim (Bool-cases (m.repo_id == r.id)) [
              | inl y ↦ let org = h.1 y in ground (arith, h.0)
              | inr z ↦ rw z refl
            ])
            (All-both (λ (m : RepoRemote). has_remote tx.org n m ≡ false)
              (λ (m : RepoRemote). (m.repo_id == r.id) ≡ true → m.org_id ≡ r.org_id) g.remotes
              (exists-false (has_remote tx.org n) g.remotes free) same)) in
        let after : exists_where leads added ≡ false = exists-none leads added (
          All-map (λ (m : RepoRemote). (m.org_id ≡ tx.org) × (m.repo_id ≡ id))
            (λ (m : RepoRemote). leads m ≡ false) added (λ m h. ground (arith, h.1)) a) in
        ground (arith, exists-append leads g.remotes added)
  ]

  by_remote :
      (repo : Repo) (n : Text) (added : List RepoRemote)
      → repo.id ≡ id
      → repo.org_id ≡ tx.org
      → IsAdded tx id added
      → exists_where (has_remote tx.org n) g.remotes ≡ false
      → exists_where (is_mine tx id g k fresh n) (g.remotes ++ added) ≡ true
      → repo_by_remote tx n (during tx id g k fresh repo added) ≡ some repo
  unfolding repo_by_remote fetch_optional
  by_remote repo n added same own a free here =
      let p = is_reached tx n (g.remotes ++ added) in
      let none_before : exists_where p g.repos ≡ false = exists-none p g.repos (
        All-map
          (λ (r : Repo).
            (has_id_of id r ≡ false)
            × All (λ (m : RepoRemote). (m.repo_id == r.id) ≡ true → m.org_id ≡ r.org_id) g.remotes)
          (λ r. p r ≡ false) g.repos (λ r h. unreached n added r a free h.0 h.1)
          (All-both (λ (r : Repo). has_id_of id r ≡ false)
            (λ (r : Repo).
              All (λ (m : RepoRemote). (m.repo_id == r.id) ≡ true → m.org_id ≡ r.org_id) g.remotes)
            g.repos (exists-false (has_id_of id) g.repos fresh) k.same_org)) in
      let mine : p repo ≡ true = rw (same, own) (ground (arith, here)) in
      fetch-append p g.repos (repo ∷ []) none_before ∙ ground (arith, mine)

-- What holds of each text of a list holds of one that it has.
All-has :
    (P : Text → Type 0) (n : Text) (ns : List Text)
    → any (λ key. text_eq key n) ns ≡ true
    → All P ns
    → P n
All-has P n [] h a = absurd (ground arith)
All-has P n (x ∷ xs) h a = elim (Bool-cases (text_eq x n)) [
  | inl e ↦ subst P (text_eq_sound x n e) a.0
  | inr e ↦ All-has P n xs (ground arith) a.1
]

module _ (to_lowercase : Text → Text) (tx : Tx) (id : ℕ) (new : NewRepo) (g : Registry)
    (k : IsLinked g) (fresh : exists_where (has_id_of id) g.repos ≡ false) where
  -- By its slug, or, with no slug named, by a remote whose key is that of one registered with it.
  abbrev pub AsksFor : RepoRef → Repo → Type 0
  AsksFor r repo =
      (named r.slug ≡ some repo.slug)
      ⊎ ((remote : Text) × (named r.slug ≡ none)
          × (named r.remote ≡ some remote)
          × (any (λ key. text_eq key (normalize_remote to_lowercase remote))
                (keys_of to_lowercase new.remotes)
              ≡ true))

  by_slug :
      (repo : Repo) (added : List RepoRemote)
      → repo.org_id ≡ tx.org
      → exists_where (has_slug tx.org repo.slug) g.repos ≡ false
      → get_repo_by_slug tx repo.slug (during tx id g k fresh repo added) ≡ some repo
  unfolding get_repo_by_slug has_slug fetch_optional
  by_slug repo added own free =
      fetch-append (has_slug tx.org repo.slug) g.repos (repo ∷ []) free
      ∙ ground (arith, own, text_eq_refl repo.slug)

  found :
      (repo : Repo) (g' : Registry) (r : RepoRef)
      → repo.id ≡ id
      → repo.org_id ≡ tx.org
      → exists_where (has_slug tx.org repo.slug) g.repos ≡ false
      → attach_all tx id
          (keys_of to_lowercase new.remotes)
          (record g { repos = g.repos ++ repo ∷ [] })
        ≡ ok g'
      → AsksFor r repo
      → resolve_repo to_lowercase tx r g' ≡ ok repo
  found repo g' r same own free h asks =
      let keys = keys_of to_lowercase new.remotes in
      let h1 : attach_all tx id keys (during tx id g k fresh repo []) ≡ ok g' =
        rw (append-nil g.remotes) h in
      let (more, e, added, frees, reaches) = attach_all_ok tx id g k fresh repo keys [] g' tt h1 in
      elim asks [
        | inl e1 ↦
            resolve_repo-slug to_lowercase tx r g' repo.slug e1
            ∙ ap (or_unresolved tx repo.slug g')
                (ap (get_repo_by_slug tx repo.slug) e ∙ by_slug repo more own free)
        | inr (remote, e1, e2, e3) ↦
            let n = normalize_remote to_lowercase remote in
            resolve_repo-remote to_lowercase tx r g' remote e1 e2
            ∙ ap (or_unresolved tx _ g') (
                ap (repo_by_remote tx n) e
                ∙ by_remote tx id g k fresh repo n more same own added
                    (All-has (λ n. exists_where (has_remote tx.org n) g.remotes ≡ false) n keys e3
                      frees)
                    (All-has
                      (λ n. exists_where (is_mine tx id g k fresh n) (g.remotes ++ more) ≡ true) n
                      keys e3 reaches))
      ]

  -- On a registry whose remotes lead to repos that are there and of the same org, under an id that no
  -- repo has: a repo that register_repo has registered is the one that resolve_repo finds for its slug,
  -- and, with no slug named, for any spelling of a remote that normalizes to a key registered with it.
  pub register_repo-resolve_repo :
      (repo : Repo) (g' : Registry) (r : RepoRef)
      → register_repo to_lowercase tx id new g ≡ ok (repo, g')
      → AsksFor r repo
      → resolve_repo to_lowercase tx r g' ≡ ok repo
  unfolding register_repo
  register_repo-resolve_repo repo g' r h asks =
      let (slug, e0, h0) = >>=-eq-ok (validate new.slug) _ h in
      let (team, e1, h1) = >>=-eq-ok (team_in_org tx new.team_id) _ h0 in
      let (e2, h2) =
        guard-eq-ok (not (exists_where (has_slug tx.org slug) g.repos)) (repo_slug_taken slug) _
          h1 in
      let (g1, e3, h3) = >>=-eq-ok (attach_all tx id (keys_of to_lowercase new.remotes) _) _ h2 in
      let row = repo_row tx id new slug team (keys_of to_lowercase new.remotes) in
      let is_row : row ≡ repo = cc in
      let is_left : g1 ≡ g' = cc in
      subst (λ (x : Repo). AsksFor r x → resolve_repo to_lowercase tx r g' ≡ ok x) is_row
        (found row g' r (unfold repo_row in refl) (unfold repo_row in refl)
          (unfold repo_row in ground arith) (e3 ∙ ap ok is_left))
        asks
