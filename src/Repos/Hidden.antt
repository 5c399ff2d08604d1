-- ===== src/Repos/Hidden.antt =====
-- How resolve_repo_visible answers about the repos of teams that the caller is not on.
use otto_factory.Common.{
  Bool, Bool-cases, List, Option, Option-cases, [], arith, false, if◌then◌else◌, inl, inr, none, ap,
  or_else, refl, some, sym, true, unwrap_or, ℕ, ◌∙◌, ◌&&◌, ◌==◌, ◌∷◌, ◌≡◌, ◌≤◌, ◌||◌,
}
use otto_factory.Common.Lists.{All}
use otto_factory.Common.Text.{Text, text_eq}
use otto_factory.Error.{Error, Result, err}
use otto_factory.Remote.{normalize_remote}
use otto_factory.Repos.{
  Registry, RepoRef, as_seen, attempted_of, get_repo_by_slug, has_slug, list_repos_visible, named,
  nothing_supplied, or_unresolved, repo_by_remote, resolve_by_remote, resolve_repo,
  resolve_repo_visible, team_visible, unresolved,
}
use otto_factory.Store.{Repo, RepoRemote, Tx}
use otto_factory.Table.{count_where, exists_where, fetch_optional, select_where}
use otto_factory.Table.Rows.{All-map}
use otto_factory.Teams.{TeamScope, all_teams, allows, is_all, restriction, teams}

abbrev pub when {ℓ} : {A : Type ℓ} → (A → Bool) → Option A → Option A
when q none = none
when q (some x) = if q x then some x else none

module _ {ℓ} {A : Type ℓ} (p q : A → Bool) where
  fetch_none : (t : List A) → count_where p t ≤ 0 → fetch_optional p (select_where q t) ≡ none
  unfolding count_where fetch_optional select_where
  fetch_none [] h = refl
  fetch_none (x ∷ xs) h = ground (arith, fetch_none xs)

  -- Under a key, a selection has the row of the table or nothing.
  fetch-select :
      (t : List A)
      → count_where p t ≤ 1
      → fetch_optional p (select_where q t) ≡ when q (fetch_optional p t)
  unfolding count_where fetch_optional select_where
  fetch-select [] h = refl
  fetch-select (x ∷ xs) h = ground (arith, fetch-select xs, fetch_none xs)

  select-select :
      (t : List A)
      → ((x : A) → p x ≡ true → q x ≡ true)
      → select_where p (select_where q t) ≡ select_where p t
  unfolding select_where
  select-select [] h = refl
  select-select (x ∷ xs) h = ground (arith, h x, select-select xs h)

  exists-select :
      (t : List A)
      → ((x : A) → p x ≡ true → q x ≡ true)
      → exists_where p (select_where q t) ≡ exists_where p t
  unfolding select_where exists_where
  exists-select [] h = refl
  exists-select (x ∷ xs) h = ground (arith, h x, exists-select xs h)

abbrev pub is_reached : Tx → Text → List RepoRemote → Repo → Bool
is_reached tx normalized remotes r =
    r.org_id == tx.org
    && exists_where (λ (m : RepoRemote). m.repo_id == r.id && text_eq m.normalized normalized)
        remotes

abbrev pub seen_repos : TeamScope → Registry → List Repo
seen_repos scope g = select_where (λ (r : Repo). allows scope r.team_id) g.repos

-- The registry with the repos that the scope hides, and their remotes, deleted.
abbrev pub hide : TeamScope → Registry → Registry
hide scope g = record {
  repos = seen_repos scope g;
  remotes =
      select_where
        (λ (m : RepoRemote). exists_where (λ (r : Repo). r.id == m.repo_id) (seen_repos scope g))
        g.remotes;
}

team_visible-allows :
    (scope : TeamScope) (team : Option ℕ)
    → team_visible (restriction scope) team ≡ allows scope team
unfolding restriction allows
team_visible-allows all_teams team = refl
team_visible-allows (teams mine) none = refl
team_visible-allows (teams mine) (some t) = refl

unresolved-hide :
    (tx : Tx) (scope : TeamScope) (g : Registry) (attempted : Text)
    → unresolved tx attempted scope (hide scope g) ≡ unresolved tx attempted scope g
unfolding unresolved list_repos_visible
unresolved-hide tx scope g attempted =
    rw
      (select-select
        (λ (r : Repo).
          r.org_id == tx.org && (false || r.active) && team_visible (restriction scope) r.team_id)
        (λ (r : Repo). allows scope r.team_id) g.repos
        (λ r e. ground (arith, team_visible-allows scope r.team_id)))
      refl

abbrev refuse : Error → Result Repo
refuse e = err e

-- The answer to a lookup, where the scope sees the row that was found or nothing.
answer-hide :
    (tx : Tx) (scope : TeamScope) (g : Registry) (attempted named_as : Text) (o : Option Repo)
    → as_seen tx scope attempted
        (hide scope g)
        (or_unresolved tx named_as (hide scope g) (when (λ (r : Repo). allows scope r.team_id) o))
      ≡ as_seen tx scope attempted g (or_unresolved tx named_as g o)
unfolding unresolved is_all allows
answer-hide tx all_teams g attempted named_as none =
    ap refuse (unresolved-hide tx all_teams g named_as)
answer-hide tx all_teams g attempted named_as (some r) = refl
answer-hide tx (teams mine) g attempted named_as none =
    ap refuse (unresolved-hide tx (teams mine) g attempted)
answer-hide tx (teams mine) g attempted named_as (some r) =
    elim (Bool-cases (allows (teams mine) r.team_id)) [
      | inl e ↦ rw e (rw e refl)
      | inr e ↦ rw e (ap refuse (unresolved-hide tx (teams mine) g attempted))
    ]

-- Each row has the id of a row.
ids_listed :
    (t : List Repo) → All (λ (r : Repo). exists_where (λ (x : Repo). x.id == r.id) t ≡ true) t
unfolding exists_where
ids_listed [] = tt
ids_listed (x ∷ xs) = (
  ground arith,
  All-map (λ (r : Repo). exists_where (λ (y : Repo). y.id == r.id) xs ≡ true)
      (λ (r : Repo). exists_where (λ (y : Repo). y.id == r.id) (x ∷ xs) ≡ true) xs
      (λ r h. ground arith) (ids_listed xs),
)

fetch-same {ℓ} :
    {A : Type ℓ} (p p' : A → Bool) (t : List A)
    → All (λ x. p x ≡ p' x) t
    → fetch_optional p t ≡ fetch_optional p' t
unfolding fetch_optional
fetch-same p p' [] a = refl
fetch-same p p' (x ∷ xs) a = ground (arith, a.0, fetch-same p p' xs a.1)

module _ (to_lowercase : Text → Text) (tx : Tx) (r : RepoRef) (k : Registry) where
  abbrev unnamed : Text
  unnamed = unwrap_or (or_else r.slug r.remote) nothing_supplied

  -- The three ways in which a repo is asked for.
  pub resolve_repo-slug :
      (slug : Text)
      → named r.slug ≡ some slug
      → resolve_repo to_lowercase tx r k ≡ or_unresolved tx slug k (get_repo_by_slug tx slug k)
  unfolding resolve_repo
  resolve_repo-slug slug e = rw (e, resolve_repo) refl

  pub resolve_repo-remote :
      (remote : Text)
      → named r.slug ≡ none
      → named r.remote ≡ some remote
      → resolve_repo to_lowercase tx r k
        ≡ or_unresolved tx unnamed k (repo_by_remote tx (normalize_remote to_lowercase remote) k)
  unfolding resolve_repo resolve_by_remote
  resolve_repo-remote remote e e1 = rw (e, resolve_repo) (rw (e1, resolve_by_remote) refl)

  pub resolve_repo-none :
      named r.slug ≡ none
      → named r.remote ≡ none
      → resolve_repo to_lowercase tx r k ≡ or_unresolved tx unnamed k none
  unfolding resolve_repo resolve_by_remote
  resolve_repo-none e e1 = rw (e, resolve_repo) (rw (e1, resolve_by_remote) refl)

module _ (to_lowercase : Text → Text) (tx : Tx) (scope : TeamScope) (g : Registry)
    (slugs : (slug : Text) → count_where (has_slug tx.org slug) g.repos ≤ 1)
    (keys : (n : Text) → count_where (is_reached tx n g.remotes) g.repos ≤ 1) where
  reached-hide :
      (n : Text) (r : Repo)
      → exists_where (λ (x : Repo). x.id == r.id) (seen_repos scope g) ≡ true
      → is_reached tx n (hide scope g).remotes r ≡ is_reached tx n g.remotes r
  reached-hide n r h =
      rw
        (exists-select (λ (m : RepoRemote). m.repo_id == r.id && text_eq m.normalized n)
          (λ (m : RepoRemote). exists_where (λ (x : Repo). x.id == m.repo_id) (seen_repos scope g))
          g.remotes (λ m e. let same : m.repo_id ≡ r.id = ground arith in rw same h))
        refl

  by_remote-hide :
      (n : Text)
      → repo_by_remote tx n (hide scope g)
        ≡ when (λ (r : Repo). allows scope r.team_id) (repo_by_remote tx n g)
  unfolding repo_by_remote
  by_remote-hide n =
      fetch-same (is_reached tx n (hide scope g).remotes) (is_reached tx n g.remotes)
        (seen_repos scope g)
        (All-map
          (λ (r : Repo). exists_where (λ (x : Repo). x.id == r.id) (seen_repos scope g) ≡ true)
          (λ r. is_reached tx n (hide scope g).remotes r ≡ is_reached tx n g.remotes r)
          (seen_repos scope g) (reached-hide n) (ids_listed (seen_repos scope g)))
      ∙ fetch-select (is_reached tx n g.remotes) (λ (r : Repo). allows scope r.team_id) g.repos
          (keys n)

  by_slug-hide :
      (slug : Text)
      → get_repo_by_slug tx slug (hide scope g)
        ≡ when (λ (r : Repo). allows scope r.team_id) (get_repo_by_slug tx slug g)
  unfolding get_repo_by_slug
  by_slug-hide slug =
      fetch-select (has_slug tx.org slug) (λ (r : Repo). allows scope r.team_id) g.repos
        (slugs slug)

  -- With no two repos of the org under one slug or one remote, resolve_repo_visible answers a caller,
  -- whatever it asks for, as it would if the repos that the caller may not see, and their remotes, had
  -- never been registered: the repo found, the refusal, and the list of slugs in it are the same.
  pub resolve_repo_visible-hide :
      (r : RepoRef)
      → resolve_repo_visible to_lowercase tx r scope g
        ≡ resolve_repo_visible to_lowercase tx r scope (hide scope g)
  unfolding resolve_repo_visible
  resolve_repo_visible-hide r = elim (Option-cases (named r.slug)) [
    | inr (slug, e) ↦
        rw
          (
            resolve_repo-slug to_lowercase tx r g slug e,
            resolve_repo-slug to_lowercase tx r (hide scope g) slug e,
            by_slug-hide slug,
          )
          (sym (answer-hide tx scope g (attempted_of r) slug (get_repo_by_slug tx slug g)))
    | inl e ↦ elim (Option-cases (named r.remote)) [
      | inl e1 ↦
          rw
            (
              resolve_repo-none to_lowercase tx r g e e1,
              resolve_repo-none to_lowercase tx r (hide scope g) e e1,
            )
            (sym (
              answer-hide tx scope g (attempted_of r)
                (unwrap_or (or_else r.slug r.remote) nothing_supplied) none))
      | inr (remote, e1) ↦
          rw
            (
              resolve_repo-remote to_lowercase tx r g remote e e1,
              resolve_repo-remote to_lowercase tx r (hide scope g) remote e e1,
              by_remote-hide (normalize_remote to_lowercase remote),
            )
            (sym (
              answer-hide tx scope g (attempted_of r)
                (unwrap_or (or_else r.slug r.remote) nothing_supplied)
                (repo_by_remote tx (normalize_remote to_lowercase remote) g)))
    ]
  ]
