-- ===== src/Repos.antt =====
-- crates/of-core/src/repos.rs: the registry of repos and of the remotes that lead to them. The id of a
-- new row, which the database makes, is an argument; so is Unicode's lower case, which normalizes remotes.
pub mod Hidden
pub mod Attached
pub mod Registered
use otto_factory.Common.{
  Bool, List, Option, [], false, if◌then◌else◌, map, none, not, or_else, some, true, unwrap_or, ℕ,
  ◌&&◌, ◌++◌, ◌==◌, ◌∷◌, ◌||◌,
}
use otto_factory.Common.Int.{clamp, pos, ℤ}
use otto_factory.Common.Lists.{is_empty, take}
use otto_factory.Common.Text.{Text, codes, text_eq, text_ltb, trim}
use otto_factory.Error.{
  Error, Result, db, err, guard, invalid, not_a_remote, ok, ok_or, remote_taken, repo_not_found,
  repo_slug_taken, repo_unresolved, ◌>>=◌, ◌>>◌,
}
use otto_factory.Jobs.Cancel.{is_repo}
use otto_factory.Remote.{from_normalized, normalize_remote}
use otto_factory.RepoSlug.{render_known, validate}
use otto_factory.Store.{Provider, Repo, RepoRemote, Tx, other_provider}
use otto_factory.Table.{exists_where, fetch_optional, select_where, update_where}
use otto_factory.Teams.{
  TeamScope, VerifiedTeam, all_teams, allows, has_team, in_org, is_all, restriction,
}

pub record Registry : Type 0 where
  pub repos : List Repo
  pub remotes : List RepoRemote

pub record NewRepo : Type 0 where
  pub slug : Text
  pub name : Option Text
  pub remotes : List Text
  pub provider : Option Provider
  pub default_branch : Option Text
  pub team_id : Option VerifiedTeam
  pub default_agent_type : Option Text
  pub tracker_binding : Option Text
  pub created_by : Option ℕ

pub record RepoRef : Type 0 where
  pub slug : Option Text
  pub remote : Option Text

-- `team_id` is absent, or the team to move to, or none.
pub record RepoPatch : Type 0 where
  pub name : Option Text
  pub default_branch : Option Text
  pub team_id : Option (Option VerifiedTeam)
  pub default_agent_type : Option Text
  pub tracker_binding : Option Text
  pub active : Option Bool
  pub add_remotes : List Text

unfoldable pub has_slug : ℕ → Text → Repo → Bool
has_slug org slug r = r.org_id == org && text_eq r.slug slug

unfoldable pub has_remote : ℕ → Text → RepoRemote → Bool
has_remote org normalized m = m.org_id == org && text_eq m.normalized normalized

unfoldable pub get_repo_by_slug : Tx → Text → Registry → Option Repo
unfolding has_slug
get_repo_by_slug tx slug g = fetch_optional (has_slug tx.org slug) g.repos

-- `JOIN repos r ON r.id = m.repo_id`.
unfoldable pub repo_of_remote : RepoRemote → List Repo → Option Repo
repo_of_remote m repos = fetch_optional (λ (r : Repo). r.id == m.repo_id) repos

abbrev pub slug_of : Option Repo → Option Text
slug_of none = none
slug_of (some r) = some r.slug

abbrev pub refuse_taken : ℕ → Text → RepoRemote → Option Text → Registry → Result Registry
refuse_taken repo_id normalized m none g = ok g
refuse_taken repo_id normalized m (some slug) g =
    if m.repo_id == repo_id then ok g else err (remote_taken normalized slug)

-- `ON CONFLICT (org_id, normalized) DO NOTHING`; the foreign key wants the repo to be there.
unfoldable pub attach_remote : Tx → ℕ → Text → Registry → Result Registry
unfolding has_remote repo_of_remote
attach_remote tx repo_id normalized g =
    elim (fetch_optional (has_remote tx.org normalized) g.remotes) [
      | none ↦
          if exists_where (λ (r : Repo). r.id == repo_id) g.repos
          then ok (record g {
            remotes =
                g.remotes
                ++ record { org_id = tx.org; repo_id = repo_id; normalized = normalized } ∷ [];
          })
          else err db
      | some m ↦ refuse_taken repo_id normalized m (slug_of (repo_of_remote m g.repos)) g
    ]

unfoldable pub attach_all : Tx → ℕ → List Text → Registry → Result Registry
unfolding attach_remote
attach_all tx repo_id [] g = ok g
attach_all tx repo_id (n ∷ ns) g = do g1 ← attach_remote tx repo_id n g; attach_all tx repo_id ns g1

-- `ORDER BY slug`.
unfoldable pub insert_by_slug : Repo → List Repo → List Repo
insert_by_slug r [] = r ∷ []
insert_by_slug r (k ∷ ks) = if text_ltb k.slug r.slug then k ∷ insert_by_slug r ks else r ∷ k ∷ ks

unfoldable pub order_by_slug : List Repo → List Repo
unfolding insert_by_slug
order_by_slug [] = []
order_by_slug (r ∷ rs) = insert_by_slug r (order_by_slug rs)

-- `limit.unwrap_or(200).clamp(1, 1000)`.
abbrev pub repo_limit : Option ℤ → ℕ
repo_limit limit = clamp (unwrap_or limit (pos 200)) 1 1000

-- `team_id IS NULL OR team_id = ANY($4)`, all rows if the array is NULL.
abbrev pub team_visible : Option (List ℕ) → Option ℕ → Bool
team_visible none team = true
team_visible (some mine) none = true
team_visible (some mine) (some t) = has_team mine t

unfoldable pub list_repos_visible : Tx → Bool → Option ℤ → TeamScope → Registry → List Repo
unfolding order_by_slug
list_repos_visible tx include_inactive limit scope g = take (repo_limit limit) (
    order_by_slug (
      select_where
        (λ (r : Repo).
          r.org_id == tx.org
          && (include_inactive || r.active)
          && team_visible (restriction scope) r.team_id)
        g.repos))

unfoldable pub list_repos : Tx → Bool → Option ℤ → Registry → List Repo
unfolding order_by_slug
list_repos tx include_inactive limit g = take (repo_limit limit) (
    order_by_slug
      (select_where (λ (r : Repo). r.org_id == tx.org && (include_inactive || r.active)) g.repos))

unfoldable pub unresolved : Tx → Text → TeamScope → Registry → Error
unfolding list_repos_visible
unresolved tx attempted scope g = repo_unresolved attempted (
    render_known
      (map (λ (r : Repo). r.slug) (list_repos_visible tx false (some (pos 1000)) scope g)))

-- `.filter(|s| !s.trim().is_empty())`.
abbrev pub named : Option Text → Option Text
named none = none
named (some s) = if is_empty (trim s) then none else some s

abbrev pub nothing_supplied : Text
nothing_supplied = codes "(nothing supplied)"

unfoldable pub attempted_of : RepoRef → Text
attempted_of r = unwrap_or (or_else (named r.slug) r.remote) nothing_supplied

-- Whether the scope may see the repo as it now stands; a row lock keeps it so until the commit.
unfoldable pub hold_repo_visible : Tx → ℕ → TeamScope → Registry → Bool
hold_repo_visible tx id scope g =
    is_all scope || holder (fetch_optional (is_repo tx.org id) g.repos)
  where
    holder : Option Repo → Bool
    holder none = false
    holder (some r) = allows scope r.team_id

-- A refusal of any kind, by what the code matches on: the repo does not resolve.
abbrev pub as_seen : Tx → TeamScope → Text → Registry → Result Repo → Result Repo
as_seen tx scope attempted g (ok repo) =
    if allows scope repo.team_id then ok repo else err (unresolved tx attempted scope g)
as_seen tx scope attempted g (err (repo_unresolved a known)) =
    if is_all scope then err (repo_unresolved a known) else err (unresolved tx attempted scope g)
as_seen tx scope attempted g (err e) = err e

abbrev pub or_unresolved : Tx → Text → Registry → Option Repo → Result Repo
or_unresolved tx attempted g none = err (unresolved tx attempted all_teams g)
or_unresolved tx attempted g (some repo) = ok repo

abbrev pub infer_provider : List Text → Provider
infer_provider [] = other_provider
infer_provider (n ∷ ns) = from_normalized n

abbrev pub team_in_org : Tx → Option VerifiedTeam → Result (Option ℕ)
team_in_org tx none = ok none
team_in_org tx (some v) = do t ← in_org v tx.org; ok (some t)

abbrev pub patched_team : Option (Option ℕ) → Option ℕ → Option ℕ
patched_team none team = team
patched_team (some to) team = to

unfoldable pub patch_row : RepoPatch → Option (Option ℕ) → Repo → Repo
patch_row patch team_id r = record r {
  name = unwrap_or patch.name r.name;
  default_branch = unwrap_or patch.default_branch r.default_branch;
  team_id = patched_team team_id r.team_id;
  default_agent_type = or_else patch.default_agent_type r.default_agent_type;
  tracker_binding = unwrap_or patch.tracker_binding r.tracker_binding;
  active = unwrap_or patch.active r.active;
}

abbrev pub patch_team : Tx → Option (Option VerifiedTeam) → Result (Option (Option ℕ))
patch_team tx none = ok none
patch_team tx (some v) = do t ← team_in_org tx v; ok (some t)

-- The remotes of an org, joined with their repos: the first that matches in both.
unfoldable pub repo_by_remote : Tx → Text → Registry → Option Repo
unfolding has_remote
repo_by_remote tx normalized g =
    fetch_optional
      (λ (r : Repo).
        r.org_id == tx.org
        && exists_where (λ (m : RepoRemote). m.repo_id == r.id && text_eq m.normalized normalized)
            g.remotes)
      g.repos

unfoldable pub repo_row : Tx → ℕ → NewRepo → Text → Option ℕ → List Text → Repo
repo_row tx id new slug team_id normalized = record {
  id = id;
  org_id = tx.org;
  slug = slug;
  name = unwrap_or new.name slug;
  provider = unwrap_or new.provider (infer_provider normalized);
  default_branch = unwrap_or new.default_branch (codes "main");
  team_id = team_id;
  default_agent_type = new.default_agent_type;
  tracker_binding = unwrap_or new.tracker_binding (codes "{}");
  active = true;
  created_at = tx.now;
  created_by = new.created_by;
}

module _ (to_lowercase : Text → Text) where
  unfoldable pub resolve_by_remote : Tx → RepoRef → Registry → Result Repo
  unfolding repo_by_remote
  resolve_by_remote tx r g = elim (named r.remote) [
    | none ↦ err (unresolved tx (unwrap_or (or_else r.slug r.remote) nothing_supplied) all_teams g)
    | some remote ↦
        or_unresolved tx (unwrap_or (or_else r.slug r.remote) nothing_supplied) g
          (repo_by_remote tx (normalize_remote to_lowercase remote) g)
  ]

  -- A slug that misses does not fall through to the remote.
  unfoldable pub resolve_repo : Tx → RepoRef → Registry → Result Repo
  unfolding get_repo_by_slug resolve_by_remote
  resolve_repo tx r g = elim (named r.slug) [
    | none ↦ resolve_by_remote tx r g
    | some slug ↦ or_unresolved tx slug g (get_repo_by_slug tx slug g)
  ]

  unfoldable pub resolve_repo_visible : Tx → RepoRef → TeamScope → Registry → Result Repo
  unfolding resolve_repo attempted_of unresolved
  resolve_repo_visible tx r scope g = as_seen tx scope (attempted_of r) g (resolve_repo tx r g)

  unfoldable pub resolve_repo_visible_held : Tx → RepoRef → TeamScope → Registry → Result Repo
  unfolding resolve_repo_visible hold_repo_visible unresolved attempted_of
  resolve_repo_visible_held tx r scope g = do
    repo ← resolve_repo_visible tx r scope g
    guard (hold_repo_visible tx repo.id scope g) (unresolved tx (attempted_of r) scope g)
    ok repo

  unfoldable pub add_remote : Tx → ℕ → Text → Registry → Result (Text × Registry)
  unfolding attach_remote
  add_remote tx repo_id raw_remote g = do
    let normalized = normalize_remote to_lowercase raw_remote
    guard (not (is_empty normalized)) (invalid (not_a_remote raw_remote))
    g1 ← attach_remote tx repo_id normalized g
    ok (normalized, g1)

  unfoldable pub add_remotes : Tx → ℕ → List Text → Registry → Result Registry
  unfolding add_remote
  add_remotes tx repo_id [] g = ok g
  add_remotes tx repo_id (raw ∷ rest) g = do
    (normalized, g1) ← add_remote tx repo_id raw g
    add_remotes tx repo_id rest g1

  unfoldable pub keys_of : List Text → List Text
  keys_of raws = select_where (λ n. not (is_empty n)) (map (normalize_remote to_lowercase) raws)

  -- `id` is the new row's.
  unfoldable pub register_repo : Tx → ℕ → NewRepo → Registry → Result (Repo × Registry)
  unfolding repo_row keys_of attach_all has_slug
  register_repo tx id new g = do
    slug ← validate new.slug
    team_id ← team_in_org tx new.team_id
    let normalized = keys_of new.remotes
    let repo = repo_row tx id new slug team_id normalized
    guard (not (exists_where (has_slug tx.org slug) g.repos)) (repo_slug_taken slug)
    g1 ← attach_all tx id normalized (record g { repos = g.repos ++ repo ∷ [] })
    ok (repo, g1)

  unfoldable pub update_repo : Tx → ℕ → RepoPatch → Registry → Result (Repo × Registry)
  unfolding patch_row add_remotes
  update_repo tx id patch g = do
    team_id ← patch_team tx patch.team_id
    found ← ok_or (fetch_optional (is_repo tx.org id) g.repos) (repo_not_found id)
    g1 ←
        add_remotes tx id patch.add_remotes
          (record g { repos = update_where (is_repo tx.org id) (patch_row patch team_id) g.repos })
    ok (patch_row patch team_id found, g1)

unfoldable pub set_repo_active : Tx → ℕ → Bool → Registry → Registry
set_repo_active tx id active g = record g {
  repos = update_where (is_repo tx.org id) (λ r. record r { active = active }) g.repos;
}
