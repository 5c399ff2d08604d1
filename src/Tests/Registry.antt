-- ===== src/Tests/Registry.antt =====
-- The theorems on the registry of repos: two repos, one of which the caller does not see.
use otto_factory.AgentLabel.{find_char}
use otto_factory.Common.Lists.{any}
use otto_factory.Common.{
  ◌++◌, [], arith, false, none, refl, some, true, Bool-cases, inl, inr, subst, false, ◌∷◌, ◌≡◌, ◌≤◌,
}
use otto_factory.Common.Text.{
  Text, codes, is_whitespace, text_eq, text_eq_sound, trim_matches, trim_start,
}
use otto_factory.Error.{ok}
use otto_factory.Remote.{
  from_normalized, normalize_remote, after_at, authority, collapse, drop_port, join, split_once,
  starts_with, strip_prefix, strip_slashes, strip_suffix, without_credentials, without_git,
  without_port, without_scheme,
}
use otto_factory.Repos.{
  Registry, RepoRef, has_slug, resolve_repo_visible, NewRepo, named, attach_all, attach_remote,
  has_remote, keys_of, repo_row, register_repo, repo_of_remote, resolve_repo,
}
use otto_factory.Repos.Hidden.{hide, is_reached, resolve_repo_visible-hide}
use otto_factory.RepoSlug.{is_alphanumeric, is_slug_char, split, validate}
use otto_factory.Repos.Attached.{IsLinked, has_id_of}
use otto_factory.Repos.Registered.{register_repo-resolve_repo}
use otto_factory.Store.{Repo}
use otto_factory.Table.{count_where, exists_where, fetch_optional, select_where}
use otto_factory.Teams.{teams}
use otto_factory.Tests.Calls.{both_repos, closed_repo, dawn, open_repo, same_case}

abbrev both_registered : Registry
both_registered = record {
  repos = both_repos;
  remotes =
      record { org_id = 1; repo_id = 4; normalized = codes "git.example/vault" }
      ∷ record { org_id = 1; repo_id = 3; normalized = codes "git.example/core" }
      ∷ [];
}

-- The caller asks for the remote of the closed repo.
abbrev vault_ref : RepoRef
vault_ref = record { slug = none; remote = some (codes "git@git.example:vault.git") }

one_at_most :
    (slug : Text)
    → text_eq (codes "vault") slug ≡ false
    → count_where (has_slug 1 slug) both_repos ≤ 1
unfolding count_where has_slug
one_at_most slug e = ground arith

one_reached :
    (n : Text)
    → text_eq (codes "git.example/vault") n ≡ false
    → count_where (is_reached dawn n both_registered.remotes) both_repos ≤ 1
unfolding count_where exists_where
one_reached n e = ground arith

distinct_slugs : (slug : Text) → count_where (has_slug 1 slug) both_repos ≤ 1
unfolding count_where has_slug text_eq
distinct_slugs slug = elim (Bool-cases (text_eq (codes "vault") slug)) [
  | inl e ↦
      subst (λ t. count_where (has_slug 1 t) both_repos ≤ 1) (text_eq_sound (codes "vault") slug e)
        (omega arith)
  | inr e ↦ one_at_most slug e
]

distinct_keys : (n : Text) → count_where (is_reached dawn n both_registered.remotes) both_repos ≤ 1
unfolding count_where exists_where text_eq
distinct_keys n = elim (Bool-cases (text_eq (codes "git.example/vault") n)) [
  | inl e ↦
      subst (λ t. count_where (is_reached dawn t both_registered.remotes) both_repos ≤ 1)
        (text_eq_sound (codes "git.example/vault") n e) (omega arith)
  | inr e ↦ one_reached n e
]

resolve_repo_visible-hide_example :
    resolve_repo_visible same_case dawn vault_ref (teams (5 ∷ [])) both_registered
    ≡ resolve_repo_visible same_case dawn vault_ref
        (teams (5 ∷ []))
        (hide (teams (5 ∷ [])) both_registered)
resolve_repo_visible-hide_example =
    resolve_repo_visible-hide same_case dawn (teams (5 ∷ [])) both_registered distinct_slugs
      distinct_keys vault_ref

abbrev new_web : NewRepo
new_web = record {
  slug = codes "web";
  name = none;
  remotes = codes "git@git.example:web.git" ∷ [];
  provider = none;
  default_branch = none;
  team_id = none;
  default_agent_type = none;
  tracker_binding = none;
  created_by = some 8;
}

abbrev web_key : Text
web_key = codes "git.example/web"

abbrev web_repo : Repo
web_repo = record open_repo { id = 5; slug = codes "web"; name = codes "web"; created_by = some 8 }

abbrev web_registered : Registry
web_registered = record {
  repos = closed_repo ∷ open_repo ∷ web_repo ∷ [];
  remotes =
      record { org_id = 1; repo_id = 4; normalized = codes "git.example/vault" }
      ∷ record { org_id = 1; repo_id = 3; normalized = codes "git.example/core" }
      ∷ record { org_id = 1; repo_id = 5; normalized = web_key }
      ∷ [];
}

web_keys : keys_of same_case new_web.remotes ≡ web_key ∷ []
unfolding keys_of normalize_remote trim_start trim_matches is_whitespace strip_slashes without_git
    strip_suffix strip_prefix without_scheme split_once starts_with without_credentials authority
    after_at drop_port without_port split collapse join select_where
web_keys = refl

web_attached :
    attach_all dawn 5
      (web_key ∷ [])
      (record both_registered { repos = both_repos ++ web_repo ∷ [] })
    ≡ ok web_registered
unfolding attach_all attach_remote has_remote repo_of_remote fetch_optional exists_where text_eq
web_attached = refl

web_row : repo_row dawn 5 new_web (codes "web") none (web_key ∷ []) ≡ web_repo
unfolding repo_row from_normalized starts_with strip_prefix
web_row = refl

web_slug : validate (codes "web") ≡ ok (codes "web")
unfolding validate is_slug_char is_alphanumeric split text_eq find_char
web_slug = refl

web_run : register_repo same_case dawn 5 new_web both_registered ≡ ok (web_repo, web_registered)
unfolding register_repo exists_where has_slug text_eq
web_run = rw web_slug (rw web_keys (rw web_row (rw web_attached refl)))

fresh_id : exists_where (has_id_of 5) both_registered.repos ≡ false
unfolding exists_where
fresh_id = refl

abbrev web_address : Text
web_address = codes "https://git.example/web/"

web_named : named (some web_address) ≡ some web_address
unfolding trim_start trim_matches is_whitespace
web_named = refl

web_normal : normalize_remote same_case web_address ≡ web_key
unfolding normalize_remote trim_start trim_matches is_whitespace strip_slashes without_git
    strip_suffix strip_prefix without_scheme split_once starts_with without_credentials authority
    after_at drop_port without_port split collapse join select_where
web_normal = refl

web_asked :
    any
      (λ key. text_eq key (normalize_remote same_case web_address))
      (keys_of same_case new_web.remotes)
    ≡ true
unfolding text_eq
web_asked = rw web_keys (rw web_normal refl)

both-IsLinked : IsLinked both_registered
unfolding exists_where
both-IsLinked = record {
  there = (refl, (refl, tt));
  same_org = ((λ h. refl, (λ h. refl, tt)), ((λ h. refl, (λ h. refl, tt)), tt));
}

register_repo-resolve_repo_example :
    resolve_repo same_case dawn (record { slug = none; remote = some (web_address) }) web_registered
    ≡ ok web_repo
register_repo-resolve_repo_example =
    register_repo-resolve_repo same_case dawn 5 new_web both_registered both-IsLinked fresh_id
      web_repo web_registered (record { slug = none; remote = some (web_address) }) web_run
      (inr (web_address, refl, web_named, web_asked))
