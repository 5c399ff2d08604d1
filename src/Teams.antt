-- ===== src/Teams.antt =====
-- crates/of-core/src/teams.rs: teams confirmed by the platform, and what a caller's teams let it see.
-- The platform's answer is an argument of each function that asks.
pub mod Scope
use otto_factory.Common.{
  Bool, List, Option, [], false, if◌then◌else◌, leb, none, not, some, true, ℕ, ◌&&◌, ◌==◌, ◌||◌,
  ◌∷◌,
}
use otto_factory.Common.Lists.{any, is_empty}
use otto_factory.Common.Text.{Text, byte_len, codes, is_control, is_whitespace, text_eq, trim}
use otto_factory.Error.{
  Result, access_revoked, err, guard, ok, ok_or, team_not_found, team_slug_not_found, ◌>>=◌, ◌>>◌,
}

abbrev pub team_slug_max : ℕ
team_slug_max = 128

-- The characters that the `matches!` of `team_slug_shape_ok` names: / \ % ? #
abbrev pub is_url_syntax : ℕ → Bool
is_url_syntax c = c == 0x2f || c == 0x5c || c == 0x25 || c == 0x3f || c == 0x23

unfoldable pub team_slug_shape_ok : Text → Bool
team_slug_shape_ok slug =
    not (is_empty slug)
    && leb (byte_len slug) team_slug_max
    && not (text_eq slug (codes "."))
    && not (text_eq slug (codes ".."))
    && not (any (λ c. is_url_syntax c || is_whitespace c || is_control c) slug)

-- What the platform answers about a team.
pub record TeamInfo : Type 0 where
  pub id : ℕ
  pub org_id : ℕ

pub record VerifiedTeam : Type 0 where
  pub org : ℕ
  pub team : ℕ

-- `answer` is what `platform.team` gave for this org and team.
unfoldable pub accept_answer : ℕ → ℕ → Option TeamInfo → Result VerifiedTeam
accept_answer org team none = err (team_not_found team)
accept_answer org team (some info) =
    if info.org_id == org && info.id == team
    then ok (record { org = org; team = team })
    else err (team_not_found team)

unfoldable pub verify : (ℕ → ℕ → Result (Option TeamInfo)) → ℕ → ℕ → Result VerifiedTeam
unfolding accept_answer
verify platform_team org team = do answer ← platform_team org team; accept_answer org team answer

unfoldable pub accept_slug_answer : ℕ → Text → Option TeamInfo → Result VerifiedTeam
accept_slug_answer org slug none = err (team_slug_not_found slug)
accept_slug_answer org slug (some info) =
    if info.org_id == org
    then ok (record { org = org; team = info.id })
    else err (team_slug_not_found slug)

-- A refusal names the slug as it was passed.
unfoldable pub by_slug : (ℕ → Text → Result (Option TeamInfo)) → ℕ → Text → Result VerifiedTeam
unfolding accept_slug_answer
by_slug platform_team_by_slug org slug = do
  guard (team_slug_shape_ok (trim slug)) (team_slug_not_found slug)
  answer ← platform_team_by_slug org (trim slug)
  accept_slug_answer org slug answer

unfoldable pub in_org : VerifiedTeam → ℕ → Result ℕ
in_org v org = if v.org == org then ok v.team else err (team_not_found v.team)

pub data TeamScope : Type 0 where
  all_teams : TeamScope
  teams : List ℕ → TeamScope

unfoldable pub member_ids : ℕ → List TeamInfo → List ℕ
member_ids org [] = []
member_ids org (t ∷ ts) = if t.org_id == org then t.id ∷ member_ids org ts else member_ids org ts

-- `administers` is `role.can_administer()`; `platform_member_teams` answers `none` for a user that
-- the platform does not know in the org.
unfoldable pub for_member :
    (ℕ → ℕ → Result (Option (List TeamInfo))) → ℕ → ℕ → Bool → Result TeamScope
unfolding member_ids
for_member platform_member_teams org user administers = elim administers [
  | true ↦ ok all_teams
  | false ↦ do
    answer ← platform_member_teams org user
    found ← ok_or answer access_revoked
    ok (teams (member_ids org found))
]

abbrev pub has_team : List ℕ → ℕ → Bool
has_team mine t = any (λ m. m == t) mine

unfoldable pub allows : TeamScope → Option ℕ → Bool
allows all_teams team = true
allows (teams mine) none = true
allows (teams mine) (some t) = has_team mine t

unfoldable pub restriction : TeamScope → Option (List ℕ)
restriction all_teams = none
restriction (teams mine) = some mine

unfoldable pub is_all : TeamScope → Bool
is_all all_teams = true
is_all (teams _) = false
