-- ===== src/Teams/Scope.antt =====
-- What a team or a scope that the platform confirmed is good for.
use otto_factory.Common.{
  Bool, List, Option, Option-cases, [], ap, arith, false, inl, inr, none, refl, some, true, ℕ, ◌&&◌,
  ◌==◌, ◌∙◌, ◌∷◌, ◌≡◌, ◌≢◌,
}
use otto_factory.Common.Lists.{any}
use otto_factory.Error.{Result, access_revoked, err, ok, ok_or, team_not_found}
use otto_factory.Error.Laws.{>>=-eq-ok, ok_or-eq-ok}
use otto_factory.Teams.{
  TeamInfo, TeamScope, VerifiedTeam, accept_answer, allows, for_member, has_team, in_org,
  member_ids, restriction, teams, verify,
}

-- A team that verify accepts is the one asked for, in the org asked for, and the platform's answer named
-- both; a transaction of that org takes it, and one of any other org refuses it.
pub verify-in_org :
    (platform_team : ℕ → ℕ → Result (Option TeamInfo)) (org team other : ℕ) (v : VerifiedTeam)
    → verify platform_team org team ≡ ok v
    → (platform_team org team ≡ ok (some (record { id = team; org_id = org })))
      × (in_org v org ≡ ok team)
      × (other ≢ org → in_org v other ≡ err (team_not_found team))
unfolding verify accept_answer in_org
verify-in_org platform_team org team other v h =
    let (a, e, h1) = >>=-eq-ok (platform_team org team) (accept_answer org team) h in
    elim (Option-cases a) [
      | inl n ↦ absurd (ground (arith, n))
      | inr (info, m) ↦ (ground (arith, e, m), ground (arith, m), λ o. ground (arith, m, o))
    ]

-- `team_id IS NULL OR team_id = ANY($n)`, with no restriction for a null parameter.
unfoldable pub restriction_admits : Option (List ℕ) → Option ℕ → Bool
restriction_admits none team = true
restriction_admits (some mine) none = true
restriction_admits (some mine) (some t) = any (λ m. m == t) mine

has_team-member_ids :
    (org : ℕ) (found : List TeamInfo) (t : ℕ)
    → has_team (member_ids org found) t ≡ any (λ (m : TeamInfo). m.org_id == org && m.id == t) found
unfolding member_ids
has_team-member_ids org [] t = refl
has_team-member_ids org (m ∷ ms) t = ground (arith, has_team-member_ids org ms t)

-- A member who does not administer the org is shown a team's rows exactly when the platform's answer
-- names that team in this org, and always the rows of no team; the list that restricts a query admits
-- the same rows.
pub for_member-allows :
    (platform_member_teams : ℕ → ℕ → Result (Option (List TeamInfo))) (org user : ℕ)
    (scope : TeamScope)
    → for_member platform_member_teams org user false ≡ ok scope
    → (found : List TeamInfo) × (platform_member_teams org user ≡ ok (some found))
      × ((t : ℕ)
          → allows scope (some t) ≡ any (λ (m : TeamInfo). m.org_id == org && m.id == t) found)
      × (allows scope none ≡ true)
      × ((team : Option ℕ) → restriction_admits (restriction scope) team ≡ allows scope team)
unfolding for_member allows restriction restriction_admits
for_member-allows platform_member_teams org user scope h =
    let (a, e, h1) = >>=-eq-ok (platform_member_teams org user) _ h in
    let (found, e1, h2) = >>=-eq-ok (ok_or a access_revoked) _ h1 in
    let s : scope ≡ teams (member_ids org found) = ground arith in
    (
      found,
      e ∙ ap ok (ok_or-eq-ok a access_revoked e1),
      λ t. rw s (has_team-member_ids org found t),
      rw s refl,
      λ team. rw s (admits-same (member_ids org found) team),
    )
  where
    admits-same :
        (mine : List ℕ) (team : Option ℕ)
        → restriction_admits (restriction (teams mine)) team ≡ allows (teams mine) team
    admits-same mine none = refl
    admits-same mine (some t) = refl
