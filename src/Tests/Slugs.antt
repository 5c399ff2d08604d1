-- ===== src/Tests/Slugs.antt =====
-- The theorems on repo slugs at concrete inputs.
use otto_factory.Common.{[], true, ◌∷◌, ◌≡◌, ◌↔◌}
use otto_factory.Common.Lists.{all}
use otto_factory.Common.Text.{codes}
use otto_factory.Error.{ok}
use otto_factory.RepoSlug.{describe, render_known, validate}
use otto_factory.RepoSlug.Segments.{IsSlug, validate-ok_iff}
use otto_factory.RepoSlug.Shown.{is_printable, render_known-printable}

validate-ok_iff_example :
    (validate (codes "acme/api-v2") ≡ ok (codes "acme/api-v2")) ↔ IsSlug (codes "acme/api-v2")
validate-ok_iff_example = validate-ok_iff (codes "acme/api-v2")

render_known-printable_example :
    (all is_printable (render_known (codes "api" ∷ (0x61 ∷ 0x0a ∷ []) ∷ [])) ≡ true)
    × (all is_printable (describe (0x61 ∷ 0x0a ∷ [])) ≡ true)
render_known-printable_example =
    render_known-printable (codes "api" ∷ (0x61 ∷ 0x0a ∷ []) ∷ []) (0x61 ∷ 0x0a ∷ [])
