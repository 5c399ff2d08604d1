-- ===== src/RepoSlug.antt =====
-- crates/of-core/src/repo_slug.rs: which slugs are accepted, and which are shown in a sentence.
pub mod Segments
pub mod Shown
use otto_factory.AgentLabel.{find_char}
use otto_factory.Common.{
  Bool, List, Option, [], false, if◌then◌else◌, leb, none, not, some, true, ℕ, ◌&&◌, ◌++◌, ◌+◌, ◌-◌,
  ◌==◌, ◌∷◌, ◌||◌,
}
use otto_factory.Common.Lists.{any, is_empty, length, take}
use otto_factory.Common.Text.{Text, codes}
use otto_factory.Error.{
  Result, bad_segment, bad_start, empty_text, err, forbidden_char, guard, invalid_repo_slug, is_ok,
  ok, too_long, ◌>>◌,
}
use otto_factory.Jobs.Create.{decimal}
use otto_factory.Table.{select_where}

abbrev pub max_len : ℕ
max_len = 128

abbrev pub max_listed : ℕ
max_listed = 50

abbrev pub is_between : ℕ → ℕ → ℕ → Bool
is_between lo hi c = leb lo c && leb c hi

-- `is_ascii_alphanumeric`.
unfoldable pub is_alphanumeric : ℕ → Bool
is_alphanumeric c = is_between 0x30 0x39 c || is_between 0x41 0x5a c || is_between 0x61 0x7a c

-- Letters, digits and - _ . /
unfoldable pub is_slug_char : ℕ → Bool
unfolding is_alphanumeric
is_slug_char c = is_alphanumeric c || (c == 0x2d || c == 0x5f || c == 0x2e || c == 0x2f)

abbrev pub starts_well : Text → Bool
starts_well [] = false
starts_well (c ∷ cs) = is_alphanumeric c

abbrev pub on_first : ℕ → List Text → List Text
on_first c [] = (c ∷ []) ∷ []
on_first c (seg ∷ segs) = (c ∷ seg) ∷ segs

-- `slug.split('/')`: one segment more than there are slashes.
unfoldable pub split : Text → List Text
split [] = [] ∷ []
split (c ∷ cs) = let rest = split cs in if c == 0x2f then [] ∷ rest else on_first c rest

-- `"" | "." | ".."`.
abbrev pub is_bad_segment : Text → Bool
is_bad_segment [] = true
is_bad_segment (a ∷ []) = a == 0x2e
is_bad_segment (a ∷ b ∷ []) = a == 0x2e && b == 0x2e
is_bad_segment (a ∷ b ∷ c ∷ cs) = false

abbrev pub check_chars : Option (ℕ × ℕ) → Result (Unit {0})
check_chars none = ok tt
check_chars (some (i, c)) = err (invalid_repo_slug (forbidden_char c (i + 1)))

unfoldable pub validate : Text → Result Text
unfolding is_slug_char split
validate slug = do
  guard (not (is_empty slug)) (invalid_repo_slug empty_text)
  guard (leb (length slug) max_len) (invalid_repo_slug (too_long (length slug)))
  guard (starts_well slug) (invalid_repo_slug bad_start)
  check_chars (find_char (λ c. not (is_slug_char c)) 0 slug)
  guard (not (any is_bad_segment (split slug))) (invalid_repo_slug bad_segment)
  ok slug

unfoldable pub is_displayable : Text → Bool
unfolding validate
is_displayable slug = is_ok (validate slug)

abbrev pub quoted : Text → Text
quoted slug = 0x22 ∷ slug ++ 0x22 ∷ []

unfoldable pub describe : Text → Text
unfolding is_displayable
describe slug = if is_displayable slug then quoted slug else codes "another repo (call list_repos)"

-- `collect::<Vec<_>>().join(", ")` of the quoted slugs.
unfoldable pub list_quoted : List Text → Text
list_quoted [] = []
list_quoted (slug ∷ []) = quoted slug
list_quoted (slug ∷ next ∷ slugs) = quoted slug ++ codes ", " ++ list_quoted (next ∷ slugs)

unfoldable pub shown_of : List Text → List Text
unfolding is_displayable
shown_of visible = take max_listed (select_where is_displayable visible)

unfoldable pub render_shown : List Text → ℕ → Text
unfolding list_quoted decimal
render_shown [] hidden =
    codes "none shown ("
    ++ decimal hidden
    ++ codes " registered; call list_repos for the full list)"
render_shown (slug ∷ slugs) hidden =
    if hidden == 0
    then list_quoted (slug ∷ slugs)
    else list_quoted (slug ∷ slugs)
      ++ codes " (and "
      ++ decimal hidden
      ++ codes " more not shown; call list_repos for the full list)"

unfoldable pub render_known : List Text → Text
unfolding shown_of render_shown
render_known [] = codes "none registered yet"
render_known (slug ∷ slugs) =
    let shown = shown_of (slug ∷ slugs) in render_shown shown (length (slug ∷ slugs) - length shown)
