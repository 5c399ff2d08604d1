-- ===== src/Remote.antt =====
-- crates/of-core/src/repos.rs, the reading of git remotes: normalize_remote, and the provider that a
-- normalized remote suggests. `str::to_lowercase`, Unicode's tables, is a parameter.

use mathlib.Core.List.{reverse}
use otto_factory.Common.{
  Bool, List, Option, [], false, if◌then◌else◌, leb, none, not, some, true, ℕ, ◌&&◌, ◌++◌, ◌==◌,
  ◌∷◌, ◌||◌,
}
use otto_factory.Common.Lists.{all, any, is_empty}
use otto_factory.Common.Text.{Text, codes, trim, trim_start}
use otto_factory.RepoSlug.{split}
use otto_factory.Store.{Provider, on_bitbucket, on_github, on_gitlab, other_provider}
use otto_factory.Table.{select_where}

-- `str::starts_with`, with what follows the prefix.
unfoldable pub strip_prefix : Text → Text → Option Text
strip_prefix [] t = some t
strip_prefix (p ∷ ps) [] = none
strip_prefix (p ∷ ps) (c ∷ cs) = if p == c then strip_prefix ps cs else none

abbrev pub reversed : Option Text → Option Text
reversed none = none
reversed (some t) = some (reverse t)

-- `str::strip_suffix`.
unfoldable pub strip_suffix : Text → Text → Option Text
unfolding strip_prefix
strip_suffix suffix t = reversed (strip_prefix (reverse suffix) (reverse t))

abbrev pub holds : Option Text → Bool
holds none = false
holds (some _) = true

unfoldable pub ends_with : Text → Text → Bool
unfolding strip_suffix
ends_with suffix t = holds (strip_suffix suffix t)

unfoldable pub starts_with : Text → Text → Bool
unfolding strip_prefix
starts_with prefix t = holds (strip_prefix prefix t)

abbrev pub before_first : ℕ → Option (Text × Text) → Option (Text × Text)
before_first c none = none
before_first c (some (before, after)) = some (c ∷ before, after)

abbrev pub split_at : ℕ → Option Text → Option (Text × Text) → Option (Text × Text)
split_at c (some after) rest = some ([], after)
split_at c none rest = before_first c rest

-- `str::split_once`, at the first occurrence; the separators are not empty.
unfoldable pub split_once : Text → Text → Option (Text × Text)
unfolding strip_prefix
split_once sep [] = none
split_once sep (c ∷ cs) = split_at c (strip_prefix sep (c ∷ cs)) (split_once sep cs)

-- A text at its first slash, which stays with the second part: `rest[..authority_end]` and what follows.
unfoldable pub authority : Text → Text × Text
authority [] = ([], [])
authority (c ∷ cs) =
    let (a, path) = authority cs in if c == 0x2f then ([], c ∷ cs) else (c ∷ a, path)

-- What follows the last '@', if there is one.
unfoldable pub after_at : Text → Text
after_at [] = []
after_at (c ∷ cs) =
    let rest = after_at cs in
    if any (λ x. x == 0x40) cs then rest else if c == 0x40 then cs else c ∷ cs

abbrev pub is_digit : ℕ → Bool
is_digit c = leb 0x30 c && leb c 0x39

abbrev pub cut_port : Text → Option (Text × Text) → Text
cut_port a none = a
cut_port a (some (host, port)) = if not (is_empty port) && all is_digit port then host else a

unfoldable pub without_port : Text → Text
unfolding split_once
without_port a = cut_port a (split_once (0x3a ∷ []) a)

abbrev pub is_slash : ℕ → Bool
is_slash c = c == 0x2f

-- `while let Some(t) = s.strip_suffix('/')`.
unfoldable pub strip_slashes : Text → Text
unfolding trim_start
strip_slashes s = reverse (trim_start is_slash (reverse s))

-- scp-style `host:path`, unless the part before the colon has a slash or the part after begins with two.
abbrev pub from_scp : Text → Option (Text × Text) → Text
from_scp s none = s
from_scp s (some (before_colon, after_colon)) =
    if not (any is_slash before_colon) && not (starts_with (codes "//") after_colon)
    then before_colon ++ (0x2f ∷ after_colon)
    else s

abbrev pub from_scheme : Text → Option (Text × Text) → Text
from_scheme s (some (scheme, after)) = after
from_scheme s none = from_scp s (split_once (0x3a ∷ []) s)

unfoldable pub without_scheme : Text → Text
unfolding split_once starts_with
without_scheme s = from_scheme s (split_once (codes "://") s)

unfoldable pub without_credentials : Text → Text
unfolding authority after_at
without_credentials t = let (a, path) = authority t in after_at a ++ path

unfoldable pub drop_port : Text → Text
unfolding authority without_port
drop_port t = let (a, path) = authority t in without_port a ++ path

abbrev pub or_whole : Text → Option Text → Text
or_whole t none = t
or_whole t (some stripped) = stripped

unfoldable pub without_git : Text → Text
unfolding strip_suffix
without_git t = or_whole t (strip_suffix (codes ".git") t)

-- `join("/")`.
unfoldable pub join : List Text → Text
join [] = []
join (seg ∷ []) = seg
join (seg ∷ next ∷ segs) = seg ++ (0x2f ∷ join (next ∷ segs))

unfoldable pub collapse : Text → Text
unfolding join split
collapse t = join (select_where (λ seg. not (is_empty seg)) (split t))

module _ (to_lowercase : Text → Text) where
  unfoldable pub normalize_remote : Text → Text
  unfolding strip_slashes without_scheme without_credentials drop_port without_git collapse
  normalize_remote raw = to_lowercase (
      collapse
        (without_git (drop_port (without_credentials (without_scheme (strip_slashes (trim raw)))))))

unfoldable pub from_normalized : Text → Provider
unfolding authority ends_with starts_with
from_normalized normalized =
    let host = (authority normalized).0 in
    if ends_with (codes "github.com") host
    then on_github
    else if ends_with (codes "gitlab.com") host || starts_with (codes "gitlab.") host
    then on_gitlab
    else if ends_with (codes "bitbucket.org") host
    then on_bitbucket
    else other_provider
