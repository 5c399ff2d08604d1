-- ===== src/Scopes.antt =====
-- crates/of-core/src/scopes.rs: the scopes that the resource server understands.
use otto_factory.Common.{List, [], ◌∷◌}
use otto_factory.Common.Text.{Text, codes}

abbrev pub jobs_read : Text
jobs_read = codes "jobs:read"

abbrev pub jobs_write : Text
jobs_write = codes "jobs:write"

abbrev pub repos_read : Text
repos_read = codes "repos:read"

abbrev pub repos_write : Text
repos_write = codes "repos:write"

abbrev pub messages : Text
messages = codes "messages"

abbrev pub trackers : Text
trackers = codes "trackers"

abbrev pub org_admin : Text
org_admin = codes "org:admin"

abbrev pub known : List Text
known = jobs_read ∷ jobs_write ∷ repos_read ∷ repos_write ∷ messages ∷ trackers ∷ org_admin ∷ []

abbrev pub default_scopes : List Text
default_scopes = jobs_read ∷ repos_read ∷ []
