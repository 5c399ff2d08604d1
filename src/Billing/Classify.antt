-- ===== src/Billing/Classify.antt =====
-- crates/of-billing/src/classify.rs: the price list of the tools.
use otto_factory.Common.{Bool, List, [], false, if◌then◌else◌, not, true, ◌&&◌, ◌++◌, ◌∷◌}
use otto_factory.Common.Lists.{any}
use otto_factory.Common.Text.{Text, codes, text_eq}

pub data Class : Type 0 where
  free billable : Class

abbrev pub is_billable : Class → Bool
is_billable free = false
is_billable billable = true

abbrev pub free_tools : List Text
free_tools =
    codes "get_job"
    ∷ codes "list_jobs"
    ∷ codes "ready"
    ∷ codes "blocked"
    ∷ codes "stats"
    ∷ codes "list_repos"
    ∷ codes "resolve_repo"
    ∷ codes "list_leases"
    ∷ codes "inbox"
    ∷ codes "unread_count"
    ∷ codes "whoami"
    ∷ codes "usage"
    ∷ codes "watch"
    ∷ codes "renew_lease"
    ∷ codes "release_lease"
    ∷ codes "renew_claim"
    ∷ codes "ack_messages"
    ∷ codes "add_job"
    ∷ codes "update_job"
    ∷ codes "delete_job"
    ∷ codes "claim_jobs"
    ∷ codes "activate_job"
    ∷ codes "complete_job"
    ∷ codes "fail_job"
    ∷ codes "repend_job"
    ∷ codes "request_cancel"
    ∷ codes "cancel_job"
    ∷ codes "set_dependencies"
    ∷ codes "send_message"
    ∷ codes "acquire_lease"
    ∷ codes "register_repo"
    ∷ codes "update_repo"
    ∷ codes "link_ticket"
    ∷ codes "sync_ticket"
    ∷ []

abbrev pub billable_tools : List Text
billable_tools = []

-- `list.contains(&tool)`.
unfoldable pub contains : List Text → Text → Bool
contains tools tool = any (λ t. text_eq t tool) tools

unfoldable pub classify : Text → Class
classify tool =
    if contains billable_tools tool
    then billable
    else if contains free_tools tool
    then free
    else free

-- The two sentences of `exhaustive_over`.
pub data ListProblem : Type 0 where
  not_classified no_such_tool : Text → ListProblem

unfoldable pub unclassified : List Text → List ListProblem
unclassified [] = []
unclassified (tool ∷ tools) =
    (if not (contains billable_tools tool) && not (contains free_tools tool)
      then not_classified tool ∷ []
      else [])
    ++ unclassified tools

unfoldable pub missing_from : List Text → List Text → List ListProblem
missing_from seen [] = []
missing_from seen (known ∷ rest) =
    (if not (contains seen known) then no_such_tool known ∷ [] else []) ++ missing_from seen rest

unfoldable pub exhaustive_over : List Text → List ListProblem
unfolding unclassified missing_from
exhaustive_over tools = unclassified tools ++ missing_from tools (free_tools ++ billable_tools)
