-- ===== src/AgentLabel.antt =====
-- crates/of-core/src/agent_label.rs: the label by which an agent names itself to its teammates.
pub mod Shape
pub mod Escape
use otto_factory.Common.{
  Bool, List, Option, [], false, if◌then◌else◌, leb, ltb, none, not, some, ℕ, ◌&&◌, ◌++◌, ◌+◌, ◌==◌,
  ◌||◌, ◌∷◌,
}
use otto_factory.Common.Lists.{length}
use otto_factory.Common.Text.{Text, is_control, is_whitespace, trim_matches}
use otto_factory.Error.{
  Holder, Result, by_agent, by_user, err, forbidden_char, invalid_agent_label, ok, too_long,
}

abbrev pub max_len : ℕ
max_len = 128

abbrev pub is_space : ℕ → Bool
is_space c = c == 0x20

-- The code point ranges of the `matches!` in `is_forbidden`, both ends included.
abbrev forbidden_ranges : List (ℕ × ℕ)
forbidden_ranges =
    (0xad, 0xad)
    ∷ (0x34f, 0x34f)
    ∷ (0x600, 0x605)
    ∷ (0x61c, 0x61c)
    ∷ (0x6dd, 0x6dd)
    ∷ (0x70f, 0x70f)
    ∷ (0x890, 0x891)
    ∷ (0x8e2, 0x8e2)
    ∷ (0x115f, 0x115f)
    ∷ (0x1160, 0x1160)
    ∷ (0x17b4, 0x17b4)
    ∷ (0x17b5, 0x17b5)
    ∷ (0x180b, 0x180f)
    ∷ (0x200b, 0x200f)
    ∷ (0x2028, 0x202e)
    ∷ (0x2060, 0x206f)
    ∷ (0x2800, 0x2800)
    ∷ (0x3164, 0x3164)
    ∷ (0xe000, 0xf8ff)
    ∷ (0xfe00, 0xfe0f)
    ∷ (0xfeff, 0xfeff)
    ∷ (0xffa0, 0xffa0)
    ∷ (0xfff0, 0xfffc)
    ∷ (0x110bd, 0x110bd)
    ∷ (0x110cd, 0x110cd)
    ∷ (0x13430, 0x13455)
    ∷ (0x1bca0, 0x1bca3)
    ∷ (0x1d173, 0x1d17a)
    ∷ (0xe0000, 0xe0fff)
    ∷ (0xf0000, 0x10ffff)
    ∷ []

unfoldable pub in_ranges : ℕ → List (ℕ × ℕ) → Bool
in_ranges c [] = false
in_ranges c ((lo, hi) ∷ rest) = (leb lo c && leb c hi) || in_ranges c rest

unfoldable pub is_forbidden : ℕ → Bool
unfolding in_ranges is_control is_whitespace
is_forbidden c =
    is_control c || (is_whitespace c && not (is_space c)) || in_ranges c forbidden_ranges

-- `chars().enumerate().find(|(_, c)| p(c))`, counted from `i`.
unfoldable pub find_char : (ℕ → Bool) → ℕ → Text → Option (ℕ × ℕ)
find_char p i [] = none
find_char p i (c ∷ cs) = if p c then some (i, c) else find_char p (i + 1) cs

-- What `validate` checks of a label that is not blank.
unfoldable pub check_label : Text → Result (Option Text)
check_label label =
    if ltb max_len (length label)
    then err (invalid_agent_label (too_long (length label)))
    else elim (find_char is_forbidden 0 label) [
      | some (i, c) ↦ err (invalid_agent_label (forbidden_char c (i + 1)))
      | none ↦ ok (some label)
    ]

unfoldable pub validate_trimmed : Text → Result (Option Text)
unfolding check_label
validate_trimmed [] = ok none
validate_trimmed (c ∷ cs) = check_label (c ∷ cs)

unfoldable pub validate : Option Text → Result (Option Text)
unfolding validate_trimmed
validate none = ok none
validate (some label) = validate_trimmed (trim_matches is_space label)

-- `validate(label).ok().flatten()`.
unfoldable pub displayable : Option Text → Option Text
displayable label = elim (validate label) [ ok l ↦ l | err _ ↦ none ]

-- `label.replace('\\', "\\\\").replace('"', "\\\"")`: the second pass reads what the first wrote.
unfoldable pub replace_char : ℕ → Text → Text → Text
replace_char c by [] = []
replace_char c by (x ∷ xs) = (if x == c then by else x ∷ []) ++ replace_char c by xs

unfoldable pub escape : Text → Text
unfolding replace_char
escape label = replace_char 0x22 (0x5c ∷ 0x22 ∷ []) (replace_char 0x5c (0x5c ∷ 0x5c ∷ []) label)

unfoldable pub holder : Option Text → ℕ → Holder
unfolding displayable escape
holder label id = elim (displayable label) [ some l ↦ by_agent (escape l) | none ↦ by_user id ]
