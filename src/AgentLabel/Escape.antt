-- ===== src/AgentLabel/Escape.antt =====
-- The quoting of a label: a reader of the quoted text finds the label and where it ends.
use otto_factory.AgentLabel.{escape, replace_char}
use otto_factory.Common.{
  Bool, Option, [], arith, false, if◌then◌else◌, none, refl, some, true, ℕ, ◌++◌, ◌==◌, ◌∷◌, ◌≡◌,
}
use otto_factory.Common.Text.{Text}

unfoldable pub prepend : ℕ → Option (Text × Text) → Option (Text × Text)
prepend c none = none
prepend c (some (l, rest)) = some (c ∷ l, rest)

-- Reads a quoted text to the quote that closes it: a character after a backslash stands for itself.
unfoldable pub read_quoted : Bool → Text → Option (Text × Text)
unfolding prepend
read_quoted escaped [] = none
read_quoted true (c ∷ cs) = prepend c (read_quoted false cs)
read_quoted false (c ∷ cs) =
    if c == 0x22
    then some ([], cs)
    else if c == 0x5c
    then read_quoted true cs
    else prepend c (read_quoted false cs)

escape-cons :
    (c : ℕ) (l : Text)
    → escape (c ∷ l) ≡ (
        if c == 0x22
        then 0x5c ∷ 0x22 ∷ escape l
        else if c == 0x5c
        then 0x5c ∷ 0x5c ∷ escape l
        else c ∷ escape l)
unfolding escape replace_char
escape-cons c l = ground arith

-- The text that escape gives, read up to the first quote that no backslash stands before, is the label,
-- and what follows that quote is what follows the label: a label cannot close its own quotes.
pub escape-read : (l rest : Text) → read_quoted false (escape l ++ 0x22 ∷ rest) ≡ some (l, rest)
unfolding read_quoted escape replace_char prepend
escape-read [] rest = refl
escape-read (c ∷ l) rest = ground (arith, escape-cons c l, escape-read l rest)
