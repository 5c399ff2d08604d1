-- ===== src/Idempotency.antt =====
-- crates/of-core/src/idempotency.rs: the check of a caller's replay key. The SHA-256 fingerprint of
-- a payload is a parameter where it is used.
use otto_factory.Common.{leb, not, ℕ}
use otto_factory.Common.Lists.{is_empty}
use otto_factory.Common.Text.{Text, byte_len, trim}
use otto_factory.Error.{Result, empty_key, guard, invalid, too_long, ◌>>◌}

abbrev pub max_key_len : ℕ
max_key_len = 200

unfoldable pub validate : Text → Result (Unit {0})
validate key = do
  guard (not (is_empty (trim key))) (invalid empty_key)
  guard (leb (byte_len key) max_key_len) (invalid (too_long (byte_len key)))
