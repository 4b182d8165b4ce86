-- ===== src/Tests/Keys.antt =====
-- Schemes, keys and their encodings at concrete inputs.
use quorumcrypt.Base.{◌≡◌}
use quorumcrypt.Errors.{err, unknown_group_string}
use quorumcrypt.Schemes.{rsa2048, parse_group, group_name}
use quorumcrypt.Schemes.Laws.{parse_group-group_name}

parse_group-group_name_example : parse_group (group_name rsa2048) ≡ err unknown_group_string
parse_group-group_name_example = parse_group-group_name rsa2048
