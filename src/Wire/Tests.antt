-- ===== src/Wire/Tests.antt =====
-- Codes there and back.
use quicsql.Prelude.{◌≡◌}
use quicsql.Prelude.Map.{lookup}
use quicsql.Wire.Codes.{code_for_name, extended_code_name, code_for_name-extended_code_name}

code_for_name-extended_code_name_example : code_for_name (extended_code_name 2067) ≡ 2067
unfolding lookup
code_for_name-extended_code_name_example = code_for_name-extended_code_name 2067
