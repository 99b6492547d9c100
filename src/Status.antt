-- ===== src/Status.antt =====
-- The status codes of include/kv.h.
use mini_kv_db_server.Prelude.{Bool, true, false}
use mini_kv_db_server.Prelude.Int.{ℤ, pos, negsuc}

-- KV_OK and the KV_ERR_ constants.
pub data Status : Type 0 where
  ok not_found internal invalid_param key_too_long val_too_long empty_key key_whitespace : Status
  capacity_full budget_exceeded io again wrong_type : Status

-- The number that a constant is defined as.
unfoldable pub code : Status → ℤ
code ok = pos 0
code not_found = pos 1
code internal = negsuc 0
code invalid_param = negsuc 1
code key_too_long = negsuc 2
code val_too_long = negsuc 3
code empty_key = negsuc 4
code key_whitespace = negsuc 5
code capacity_full = negsuc 6
code budget_exceeded = negsuc 7
code io = negsuc 8
code again = negsuc 9
code wrong_type = negsuc 10

-- status == KV_OK
abbrev pub is_ok : Status → Bool
is_ok ok = true
is_ok _ = false
