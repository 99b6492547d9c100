-- ===== src/Table/Bytes.antt =====
-- The sizes that the accounting of src/kv.c, src/list.c and src/set.c adds up, on a 64-bit ABI.
use mini_kv_db_server.Prelude.{ℕ, ◌+◌, ◌*◌, Option, none, some, length, sum_by}
use mini_kv_db_server.Prelude.Text.{Bytes}
use mini_kv_db_server.Table.Types.{KvList, KvSet, Value, string, list, set_of, Entry}

abbrev pub sizeof_pointer : ℕ
sizeof_pointer = 8

abbrev pub sizeof_entry : ℕ
sizeof_entry = 48

abbrev pub sizeof_list : ℕ
sizeof_list = 24

abbrev pub sizeof_list_node : ℕ
sizeof_list_node = 24

abbrev pub sizeof_set : ℕ
sizeof_set = 24

abbrev pub sizeof_set_node : ℕ
sizeof_set_node = 16

abbrev pub list_node_bytes : Bytes → ℕ
list_node_bytes v = sizeof_list_node + length v + 1

abbrev pub set_node_bytes : Bytes → ℕ
set_node_bytes v = sizeof_set_node + length v + 1

-- The bytes that `list_destroy` reports.
unfoldable pub list_destroy : KvList → ℕ
list_destroy l = sizeof_list + sum_by list_node_bytes l.nodes

-- The bytes that `set_destroy` reports.
unfoldable pub set_destroy : KvSet → ℕ
set_destroy s =
    sizeof_set + length s.buckets * sizeof_pointer + sum_by (sum_by set_node_bytes) s.buckets

unfoldable pub value_bytes : Value → ℕ
value_bytes (string v) = length v + 1
value_bytes (list l) = list_destroy l
value_bytes (set_of s) = set_destroy s

-- What an entry with its key and payload takes, and what deleting it frees.
unfoldable pub entry_bytes : Entry → ℕ
entry_bytes e = sizeof_entry + length e.key + 1 + value_bytes e.value

-- The heap copy of the log's path.
abbrev pub path_bytes : Option Bytes → ℕ
path_bytes none = 0
path_bytes (some p) = length p + 1
