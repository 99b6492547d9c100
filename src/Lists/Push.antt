-- ===== src/Lists/Push.antt =====
-- `kv_lpush` of src/list.c in a store without a memory budget, where no eviction comes in between.
use mini_kv_db_server.Prelude.{
  ℕ, ◌+◌, ◌%◌, ◌^◌, ◌<◌, ◌≡◌, ◌⊎◌, refl, ap, sym, ◌∙◌, true, false, ◌&&◌, Option, none, some, ◌∷◌,
  arith, ltb, leb, length, Option-cases, if_both, inl, inr,
}
use mini_kv_db_server.Prelude.Text.{Bytes, bytes, str_eq, str_eq→≡, str_eq_refl}
use mini_kv_db_server.Status.{Status, capacity_full, internal, invalid_param, wrong_type, is_ok}
use mini_kv_db_server.Key.{Validated, validate_key, validate_value, valid, invalid}
use mini_kv_db_server.Key.Laws.{validate_key-invalid, validate_value-invalid}
use mini_kv_db_server.World.{World}
use mini_kv_db_server.Aof.{record₂}
use mini_kv_db_server.Table.Types.{KvList, Value, string, list, set_of, Entry, Table, Found}
use mini_kv_db_server.Table.Bytes.{
  list_destroy, value_bytes, entry_bytes, list_node_bytes, sizeof_entry, sizeof_list,
}
use mini_kv_db_server.Table.Ops.{
  store_entry, find_entry_unlocked, find_raw, entry_is_expired, expire_and_delete_unlocked, is_due,
}
use mini_kv_db_server.Table.Laws.{IsValid, view, delete-IsValid, view-delete}
use mini_kv_db_server.Table.Lookup.{
  Finds, Search, absent, present, expired, visible, live, find_gone, find_entry-Search,
  find_raw-none, find_raw-some,
}
use mini_kv_db_server.Kv.{touch, tick, make_room, insert_entry, fresh_entry}
use mini_kv_db_server.Kv.Get.{touched, touch-IsValid, view-touch}
use mini_kv_db_server.Kv.Writes.{tick-IsValid, insert-IsValid, view-insert}
use mini_kv_db_server.Payload.{
  Reply, failed, number, to_int, Run, returned, log_change, create_entry, grow_payload,
}
use mini_kv_db_server.Payload.Laws.{table-log_change, holding, grow-IsValid, view-grow}
use mini_kv_db_server.Lists.{
  empty_list, push_head, alloc_list, alloc_node, link_node, push_node, push_existing, push_created,
  push_found, push_validated, kv_lpush,
}
use mini_kv_db_server.Lists.Queue.{items, count_of, shown_items, shown_count}

-- What LPUSH leads to: the list with the value in front, and its length as the reply; or an error, and
-- the list as it was. Nothing else that is visible changes.
abbrev pub PushDone : Bytes → Bytes → ℕ → Table → Reply → Table → Type 0
PushDone k value now t reply r =
    IsValid r
    × ((q : Bytes) → str_eq k q ≡ false → visible r now q ≡ visible t now q)
    × (((reply ≡ number (length (items (visible r now k))))
          × (items (visible r now k) ≡ value ∷ items (visible t now k))
          × (count_of (visible r now k) ≡ length (items (visible r now k))))
        ⊎ ((s : Status) × (reply ≡ failed s)
            × (is_ok s ≡ false)
            × (items (visible r now k) ≡ items (visible t now k))))

abbrev pub Pushes : Bytes → Bytes → ℕ → Table → Run (Reply × World) → Type 0
Pushes k value now t x =
    (reply : Reply) × (w : World) × (x ≡ returned (reply, w)) × PushDone k value now t reply w.table

make_room_unbounded :
    (delta : ℕ) (w : World) → w.table.max_memory_budget ≡ 0 → make_room delta w ≡ (true, w)
unfolding make_room
make_room_unbounded delta w z =
    if_both (λ y. y ≡ (true, w)) (ltb 0 w.table.max_memory_budget) _ _ (λ y. absurd (ground arith))
      (λ _. refl)

Pushes-refused :
    (k value : Bytes) (now : ℕ) (s : Status) (w : World)
    → IsValid w.table
    → is_ok s ≡ false
    → Pushes k value now w.table (returned (failed s, w))
Pushes-refused k value now s w v b = (failed s, w, refl, (v, λ q ne. refl, inr (s, refl, b, refl)))

-- A table with the same items may be put in front.
Pushes-after :
    (k value : Bytes) (now : ℕ) (t m : Table) (x : Run (Reply × World))
    → ((q : Bytes) → str_eq k q ≡ false → visible m now q ≡ visible t now q)
    → items (visible m now k) ≡ items (visible t now k)
    → Pushes k value now m x
    → Pushes k value now t x
Pushes-after k value now t m x o i (reply, w, e, (v, others, inl (a, b, c))) =
    (reply, w, e, (v, λ q ne. others q ne ∙ o q ne, inl (a, b ∙ ap (λ r. value ∷ r) i, c)))
Pushes-after k value now t m x o i (reply, w, e, (v, others, inr (s, a, b, c))) =
    (reply, w, e, (v, λ q ne. others q ne ∙ o q ne, inr (s, a, b, c ∙ i)))

push_bytes :
    (value : Bytes) (l : KvList)
    → value_bytes (list (push_head value l)) ≡ value_bytes (list l) + list_node_bytes value
unfolding value_bytes list_destroy push_head
push_bytes value l = omega arith

-- A count that fits in an `int` is kept.
to_int_lem : (n : ℕ) → n < 2 ^ 31 → to_int n ≡ number n
unfolding to_int
to_int_lem n h = let e : n % 2 ^ 32 ≡ n = omega (arith, h) in rw e (ground (arith, h))

link_node-Pushes :
    (k value : Bytes) (now : ℕ) (f : Found) (l : KvList) (w : World)
    → IsValid w.table
    → Finds w.table k f
    → f.entry.value ≡ list l
    → entry_is_expired f.entry now ≡ false
    → l.count ≡ length l.nodes
    → length l.nodes + 1 < 2 ^ 31
    → Pushes k value now w.table (link_node k value (some f) w)
unfolding link_node entry_is_expired push_head
link_node-Pushes k value now f l w v h e fresh c small =
    let t = grow_payload f (list (push_head value l)) (list_node_bytes value) w.table in
    let w' = log_change (record₂ (bytes "LPUSH") k value) (record w { table = t }) in
    let same = str_eq→≡ f.entry.key k h.same_key in
    let z : w'.table ≡ t = table-log_change _ _ in
    let views = view-grow f (list (push_head value l)) w.table v h.points (list_node_bytes value) in
    let now_seen : visible w'.table now k ≡ some (holding f.entry (list (push_head value l))) =
      rw z (ground (arith, views k, h.same_key, fresh)) in
    let before : items (visible w.table now k) ≡ l.nodes =
      ap (λ o. items (live now o)) h.viewed ∙ shown_items now f.entry l fresh e in
    let seen = ap items now_seen in
    let narrow : to_int (l.count + 1) ≡ number (l.count + 1) =
      to_int_lem (l.count + 1) (omega (arith, c, small)) in
    let other : (q : Bytes) → str_eq k q ≡ false → view w'.table q ≡ view w.table q =
      λ q ne. rw z (ground (arith, views q, ap (λ u. str_eq u q) same, ne)) in
    (
      number (l.count + 1),
      w',
      rw (link_node, e) (ap (λ (n : Reply). returned (n, w')) narrow),
      (
        rw z (
            grow-IsValid f (list (push_head value l)) w.table v h.points (list_node_bytes value)
              (push_bytes value l ∙ ap (λ u. value_bytes u + list_node_bytes value) (sym e))),
        λ q ne. ap (live now) (other q ne),
        inl (
          rw seen (ap number (omega (arith, c))),
          seen ∙ ap (λ r. value ∷ r) (sym before),
          rw (now_seen) (omega (arith, c)),
        ),
      ),
    )

push_node-Pushes :
    (k value : Bytes) (now : ℕ) (e : Entry) (l : KvList) (w : World)
    → IsValid w.table
    → w.table.max_memory_budget ≡ 0
    → view w.table k ≡ some e
    → e.value ≡ list l
    → entry_is_expired e now ≡ false
    → l.count ≡ length l.nodes
    → length l.nodes + 1 < 2 ^ 31
    → Pushes k value now w.table (push_node k value w)
unfolding push_node
push_node-Pushes k value now e l w v z y h fresh c small =
    elim (Option-cases (find_raw k w.table)) [
      | inl m ↦ absurd (ground (arith, find_raw-none w.table k m, y))
      | inr (f, m) ↦
          let g = find_raw-some w.table k f v.roomy m in
          let same : f.entry ≡ e = ground (arith, g.viewed, y) in
          rw (push_node, make_room_unbounded (list_node_bytes value) w z)
            (if_both (Pushes k value now w.table) (alloc_node value w.env).0 _ _
              (λ _. rw m (
                link_node-Pushes k value now f l (record w { env = (alloc_node value w.env).1 }) v g
                  (ap (λ (e : Entry). e.value) same ∙ h)
                  (ap (λ (e : Entry). entry_is_expired e now) same ∙ fresh) c small))
              (λ _.
                Pushes-refused k value now internal (record w { env = (alloc_node value w.env).1 })
                  v refl))
    ]

push_existing-Pushes :
    (k value : Bytes) (now : ℕ) (f : Found) (x : Value) (w : World)
    → IsValid w.table
    → w.table.max_memory_budget ≡ 0
    → Finds w.table k f
    → f.entry.value ≡ x
    → entry_is_expired f.entry now ≡ false
    → count_of (visible w.table now k) ≡ length (items (visible w.table now k))
    → length (items (visible w.table now k)) + 1 < 2 ^ 31
    → Pushes k value now w.table (push_existing k value f x w)
unfolding push_existing entry_is_expired touch store_entry
push_existing-Pushes k value now f (string s) w v z h e fresh c small =
    Pushes-refused k value now wrong_type w v refl
push_existing-Pushes k value now f (set_of s) w v z h e fresh c small =
    Pushes-refused k value now wrong_type w v refl
push_existing-Pushes k value now f (list l) w v z h e fresh c small =
    let t = touch f w.table in
    let g = touched f w.table in
    let same = str_eq→≡ f.entry.key k h.same_key in
    let views = λ (q : Bytes). view-touch f w.table q v h.points in
    let y : view t k ≡ some g = ground (arith, views k, h.same_key) in
    let seen : visible w.table now k ≡ live now (some f.entry) = ap (live now) h.viewed in
    let counted : l.count ≡ length l.nodes =
      sym (ap count_of seen ∙ shown_count now f.entry l fresh e)
      ∙ c
      ∙ ap length (ap items seen ∙ shown_items now f.entry l fresh e) in
    let other : (q : Bytes) → str_eq k q ≡ false → view t q ≡ view w.table q =
      λ q ne. ground (arith, views q, ap (λ u. str_eq u q) same, ne) in
    Pushes-after k value now w.table t _ (λ q ne. ap (live now) (other q ne))
      (ap items (ap (live now) y)
        ∙ shown_items now g l fresh e
        ∙ sym (ap items seen ∙ shown_items now f.entry l fresh e))
      (push_node-Pushes k value now g l (record w { table = t })
        (touch-IsValid f w.table v h.points) z y e fresh counted
        (omega (arith, small, ap length (ap items seen ∙ shown_items now f.entry l fresh e))))

abbrev overhead : Bytes → ℕ
overhead k = sizeof_entry + length k + 1 + sizeof_list

-- A key that is not there gets an empty list first.
push_new-Pushes :
    (k value : Bytes) (now : ℕ) (w : World)
    → IsValid w.table
    → w.table.max_memory_budget ≡ 0
    → view w.table k ≡ none
    → Pushes k value now w.table (push_found k value none w)
unfolding push_found push_created create_entry entry_is_expired is_due insert_entry tick fresh_entry
    entry_bytes value_bytes list_destroy
push_new-Pushes k value now w v z y =
    let e = fresh_entry k (list empty_list) (tick w.table) in
    let m = insert_entry e (overhead k) (tick w.table) in
    let tv = tick-IsValid w.table v in
    let size : overhead k ≡ entry_bytes e = omega arith in
    let views = view-insert e (overhead k) (tick w.table) tv y size in
    let seen : view m k ≡ some e = ground (arith, views k, str_eq_refl k) in
    let other : (q : Bytes) → str_eq k q ≡ false → view m q ≡ view w.table q =
      λ q ne. ground (arith, views q, ne) in
    if_both (λ (x : Status × World). Pushes k value now w.table (push_created k value x))
      (ltb 0 w.table.max_capacity && leb w.table.max_capacity w.table.size) _ _
      (λ _. Pushes-refused k value now capacity_full w v refl)
      (λ _. rw (make_room_unbounded (overhead k) w z) (
        if_both (λ (x : Status × World). Pushes k value now w.table (push_created k value x))
          (alloc_list k w.env).0 _ _
          (λ _.
            Pushes-after k value now w.table m _ (λ q ne. ap (live now) (other q ne))
              (ap (λ o. items (live now o)) seen ∙ sym (ap (λ o. items (live now o)) y))
              (push_node-Pushes k value now e empty_list
                (record w { table = m; env = (alloc_list k w.env).1 })
                (insert-IsValid e (overhead k) (tick w.table) tv y size) z seen refl refl refl
                (omega arith)))
          (λ _.
            Pushes-refused k value now internal (record w { env = (alloc_list k w.env).1 }) v
              refl)))

push_located :
    (k value : Bytes) (now : ℕ) (t : Table) (r : Option Found × Table) (w : World)
    → IsValid t
    → t.max_memory_budget ≡ 0
    → Search k now t r
    → count_of (visible t now k) ≡ length (items (visible t now k))
    → length (items (visible t now k)) + 1 < 2 ^ 31
    → Pushes k value now t (push_found k value r.0 (record w { table = r.1 }))
unfolding push_found expire_and_delete_unlocked
push_located k value now t r w v z (absent h) c small =
    push_new-Pushes k value now (record w { table = t }) v z h
push_located k value now t r w v z (expired f h e) c small =
    let d = find_gone k now t f v h e in
    let t' = expire_and_delete_unlocked f t in
    let gone : view t' k ≡ none = ground (arith, view-delete t f v h.points k, h.same_key) in
    Pushes-after k value now t t' _ (λ q ne. d.1 q) (ap items (d.1 k))
      (push_new-Pushes k value now (record w { table = t' }) (delete-IsValid t f v h.points) z gone)
push_located k value now t r w v z (present f h e) c small =
    push_existing-Pushes k value now f f.entry.value (record w { table = t }) v z h refl e c small

push_validated-Pushes :
    (x y : Validated) (k value : Bytes) (now : ℕ) (w : World)
    → validate_key (some k) ≡ x
    → validate_value (some value) ≡ y
    → IsValid w.table
    → w.table.max_memory_budget ≡ 0
    → count_of (visible w.table now k) ≡ length (items (visible w.table now k))
    → length (items (visible w.table now k)) + 1 < 2 ^ 31
    → Pushes k value now w.table (push_validated x y k value now w)
unfolding push_validated
push_validated-Pushes (invalid e) y k value now w a b v z c small =
    Pushes-refused k value now e w v (validate_key-invalid (some k) e a)
push_validated-Pushes (valid n) (invalid e) k value now w a b v z c small =
    Pushes-refused k value now e w v (validate_value-invalid (some value) e b)
push_validated-Pushes (valid n) (valid m) k value now w a b v z c small =
    push_located k value now w.table (find_entry_unlocked k now w.table) w v z
      (find_entry-Search k now w.table v) c small

-- In a valid store without a memory budget, under a key whose list has its right count and can
-- take one more element within the range of int, LPUSH follows no pointer to freed memory: it
-- either puts the value in front of the list that is visible under the key, keeps its count right
-- and replies with its length, or replies with an error and leaves the list as it was. The table
-- stays valid, and nothing that is visible under another key changes.
pub kv_lpush-Pushes :
    (k value : Bytes) (now : ℕ) (w : World)
    → IsValid w.table
    → w.table.max_memory_budget ≡ 0
    → count_of (visible w.table now k) ≡ length (items (visible w.table now k))
    → length (items (visible w.table now k)) + 1 < 2 ^ 31
    → Pushes k value now w.table (kv_lpush (some k) (some value) now w)
unfolding kv_lpush
kv_lpush-Pushes k value now w v z c small =
    if_both (Pushes k value now w.table) w.table.lock_initialized _ _
      (λ _. push_validated-Pushes _ _ k value now w refl refl v z c small)
      (λ _. Pushes-refused k value now invalid_param w v refl)
