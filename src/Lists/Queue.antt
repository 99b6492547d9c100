-- ===== src/Lists/Queue.antt =====
-- The lists of src/list.c as queues: LPUSH puts a value in at the head, RPOP takes one out at the tail.
use mathlib.Core.Path.{subst}
use mini_kv_db_server.Prelude.{
  ℕ, ◌+◌, ◌-◌, ◌<◌, ◌≡◌, ◌⊎◌, refl, ap, sym, ◌∙◌, true, false, Option, none, some, List, [], ◌∷◌,
  ◌++◌, arith, ◌==◌, length, Bool-cases, Option-cases, if_both, inl, inr, length-append, sum_by,
  sum_by-append,
}
use mini_kv_db_server.Prelude.Text.{Bytes, str_eq, str_eq→≡, str_eq_refl}
use mini_kv_db_server.Status.{Status, ok, is_ok}
use mini_kv_db_server.Env.{library_call}
use mini_kv_db_server.Key.{validate_key, valid}
use mini_kv_db_server.World.{World}
use mini_kv_db_server.Table.Types.{KvList, Value, string, list, set_of, Entry, Table, Found}
use mini_kv_db_server.Table.Bytes.{list_destroy, value_bytes, list_node_bytes}
use mini_kv_db_server.Table.Ops.{find_entry_unlocked, find_raw, entry_is_expired}
use mini_kv_db_server.Table.Laws.{IsValid, Points, view, delete-IsValid}
use mini_kv_db_server.Table.Lookup.{
  Finds, Search, absent, present, expired, visible, live, find_gone, find_entry-Search,
  find_raw-none,
}
use mini_kv_db_server.Kv.{touch, kv_delete_internal}
use mini_kv_db_server.Kv.Get.{touched, touch-IsValid, view-touch}
use mini_kv_db_server.Kv.Delete.{kv_delete_internal-Outcome}
use mini_kv_db_server.Payload.{shrink_payload}
use mini_kv_db_server.Payload.Laws.{
  table-log_change, holding, now_holding, shrink-IsValid, view-shrink, shrink-Points,
}
use mini_kv_db_server.Lists.{split_tail, finish_pop, pop_tail, pop_found, kv_rpop}

-- The tail is the last value.
split_tail-append :
    (xs front : List Bytes) (last : Bytes)
    → split_tail xs ≡ some (front, last)
    → xs ≡ front ++ last ∷ []
unfolding split_tail
split_tail-append [] front last h = absurd (ground arith)
split_tail-append (x ∷ []) front last h = ground arith
split_tail-append (x ∷ y ∷ r) front last h = elim (Option-cases (split_tail (y ∷ r))) [
  | inl n ↦ absurd (ground arith)
  | inr ((f, l), e) ↦ ground (arith, split_tail-append (y ∷ r) f l e)
]

-- The values of a list, from head to tail; a key that is not there has none.
abbrev pub items : Option Entry → List Bytes
items none = []
items (some e) = elim e.value [ string v ↦ [] | list l ↦ l.nodes | set_of s ↦ [] ]

-- The count that is kept beside the values.
abbrev pub count_of : Option Entry → ℕ
count_of none = 0
count_of (some e) = elim e.value [ string v ↦ 0 | list l ↦ l.count | set_of s ↦ 0 ]

delete_present :
    (k : Bytes) (n : ℕ) (e : Entry) (w : World)
    → validate_key (some k) ≡ valid n
    → view w.table k ≡ some e
    → (kv_delete_internal (some k) w).0 ≡ ok
unfolding kv_delete_internal
delete_present k n e w x y = elim (Option-cases (find_raw k w.table)) [
  | inl m ↦ absurd (ground (arith, find_raw-none w.table k m, y))
  | inr (f, z) ↦ rw (x, kv_delete_internal, z) refl
]

-- What the last step of RPOP does: `r` is the table after it, and `e` the entry with the shorter list.
record Finishes (k : Bytes) (e : Entry) (count : ℕ) (t r : Table) : Type 0 where
  valid : IsValid r
  gone : count ≡ 0 → view r k ≡ none
  kept : 0 < count → (clock : ℕ) × (view r k ≡ some (record e { last_accessed_time = clock }))
  others : (q : Bytes) → str_eq k q ≡ false → view r q ≡ view t q

finish_deleted :
    (k : Bytes) (n : ℕ) (e : Entry) (w : World)
    → IsValid w.table
    → validate_key (some k) ≡ valid n
    → view w.table k ≡ some e
    → Finishes k e 0 w.table (kv_delete_internal (some k) w).1.table
finish_deleted k n e w v x y = elim (kv_delete_internal-Outcome k w v) [
  | inr (bad, _, _) ↦ absurd (ground (arith, bad, delete_present k n e w x y))
  | inl (s, d) ↦ record {
    valid = d.valid;
    gone = λ _. ground (arith, d.views k, str_eq_refl k);
    kept = λ lt. absurd (omega (arith, lt));
    others = λ q ne. ground (arith, d.views q, ne);
  }
]

finish_touched :
    (k : Bytes) (f : Found) (count : ℕ) (t : Table)
    → IsValid t
    → Points t f
    → f.entry.key ≡ k
    → 0 < count
    → Finishes k f.entry count t (touch f t)
finish_touched k f count t v h same pos = record {
  valid = touch-IsValid f t v h;
  gone = λ z. absurd (omega (arith, z, pos));
  kept = λ _. (
    (touched f t).last_accessed_time,
    ground (arith, view-touch f t k v h, str_eq_refl k, ap (λ z. str_eq z k) same),
  );
  others = λ q ne. ground (arith, view-touch f t q v h, ap (λ z. str_eq z q) same);
}

finish_pop-Finishes :
    (k : Bytes) (n : ℕ) (f : Found) (l : KvList) (w : World)
    → IsValid w.table
    → validate_key (some k) ≡ valid n
    → f.entry.key ≡ k
    → Points w.table (now_holding f (list l))
    → view w.table k ≡ some (holding f.entry (list l))
    → Finishes k (holding f.entry (list l)) l.count w.table (finish_pop k f l w).table
unfolding finish_pop
finish_pop-Finishes k n f l w v x same h y = elim (Bool-cases (l.count == 0)) [
  | inl z ↦
      let e : l.count ≡ 0 = ground (arith, z) in
      rw (z, finish_pop)
        (subst
          (λ c.
            Finishes k (holding f.entry (list l)) c w.table (kv_delete_internal (some k) w).1.table)
          (sym e) (finish_deleted k n (holding f.entry (list l)) w v x y))
  | inr z ↦
      rw (z, finish_pop)
        (finish_touched k (now_holding f (list l)) l.count w.table v h same (ground (arith, z)))
]

-- What RPOP leads to: the last value, and the list without it, whose key goes with its last value; or
-- an error. Nothing else that is visible changes.
abbrev pub Pops : Bytes → ℕ → Table → Status × Option Bytes × World → Type 0
Pops k now t x =
    IsValid x.2.table
    × ((q : Bytes) → str_eq k q ≡ false → visible x.2.table now q ≡ visible t now q)
    × (((front : List Bytes) × (v : Bytes) × (x.0 ≡ ok)
          × (x.1 ≡ some v)
          × (items (visible t now k) ≡ front ++ v ∷ [])
          × (items (visible x.2.table now k) ≡ front)
          × (count_of (visible x.2.table now k) ≡ length front)
          × (front ≡ [] → visible x.2.table now k ≡ none))
        ⊎ ((is_ok x.0 ≡ false) × (x.1 ≡ none) × (visible x.2.table now k ≡ visible t now k)))

list_bytes :
    (l : KvList) (front : List Bytes) (last : Bytes) (c : ℕ)
    → l.nodes ≡ front ++ last ∷ []
    → value_bytes (list (record { nodes = front; count = c })) + list_node_bytes last
      ≡ value_bytes (list l)
unfolding value_bytes list_destroy
list_bytes l front last c e =
    omega (arith, ap (sum_by list_node_bytes) e, sum_by-append list_node_bytes front (last ∷ []))

length-front :
    (l : KvList) (front : List Bytes) (last : Bytes)
    → l.nodes ≡ front ++ last ∷ []
    → length l.nodes ≡ length front + 1
length-front l front last e = ap length e ∙ length-append front (last ∷ [])

-- The shorter list as a reader sees it.
popped_items :
    (k : Bytes) (now : ℕ) (e : Entry) (front : List Bytes) (c : ℕ) (t r : Table)
    → Finishes k (holding e (list (record { nodes = front; count = c }))) c t r
    → entry_is_expired e now ≡ false
    → c ≡ length front
    → (items (visible r now k) ≡ front)
      × (count_of (visible r now k) ≡ length front)
      × (front ≡ [] → visible r now k ≡ none)
unfolding entry_is_expired
popped_items k now e [] c t r f fresh z =
    let g : visible r now k ≡ none = ap (live now) (f.gone z) in (ap items g, ap count_of g, λ _. g)
popped_items k now e (x ∷ front) c t r f fresh z =
    let (clock, y) = f.kept (omega (arith, z)) in
    let s : visible r now k
        ≡ some (record e {
          value = list (record { nodes = x ∷ front; count = c });
          last_accessed_time = clock;
        }) =
      ap (live now) y ∙ ground (arith, fresh) in
    (ap items s, ap count_of s ∙ z, λ h. absurd (ground (arith, h)))

-- A list that is not due, as a reader sees it.
pub shown_items :
    (now : ℕ) (e : Entry) (l : KvList)
    → entry_is_expired e now ≡ false
    → e.value ≡ list l
    → items (live now (some e)) ≡ l.nodes
shown_items now e l fresh h = ground (arith, fresh, h)

pub shown_count :
    (now : ℕ) (e : Entry) (l : KvList)
    → entry_is_expired e now ≡ false
    → e.value ≡ list l
    → count_of (live now (some e)) ≡ l.count
shown_count now e l fresh h = ground (arith, fresh, h)

-- The branch in which a value is taken out.
taken :
    (k : Bytes) (now n : ℕ) (f : Found) (l : KvList) (front : List Bytes) (last : Bytes) (t : Table)
    (w₂ : World)
    → let l' : KvList = record { nodes = front; count = l.count - 1 } in
      IsValid t
      → Finds t k f
      → f.entry.value ≡ list l
      → entry_is_expired f.entry now ≡ false
      → validate_key (some k) ≡ valid n
      → l.count ≡ length l.nodes
      → l.nodes ≡ front ++ last ∷ []
      → w₂.table ≡ shrink_payload f (list l') (list_node_bytes last) t
      → Pops k now t (ok, some last, finish_pop k f l' w₂)
taken k now n f l front last t w₂ v h e fresh x c s z =
    let l' : KvList = record { nodes = front; count = l.count - 1 } in
    let same = str_eq→≡ f.entry.key k h.same_key in
    let bytes' : value_bytes (list l') + list_node_bytes last ≡ value_bytes f.entry.value =
      list_bytes l front last (l.count - 1) s ∙ ap value_bytes (sym e) in
    let t₁ = shrink_payload f (list l') (list_node_bytes last) t in
    let views = view-shrink f (list l') t v h.points (list_node_bytes last) in
    let fin : Finishes k (holding f.entry (list l')) (l.count - 1) w₂.table
        (finish_pop k f l' w₂).table =
      finish_pop-Finishes k n f l' w₂
        (rw z (shrink-IsValid f (list l') t v h.points (list_node_bytes last) bytes')) x same
        (rw z (shrink-Points f (list l') t v h.points (list_node_bytes last)))
        (rw z (ground (arith, views k, h.same_key))) in
    let seen =
      popped_items k now f.entry front (l.count - 1) w₂.table (finish_pop k f l' w₂).table fin fresh
        (omega (arith, c, length-front l front last s)) in
    let other : (q : Bytes) → str_eq k q ≡ false → view w₂.table q ≡ view t q =
      λ q ne. rw z (ground (arith, views q, ap (λ u. str_eq u q) same, ne)) in
    let before : items (visible t now k) ≡ front ++ last ∷ [] =
      ap (λ o. items (live now o)) h.viewed ∙ shown_items now f.entry l fresh e ∙ s in
    (
      fin.valid,
      λ q ne. ap (live now) (fin.others q ne ∙ other q ne),
      inl (front, last, refl, refl, before, seen.0, seen.1, seen.2),
    )

pop_tail-Pops :
    (k : Bytes) (now n : ℕ) (f : Found) (l : KvList) (w : World)
    → IsValid w.table
    → Finds w.table k f
    → f.entry.value ≡ list l
    → entry_is_expired f.entry now ≡ false
    → validate_key (some k) ≡ valid n
    → l.count ≡ length l.nodes
    → Pops k now w.table (pop_tail k f l w)
unfolding pop_tail
pop_tail-Pops k now n f l w v h e fresh x c = elim (Option-cases (split_tail l.nodes)) [
  | inl y ↦ rw (y, pop_tail) (v, λ q ne. refl, inr (refl, refl, refl))
  | inr ((front, last), y) ↦
      rw (y, pop_tail)
        (if_both (Pops k now w.table) (l.count == 0) _ _
          (λ _. (v, λ q ne. refl, inr (refl, refl, refl)))
          (λ _.
            if_both (Pops k now w.table) (library_call w.env).0 _ _
              (λ _.
                taken k now n f l front last w.table _ v h e fresh x c
                  (split_tail-append l.nodes front last y) (table-log_change _ _))
              (λ _. (v, λ q ne. refl, inr (refl, refl, refl)))))
]

pop_present :
    (k : Bytes) (now n : ℕ) (f : Found) (x : Value) (w : World)
    → f.entry.value ≡ x
    → IsValid w.table
    → Finds w.table k f
    → entry_is_expired f.entry now ≡ false
    → validate_key (some k) ≡ valid n
    → count_of (visible w.table now k) ≡ length (items (visible w.table now k))
    → Pops k now w.table (pop_found k (some f) w)
unfolding pop_found
pop_present k now n f (string s) w e v h fresh x c =
    rw (e, pop_found) (v, λ q ne. refl, inr (refl, refl, refl))
pop_present k now n f (set_of s) w e v h fresh x c =
    rw (e, pop_found) (v, λ q ne. refl, inr (refl, refl, refl))
pop_present k now n f (list l) w e v h fresh x c =
    let seen : visible w.table now k ≡ live now (some f.entry) = ap (live now) h.viewed in
    let counted : l.count ≡ length l.nodes =
      sym (ap count_of seen ∙ shown_count now f.entry l fresh e)
      ∙ c
      ∙ ap length (ap items seen ∙ shown_items now f.entry l fresh e) in
    rw (e, pop_found) (pop_tail-Pops k now n f l w v h e fresh x counted)

pop_located :
    (k : Bytes) (now n : ℕ) (t : Table) (r : Option Found × Table) (w : World)
    → IsValid t
    → Search k now t r
    → validate_key (some k) ≡ valid n
    → count_of (visible t now k) ≡ length (items (visible t now k))
    → Pops k now t (pop_found k r.0 (record w { table = r.1 }))
unfolding pop_found
pop_located k now n t r w v (absent h) x c = (v, λ q ne. refl, inr (refl, refl, refl))
pop_located k now n t r w v (expired f h e) x c =
    let d = find_gone k now t f v h e in
    (delete-IsValid t f v h.points, λ q ne. d.1 q, inr (refl, refl, d.1 k))
pop_located k now n t r w v (present f h e) x c =
    pop_present k now n f f.entry.value (record w { table = t }) refl v h e x c

-- In a valid store that is in use, with a key that is well formed and whose list has its right
-- count, RPOP returns the last value of the list and leaves the rest, whose count is right again,
-- and the key is gone with the last value; or it returns an error, and what is visible under the
-- key is as it was. The table stays valid, and nothing that is visible under another key changes.
pub kv_rpop-Pops :
    (k : Bytes) (now n : ℕ) (w : World)
    → IsValid w.table
    → w.table.lock_initialized ≡ true
    → validate_key (some k) ≡ valid n
    → count_of (visible w.table now k) ≡ length (items (visible w.table now k))
    → Pops k now w.table (kv_rpop (some k) now w)
unfolding kv_rpop
kv_rpop-Pops k now n w v i x c =
    if_both (Pops k now w.table) w.table.lock_initialized _ _
      (λ _.
        pop_located k now n w.table (find_entry_unlocked k now w.table) w v
          (find_entry-Search k now w.table v) x c)
      (λ z. absurd (ground (arith, i, z)))
