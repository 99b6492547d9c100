-- ===== src/Table/Laws.antt =====
-- The table's invariant, and what reading and deleting do to it and to the abstract map.
use mini_kv_db_server.Prelude.{
  ℕ, ◌+◌, ◌*◌, ◌≤◌, ◌<◌, ◌≡◌, ap, true, Option, none, some, List, [], arith, ◌==◌, if◌then◌else◌,
  length, get_or, get_elem?, set, remove_at, sum_by, to_nat, sum_by-remove_at, sum_by-set,
  length-set, get_or-set,
}
use mini_kv_db_server.Prelude.Text.{Bytes, str_eq, str_eq→≡, str_eq_refl}
use mini_kv_db_server.Key.{hash_key}
use mini_kv_db_server.Table.Types.{Entry, Table, Found}
use mini_kv_db_server.Table.Bytes.{entry_bytes, path_bytes, sizeof_pointer}
use mini_kv_db_server.Table.Chain.{lookup, count, count-remove_at, lookup-remove_at}
use mini_kv_db_server.Table.Ops.{chain_at, expire_and_delete_unlocked}

-- A key occurs at most once, and only in the bucket that it hashes to.
abbrev pub IsPlaced : List (List Entry) → Type 0
IsPlaced bs = (q : Bytes) (i : ℕ) → count q (get_or bs i []) ≤ to_nat (hash_key q (length bs) == i)

abbrev pub entry_count : List (List Entry) → ℕ
entry_count bs = sum_by (sum_by (λ _. 1)) bs

abbrev pub stored_bytes : List (List Entry) → ℕ
stored_bytes bs = sum_by (sum_by entry_bytes) bs

-- The invariant of a table that is in use.
pub record IsValid (t : Table) : Type 0 where
  pub roomy : 0 < length t.buckets
  pub placed : IsPlaced t.buckets
  pub counted : entry_count t.buckets ≡ t.size
  pub accounted :
      length t.buckets * sizeof_pointer + path_bytes t.aof_path + stored_bytes t.buckets
      ≡ t.allocated_bytes
  pub peaked : t.allocated_bytes ≤ t.peak_allocated_bytes

-- The map that a bucket array stands for.
unfoldable pub view_of : List (List Entry) → Bytes → Option Entry
view_of bs q = lookup q (get_or bs (hash_key q (length bs)) [])

-- The entry that the table holds under a key.
abbrev pub view : Table → Bytes → Option Entry
view t q = view_of t.buckets q

-- A pointer that may be followed.
abbrev pub Points : Table → Found → Type 0
Points t f =
    (f.index < length t.buckets) × (get_elem? (chain_at t f.index) f.position ≡ some f.entry)

pub hash_congr : (a b : Bytes) (n : ℕ) → str_eq a b ≡ true → hash_key a n ≡ hash_key b n
hash_congr a b n h = ap (λ k. hash_key k n) (str_eq→≡ a b h)

-- What replacing one chain by one with no more of any key does to the placement.
pub set-IsPlaced :
    (bs : List (List Entry)) (i : ℕ) (c : List Entry)
    → i < length bs
    → ((q : Bytes) → count q c ≤ count q (get_or bs i []))
    → IsPlaced bs
    → IsPlaced (set bs i c)
set-IsPlaced bs i c h le p q j =
    ground (arith, length-set bs i c, get_or-set bs i j c [] h, le q, p q j)

pub sum-set :
    (f : Entry → ℕ) (bs : List (List Entry)) (i : ℕ) (c : List Entry)
    → i < length bs
    → sum_by (sum_by f) (set bs i c) + sum_by f (get_or bs i []) ≡ sum_by (sum_by f) bs + sum_by f c
sum-set f bs i c h = sum_by-set (sum_by f) bs i c [] h

-- A pointer leads to the bucket of its key.
pub Points-home :
    (t : Table) (f : Found)
    → IsPlaced t.buckets
    → Points t f
    → f.index ≡ hash_key f.entry.key (length t.buckets)
Points-home t f p h = ground (
  arith,
  p f.entry.key f.index,
  count-remove_at f.entry.key (chain_at t f.index) f.position f.entry h.1,
  str_eq_refl f.entry.key,
)

module _ (t : Table) (f : Found) (v : IsValid t) (h : Points t f) where
  pub delete-sum :
      (m : Entry → ℕ)
      → sum_by (sum_by m) (expire_and_delete_unlocked f t).buckets + m f.entry
        ≡ sum_by (sum_by m) t.buckets
  unfolding expire_and_delete_unlocked
  delete-sum m = omega (
    arith,
    sum-set m t.buckets f.index (remove_at f.position (chain_at t f.index)) h.0,
    sum_by-remove_at m (chain_at t f.index) f.position f.entry h.1,
  )

  -- Deleting takes one entry and its bytes off.
  pub size-delete : (expire_and_delete_unlocked f t).size + 1 ≡ t.size
  unfolding expire_and_delete_unlocked
  size-delete = ground (arith, delete-sum (λ _. 1), v.counted)

  pub allocated_bytes-delete :
      (expire_and_delete_unlocked f t).allocated_bytes + entry_bytes f.entry ≡ t.allocated_bytes
  unfolding expire_and_delete_unlocked
  allocated_bytes-delete = ground (arith, delete-sum entry_bytes, v.accounted)

  pub delete-width : length (expire_and_delete_unlocked f t).buckets ≡ length t.buckets
  unfolding expire_and_delete_unlocked
  delete-width = length-set t.buckets f.index _

  delete-IsPlaced : IsPlaced (expire_and_delete_unlocked f t).buckets
  unfolding expire_and_delete_unlocked
  delete-IsPlaced =
      set-IsPlaced t.buckets f.index _ h.0
        (λ q. omega (arith, count-remove_at q (chain_at t f.index) f.position f.entry h.1)) v.placed

  pub delete-IsValid : IsValid (expire_and_delete_unlocked f t)
  delete-IsValid = record {
    roomy = omega (arith, delete-width, v.roomy);
    placed = delete-IsPlaced;
    counted = omega (arith, delete-sum (λ _. 1), size-delete, v.counted);
    accounted =
        unfold expire_and_delete_unlocked in
        omega (arith, delete-width, delete-sum entry_bytes, allocated_bytes-delete, v.accounted);
    peaked = unfold expire_and_delete_unlocked in omega (arith, allocated_bytes-delete, v.peaked);
  }

  -- Deleting hides exactly the entry's key.
  pub view-delete :
      (q : Bytes)
      → view (expire_and_delete_unlocked f t) q ≡ (if str_eq f.entry.key q then none else view t q)
  unfolding expire_and_delete_unlocked view_of
  view-delete q =
      let n = length t.buckets in
      let c = remove_at f.position (chain_at t f.index) in
      ground (
        arith,
        length-set t.buckets f.index c,
        get_or-set t.buckets f.index (hash_key q n) c [] h.0,
        lookup-remove_at q (chain_at t f.index) f.position f.entry,
        v.placed q f.index,
        Points-home t f v.placed h,
        hash_congr f.entry.key q n,
      )
