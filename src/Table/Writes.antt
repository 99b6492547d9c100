-- ===== src/Table/Writes.antt =====
-- Writing entries: in place through a pointer, and at the head of a chain.
use mini_kv_db_server.Prelude.{
  ℕ, ◌+◌, ◌<◌, ◌≡◌, ap, true, none, some, List, [], ◌∷◌, arith, ◌==◌, if◌then◌else◌, length, get_or,
  set, sum_by, to_nat, length-set, get_or-set, sum_by-set_elem,
}
use mini_kv_db_server.Prelude.Text.{Bytes, str_eq, str_eq→≡}
use mini_kv_db_server.Key.{hash_key}
use mini_kv_db_server.Key.Laws.{hash_key-lt}
use mini_kv_db_server.Table.Types.{Entry, Table, Found}
use mini_kv_db_server.Table.Chain.{lookup, count, count-set, lookup-set, count-none}
use mini_kv_db_server.Table.Ops.{chain_at, store_entry, push_entry}
use mini_kv_db_server.Table.Laws.{
  IsPlaced, IsValid, Points, Points-home, view_of, view, hash_congr, set-IsPlaced, sum-set,
}

count_congr : (a b : Bytes) (c : List Entry) → str_eq a b ≡ true → count a c ≡ count b c
count_congr a b c h = ap (λ k. count k c) (str_eq→≡ a b h)

module _ (bs : List (List Entry)) (e : Entry) (r : 0 < length bs) where
  home-lt : hash_key e.key (length bs) < length bs
  home-lt = hash_key-lt e.key (length bs) r

  pub length-push : length (push_entry bs e) ≡ length bs
  unfolding push_entry
  length-push = length-set bs _ _

  pub sum-push : (m : Entry → ℕ) → sum_by (sum_by m) (push_entry bs e) ≡ sum_by (sum_by m) bs + m e
  unfolding push_entry
  sum-push m = omega (
    arith,
    sum-set m bs (hash_key e.key (length bs)) (e ∷ get_or bs (hash_key e.key (length bs)) [])
        home-lt,
  )

  -- The new entry hides whatever stood under its key.
  pub view-push :
      (q : Bytes) → view_of (push_entry bs e) q ≡ (if str_eq e.key q then some e else view_of bs q)
  unfolding push_entry view_of lookup
  view-push q =
      let n = length bs in
      let c = get_or bs (hash_key e.key n) [] in
      ground (
        arith,
        length-set bs (hash_key e.key n) (e ∷ c),
        get_or-set bs (hash_key e.key n) (hash_key q n) (e ∷ c) [] home-lt,
        hash_congr e.key q n,
      )

  pub count-push :
      (q : Bytes) (i : ℕ)
      → count q (get_or (push_entry bs e) i []) ≡ (
          if hash_key e.key (length bs) == i
          then to_nat (str_eq e.key q) + count q (get_or bs i [])
          else count q (get_or bs i []))
  unfolding push_entry count
  count-push q i =
      let n = length bs in
      ground
        (arith, get_or-set bs (hash_key e.key n) i (e ∷ get_or bs (hash_key e.key n) []) [] home-lt)

  -- A key that is not in the table may be pushed.
  pub push-IsPlaced : IsPlaced bs → view_of bs e.key ≡ none → IsPlaced (push_entry bs e)
  unfolding view_of
  push-IsPlaced p h q i =
      let n = length bs in
      ground (
        arith,
        count-push q i,
        length-push,
        p q i,
        hash_congr e.key q n,
        count_congr e.key q (get_or bs (hash_key e.key n) []),
        count-none e.key (get_or bs (hash_key e.key n) []),
      )

module _ (t : Table) (f : Found) (e : Entry) (v : IsValid t) (h : Points t f)
    (k : e.key ≡ f.entry.key) where
  pub store-width : length (store_entry f e t).buckets ≡ length t.buckets
  unfolding store_entry
  store-width = length-set t.buckets f.index _

  pub store-sum :
      (m : Entry → ℕ)
      → sum_by (sum_by m) (store_entry f e t).buckets + m f.entry
        ≡ sum_by (sum_by m) t.buckets + m e
  unfolding store_entry
  store-sum m = omega (
    arith,
    sum-set m t.buckets f.index (set (chain_at t f.index) f.position e) h.0,
    sum_by-set_elem m (chain_at t f.index) f.position e f.entry h.1,
  )

  pub store-IsPlaced : IsPlaced (store_entry f e t).buckets
  unfolding store_entry
  store-IsPlaced =
      set-IsPlaced t.buckets f.index _ h.0
        (λ q. omega (arith, count-set q (chain_at t f.index) f.position f.entry e h.1 k)) v.placed

  -- A write through a pointer changes the entry of its key and no other.
  pub view-store :
      (q : Bytes) → view (store_entry f e t) q ≡ (if str_eq f.entry.key q then some e else view t q)
  unfolding store_entry view_of
  view-store q =
      let n = length t.buckets in
      let c = set (chain_at t f.index) f.position e in
      ground (
        arith,
        length-set t.buckets f.index c,
        get_or-set t.buckets f.index (hash_key q n) c [] h.0,
        lookup-set q (chain_at t f.index) f.position f.entry e h.1 k,
        v.placed q f.index,
        Points-home t f v.placed h,
        hash_congr f.entry.key q n,
      )
