-- ===== src/Table/Resize/Moves.antt =====
-- The rehashing loops move every entry to the bucket that it hashes to in the new array.
use mini_kv_db_server.Prelude.{
  ℕ, suc, ◌+◌, ◌-◌, ◌≤◌, ◌<◌, ◌≡◌, ◌≢◌, refl, Option, none, some, List, [], ◌∷◌, arith, ◌==◌, leb,
  if◌then◌else◌, length, get_or, replicate, sum_by, to_nat, Bool-cases, inl, inr, length-replicate,
  get_or-replicate, sum_by-replicate, sum_by-get_or,
}
use mini_kv_db_server.Prelude.Text.{Bytes, str_eq}
use mini_kv_db_server.Key.{hash_key}
use mini_kv_db_server.Table.Types.{Entry}
use mini_kv_db_server.Table.Chain.{lookup, count, lookup-none}
use mini_kv_db_server.Table.Ops.{push_entry}
use mini_kv_db_server.Table.Laws.{IsPlaced, view_of, hash_congr}
use mini_kv_db_server.Table.Writes.{length-push, sum-push, view-push, count-push}
use mini_kv_db_server.Table.Resize.{move_chain, move_all}

abbrev or_else : Option Entry → Option Entry → Option Entry
or_else none o = o
or_else (some e) o = some e

-- Every key stands in its own bucket, however often.
abbrev IsHome : List (List Entry) → Type 0
IsHome bs = (q : Bytes) (i : ℕ) → hash_key q (length bs) ≢ i → count q (get_or bs i []) ≡ 0

push-IsHome :
    (bs : List (List Entry)) (e : Entry) → 0 < length bs → IsHome bs → IsHome (push_entry bs e)
push-IsHome bs e r h q i ne =
    ground (arith, count-push bs e r q i, length-push bs e r, h q i, hash_congr e.key q (length bs))

-- What the loops keep of the array that they fill.
record Moves (c : List Entry) (fresh result : List (List Entry)) : Type 0 where
  width : length result ≡ length fresh
  home : IsHome result
  sums : (m : Entry → ℕ) → sum_by (sum_by m) result ≡ sum_by (sum_by m) fresh + sum_by m c
  views : (q : Bytes) → count q c ≤ 1 → view_of result q ≡ or_else (lookup q c) (view_of fresh q)

move_chain-Moves :
    (c : List Entry) (fresh : List (List Entry))
    → 0 < length fresh
    → IsHome fresh
    → Moves c fresh (move_chain c fresh)
unfolding move_chain lookup count
move_chain-Moves [] fresh r h = record {
  width = refl;
  home = h;
  sums = λ m. omega arith;
  views = λ q u. refl;
}
move_chain-Moves (e ∷ c) fresh r h =
    let w = length-push fresh e r in
    let i = move_chain-Moves c (push_entry fresh e) (omega (arith, w)) (push-IsHome fresh e r h) in
    record {
      width = omega (arith, i.width, w);
      home = i.home;
      sums = λ m. omega (arith, i.sums m, sum-push fresh e r m);
      views = λ q u. ground (arith, i.views q, view-push fresh e r q, lookup-none q c);
    }

-- The last chain that has a key, which is the only one in a placed array.
scan : Bytes → List (List Entry) → Option Entry
scan q [] = none
scan q (c ∷ bs) = or_else (scan q bs) (lookup q c)

record MovesAll (bs fresh result : List (List Entry)) : Type 0 where
  width : length result ≡ length fresh
  home : IsHome result
  sums : (m : Entry → ℕ) → sum_by (sum_by m) result ≡ sum_by (sum_by m) fresh + sum_by (sum_by m) bs
  views :
      (q : Bytes)
      → ((i : ℕ) → count q (get_or bs i []) ≤ 1)
      → view_of result q ≡ or_else (scan q bs) (view_of fresh q)

move_all-MovesAll :
    (bs fresh : List (List Entry))
    → 0 < length fresh
    → IsHome fresh
    → MovesAll bs fresh (move_all bs fresh)
unfolding move_all scan
move_all-MovesAll [] fresh r h = record {
  width = refl;
  home = h;
  sums = λ m. omega arith;
  views = λ q u. refl;
}
move_all-MovesAll (c ∷ bs) fresh r h =
    let s = move_chain-Moves c fresh r h in
    let i = move_all-MovesAll bs (move_chain c fresh) (omega (arith, s.width)) s.home in
    record {
      width = omega (arith, i.width, s.width);
      home = i.home;
      sums = λ m. omega (arith, i.sums m, s.sums m);
      views = λ q u. ground (arith, i.views q (λ j. u (suc j)), s.views q (u 0));
    }

-- In a placed array the chains from number `off` on hold a key once at most, at its home.
module _ (q : Bytes) (h : ℕ) where
  scan-from :
      (off : ℕ) (bs : List (List Entry))
      → ((i : ℕ) → count q (get_or bs i []) ≤ to_nat (h == (off + i)))
      → scan q bs ≡ (if leb off h then lookup q (get_or bs (h - off) []) else none)
  unfolding scan lookup
  scan-from off [] p = ground arith
  scan-from off (c ∷ bs) p =
      let ih = scan-from (off + 1) bs (λ i. ground (arith, p (suc i))) in
      elim (Bool-cases (leb (off + 1) h)) [
        | inl below ↦
            let e : h - off ≡ suc (h - (off + 1)) = ground arith in
            rw e (ground (arith, ih, p 0, lookup-none q c))
        | inr above ↦ elim (Bool-cases (h == off)) [
          | inl here ↦ let e : h - off ≡ 0 = ground arith in rw e (ground (arith, ih))
          | inr past ↦ ground (arith, ih, p 0, lookup-none q c)
        ]
      ]

  total-from :
      (off : ℕ) (bs : List (List Entry))
      → ((i : ℕ) → count q (get_or bs i []) ≤ to_nat (h == (off + i)))
      → sum_by (count q) bs ≤ to_nat (leb off h)
  total-from off [] p = ground arith
  total-from off (c ∷ bs) p =
      ground (arith, p 0, total-from (off + 1) bs (λ i. ground (arith, p (suc i))))

-- Moving all entries of a placed array to a new one keeps the map, the sums and the placement.
pub record Rehashes (bs : List (List Entry)) (n : ℕ) (result : List (List Entry)) : Type 0 where
  pub width : length result ≡ n
  pub placed : IsPlaced result
  pub sums : (m : Entry → ℕ) → sum_by (sum_by m) result ≡ sum_by (sum_by m) bs
  pub views : (q : Bytes) → view_of result q ≡ view_of bs q

empty-IsHome : (n : ℕ) → IsHome (replicate n [])
unfolding count
empty-IsHome n q i ne = rw (get_or-replicate {A = List Entry} n i []) refl

view-empty : (n : ℕ) (q : Bytes) → view_of (replicate n []) q ≡ none
unfolding view_of lookup
view-empty n q =
    rw
      (get_or-replicate {A = List Entry} n (hash_key q (length (replicate {A = List Entry} n [])))
        [])
      refl

count_le_total :
    (q : Bytes) (bs : List (List Entry)) (i : ℕ) → count q (get_or bs i []) ≤ sum_by (count q) bs
unfolding count
count_le_total q bs i = sum_by-get_or (count q) bs i [] refl

scan-placed : (q : Bytes) (bs : List (List Entry)) → IsPlaced bs → scan q bs ≡ view_of bs q
unfolding view_of
scan-placed q bs p =
    let h = hash_key q (length bs) in
    ground (arith, scan-from q h 0 bs (λ i. ground (arith, p q i)))

total-placed : (q : Bytes) (bs : List (List Entry)) → IsPlaced bs → sum_by (count q) bs ≤ 1
total-placed q bs p =
    ground (arith, total-from q (hash_key q (length bs)) 0 bs (λ i. ground (arith, p q i)))

pub move_all-Rehashes :
    (bs : List (List Entry)) (n : ℕ)
    → 0 < n
    → IsPlaced bs
    → Rehashes bs n (move_all bs (replicate n []))
unfolding count
move_all-Rehashes bs n r p =
    let result = move_all bs (replicate n []) in
    let w = length-replicate {A = List Entry} n [] in
    let m = move_all-MovesAll bs (replicate n []) (omega (arith, w)) (empty-IsHome n) in
    record {
      width = omega (arith, m.width, w);
      placed = λ q i. ground (
        arith,
        m.home q i,
        count_le_total q result i,
        m.sums (λ e. to_nat (str_eq e.key q)),
        sum_by-replicate (sum_by (λ (e : Entry). to_nat (str_eq e.key q))) n [] refl,
        total-placed q bs p,
      );
      sums = λ f. omega (arith, m.sums f, sum_by-replicate (sum_by f) n [] refl);
      views = λ q.
          ground
            (arith, m.views q (λ i. ground (arith, p q i)), view-empty n q, scan-placed q bs p);
    }
