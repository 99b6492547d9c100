-- ===== src/Table/Evict/Pick.antt =====
-- The candidate of an eviction is a pointer into the table, and is there whenever an entry is.
use mini_kv_db_server.Prelude.{
  ℕ, zero, suc, ◌+◌, ◌%◌, ◌<◌, ◌≡◌, ◌≢◌, refl, Option, none, some, List, [], ◌∷◌, arith, ltb,
  length, get_or, get_elem?, Bool-cases, Option-cases, inl, inr, sum_by, to_nat, leb,
}
use mini_kv_db_server.Table.Types.{Entry, Found}
use mini_kv_db_server.Table.Laws.{entry_count}
use mini_kv_db_server.Table.Evict.{
  xorshift32, Best, uint64_max, no_best, better, scan_chain, visit, sample, scan_all, or_scan, pick,
}

abbrev pub PointsIn : List (List Entry) → Found → Type 0
PointsIn bs f = (f.index < length bs) × (get_elem? (get_or bs f.index []) f.position ≡ some f.entry)

abbrev AllIn : List (List Entry) → Option Found → Type 0
AllIn bs none = Unit {0}
AllIn bs (some f) = PointsIn bs f

module _ (bs : List (List Entry)) where
  better-AllIn :
      (i p : ℕ) (e : Entry) (b : Best)
      → i < length bs
      → get_elem? (get_or bs i []) p ≡ some e
      → AllIn bs b.best
      → AllIn bs (better i p e b).best
  unfolding better
  better-AllIn i p e b lt at h = elim (Bool-cases (ltb e.last_accessed_time b.min_clock)) [
    | inl y ↦ rw y (lt, at)
    | inr n ↦ rw n h
  ]

  -- The walk over the rest `c` of chain `i`, of which `p` nodes are passed.
  scan_chain-AllIn :
      (i p : ℕ) (c : List Entry) (b : Best)
      → i < length bs
      → ((j : ℕ) → get_elem? (get_or bs i []) (p + j) ≡ get_elem? c j)
      → AllIn bs b.best
      → AllIn bs (scan_chain i p c b).best
  unfolding scan_chain
  scan_chain-AllIn i p [] b lt at h = h
  scan_chain-AllIn i p (e ∷ c) b lt at h =
      scan_chain-AllIn i (suc p) c (better i p e b) lt
        (λ j. let e : suc p + j ≡ p + suc j = omega arith in rw e (at (suc j)))
        (better-AllIn i p e b lt (let e : p ≡ p + 0 = omega arith in rw e (at 0)) h)

  visit-AllIn :
      (i : ℕ) (c : List Entry) (found : ℕ) (b : Best)
      → i < length bs
      → get_or bs i [] ≡ c
      → AllIn bs b.best
      → AllIn bs (visit i c found b).1.best
  unfolding visit
  visit-AllIn i [] found b lt e h = h
  visit-AllIn i (curr ∷ c) found b lt e h =
      scan_chain-AllIn i 0 (curr ∷ c) b lt (λ j. let z : 0 + j ≡ j = omega arith in rw (z, e)) h

  sample-AllIn :
      (rounds found rng : ℕ) (b : Best)
      → 0 < length bs
      → AllIn bs b.best
      → AllIn bs (sample rounds found rng bs b).0.best
  unfolding sample
  sample-AllIn zero found rng b r h = h
  sample-AllIn (suc rounds) found rng b r h =
      let i = xorshift32 rng % length bs in
      let v = visit i (get_or bs i []) found b in
      elim (Bool-cases (ltb found 16)) [
        | inr stop ↦ rw (stop, sample) h
        | inl go ↦
            rw (go, sample)
              (sample-AllIn rounds v.0 (xorshift32 rng) v.1 r
                (visit-AllIn i (get_or bs i []) found b (omega arith) refl h))
      ]

  -- The chains from number `i` on.
  scan_all-AllIn :
      (i : ℕ) (rest : List (List Entry)) (b : Best)
      → i + length rest ≡ length bs
      → ((j : ℕ) → get_or bs (i + j) [] ≡ get_or rest j [])
      → AllIn bs b.best
      → AllIn bs (scan_all i rest b).best
  unfolding scan_all
  scan_all-AllIn i [] b w at h = h
  scan_all-AllIn i (c ∷ rest) b w at h =
      scan_all-AllIn (suc i) rest (scan_chain i 0 c b) (omega arith)
        (λ j. let e : suc i + j ≡ i + suc j = omega arith in rw e (at (suc j)))
        (scan_chain-AllIn i 0 c b (omega arith)
          (λ j.
            let e : i + 0 ≡ i = omega arith in let z : 0 + j ≡ j = omega arith in rw (z, ← e, at 0))
          h)

  or_scan-AllIn : (b : Best) → AllIn bs b.best → AllIn bs (or_scan bs b).best
  unfolding or_scan
  or_scan-AllIn b h = elim (Option-cases b.best) [
    | inl e ↦
        rw (e, or_scan)
          (scan_all-AllIn 0 bs b (omega arith) (λ j. let z : 0 + j ≡ j = omega arith in rw z) h)
    | inr (f, e) ↦ rw (e, or_scan) h
  ]

  -- A candidate is a pointer into the table.
  pub pick-PointsIn :
      (rng : ℕ) (f : Found) → 0 < length bs → (pick bs rng).0 ≡ some f → PointsIn bs f
  unfolding pick
  pick-PointsIn rng f r e =
      let h = or_scan-AllIn (sample 64 0 rng bs no_best).0 (sample-AllIn 64 0 rng no_best r tt) in
      rw e at h

-- How many entries carry the largest clock value, which no comparison takes for a candidate.
abbrev pub is_ageless : Entry → ℕ
is_ageless e = to_nat (leb uint64_max e.last_accessed_time)

abbrev pub ageless : List (List Entry) → ℕ
ageless bs = sum_by (sum_by is_ageless) bs

-- Either nothing was compared yet, or there is a candidate.
abbrev IsStarted : Best → Type 0
IsStarted b = b.best ≡ none → b.min_clock ≡ uint64_max

better-IsStarted : (i p : ℕ) (e : Entry) (b : Best) → IsStarted b → IsStarted (better i p e b)
unfolding better
better-IsStarted i p e b h = elim (Bool-cases (ltb e.last_accessed_time b.min_clock)) [
  | inl y ↦ rw y (λ n. absurd (ground arith))
  | inr n ↦ rw n h
]

scan_chain-IsStarted :
    (i p : ℕ) (c : List Entry) (b : Best) → IsStarted b → IsStarted (scan_chain i p c b)
unfolding scan_chain
scan_chain-IsStarted i p [] b h = h
scan_chain-IsStarted i p (e ∷ c) b h =
    scan_chain-IsStarted i (suc p) c (better i p e b) (better-IsStarted i p e b h)

visit-IsStarted :
    (i : ℕ) (c : List Entry) (found : ℕ) (b : Best) → IsStarted b → IsStarted (visit i c found b).1
unfolding visit
visit-IsStarted i [] found b h = h
visit-IsStarted i (e ∷ c) found b h = scan_chain-IsStarted i 0 (e ∷ c) b h

sample-IsStarted :
    (rounds found rng : ℕ) (bs : List (List Entry)) (b : Best)
    → IsStarted b
    → IsStarted (sample rounds found rng bs b).0
unfolding sample
sample-IsStarted zero found rng bs b h = h
sample-IsStarted (suc rounds) found rng bs b h =
    let i = xorshift32 rng % length bs in
    let v = visit i (get_or bs i []) found b in
    elim (Bool-cases (ltb found 16)) [
      | inr stop ↦ rw (stop, sample) h
      | inl go ↦
          rw (go, sample)
            (sample-IsStarted rounds v.0 (xorshift32 rng) bs v.1
              (visit-IsStarted i (get_or bs i []) found b h))
    ]

-- Comparing goes on from a candidate.
scan_chain-some :
    (i p : ℕ) (c : List Entry) (b : Best) (f : Found)
    → b.best ≡ some f
    → (scan_chain i p c b).best ≢ none
unfolding scan_chain better
scan_chain-some i p [] b f h = λ e. ground arith
scan_chain-some i p (x ∷ c) b f h = elim (Bool-cases (ltb x.last_accessed_time b.min_clock)) [
  | inl y ↦
      scan_chain-some i (suc p) c (better i p x b) (record { index = i; position = p; entry = x })
        (ground arith)
  | inr n ↦ scan_chain-some i (suc p) c (better i p x b) f (ground arith)
]

scan_all-some :
    (i : ℕ) (bs : List (List Entry)) (b : Best) → b.best ≢ none → (scan_all i bs b).best ≢ none
unfolding scan_all
scan_all-some i [] b h = h
scan_all-some i (c ∷ bs) b h =
    scan_all-some (suc i) bs (scan_chain i 0 c b) (elim (Option-cases b.best) [
      | inl e ↦ absurd (h e)
      | inr (f, e) ↦ scan_chain-some i 0 c b f e
    ])

-- From the start, the linear scan finds a candidate if there is an entry that can be one.
scan_all-finds :
    (i : ℕ) (bs : List (List Entry)) (b : Best)
    → b.min_clock ≡ uint64_max
    → ageless bs ≡ 0
    → 0 < entry_count bs
    → (scan_all i bs b).best ≢ none
unfolding scan_all scan_chain better
scan_all-finds i [] b m k h = absurd (omega arith)
scan_all-finds i ([] ∷ bs) b m k h = scan_all-finds (suc i) bs b m (omega arith) (omega arith)
scan_all-finds i ((x ∷ c) ∷ bs) b m k h =
    scan_all-some (suc i) bs (scan_chain i 1 c (better i 0 x b)) (
      scan_chain-some i 1 c (better i 0 x b) (record { index = i; position = 0; entry = x })
        (ground arith))

pub pick_some :
    (bs : List (List Entry)) (rng : ℕ)
    → ageless bs ≡ 0
    → 0 < entry_count bs
    → (pick bs rng).0 ≢ none
unfolding pick or_scan
pick_some bs rng k h e =
    let b = (sample 64 0 rng bs no_best).0 in
    elim (Option-cases b.best) [
      | inl n ↦
          scan_all-finds 0 bs b (sample-IsStarted 64 0 rng bs no_best (λ _. refl) n) k h
            (rw (n, or_scan) at e)
      | inr (f, s) ↦ ground (arith, rw (s, or_scan) at e)
    ]
