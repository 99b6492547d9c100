-- ===== src/ThreadPool/Fifo.antt =====
-- The ring buffer of the thread pool is a bounded first-in first-out queue.
use native.Mathlib.Nat.{mod-add-mod, mod-eq_of_lt}
use mini_kv_db_server.Prelude.{
  ℕ, zero, suc, ◌+◌, ◌-◌, ◌%◌, ◌≤◌, ◌<◌, ◌≡◌, ◌≢◌, ◌⊎◌, refl, ap, ap₂, sym, ◌∙◌, true, false, ◌&&◌,
  not, Option, none, some, List, [], ◌∷◌, ◌++◌, arith, ◌==◌, leb, length, get_or, set, length-set,
  get_or-set, length-replicate, if_both, inl, inr,
}
use mini_kv_db_server.Status.{Status, ok, internal, again}
use mini_kv_db_server.Env.{Env}
use mini_kv_db_server.ThreadPool.{
  Pool, Turn, wait, exit, run, fresh_pool, thread_pool_create, thread_pool_submit,
  thread_pool_worker,
}

next_mod : (cap h g : ℕ) → h % cap ≡ g % cap → (h + 1) % cap ≡ (g + 1) % cap
next_mod cap h g e = sym (mod-add-mod h cap 1) ∙ ap (λ x. (x + 1) % cap) e ∙ mod-add-mod g cap 1

zeroth : (cap h : ℕ) → (h + 0) % cap ≡ h % cap
zeroth cap h = ap (λ i. i % cap) (omega arith)

shifted : (h j cap : ℕ) → (h + suc j) % cap ≡ (h + 1 + j) % cap
shifted h j cap = ap (λ i. i % cap) (omega arith)

-- While there is room, the slot behind the last task is none of the slots that wait.
apart : (cap h n j : ℕ) → h < cap → n < cap → j < n → (h + j) % cap ≢ (h + n) % cap
apart cap h n j lt m b = grind arith

module _ {A : Type 0} where
  -- The `n` slots from position `h` on, round the array.
  unfoldable pub slots : List (Option A) → ℕ → ℕ → ℕ → List (Option A)
  slots q cap h zero = []
  slots q cap h (suc n) = get_or q (h % cap) none ∷ slots q cap (h + 1) n

  -- The tasks that wait, the oldest first.
  unfoldable pub pending : Pool A → List (Option A)
  unfolding slots
  pending p = slots p.queue p.queue_capacity p.queue_head p.queue_count

  pub record IsRing (p : Pool A) : Type 0 where
    pub roomy : 0 < p.queue_capacity
    pub width : length p.queue ≡ p.queue_capacity
    pub count : p.queue_count ≤ p.queue_capacity
    pub head : p.queue_head < p.queue_capacity
    pub tail : p.queue_tail ≡ (p.queue_head + p.queue_count) % p.queue_capacity

  slots-mod :
      (q : List (Option A)) (cap h g n : ℕ) → h % cap ≡ g % cap → slots q cap h n ≡ slots q cap g n
  unfolding slots
  slots-mod q cap h g zero e = refl
  slots-mod q cap h g (suc n) e =
      ap₂ (λ x r. x ∷ r) (ap (λ i. get_or q i none) e)
        (slots-mod q cap (h + 1) (g + 1) n (next_mod cap h g e))

  -- Writing a slot that is not among them.
  slots-set :
      (q : List (Option A)) (cap h n i : ℕ) (v : Option A)
      → i < length q
      → ((j : ℕ) → j < n → (h + j) % cap ≢ i)
      → slots (set q i v) cap h n ≡ slots q cap h n
  unfolding slots
  slots-set q cap h zero i v lt other = refl
  slots-set q cap h (suc n) i v lt other =
      ap₂ (λ x r. x ∷ r) (ground (arith, get_or-set q i (h % cap) v none lt, zeroth cap h, other 0))
        (slots-set q cap (h + 1) n i v lt
          (λ j b. λ e. other (suc j) (omega arith) (shifted h j cap ∙ e)))

  slots-snoc :
      (q : List (Option A)) (cap h n : ℕ)
      → slots q cap h (suc n) ≡ slots q cap h n ++ get_or q ((h + n) % cap) none ∷ []
  unfolding slots
  slots-snoc q cap h zero = ap (λ i. get_or q (i % cap) none ∷ []) (omega arith)
  slots-snoc q cap h (suc n) =
      ap (λ r. get_or q (h % cap) none ∷ r)
        (slots-snoc q cap (h + 1) n
          ∙ ap (λ i. slots q cap (h + 1) n ++ get_or q (i % cap) none ∷ []) (omega arith))

  submit-lem :
      (p : Pool A) (task : A)
      → IsRing p
      → p.queue_count < p.queue_capacity
      → slots
          (set p.queue p.queue_tail (some task))
          p.queue_capacity
          p.queue_head
          (p.queue_count + 1)
        ≡ pending p ++ some task ∷ []
  unfolding pending
  submit-lem p task v room =
      let q = set p.queue p.queue_tail (some task) in
      let lt : p.queue_tail < length p.queue = grind (arith, v.tail, v.width, v.roomy) in
      let keep =
        slots-set p.queue p.queue_capacity p.queue_head p.queue_count p.queue_tail (some task) lt
          (λ j b e.
            apart p.queue_capacity p.queue_head p.queue_count j v.head room b (e ∙ v.tail)) in
      let last : get_or q ((p.queue_head + p.queue_count) % p.queue_capacity) none ≡ some task =
        rw (← v.tail)
          (ground (arith, get_or-set p.queue p.queue_tail p.queue_tail (some task) none lt)) in
      let e : p.queue_count + 1 ≡ suc p.queue_count = omega arith in
      rw e (
        slots-snoc q p.queue_capacity p.queue_head p.queue_count
        ∙ ap₂ (λ r x. r ++ x ∷ []) keep last)

  accepted : A → Pool A → Pool A
  accepted task p = record p {
    queue = set p.queue p.queue_tail (some task);
    queue_tail = (p.queue_tail + 1) % p.queue_capacity;
    queue_count = p.queue_count + 1;
  }

  accepted-IsRing :
      (p : Pool A) (task : A)
      → IsRing p
      → p.queue_count < p.queue_capacity
      → IsRing (accepted task p)
  unfolding accepted
  accepted-IsRing p task v room = record {
    roomy = v.roomy;
    width = length-set p.queue p.queue_tail (some task) ∙ v.width;
    count = omega (arith, room);
    head = v.head;
    tail =
        ap (λ i. (i + 1) % p.queue_capacity) v.tail
        ∙ mod-add-mod (p.queue_head + p.queue_count) p.queue_capacity 1
        ∙ ap (λ i. i % p.queue_capacity) (omega arith);
  }

  -- The outcomes of a submission.
  abbrev pub Submitted : A → Pool A → Status × Pool A → Type 0
  Submitted task p r =
      ((r.0 ≡ ok) × (p.shutdown ≡ false) × IsRing r.1 × (pending r.1 ≡ pending p ++ some task ∷ []))
      ⊎ (((r.0 ≡ internal) × (p.shutdown ≡ true) × (r.1 ≡ p))
          ⊎ ((r.0 ≡ again) × (p.queue_count ≡ p.queue_capacity) × (r.1 ≡ p)))

  -- Submitting a task to a valid ring appends it to the tasks that wait, or is refused and changes
  -- nothing: after the shutdown with KV_ERR_INTERNAL, and with KV_ERR_AGAIN exactly where the
  -- buffer is full.
  pub thread_pool_submit_lem :
      (task : A) (p : Pool A) → IsRing p → Submitted task p (thread_pool_submit (some task) p)
  unfolding thread_pool_submit accepted pending
  thread_pool_submit_lem task p v =
      if_both (Submitted task p) p.shutdown _ _ (λ s. inr (inl (refl, s, refl)))
        (λ s.
          if_both (Submitted task p) (leb p.queue_capacity p.queue_count) _ _
            (λ f. inr (inr (refl, ground (arith, v.count), refl)))
            (λ f. inl (
              refl,
              s,
              accepted-IsRing p task v (ground arith),
              submit-lem p task v (ground arith),
            )))

  -- What a worker's turn means for the tasks that wait.
  abbrev pub TurnOf : Pool A → Turn A → Type 0
  TurnOf p wait = (pending p ≡ []) × (p.shutdown ≡ false)
  TurnOf p exit = (pending p ≡ []) × (p.shutdown ≡ true)
  TurnOf p (run task p') = (pending p ≡ task ∷ pending p') × IsRing p' × (p'.shutdown ≡ p.shutdown)

  pending_empty : (p : Pool A) → p.queue_count ≡ 0 → pending p ≡ []
  unfolding pending
  pending_empty p e = rw e refl

  pending_first :
      (p : Pool A)
      → IsRing p
      → 0 < p.queue_count
      → pending p
        ≡ get_or p.queue p.queue_head none
          ∷ slots p.queue p.queue_capacity
              ((p.queue_head + 1) % p.queue_capacity)
              (p.queue_count - 1)
  unfolding pending
  pending_first p v pos =
      let e : p.queue_count ≡ suc (p.queue_count - 1) = omega arith in
      let first : p.queue_head % p.queue_capacity ≡ p.queue_head = mod-eq_of_lt v.head in
      let again' : (p.queue_head + 1) % p.queue_capacity
          ≡ ((p.queue_head + 1) % p.queue_capacity) % p.queue_capacity =
        grind (arith, v.roomy) in
      ap (slots p.queue p.queue_capacity p.queue_head) e
      ∙ ap₂ (λ x r. x ∷ r) (ap (λ i. get_or p.queue i none) first)
          (slots-mod p.queue p.queue_capacity (p.queue_head + 1)
            ((p.queue_head + 1) % p.queue_capacity) (p.queue_count - 1) again')

  -- On a valid ring, a worker waits only if no task waits and the pool is open, and ends only if
  -- none waits after the shutdown; else it leaves with the oldest task, and the ring stays valid.
  pub thread_pool_worker_lem : (p : Pool A) → IsRing p → TurnOf p (thread_pool_worker p)
  unfolding thread_pool_worker pending
  thread_pool_worker_lem p v =
      if_both (TurnOf p) (p.queue_count == 0 && not p.shutdown) _ _
        (λ b. (pending_empty p (ground arith), ground arith))
        (λ b.
          if_both (TurnOf p) (p.shutdown && p.queue_count == 0) _ _
            (λ c. (pending_empty p (ground arith), ground arith))
            (λ c. (
              pending_first p v (ground arith),
              record {
                roomy = v.roomy;
                width = v.width;
                count = omega (arith, v.count);
                head = grind (arith, v.roomy);
                tail =
                    v.tail
                    ∙ ap (λ i. i % p.queue_capacity) (ground arith)
                    ∙ sym (mod-add-mod (p.queue_head + 1) p.queue_capacity (p.queue_count - 1));
              },
              refl,
            )))

  pub fresh-IsRing :
      (n size : ℕ) → 0 < size → IsRing (fresh_pool n size) × (pending (fresh_pool n size) ≡ [])
  unfolding pending
  fresh-IsRing n size pos = (
    record {
      roomy = pos;
      width = length-replicate size none;
      count = omega arith;
      head = pos;
      tail = grind arith;
    },
    refl,
  )

  -- A pool that has been created is a valid ring and an empty queue.
  pub thread_pool_create-IsRing :
      (num_threads size : ℕ) (env : Env) (p : Pool A)
      → (thread_pool_create num_threads size env).0 ≡ some p
      → IsRing p × (pending p ≡ [])
  unfolding thread_pool_create
  thread_pool_create-IsRing num_threads size env p h =
      let e : p ≡ fresh_pool num_threads size = ground arith in
      let pos : 0 < size = ground arith in rw e (fresh-IsRing num_threads size pos)
