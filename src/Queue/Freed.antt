-- ===== src/Queue/Freed.antt =====
-- That frameset_server/src/queue.c frees each of its buffers once.
use native.Mathlib.Nat.{mul-le-mul_left}
use hand_motion_capture.Prelude.{
  subst, length-append, ℕ, suc, ◌+◌, ◌*◌, ◌≤◌, ◌<◌, ◌≡◌, refl, ap, ◌∙◌, List, [], ◌∷◌, ◌++◌, Option,
  none, some, u32_mod, arith, inl, inr, length,
}
use hand_motion_capture.Queue.{Queue, Outcome, returns, init_queue, enqueue}
use hand_motion_capture.Queue.Refinement.{
  Holds, Holds-length, init_queue-Holds, enqueue-Holds, enqueue-enomem, enqueue_grows,
  dequeue-Holds, dequeue_keeps,
}
use hand_motion_capture.Queue.Memory.{
  Heap, malloc, without, freed, free, taken, Owner, placed, init_owner, enqueue_owner,
  dequeue_owner, cleanup_queue, Call, put, take, make_call, next_call, make_calls,
}
use hand_motion_capture.Queue.Owning.{
  Owned, Mirrors, placed-Mirrors, without_first, enqueue_owner-Mirrors,
}

-- What the calls keep, `n` of them so far.
record Keeps (others : List ℕ) (type_size initial_capacity n : ℕ) (o : Owner) : Type 0 where
  waiting : List ℕ
  holds : Holds o.queue waiting
  same_type : o.queue.type_size ≡ type_size
  bounded : o.queue.capacity ≤ initial_capacity + 2 * n
  few : length waiting ≤ n
  owned : Owned others o

module _ (others : List ℕ) (type_size initial_capacity : ℕ) where
  Keeps-suc :
      (n : ℕ) (o : Owner)
      → Keeps others type_size initial_capacity n o
      → Keeps others type_size initial_capacity (suc n) o
  Keeps-suc n o k = record {
    waiting = k.waiting;
    holds = k.holds;
    same_type = k.same_type;
    bounded = omega (arith, k.bounded);
    few = omega (arith, k.few);
    owned = k.owned;
  }

  enqueue-Keeps :
      (n value : ℕ) (memory : Option (ℕ → ℕ)) (o p : Owner) (r : Queue)
      → (k : Keeps others type_size initial_capacity n o) → enqueue memory value o.queue ≡ returns r
      → Holds r (k.waiting ++ value ∷ [])
      → p.queue ≡ r
      → Owned others p
      → Keeps others type_size initial_capacity (suc n) p
  enqueue-Keeps n value memory o p r k e h e' w =
      let (same, grows) = enqueue_grows memory value o.queue r e in
      let size = Holds-length o.queue k.waiting k.holds in
      record {
        waiting = k.waiting ++ value ∷ [];
        holds = rw e' h;
        same_type = ap (λ (q : Queue). q.type_size) e' ∙ same ∙ k.same_type;
        bounded = rw e' (ground (arith, grows, k.bounded, k.few, size));
        few = rw length-append (omega (arith, k.few));
        owned = w;
      }

  -- A call that does not fail, or after which the caller goes on.
  Answers : ℕ → Owner → Outcome Owner → Type 0
  Answers n o r =
      (p : Owner) × ((rest : Owner → Outcome Owner) → next_call rest o r ≡ rest p)
      × Keeps others type_size initial_capacity n p

  enqueued :
      (n value : ℕ) (memory : Option (ℕ → ℕ)) (o : Owner)
      → (k : Keeps others type_size initial_capacity n o)
      → (r : Queue) × (enqueue memory value o.queue ≡ returns r) × Holds r (k.waiting ++ value ∷ [])
      → Answers (suc n) o (enqueue_owner memory value o)
  unfolding next_call Answers
  enqueued n value memory o k (r, e, h) =
      let (p, e', q, w) =
        subst (λ s. Mirrors others s (enqueue_owner memory value o)) e
          (enqueue_owner-Mirrors others memory value o k.owned) in
      (p, (λ rest. rw e' refl), enqueue-Keeps n value memory o p r k e h q w)

  put-Answers :
      (n value : ℕ) (memory : Option (ℕ → ℕ)) (o : Owner)
      → o.queue.capacity * 2 < u32_mod
      → o.queue.type_size * (o.queue.capacity * 2) < u32_mod
      → Keeps others type_size initial_capacity n o
      → Answers (suc n) o (enqueue_owner memory value o)
  unfolding next_call Answers
  put-Answers n value (some memory) o c t k =
      enqueued n value (some memory) o k (enqueue-Holds memory value o.queue k.waiting k.holds c t)
  put-Answers n value none o c t k = elim (enqueue-enomem value o.queue k.waiting k.holds) [
    | inl (full, e) ↦
        let failed =
          subst (λ s. Mirrors others s (enqueue_owner none value o)) e
            (enqueue_owner-Mirrors others none value o k.owned) in
        (o, (λ rest. rw failed refl), Keeps-suc n o k)
    | inr (room, r) ↦ enqueued n value none o k r
  ]

  take-Answers :
      (n : ℕ) (o : Owner) (waiting : List ℕ)
      → Holds o.queue waiting
      → length waiting ≤ n
      → Keeps others type_size initial_capacity n o
      → Answers (suc n) o (dequeue_owner o)
  unfolding next_call Answers dequeue_owner taken
  take-Answers n o [] h l k = (o, (λ rest. rw (dequeue-Holds o.queue [] h) refl), Keeps-suc n o k)
  take-Answers n o (x ∷ xs) h l k =
      let (r, e, h') = dequeue-Holds o.queue (x ∷ xs) h in
      let (same, kept) = dequeue_keeps x o.queue r e in
      (
        record o { queue = r },
        (λ rest. rw e refl),
        record {
          waiting = xs;
          holds = h';
          same_type = same ∙ k.same_type;
          bounded = omega (arith, kept, k.bounded);
          few = omega (arith, l);
          owned = record { alone = k.owned.alone; older = k.owned.older };
        },
      )

  make_call-Answers :
      (n : ℕ) (c : Call) (o : Owner)
      → o.queue.capacity * 2 < u32_mod
      → o.queue.type_size * (o.queue.capacity * 2) < u32_mod
      → Keeps others type_size initial_capacity n o
      → Answers (suc n) o (make_call c o)
  unfolding make_call Answers
  make_call-Answers n (put memory value) o c t k = put-Answers n value memory o c t k
  make_call-Answers n take o c t k = take-Answers n o k.waiting k.holds k.few k

  make_calls-Keeps :
      (n : ℕ) (cs : List Call) (o : Owner)
      → (initial_capacity + 2 * (n + length cs)) * 2 < u32_mod
      → type_size * ((initial_capacity + 2 * (n + length cs)) * 2) < u32_mod
      → Keeps others type_size initial_capacity n o
      → (p : Owner) × (make_calls cs o ≡ returns p)
        × Keeps others type_size initial_capacity (n + length cs) p
  unfolding make_calls Answers
  make_calls-Keeps n [] o c t k =
      (o, refl, subst (λ m. Keeps others type_size initial_capacity m o) (omega arith) k)
  make_calls-Keeps n (d ∷ cs) o c t k =
      let small : o.queue.capacity * 2 ≤ (initial_capacity + 2 * (n + length (d ∷ cs))) * 2 =
        omega (arith, k.bounded) in
      let bytes = mul-le-mul_left type_size small in
      let (p, e, k') =
        make_call-Answers n d o (omega (arith, c)) (rw k.same_type (omega (arith, t, bytes))) k in
      let later : suc n + length cs ≡ n + length (d ∷ cs) = omega arith in
      let (q, e', k'') = make_calls-Keeps (suc n) cs p (rw later c) (rw later t) k' in
      (
        q,
        e (make_calls cs) ∙ e',
        subst (λ m. Keeps others type_size initial_capacity m q) later k'',
      )

init_queue_keeps :
    (memory : ℕ → ℕ) (type_size initial_capacity : ℕ) (q : Queue)
    → init_queue (some memory) type_size initial_capacity ≡ returns q
    → (q.type_size ≡ type_size) × (q.capacity ≡ initial_capacity)
unfolding init_queue
init_queue_keeps memory type_size initial_capacity q e = grind arith

-- A new queue in a heap.
init_owner-Keeps :
    (before : Heap) (memory : ℕ → ℕ) (type_size initial_capacity : ℕ)
    → 1 ≤ initial_capacity
    → initial_capacity < u32_mod
    → type_size * initial_capacity < u32_mod
    → (o : Owner) × (init_owner (some memory) type_size initial_capacity before ≡ returns o)
      × Keeps before.live type_size initial_capacity 0 o
unfolding init_owner
init_owner-Keeps before memory type_size initial_capacity one c t =
    let (q, e, h) = init_queue-Holds memory type_size initial_capacity one c t in
    let (same, size) = init_queue_keeps memory type_size initial_capacity q e in
    let (o, e', at_q, w) =
      placed-Mirrors before.live before.next (malloc before) (returns q) refl (omega arith) in
    (
      o,
      ap (placed before.next (malloc before)) e ∙ e',
      record {
        waiting = [];
        holds = rw at_q h;
        same_type = ap (λ (q : Queue). q.type_size) at_q ∙ same;
        bounded = rw at_q (omega (arith, size));
        few = omega arith;
        owned = w;
      },
    )

-- If `malloc` gives memory for a new queue of one slot or more, and `initial_capacity` with twice the
-- number of calls, doubled once more, stays below 2^32 slots and bytes, then no sequence of calls of
-- `enqueue` and `dequeue` does what is undefined or frees a block twice, whatever `malloc` answers in
-- them, and after `cleanup_queue` the blocks that were there before the queue are left, and no others.
pub make_calls-cleanup_queue :
    (before : Heap) (memory : ℕ → ℕ) (type_size initial_capacity : ℕ) (cs : List Call)
    → 1 ≤ initial_capacity
    → (initial_capacity + 2 * length cs) * 2 < u32_mod
    → type_size * ((initial_capacity + 2 * length cs) * 2) < u32_mod
    → (o p : Owner) × (h : Heap) × (init_owner (some memory) type_size initial_capacity before
        ≡ returns o)
      × (make_calls cs o ≡ returns p)
      × (cleanup_queue p ≡ returns h)
      × (h.live ≡ before.live)
unfolding cleanup_queue free freed
make_calls-cleanup_queue before memory type_size initial_capacity cs one c t =
    let start : initial_capacity ≤ (initial_capacity + 2 * length cs) * 2 = omega arith in
    let bytes = mul-le-mul_left type_size start in
    let none_yet : 0 + length cs ≡ length cs = omega arith in
    let (o, made, k) =
      init_owner-Keeps before memory type_size initial_capacity one (omega (arith, c))
        (omega (arith, t, bytes)) in
    let (p, ran, k') =
      make_calls-Keeps before.live type_size initial_capacity 0 cs o (rw none_yet c) (rw none_yet t)
        k in
    (
      o,
      p,
      record (p.heap) { live = before.live },
      made,
      ran,
      ap (freed p.heap) (ap (without p.block) k'.owned.alone ∙ without_first p.block before.live),
      refl,
    )
