-- ===== src/Queue/Refinement.antt =====
-- The queue of frameset_server/src/queue.c as a list of the values in it, oldest first.
use native.Mathlib.Nat.{mod-eq_of_lt}
use hand_motion_capture.Prelude.{
  ℕ, zero, suc, ◌-◌, ◌*◌, ◌≤◌, ◌<◌, ◌≡◌, refl, sym, ◌∙◌, false, List, [], ◌∷◌, ◌++◌, Option, none,
  some, u32_mod, arith, ltb, ◌==◌, Bool-cases, ◌⊎◌, inl, inr, length,
}
use hand_motion_capture.SpscQueue.{next_slot}
use hand_motion_capture.SpscQueue.Window.{window}
use hand_motion_capture.Queue.{
  Queue, returns, enomem, eagain, init_queue, resize, store_resized, enqueue, dequeue,
}
use hand_motion_capture.Queue.Holding.{slot_fits, mod_next, store-Holds, resize-Holds}
pub use hand_motion_capture.Queue.Holding.{Holds, Holds-length}

-- If `malloc` gives memory, a new queue of one slot or more, below 2^32 slots and bytes, holds no value.
pub init_queue-Holds :
    (memory : ℕ → ℕ) (type_size initial_capacity : ℕ)
    → 1 ≤ initial_capacity
    → initial_capacity < u32_mod
    → type_size * initial_capacity < u32_mod
    → (q : Queue) × (init_queue (some memory) type_size initial_capacity ≡ returns q) × Holds q []
unfolding init_queue window
init_queue-Holds memory type_size initial_capacity p c t = (
  record {
    slots = memory;
    allocated = type_size * initial_capacity;
    type_size = type_size;
    capacity = initial_capacity;
    size = 0;
    head = 0;
    tail = 0;
  },
  rw (mod-eq_of_lt t) refl,
  record {
    some_room = p;
    head_in = p;
    tail_in = p;
    size_in = omega arith;
    ring = inl refl;
    holds = refl;
    no_wrap = t;
    capacity_in = c;
    buffer = refl;
  },
)

-- If `malloc` gives memory and the doubled buffer stays below 2^32 slots and bytes, `enqueue` on a queue
-- that holds `xs` returns 0, stays within the buffer, and the queue holds `xs` with the value at its
-- end, also where the ring is full and is moved to a new buffer.
pub enqueue-Holds :
    (memory : ℕ → ℕ) (value : ℕ) (q : Queue) (xs : List ℕ)
    → Holds q xs
    → q.capacity * 2 < u32_mod
    → q.type_size * (q.capacity * 2) < u32_mod
    → (r : Queue) × (enqueue (some memory) value q ≡ returns r) × Holds r (xs ++ value ∷ [])
unfolding enqueue
enqueue-Holds memory value q xs h c t = elim (Bool-cases (q.size == q.capacity)) [
  | inl full ↦
      let (s, e, k, l) = resize-Holds memory q xs h (ground arith) c t in
      let (r, e', k') = store-Holds value s xs k l in
      (r, rw (full, e) (unfold store_resized in e'), k')
  | inr room ↦
      let (r, e, k) = store-Holds value q xs h (ground (arith, h.size_in)) in (r, rw room e, k)
]

-- If `malloc` gives no memory, `enqueue` on a queue that holds `xs` either finds every slot taken and
-- returns -ENOMEM, or finds one free, stays within the buffer and returns 0 with the value at the end.
pub enqueue-enomem :
    (value : ℕ) (q : Queue) (xs : List ℕ)
    → Holds q xs
    → ((length xs ≡ q.capacity) × (enqueue none value q ≡ enomem))
      ⊎ ((length xs < q.capacity)
          × ((r : Queue) × (enqueue none value q ≡ returns r) × Holds r (xs ++ value ∷ [])))
unfolding enqueue resize store_resized
enqueue-enomem value q xs h = elim (Bool-cases (q.size == q.capacity)) [
  | inl full ↦ inl (sym (Holds-length q xs h) ∙ ground arith, rw full refl)
  | inr room ↦
      let l : q.size < q.capacity = ground (arith, h.size_in) in
      let (r, e, k) = store-Holds value q xs h l in
      inr (rw (Holds-length q xs h) at l, (r, rw room e, k))
]

-- What `dequeue` gives for a list.
abbrev pub Dequeues : Queue → List ℕ → Type 0
Dequeues q [] = dequeue q ≡ eagain
Dequeues q (x ∷ xs) = (r : Queue) × (dequeue q ≡ returns (x, r)) × Holds r xs

-- The front of a run, and what is behind it.
record Front (cap : ℕ) (buf : ℕ → ℕ) (i n x : ℕ) (xs : List ℕ) : Type 0 where
  behind : ℕ
  count : n ≡ suc behind
  first : buf i ≡ x
  others : window cap buf (next_slot cap i) behind ≡ xs

window-Front :
    (cap : ℕ) (buf : ℕ → ℕ) (i n x : ℕ) (xs : List ℕ)
    → window cap buf i n ≡ x ∷ xs
    → Front cap buf i n x xs
unfolding window
window-Front cap buf i zero x xs e = absurd (cc e)
window-Front cap buf i (suc n) x xs e = record {
  behind = n;
  count = refl;
  first = cc e;
  others = cc e;
}

-- On a queue that holds no value `dequeue` returns -EAGAIN, and on one that holds `x ∷ xs` it gives `x`,
-- stays within the buffer, and the queue holds `xs`.
pub dequeue-Holds : (q : Queue) (xs : List ℕ) → Holds q xs → Dequeues q xs
unfolding dequeue
dequeue-Holds q [] h = let e : q.size ≡ 0 = Holds-length q [] h in rw e refl
dequeue-Holds q (x ∷ xs) h =
    let f : Front q.capacity q.slots q.head q.size x xs =
      window-Front q.capacity q.slots q.head q.size x xs h.holds in
    let filled : (q.size == 0) ≡ false = ground (arith, f.count) in
    let room : (q.capacity == 0) ≡ false = ground (arith, h.some_room) in
    let in_bytes : ltb q.allocated (q.type_size * suc q.head) ≡ false =
      ground (arith, h.buffer, slot_fits q.type_size q.capacity q.head h.head_in) in
    let left : q.size - 1 ≡ f.behind = omega (arith, f.count) in
    (
      record q { head = next_slot q.capacity q.head; size = f.behind },
      rw (filled, room, in_bytes, left, f.first, mod_next q.capacity q.head h.head_in) refl,
      record {
        some_room = h.some_room;
        head_in = unfold next_slot in ground (arith, h.some_room, h.head_in);
        tail_in = h.tail_in;
        size_in = omega (arith, h.size_in, f.count);
        ring = unfold next_slot in ground (arith, h.ring, h.tail_in, h.head_in, f.count, h.size_in);
        holds = f.others;
        no_wrap = h.no_wrap;
        capacity_in = h.capacity_in;
        buffer = h.buffer;
      },
    )

-- A queue that grows had every slot taken, and doubles.
pub enqueue_grows :
    (memory : Option (ℕ → ℕ)) (value : ℕ) (q r : Queue)
    → enqueue memory value q ≡ returns r
    → (r.type_size ≡ q.type_size) × ((r.capacity ≡ q.capacity) ⊎ (r.capacity ≤ 2 * q.size))
unfolding enqueue
enqueue_grows none value q r e = ground arith
enqueue_grows (some memory) value q r e = ground arith

pub dequeue_keeps :
    (x : ℕ) (q r : Queue)
    → dequeue q ≡ returns (x, r)
    → (r.type_size ≡ q.type_size) × (r.capacity ≡ q.capacity)
unfolding dequeue
dequeue_keeps x q r e = grind arith
