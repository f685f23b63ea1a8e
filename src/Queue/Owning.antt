-- ===== src/Queue/Owning.antt =====
-- How a call of frameset_server/src/queue.c on a queue with its buffer follows the one on the queue alone.
use hand_motion_capture.Prelude.{
  ℕ, suc, ◌<◌, ◌≡◌, refl, sym, ap, ◌∙◌, true, false, List, ◌∷◌, Option, some, arith, ◌==◌,
  Bool-cases, inl, inr,
}
use hand_motion_capture.Queue.{
  Queue, Outcome, returns, enomem, eagain, undefined, resize, store, store_resized, enqueue,
}
use hand_motion_capture.Queue.Memory.{
  Heap, malloc, without, freed, free, moved, Owner, placed, replaced, store_owner, enqueue_owner,
}

-- The buffer is the newest block, and those of others are as they were.
pub record Owned (others : List ℕ) (o : Owner) : Type 0 where
  pub alone : o.heap.live ≡ o.block ∷ others
  pub older : o.block < o.heap.next

-- A call ends as it does on the queue alone, with the buffer still owned.
abbrev pub Mirrors : List ℕ → Outcome Queue → Outcome Owner → Type 0
Mirrors others (returns q) r = (o : Owner) × (r ≡ returns o) × (o.queue ≡ q) × Owned others o
Mirrors others enomem r = r ≡ enomem
Mirrors others eagain r = r ≡ eagain
Mirrors others undefined r = r ≡ undefined

pub placed-Mirrors :
    (others : List ℕ) (a : ℕ) (h : Heap) (r : Outcome Queue)
    → h.live ≡ a ∷ others
    → a < h.next
    → Mirrors others r (placed a h r)
unfolding placed
placed-Mirrors others a h (returns q) e l =
    (record { queue = q; block = a; heap = h }, refl, refl, record { alone = e; older = l })
placed-Mirrors others a h enomem e l = refl
placed-Mirrors others a h eagain e l = refl
placed-Mirrors others a h undefined e l = refl

pub without_first : (a : ℕ) (bs : List ℕ) → without a (a ∷ bs) ≡ some bs
without_first a bs = let same : (a == a) ≡ true = ground arith in rw same refl

without_second : (a b : ℕ) (bs : List ℕ) → a < b → without a (b ∷ a ∷ bs) ≡ some (b ∷ bs)
without_second a b bs l =
    let other : (b == a) ≡ false = ground arith in
    let same : (a == a) ≡ true = ground arith in rw (other, same) refl

replaced-Mirrors :
    (others : List ℕ) (o : Owner) (r : Outcome Queue)
    → Owned others o
    → Mirrors others r (replaced o r)
unfolding replaced free freed moved
replaced-Mirrors others o (returns q) w = (
  record {
    queue = q;
    block = o.heap.next;
    heap = record { next = suc o.heap.next; live = o.heap.next ∷ others };
  },
  ap (λ bs. moved q o.heap.next (freed (malloc o.heap) bs))
      (ap (λ bs. without o.block (o.heap.next ∷ bs)) w.alone
        ∙ without_second o.block o.heap.next others w.older),
  refl,
  record { alone = refl; older = omega arith },
)
replaced-Mirrors others o enomem w = refl
replaced-Mirrors others o eagain w = refl
replaced-Mirrors others o undefined w = refl

store_owner-Mirrors :
    (others : List ℕ) (value : ℕ) (r : Outcome Queue) (s : Outcome Owner)
    → Mirrors others r s
    → Mirrors others (store_resized value r) (store_owner value s)
unfolding store_owner store_resized
store_owner-Mirrors others value (returns q) s (o, e, e', w) =
    rw (e, sym e') (placed-Mirrors others o.block o.heap (store value o.queue) w.alone w.older)
store_owner-Mirrors others value enomem s e = rw e refl
store_owner-Mirrors others value eagain s e = rw e refl
store_owner-Mirrors others value undefined s e = rw e refl

pub enqueue_owner-Mirrors :
    (others : List ℕ) (memory : Option (ℕ → ℕ)) (value : ℕ) (o : Owner)
    → Owned others o
    → Mirrors others (enqueue memory value o.queue) (enqueue_owner memory value o)
unfolding enqueue enqueue_owner
enqueue_owner-Mirrors others memory value o w =
    elim (Bool-cases (o.queue.size == o.queue.capacity)) [
      | inl full ↦ rw full (
          store_owner-Mirrors others value (resize memory o.queue)
            (replaced o (resize memory o.queue))
            (replaced-Mirrors others o (resize memory o.queue) w))
      | inr room ↦
          rw room
            (store_owner-Mirrors others value (returns o.queue) (returns o) (o, refl, refl, w))
    ]
