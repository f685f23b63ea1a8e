-- ===== src/Queue/Memory.antt =====
-- The memory of frameset_server/src/queue.c: which block `data` points to, and `cleanup_queue`. A block is
-- known by its number in the order of allocation, so that one that is freed never comes back.
use hand_motion_capture.Prelude.{ℕ, suc, List, [], ◌∷◌, Option, none, some, ◌==◌, if◌then◌else◌}
use hand_motion_capture.Queue.{
  Queue, Outcome, returns, enomem, eagain, undefined, init_queue, resize, store, dequeue,
}

-- The blocks that were allocated and not freed, those of others too.
pub record Heap : Type 0 where
  pub next : ℕ
  pub live : List ℕ

abbrev pub malloc : Heap → Heap
malloc h = record { next = suc h.next; live = h.next ∷ h.live }

abbrev beside : ℕ → Option (List ℕ) → Option (List ℕ)
beside b none = none
beside b (some bs) = some (b ∷ bs)

-- `none` for a block that was freed already.
abbrev pub without : ℕ → List ℕ → Option (List ℕ)
without a [] = none
without a (b ∷ bs) = let rest = without a bs in if b == a then some bs else beside b rest

unfoldable pub freed : Heap → Option (List ℕ) → Outcome Heap
freed h none = undefined
freed h (some rest) = returns (record h { live = rest })

unfoldable pub free : ℕ → Heap → Outcome Heap
unfolding freed
free a h = freed h (without a h.live)

-- A queue with the block that `data` points to.
pub record Owner : Type 0 where
  pub queue : Queue
  pub block : ℕ
  pub heap : Heap

unfoldable pub placed : ℕ → Heap → Outcome Queue → Outcome Owner
placed a h (returns q) = returns (record { queue = q; block = a; heap = h })
placed a h enomem = enomem
placed a h eagain = eagain
placed a h undefined = undefined

unfoldable pub init_owner : Option (ℕ → ℕ) → ℕ → ℕ → Heap → Outcome Owner
unfolding placed
init_owner memory type_size initial_capacity h =
    placed h.next (malloc h) (init_queue memory type_size initial_capacity)

unfoldable pub moved : Queue → ℕ → Outcome Heap → Outcome Owner
moved q a (returns h) = returns (record { queue = q; block = a; heap = h })
moved q a enomem = enomem
moved q a eagain = eagain
moved q a undefined = undefined

-- `free(q->data)` once the copies are made, and the new pointer.
unfoldable pub replaced : Owner → Outcome Queue → Outcome Owner
unfolding moved free
replaced o (returns q) = moved q o.heap.next (free o.block (malloc o.heap))
replaced o enomem = enomem
replaced o eagain = eagain
replaced o undefined = undefined

unfoldable pub store_owner : ℕ → Outcome Owner → Outcome Owner
unfolding placed
store_owner value (returns o) = placed o.block o.heap (store value o.queue)
store_owner value enomem = enomem
store_owner value eagain = eagain
store_owner value undefined = undefined

-- `enqueue`, with what `malloc` would answer in it.
unfoldable pub enqueue_owner : Option (ℕ → ℕ) → ℕ → Owner → Outcome Owner
unfolding replaced store_owner
enqueue_owner memory value o =
    if o.queue.size == o.queue.capacity
    then store_owner value (replaced o (resize memory o.queue))
    else store_owner value (returns o)

unfoldable pub taken : Owner → Outcome (ℕ × Queue) → Outcome Owner
taken o (returns (x, q)) = returns (record o { queue = q })
taken o enomem = enomem
taken o eagain = eagain
taken o undefined = undefined

unfoldable pub dequeue_owner : Owner → Outcome Owner
unfolding taken
dequeue_owner o = taken o (dequeue o.queue)

-- `init_queue` has set `data`, so it is not null.
unfoldable pub cleanup_queue : Owner → Outcome Heap
unfolding free
cleanup_queue o = free o.block o.heap

-- A call on the queue, with what `malloc` would answer in it.
pub data Call : Type 0 where
  put : Option (ℕ → ℕ) → ℕ → Call
  take : Call

unfoldable pub make_call : Call → Owner → Outcome Owner
unfolding enqueue_owner dequeue_owner
make_call (put memory value) o = enqueue_owner memory value o
make_call take o = dequeue_owner o

-- After an error the caller goes on with the queue as it was.
unfoldable pub next_call : (Owner → Outcome Owner) → Owner → Outcome Owner → Outcome Owner
next_call rest o (returns p) = rest p
next_call rest o enomem = rest o
next_call rest o eagain = rest o
next_call rest o undefined = undefined

unfoldable pub make_calls : List Call → Owner → Outcome Owner
unfolding make_call next_call
make_calls [] o = returns o
make_calls (c ∷ cs) o = next_call (make_calls cs) o (make_call c o)
