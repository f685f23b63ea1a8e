-- ===== src/Queue.antt =====
-- frameset_server/src/queue.c: a ring buffer that doubles when it is full. Memory is a function from
-- slots of `type_size` bytes to values; what `malloc` answers is an argument.
pub mod Owning
pub mod Holding
pub mod Ring
pub mod Refinement
pub mod Memory
pub mod Freed
mod Tests
use hand_motion_capture.Prelude.{
  ℕ, suc, ◌+◌, ◌-◌, ◌*◌, ◌%◌, Option, none, some, u32_mod, ltb, ◌==◌, if◌then◌else◌,
}
use hand_motion_capture.SpscQueue.{write_slot}

-- `allocated` is the size in bytes that the buffer was asked for.
pub record Queue : Type 0 where
  pub slots : ℕ → ℕ
  pub allocated : ℕ
  pub type_size : ℕ
  pub capacity : ℕ
  pub size : ℕ
  pub head : ℕ
  pub tail : ℕ

-- How a call ends: it returns 0 or a negative error code, or it writes or reads beyond the buffer or
-- divides by zero.
pub data Outcome {ℓ} (A : Type ℓ) : Type ℓ where
  returns : A → Outcome A
  enomem eagain undefined : Outcome A

unfoldable pub init_queue : Option (ℕ → ℕ) → ℕ → ℕ → Outcome Queue
init_queue none type_size initial_capacity = enomem
init_queue (some memory) type_size initial_capacity = returns (record {
  slots = memory;
  allocated = type_size * initial_capacity % u32_mod;
  type_size = type_size;
  capacity = initial_capacity;
  size = 0;
  head = 0;
  tail = 0;
})

-- What the new buffer holds after the one or the two copies.
unfoldable pub copied : Queue → (ℕ → ℕ) → ℕ → ℕ
copied q memory i =
    if q.head == 0
    then (if ltb i q.capacity then q.slots i else memory i)
    else if ltb i (q.capacity - q.head)
    then q.slots (q.head + i)
    else if ltb i (q.capacity - q.head + q.tail)
    then q.slots (i - (q.capacity - q.head))
    else memory i

-- The slots that the copies fill.
unfoldable pub copied_slots : Queue → ℕ
copied_slots q = if q.head == 0 then q.capacity else q.capacity - q.head + q.tail

unfoldable pub resize : Option (ℕ → ℕ) → Queue → Outcome Queue
resize none q = enomem
resize (some memory) q =
    if ltb (q.type_size * q.capacity * 2 % u32_mod) (q.type_size * copied_slots q)
    then undefined
    else returns (record q {
      slots = copied q memory;
      allocated = q.type_size * q.capacity * 2 % u32_mod;
      capacity = q.capacity * 2 % u32_mod;
      tail = q.size;
      head = 0;
    })

-- The part of `enqueue` after the branch.
unfoldable pub store : ℕ → Queue → Outcome Queue
store value q =
    if q.capacity == 0
    then undefined
    else if ltb q.allocated (q.type_size * suc q.tail)
    then undefined
    else returns (record q {
      slots = write_slot q.tail value q.slots;
      tail = (q.tail + 1) % q.capacity;
      size = (q.size + 1) % u32_mod;
    })

unfoldable pub store_resized : ℕ → Outcome Queue → Outcome Queue
store_resized value (returns q) = store value q
store_resized value enomem = enomem
store_resized value eagain = eagain
store_resized value undefined = undefined

unfoldable pub enqueue : Option (ℕ → ℕ) → ℕ → Queue → Outcome Queue
unfolding resize store store_resized
enqueue memory value q =
    if q.size == q.capacity then store_resized value (resize memory q) else store value q

unfoldable pub dequeue : Queue → Outcome (ℕ × Queue)
dequeue q =
    if q.size == 0
    then eagain
    else if q.capacity == 0
    then undefined
    else if ltb q.allocated (q.type_size * suc q.head)
    then undefined
    else returns (q.slots q.head, record q { head = (q.head + 1) % q.capacity; size = q.size - 1 })
