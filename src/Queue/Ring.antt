-- ===== src/Queue/Ring.antt =====
-- The runs of slots in the buffer of frameset_server/src/queue.c, before and after it is copied.
use hand_motion_capture.Prelude.{
  ℕ, zero, suc, ◌+◌, ◌-◌, ◌*◌, ◌≤◌, ◌<◌, ◌≡◌, refl, arith, ltb, if◌then◌else◌,
}
use hand_motion_capture.SpscQueue.{next_slot}
use hand_motion_capture.SpscQueue.Window.{window}
use hand_motion_capture.Queue.{Queue, copied, copied_slots}

-- The slot `k` after `i`.
unfoldable pub slot_at : ℕ → ℕ → ℕ → ℕ
slot_at cap i k = if ltb (i + k) cap then i + k else i + k - cap

slot_at-next_slot :
    (cap i k : ℕ) → i < cap → suc k ≤ cap → slot_at cap (next_slot cap i) k ≡ slot_at cap i (suc k)
unfolding slot_at next_slot
slot_at-next_slot cap i k h l = ground arith

slot_at-zero : (cap i : ℕ) → i < cap → slot_at cap i 0 ≡ i
unfolding slot_at
slot_at-zero cap i h = ground arith

next_slot-lt : (cap i : ℕ) → i < cap → next_slot cap i < cap
unfolding next_slot
next_slot-lt cap i h = ground arith

-- Two runs that agree slot by slot hold the same values.
window-same :
    (cap cap' : ℕ) (f g : ℕ → ℕ) (i j n : ℕ)
    → i < cap
    → j < cap'
    → n ≤ cap
    → n ≤ cap'
    → ((k : ℕ) → k < n → f (slot_at cap i k) ≡ g (slot_at cap' j k))
    → window cap f i n ≡ window cap' g j n
unfolding window
window-same cap cap' f g i j zero hi hj l l' h = refl
window-same cap cap' f g i j (suc n) hi hj l l' h =
    let first : f i ≡ g j =
      rw (slot_at-zero cap i hi, slot_at-zero cap' j hj) at (h 0 (omega arith)) in
    let later =
      window-same cap cap' f g (next_slot cap i) (next_slot cap' j) n (next_slot-lt cap i hi)
        (next_slot-lt cap' j hj) (omega arith) (omega arith)
        (λ k l''.
          rw
            (
              slot_at-next_slot cap i k hi (omega arith),
              slot_at-next_slot cap' j k hj (omega arith),
            )
            (h (suc k) (omega arith))) in
    rw (first, later)

-- The copies lay a full ring out from the start of the new buffer.
pub copied-window :
    (q : Queue) (memory : ℕ → ℕ)
    → q.head < q.capacity
    → q.tail ≡ q.head
    → window (q.capacity * 2) (copied q memory) 0 q.capacity
      ≡ window q.capacity q.slots q.head q.capacity
copied-window q memory h e =
    window-same (q.capacity * 2) q.capacity (copied q memory) q.slots 0 q.head q.capacity
      (omega arith) h (omega arith) (omega arith) (λ k l. unfold copied slot_at in ground arith)

pub copied_slots-full :
    (q : Queue) → q.head < q.capacity → q.tail ≡ q.head → copied_slots q ≡ q.capacity
unfolding copied_slots
copied_slots-full q h e = ground arith
