-- ===== src/Queue/Holding.antt =====
-- The list that a queue of frameset_server/src/queue.c stands for, and the steps of `enqueue` on it.
use native.Mathlib.Nat.{mul-le-mul_left, mod_self, mod-eq_of_lt}
use hand_motion_capture.Prelude.{
  ℕ, suc, ◌+◌, ◌*◌, ◌%◌, ◌≤◌, ◌<◌, ◌≡◌, refl, sym, ap, ◌∙◌, false, List, [], ◌∷◌, ◌++◌, some,
  u32_mod, arith, ltb, ◌==◌, Bool-cases, ◌⊎◌, inl, inr, length,
}
use hand_motion_capture.SpscQueue.{next_slot, write_slot}
use hand_motion_capture.SpscQueue.Window.{
  window, Ahead, window-write_slot, window-suc, length-window,
}
use hand_motion_capture.Queue.{Queue, returns, copied, resize, store}
use hand_motion_capture.Queue.Ring.{copied-window, copied_slots-full}

-- The queue holds `xs` in a buffer of the size that its fields say.
pub record Holds (q : Queue) (xs : List ℕ) : Type 0 where
  pub some_room : 1 ≤ q.capacity
  pub head_in : q.head < q.capacity
  pub tail_in : q.tail < q.capacity
  pub size_in : q.size ≤ q.capacity
  pub ring : (q.head + q.size ≡ q.tail) ⊎ (q.head + q.size ≡ q.tail + q.capacity)
  pub holds : window q.capacity q.slots q.head q.size ≡ xs
  pub no_wrap : q.type_size * q.capacity < u32_mod
  pub capacity_in : q.capacity < u32_mod
  pub buffer : q.allocated ≡ q.type_size * q.capacity

pub Holds-length : (q : Queue) (xs : List ℕ) → Holds q xs → q.size ≡ length xs
Holds-length q xs h = sym (length-window q.capacity q.slots q.head q.size) ∙ ap (length {0}) h.holds

-- A slot of the buffer lies within its bytes.
pub slot_fits : (size capacity i : ℕ) → i < capacity → size * suc i ≤ size * capacity
slot_fits size capacity i h = mul-le-mul_left size h

pub mod_next : (cap i : ℕ) → i < cap → (i + 1) % cap ≡ next_slot cap i
unfolding next_slot
mod_next cap i h = elim (Bool-cases (suc i == cap)) [
  | inl last ↦ let e : i + 1 ≡ cap = ground arith in rw (last, e) (mod_self cap)
  | inr inner ↦ rw inner (mod-eq_of_lt (ground arith) ∙ omega arith)
]

pub store-Holds :
    (value : ℕ) (q : Queue) (xs : List ℕ)
    → Holds q xs
    → q.size < q.capacity
    → (r : Queue) × (store value q ≡ returns r) × Holds r (xs ++ value ∷ [])
unfolding store
store-Holds value q xs h l =
    let a : Ahead q.capacity q.head q.size q.tail = record {
      from_in = h.head_in;
      to_in = h.tail_in;
      below = l;
      distance = h.ring;
    } in
    let in_bytes : ltb q.allocated (q.type_size * suc q.tail) ≡ false =
      ground (arith, h.buffer, slot_fits q.type_size q.capacity q.tail h.tail_in) in
    let room : (q.capacity == 0) ≡ false = ground (arith, h.some_room) in
    let count : (q.size + 1) % u32_mod ≡ suc q.size = omega (arith, h.capacity_in, l) in
    let written = write_slot q.tail value q.slots in
    let held : written q.tail ≡ value = unfold write_slot in ground arith in
    (
      record q { slots = written; tail = next_slot q.capacity q.tail; size = suc q.size },
      rw (room, in_bytes, count, mod_next q.capacity q.tail h.tail_in) refl,
      record {
        some_room = h.some_room;
        head_in = h.head_in;
        tail_in = unfold next_slot in ground (arith, h.some_room, h.tail_in);
        size_in = l;
        ring = unfold next_slot in ground (arith, h.ring, h.tail_in, h.head_in, l);
        holds =
            window-suc q.capacity written q.head q.size q.tail a
            ∙ rw
                (
                  window-write_slot q.capacity q.slots q.head q.size q.size q.tail value a
                      (omega arith),
                  held,
                  h.holds,
                )
                refl;
        no_wrap = h.no_wrap;
        capacity_in = h.capacity_in;
        buffer = h.buffer;
      },
    )

pub resize-Holds :
    (memory : ℕ → ℕ) (q : Queue) (xs : List ℕ)
    → Holds q xs
    → q.size ≡ q.capacity
    → q.capacity * 2 < u32_mod
    → q.type_size * (q.capacity * 2) < u32_mod
    → (r : Queue) × (resize (some memory) q ≡ returns r) × Holds r xs × (r.size < r.capacity)
unfolding resize
resize-Holds memory q xs h full c t =
    let level : q.tail ≡ q.head = ground (arith, h.ring, h.tail_in, h.head_in, full) in
    let bytes : q.type_size * q.capacity * 2 % u32_mod ≡ q.type_size * (q.capacity * 2) =
      omega (arith, t) in
    let cells : q.capacity * 2 % u32_mod ≡ q.capacity * 2 = mod-eq_of_lt c in
    let fits : ltb (q.type_size * (q.capacity * 2)) (q.type_size * q.capacity) ≡ false =
      ground arith in
    (
      record q {
        slots = copied q memory;
        allocated = q.type_size * (q.capacity * 2);
        capacity = q.capacity * 2;
        tail = q.size;
        head = 0;
      },
      rw (bytes, cells, copied_slots-full q h.head_in level, fits) refl,
      record {
        some_room = omega (arith, h.some_room);
        head_in = omega (arith, h.some_room);
        tail_in = omega (arith, h.some_room, full);
        size_in = omega (arith, full);
        ring = inl (omega arith);
        holds =
            ap (λ (n : ℕ). window (q.capacity * 2) (copied q memory) 0 n) full
            ∙ (copied-window q memory h.head_in level
                ∙ (ap (λ (n : ℕ). window q.capacity q.slots q.head n) (sym full) ∙ h.holds));
        no_wrap = t;
        capacity_in = c;
        buffer = refl;
      },
      omega (arith, h.some_room, full),
    )
