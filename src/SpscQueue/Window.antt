-- ===== src/SpscQueue/Window.antt =====
-- The slots of the ring buffer in frameset_server/include/spsc_queue.h: positions around the end of
-- the buffer, and the values that a run of slots holds.
use hand_motion_capture.Prelude.{
  ℕ, zero, suc, ◌+◌, ◌≤◌, ◌<◌, ◌≡◌, refl, ap, false, List, [], ◌∷◌, ◌++◌, arith, ◌==◌, ◌⊎◌, length,
}
use hand_motion_capture.SpscQueue.{next_slot, write_slot}

-- `n` slots of the buffer from `i` on, around its end.
unfoldable pub window : ℕ → (ℕ → ℕ) → ℕ → ℕ → List ℕ
window cap buf i zero = []
window cap buf i (suc n) = buf i ∷ window cap buf (next_slot cap i) n

-- `j` is the slot `d` after `i`.
pub record Ahead (cap i d j : ℕ) : Type 0 where
  pub from_in : i < cap
  pub to_in : j < cap
  pub below : d < cap
  pub distance : (i + d ≡ j) ⊎ (i + d ≡ j + cap)

-- A write outside of the window leaves it alone.
pub window-write_slot :
    (cap : ℕ) (buf : ℕ → ℕ) (i n d j value : ℕ)
    → Ahead cap i d j
    → n ≤ d
    → window cap (write_slot j value buf) i n ≡ window cap buf i n
unfolding window
window-write_slot cap buf i zero d j value a h = refl
window-write_slot cap buf i (suc n) zero j value a h = absurd (omega arith)
window-write_slot cap buf i (suc n) (suc d) j value a h =
    let b : Ahead cap (next_slot cap i) d j = unfold next_slot in ground arith in
    let e : write_slot j value buf i ≡ buf i = unfold write_slot in ground arith in
    rw (e, window-write_slot cap buf (next_slot cap i) n d j value b (omega arith))

-- The window that takes in the slot after its end.
pub window-suc :
    (cap : ℕ) (buf : ℕ → ℕ) (i n j : ℕ)
    → Ahead cap i n j
    → window cap buf i (suc n) ≡ window cap buf i n ++ buf j ∷ []
unfolding window
window-suc cap buf i zero j a = let e : i ≡ j = ground arith in rw e
window-suc cap buf i (suc n) j a =
    let b : Ahead cap (next_slot cap i) n j = unfold next_slot in ground arith in
    ap (◌∷◌ (buf i)) (window-suc cap buf (next_slot cap i) n j b)

pub length-window : (cap : ℕ) (buf : ℕ → ℕ) (i n : ℕ) → length (window cap buf i n) ≡ n
unfolding window
length-window cap buf i zero = refl
length-window cap buf i (suc n) = ap suc (length-window cap buf (next_slot cap i) n)

-- Two slots at the same distance are one, and one slot has one distance.
pub Ahead-next_slot :
    (cap i d j : ℕ) → Ahead cap i d j → suc d < cap → Ahead cap i (suc d) (next_slot cap j)
unfolding next_slot
Ahead-next_slot cap i d j a h = ground arith

pub Ahead-next_slot_from : (cap i d j : ℕ) → Ahead cap i (suc d) j → Ahead cap (next_slot cap i) d j
unfolding next_slot
Ahead-next_slot_from cap i d j a = ground arith

-- The producer sees a full queue exactly where it counts one.
pub next_slot-full : (cap i d j : ℕ) → Ahead cap i d j → (next_slot cap j ≡ i) → suc d ≡ cap
unfolding next_slot
next_slot-full cap i d j a e = ground arith

pub next_slot-room :
    (cap i d j : ℕ) → Ahead cap i d j → (next_slot cap j == i) ≡ false → suc d < cap
unfolding next_slot
next_slot-room cap i d j a e = ground arith

pub some_left : (cap i d j : ℕ) → Ahead cap i d j → (i == j) ≡ false → 1 ≤ d
some_left cap i d j a e = ground arith

pub same_slot-empty : (cap i d j : ℕ) → Ahead cap i d j → i ≡ j → d ≡ 0
same_slot-empty cap i d j a e = ground arith
