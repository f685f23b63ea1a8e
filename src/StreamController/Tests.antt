-- ===== src/StreamController/Tests.antt =====
-- The consumer of the framesets with two cameras and pictures of two bytes.
use hand_motion_capture.Prelude.{
  ℕ, ◌≡◌, refl, true, false, List, [], ◌∷◌, some, arith, ltb, if◌then◌else◌, le_bytes, of_le_bytes,
}
use hand_motion_capture.Sys.{ok, fail}
use hand_motion_capture.StreamController.{Memory, write_frameset, recv_frameset}
use hand_motion_capture.StreamController.Layout.{
  recv_frameset-write_frameset, write_frameset-outside,
}
use hand_motion_capture.StreamController.Lifetime.{Calls, construct, left_behind, construct-destroy}

abbrev pictures : List (List ℕ)
pictures = (1 ∷ 2 ∷ []) ∷ (3 ∷ 4 ∷ []) ∷ []

abbrev later_pictures : List (List ℕ)
later_pictures = (5 ∷ 6 ∷ []) ∷ (7 ∷ 8 ∷ []) ∷ []

abbrev blank : Memory
blank i = 0

recv_frameset-write_frameset_example :
    recv_frameset 2 2 (λ k. write_frameset 2 pictures 1000 blank) ≡ (pictures, 1000)
recv_frameset-write_frameset_example =
    recv_frameset-write_frameset 2 1000 pictures blank (λ k. write_frameset 2 pictures 1000 blank)
      (refl, (refl, tt)) (omega arith) (λ k. refl)

write_frameset-outside_example : write_frameset 2 pictures 1000 blank 12 ≡ 0
write_frameset-outside_example =
    write_frameset-outside 2 1000 pictures blank 12 (refl, (refl, tt)) (omega arith)

-- The server writes the next frameset after the first picture has been read, which it may, since the
-- semaphore is 0 as soon as the consumer has passed it.
torn :
    recv_frameset 2 2 (λ k.
      if ltb k 1
      then write_frameset 2 pictures 1000 blank
      else write_frameset 2 later_pictures 2000 (write_frameset 2 pictures 1000 blank))
    ≡ ((1 ∷ 2 ∷ []) ∷ (7 ∷ 8 ∷ []) ∷ [], 2000)
unfolding recv_frameset write_frameset le_bytes of_le_bytes
torn = refl

-- There is no shared memory.
abbrev no_memory : Calls
no_memory = record {
  fork = ok 100;
  sem_open = ok 0;
  shm_open = fail 13;
  ftruncate = ok 0;
  mmap = ok 0;
}

construct-destroy_example :
    left_behind (construct no_memory)
    ≡ some (record { server = true; sem = true; shm = false; mapping = false })
construct-destroy_example = construct-destroy no_memory 99 refl
