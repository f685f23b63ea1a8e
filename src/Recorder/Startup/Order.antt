-- ===== src/Recorder/Startup/Order.antt =====
-- The order in which picam/src/main.cpp sets the program up before its loop, and undoes it.
use hand_motion_capture.Prelude.{
  [], ◌≡◌, refl, ◌∙◌, ap, sym, subst, true, false, List, ◌∷◌, ◌++◌, none, arith, ◌⊎◌,
}
use hand_motion_capture.Sys.{Reply, ok, fail}
use hand_motion_capture.Connection.State.{
  Connection, Proc, Outcome, returns, waits, throws, undefined, exhausted, Status, success, error,
  syscall,
}
use hand_motion_capture.Connection.{bind_udp}
use hand_motion_capture.Connection.Frame.{Ensures, Quiet, bind_udp-Quiet}
use hand_motion_capture.Recorder.Startup.Calls.{
  sigusr1, sigio, sigint, sigterm, Effect, log_opened, semaphore_made, camera_made, connection_made,
  encoder_made, pinned, realtime, timer_made, udp_bound, async_set, owner_set, handles,
  encoder_freed, connection_closed, camera_closed, semaphore_freed, Objects, Setup, Progress, goes,
  stops, threw, held, trapped, ◌>>=◌, replied, call, init_realtime_scheduling, init_timer,
  init_signals, init_sigio, after_bind_udp, attach,
}

-- What a start without failures does, newest first: SIGIO is asked for after its handler is there, and
-- the handlers come after the objects that they use.
abbrev pub whole_start : List Effect
whole_start =
    owner_set
    ∷ async_set
    ∷ udp_bound
    ∷ handles sigterm
    ∷ handles sigint
    ∷ handles sigio
    ∷ handles sigusr1
    ∷ timer_made
    ∷ realtime
    ∷ pinned
    ∷ encoder_made
    ∷ connection_made
    ∷ camera_made
    ∷ semaphore_made
    ∷ log_opened
    ∷ []

-- The first effects of a list, down to none of them.
abbrev pub PartOf : List Effect → List Effect → Type 0
PartOf es [] = es ≡ []
PartOf es (x ∷ xs) = (es ≡ x ∷ xs) ⊎ PartOf es xs

-- The objects among the effects, undone from the newest to the oldest.
unfoldable pub undone : List Effect → List Effect
undone [] = []
undone (semaphore_made ∷ es) = undone es ++ semaphore_freed ∷ []
undone (camera_made ∷ es) = undone es ++ camera_closed ∷ []
undone (connection_made ∷ es) = undone es ++ connection_closed ∷ []
undone (encoder_made ∷ es) = undone es ++ encoder_freed ∷ []
undone (_ ∷ es) = undone es

abbrev pub objects_of : List Effect → Objects
objects_of [] = record { semaphore = false; camera = false; connection = false; encoder = false }
objects_of (semaphore_made ∷ es) = record (objects_of es) { semaphore = true }
objects_of (camera_made ∷ es) = record (objects_of es) { camera = true }
objects_of (connection_made ∷ es) = record (objects_of es) { connection = true }
objects_of (encoder_made ∷ es) = record (objects_of es) { encoder = true }
objects_of (_ ∷ es) = objects_of es

-- The state after a part of the start: the objects are those of its effects.
pub record Stands (es : List Effect) (s : Setup) : Type 0 where
  pub did : s.effects ≡ es
  pub has : s.objects ≡ objects_of es

abbrev pub Partly : Setup → Type 0
Partly s = PartOf s.effects whole_start × (s.objects ≡ objects_of s.effects)

abbrev pub Leads : (Setup → Type 0) → Progress → Type 0
Leads P (goes s) = P s
Leads P (stops e s) = Partly s
Leads P (threw s) = Partly s
Leads P (held s) = Partly s
Leads P trapped = ⊥

pub Leads->>= :
    (P Q : Setup → Type 0) (m : Progress) (f : Setup → Progress)
    → Leads P m
    → ((s : Setup) → P s → Leads Q (f s))
    → Leads Q (m >>= f)
Leads->>= P Q (goes s) f h k = k s h
Leads->>= P Q (stops e s) f h k = h
Leads->>= P Q (threw s) f h k = h
Leads->>= P Q (held s) f h k = h
Leads->>= P Q trapped f h k = h

-- A state on the way, with something that is known of the connection.
abbrev pub Keeps : (Connection → Type 0) → List Effect → Setup → Type 0
Keeps Q es s = Stands es s × Q s.proc.conn

abbrev pub NoUdp : Connection → Type 0
NoUdp c = c.udpfd ≡ none

abbrev pub Any : Connection → Type 0
Any c = Unit

abbrev pub Unbound : List Effect → Setup → Type 0
Unbound = Keeps NoUdp

-- The objects stay as they were.
abbrev IsCall : Effect → Type 0
IsCall e = (es : List Effect) → objects_of (e ∷ es) ≡ objects_of es

pub Stands-Partly : (es : List Effect) (s : Setup) → PartOf es whole_start → Stands es s → Partly s
Stands-Partly es s p h =
    (subst (λ x. PartOf x whole_start) (sym h.did) p, h.has ∙ ap objects_of (sym h.did))

syscall_keeps : (p : Proc) → Ensures (λ r q. q.conn ≡ p.conn) (λ q. Unit) (syscall p)
unfolding syscall
syscall_keeps p = ground arith

module _ (Q : Connection → Type 0) (e : Effect) (es : List Effect) (c : IsCall e)
    (part : PartOf es whole_start) where
  replied-Leads :
      (s : Setup) (o : Outcome Reply)
      → Keeps Q es s
      → Ensures (λ r q. q.conn ≡ s.proc.conn) (λ q. Unit) o
      → Leads (Keeps Q (e ∷ es)) (replied e s o)
  unfolding replied
  replied-Leads s (returns (ok n) p) (h, u) k =
      (record { did = ap (◌∷◌ e) h.did; has = h.has ∙ sym (c es) }, subst Q (sym k) u)
  replied-Leads s (returns (fail x) p) (h, u) k = Stands-Partly es s part h
  replied-Leads s (waits p) (h, u) k = Stands-Partly es s part h
  replied-Leads s (throws x p) (h, u) k = Stands-Partly es s part h
  replied-Leads s undefined h k = k
  replied-Leads s exhausted h k = k

  call-Leads : (s : Setup) → Keeps Q es s → Leads (Keeps Q (e ∷ es)) (call e s)
  unfolding call
  call-Leads s h = replied-Leads s (syscall s.proc) h (syscall_keeps s.proc)

-- What is done once all objects are made, and once the signals are set up.
abbrev pub made : List Effect
made = encoder_made ∷ connection_made ∷ camera_made ∷ semaphore_made ∷ log_opened ∷ []

abbrev scheduled : List Effect
scheduled = realtime ∷ pinned ∷ made

abbrev signalled : List Effect
signalled =
    handles sigterm ∷ handles sigint ∷ handles sigio ∷ handles sigusr1 ∷ timer_made ∷ scheduled

init_realtime_scheduling-Leads :
    (s : Setup) → Unbound made s → Leads (Unbound scheduled) (init_realtime_scheduling s)
unfolding init_realtime_scheduling
init_realtime_scheduling-Leads s h =
    Leads->>= (Unbound (pinned ∷ made)) (Unbound scheduled) (call pinned s) (call realtime)
      (call-Leads NoUdp pinned made (λ es. refl) (ground arith) s h)
      (call-Leads NoUdp realtime (pinned ∷ made) (λ es. refl) (ground arith))

init_signals-Leads :
    (s : Setup) → Unbound (timer_made ∷ scheduled) s → Leads (Unbound signalled) (init_signals s)
unfolding init_signals
init_signals-Leads s h =
    let one = timer_made ∷ scheduled in
    let two : List Effect = handles sigusr1 ∷ one in
    let three : List Effect = handles sigio ∷ two in
    let four : List Effect = handles sigint ∷ three in
    Leads->>= (Unbound four) (Unbound signalled) _ (call (handles sigterm))
      (Leads->>= (Unbound three) (Unbound four) _ (call (handles sigint))
        (Leads->>= (Unbound two) (Unbound three) _ (call (handles sigio))
          (call-Leads NoUdp (handles sigusr1) one (λ es. refl) (ground arith) s h)
          (call-Leads NoUdp (handles sigio) two (λ es. refl) (ground arith)))
        (call-Leads NoUdp (handles sigint) three (λ es. refl) (ground arith)))
      (call-Leads NoUdp (handles sigterm) four (λ es. refl) (ground arith))

after_bind_udp-Leads :
    (s : Setup) (o : Outcome Status)
    → Stands signalled s
    → Ensures (λ _ q. Quiet 1 s.proc q) (Quiet 0 s.proc) o
    → Leads (Keeps Any (udp_bound ∷ signalled)) (after_bind_udp s o)
unfolding after_bind_udp
after_bind_udp-Leads s (returns success p) h k =
    (record { did = ap (◌∷◌ udp_bound) h.did; has = h.has }, tt)
after_bind_udp-Leads s (returns (error e) p) h k = Stands-Partly signalled s (ground arith) h
after_bind_udp-Leads s (waits p) h k = Stands-Partly signalled s (ground arith) h
after_bind_udp-Leads s (throws x p) h k = Stands-Partly signalled s (ground arith) h
after_bind_udp-Leads s undefined h k = k
after_bind_udp-Leads s exhausted h k = k

init_sigio-Leads :
    (s : Setup) → Keeps Any (udp_bound ∷ signalled) s → Leads (Keeps Any whole_start) (init_sigio s)
unfolding init_sigio
init_sigio-Leads s h =
    let bound = udp_bound ∷ signalled in
    Leads->>= (Keeps Any (async_set ∷ bound)) (Keeps Any whole_start) _ (call owner_set)
      (call-Leads Any async_set bound (λ es. refl) (ground arith) s h)
      (call-Leads Any owner_set (async_set ∷ bound) (λ es. refl) (ground arith))

pub attach-Leads : (s : Setup) → Unbound made s → Leads (Keeps Any whole_start) (attach s)
unfolding attach init_timer
attach-Leads s h =
    Leads->>= (Keeps Any (udp_bound ∷ signalled)) (Keeps Any whole_start) _ init_sigio
      (Leads->>= (Unbound signalled) (Keeps Any (udp_bound ∷ signalled)) _
        (λ t. after_bind_udp t (bind_udp t.proc))
        (Leads->>= (Unbound (timer_made ∷ scheduled)) (Unbound signalled) _ init_signals
          (Leads->>= (Unbound scheduled) (Unbound (timer_made ∷ scheduled)) _ init_timer
            (init_realtime_scheduling-Leads s h)
            (call-Leads NoUdp timer_made scheduled (λ es. refl) (ground arith)))
          init_signals-Leads)
        (λ t k. after_bind_udp-Leads t (bind_udp t.proc) k.0 (bind_udp-Quiet t.proc k.1)))
      init_sigio-Leads
