-- ===== src/Connection/Frame.antt =====
-- Opening and connecting a socket in picam/src/connection.cpp: what it has to do with the bytes
-- sent and the timestamps.
use hand_motion_capture.Prelude.{
  ℕ, zero, suc, ◌+◌, ◌≤◌, ◌<◌, ◌≡◌, refl, List, ◌∷◌, none, some, length, arith, ◌==◌, Bool-cases,
  inl, inr,
}
use hand_motion_capture.Sys.{Reply, ok, fail, eintr}
use hand_motion_capture.Connection.State.{
  Event, opened, connected, bound, Proc, Outcome, returns, waits, throws, undefined, exhausted, M,
  and_then, ◌>>=◌, Status, syscall, note, set_tcpfd, set_udpfd, sent, naps,
}
use hand_motion_capture.Connection.{
  after_inet_pton, with_port, retry_eintr, convert_ip, open_tcp, conn_tcp, open_udp, bind_udp,
}

-- A run that is defined and ends in `P`, or stops at `Q`: at a reply that is not there, or by an
-- exception.
abbrev pub Ensures {ℓ} : {A : Type ℓ} → (A → Proc → Type 0) → (Proc → Type 0) → Outcome A → Type 0
Ensures P Q (returns a p) = P a p
Ensures P Q (waits p) = Q p
Ensures P Q (throws e p) = Q p
Ensures P Q undefined = ⊥
Ensures P Q exhausted = ⊥

pub Ensures-and_then {ℓ κ} :
    {A : Type ℓ} {B : Type κ} (R : A → Proc → Type 0) (S : Proc → Type 0) (P : B → Proc → Type 0)
    (Q : Proc → Type 0) (o : Outcome A) (f : A → M B)
    → Ensures R S o
    → ((q : Proc) → S q → Q q)
    → ((a : A) (q : Proc) → R a q → Ensures P Q (f a q))
    → Ensures P Q (and_then o f)
Ensures-and_then R S P Q (returns a p) f h s k = k a p h
Ensures-and_then R S P Q (waits p) f h s k = s p h
Ensures-and_then R S P Q (throws e p) f h s k = s p h
Ensures-and_then R S P Q undefined f h s k = absurd h
Ensures-and_then R S P Q exhausted f h s k = absurd h

-- Nothing was sent or slept, the timestamps are as they were, and at least `k` replies were used.
pub record Quiet (k : ℕ) (p q : Proc) : Type 0 where
  pub same_sent : sent q.events ≡ sent p.events
  pub same_naps : naps q.events ≡ naps p.events
  pub same_timestamps : q.conn.frame_timestamps ≡ p.conn.frame_timestamps
  pub fewer : length q.replies + k ≤ length p.replies

-- A reply was used, and nothing else changed but `errno`.
pub record Replied (p q : Proc) : Type 0 where
  pub same_conn : q.conn ≡ p.conn
  pub same_events : q.events ≡ p.events
  pub used : suc (length q.replies) ≡ length p.replies

pub syscall-Replied : (p : Proc) → Ensures (λ r q. Replied p q) (λ q. q ≡ p) (syscall p)
unfolding syscall
syscall-Replied p = ground arith

Ensures-syscall {ℓ} :
    {A : Type ℓ} (P : A → Proc → Type 0) (Q : Proc → Type 0) (p : Proc) (f : Reply → M A)
    → Q p
    → ((n : ℕ) (q : Proc) → Replied p q → Ensures P Q (f (ok n) q))
    → ((e : ℕ) (q : Proc) → Replied p q → Ensures P Q (f (fail e) q))
    → Ensures P Q ((syscall >>= f) p)
Ensures-syscall {A} P Q p f w on_ok on_fail =
    Ensures-and_then (λ r q. Replied p q) (λ q. q ≡ p) P Q (syscall p) f (syscall-Replied p)
      (λ q e. rw e w) on_reply
  where
    on_reply : (r : Reply) (q : Proc) → Replied p q → Ensures P Q (f r q)
    on_reply (ok n) = on_ok n
    on_reply (fail e) = on_fail e

Replied-Quiet : (k : ℕ) (p₀ p q : Proc) → Quiet k p₀ p → Replied p q → Quiet (suc k) p₀ q
Replied-Quiet k p₀ p q h r = ground arith

Quiet-weaken : (k : ℕ) (p q : Proc) → Quiet (suc k) p q → Quiet k p q
Quiet-weaken k p q h = ground arith

Quiet-refl : (p : Proc) → Quiet 0 p p
Quiet-refl p = ground arith

-- An event that neither sends nor sleeps.
abbrev IsSilent : Event → Type 0
IsSilent e = (es : List Event) → (sent (e ∷ es) ≡ sent es) × (naps (e ∷ es) ≡ naps es)

note-Quiet : (k : ℕ) (p₀ p : Proc) (e : Event) → IsSilent e → Quiet k p₀ p → Quiet k p₀ (note e p)
note-Quiet k p₀ p e s h = ground (arith, s p.events)

-- The two outcomes of a run that keeps quiet: it used a reply if it returned.
abbrev pub KeepsQuiet {ℓ} : {A : Type ℓ} → Proc → Outcome A → Type 0
KeepsQuiet p₀ o = Ensures (λ _ q. Quiet 1 p₀ q) (Quiet 0 p₀) o

retry_eintr-Quiet :
    (fuel : ℕ) (done : Event) (p₀ p : Proc)
    → IsSilent done
    → Quiet 0 p₀ p
    → length p.replies < fuel
    → KeepsQuiet p₀ (retry_eintr fuel done p)
unfolding retry_eintr
retry_eintr-Quiet zero done p₀ p s h l = absurd (omega arith)
retry_eintr-Quiet (suc fuel) done p₀ p s h l =
    Ensures-syscall _ _ p _ h (λ n q r. note-Quiet 1 p₀ q done s (Replied-Quiet 0 p₀ p q h r))
      λ e q r. elim (Bool-cases (e == eintr)) [
        | inl again ↦ rw again (
            retry_eintr-Quiet fuel done p₀ q s (Quiet-weaken 0 p₀ q (Replied-Quiet 0 p₀ p q h r))
              (omega arith))
        | inr other ↦ rw other (Replied-Quiet 0 p₀ p q h r)
      ]

connected-IsSilent : (fd : ℕ) → IsSilent (connected fd)
unfolding sent naps
connected-IsSilent fd es = (refl, refl)

opened-IsSilent : (fd : ℕ) → IsSilent (opened fd)
unfolding sent naps
opened-IsSilent fd es = (refl, refl)

convert_ip-Quiet : (fd : ℕ) (p₀ p : Proc) → Quiet 0 p₀ p → KeepsQuiet p₀ (convert_ip fd p)
unfolding convert_ip
convert_ip-Quiet fd p₀ p h =
    Ensures-syscall _ _ p _ h (λ n q r. on_ok n q (Replied-Quiet 0 p₀ p q h r))
      (λ e q r. Replied-Quiet 0 p₀ p q h r)
  where
    on_ok : (n : ℕ) (q : Proc) → Quiet 1 p₀ q → KeepsQuiet p₀ (after_inet_pton fd (ok n) q)
    on_ok zero q h = h
    on_ok (suc n) q h =
        retry_eintr-Quiet (suc (length q.replies)) (connected fd) p₀ q (connected-IsSilent fd)
          (Quiet-weaken 0 p₀ q h) (omega arith)

with_port-Quiet :
    (port : List ℕ) (next : M Status) (p₀ p : Proc)
    → Quiet 1 p₀ p
    → KeepsQuiet p₀ (next p)
    → KeepsQuiet p₀ (with_port port next p)
unfolding with_port
with_port-Quiet port next p₀ p h k = ground (arith, Quiet-weaken 0 p₀ p h)

open_tcp-Quiet : (p₀ p : Proc) → Quiet 0 p₀ p → KeepsQuiet p₀ (open_tcp p)
unfolding open_tcp
open_tcp-Quiet p₀ p h =
    Ensures-syscall _ _ p _ h (λ n q r. on_ok n q (Replied-Quiet 0 p₀ p q h r))
      (λ e q r. ground (arith, Replied-Quiet 0 p₀ p q h r))
  where
    on_ok :
        (fd : ℕ) (q : Proc)
        → Quiet 1 p₀ q
        → KeepsQuiet p₀
            (with_port q.conn.tcp_port (convert_ip fd) (set_tcpfd (some fd) (note (opened fd) q)))
    on_ok fd q h =
        let h' : Quiet 1 p₀ (set_tcpfd (some fd) (note (opened fd) q)) =
          ground (arith, note-Quiet 1 p₀ q (opened fd) (opened-IsSilent fd) h) in
        with_port-Quiet q.conn.tcp_port (convert_ip fd) p₀ _ h'
          (convert_ip-Quiet fd p₀ _ (Quiet-weaken 0 p₀ _ h'))

-- Opening a connection neither sends nor sleeps, always ends, and uses a reply.
pub conn_tcp-Quiet : (p : Proc) → p.conn.tcpfd ≡ none → KeepsQuiet p (conn_tcp p)
unfolding conn_tcp
conn_tcp-Quiet p e = ground (arith, open_tcp-Quiet p p (Quiet-refl p))

bound-IsSilent : (fd : ℕ) → IsSilent (bound fd)
unfolding sent naps
bound-IsSilent fd es = (refl, refl)

open_udp-Quiet : (p₀ p : Proc) → Quiet 0 p₀ p → KeepsQuiet p₀ (open_udp p)
unfolding open_udp
open_udp-Quiet p₀ p h =
    Ensures-syscall _ _ p _ h (λ n q r. on_ok n q (Replied-Quiet 0 p₀ p q h r))
      (λ e q r. ground (arith, Replied-Quiet 0 p₀ p q h r))
  where
    on_ok :
        (fd : ℕ) (q : Proc)
        → Quiet 1 p₀ q
        → KeepsQuiet p₀ (
            with_port q.conn.udp_port
              (λ s. retry_eintr (suc (length s.replies)) (bound fd) s)
              (set_udpfd (some fd) (note (opened fd) q)))
    on_ok fd q h =
        let h' : Quiet 1 p₀ (set_udpfd (some fd) (note (opened fd) q)) =
          ground (arith, note-Quiet 1 p₀ q (opened fd) (opened-IsSilent fd) h) in
        with_port-Quiet q.conn.udp_port _ p₀ _ h' (
          retry_eintr-Quiet _ (bound fd) p₀ _ (bound-IsSilent fd) (Quiet-weaken 0 p₀ _ h')
            (omega arith))

-- So does binding the UDP socket.
pub bind_udp-Quiet : (p : Proc) → p.conn.udpfd ≡ none → KeepsQuiet p (bind_udp p)
unfolding bind_udp
bind_udp-Quiet p e = ground (arith, open_udp-Quiet p p (Quiet-refl p))
