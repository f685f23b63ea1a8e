-- ===== src/Connection/State.antt =====
-- The state in which the methods of `connection` run (picam/src/connection.cpp): the object, the
-- replies of the system to come, `errno`, and a record of what the calls did.
use hand_motion_capture.Prelude.{ℕ, suc, List, [], ◌∷◌, ◌++◌, Option}
use hand_motion_capture.Sys.{Reply, ok, fail}

-- `none` stands for a negative descriptor.
pub record Connection : Type 0 where
  pub tcpfd : Option ℕ
  pub udpfd : Option ℕ
  pub server_ip : List ℕ
  pub tcp_port : List ℕ
  pub udp_port : List ℕ
  pub frame_timestamps : List ℕ

-- What the calls that succeeded did.
pub data Event : Type 0 where
  opened connected bound closed : ℕ → Event
  wrote : ℕ → List ℕ → Event
  slept : Event

-- Events are held newest first.
pub record Proc : Type 0 where
  pub conn : Connection
  pub replies : List Reply
  pub errno : ℕ
  pub events : List Event

pub data Exception : Type 0 where
  invalid_argument out_of_range : Exception

-- `waits`: the system has not replied yet. `undefined`: undefined behaviour of C++. `exhausted`: a
-- loop of the model ran out of fuel, which the theorems exclude.
pub data Outcome {ℓ} (A : Type ℓ) : Type ℓ where
  returns : A → Proc → Outcome A
  waits : Proc → Outcome A
  throws : Exception → Proc → Outcome A
  undefined exhausted : Outcome A

abbrev pub M {ℓ} : Type ℓ → Type ℓ
M A = Proc → Outcome A

-- What follows a call, given how the call ended.
abbrev pub and_then {ℓ κ} : {A : Type ℓ} {B : Type κ} → Outcome A → (A → M B) → Outcome B
and_then (returns a q) f = f a q
and_then (waits q) f = waits q
and_then (throws e q) f = throws e q
and_then undefined f = undefined
and_then exhausted f = exhausted

infixl 5 ◌>>=◌
abbrev pub ◌>>=◌ {ℓ κ} : {A : Type ℓ} {B : Type κ} → M A → (A → M B) → M B
◌>>=◌ m f p = and_then (m p) f

-- 0, or the negative error code -e.
pub data Status : Type 0 where
  success : Status
  error : ℕ → Status

abbrev answered : Reply → List Reply → Proc → Proc
answered (ok n) rest p = record p { replies = rest }
answered (fail e) rest p = record p { replies = rest; errno = e }

abbrev take_reply : List Reply → M Reply
take_reply [] p = waits p
take_reply (r ∷ rest) p = returns r (answered r rest p)

-- The next system call.
unfoldable pub syscall : M Reply
syscall p = take_reply p.replies p

abbrev pub note : Event → Proc → Proc
note e p = record p { events = e ∷ p.events }

abbrev pub set_tcpfd : Option ℕ → Proc → Proc
set_tcpfd fd p = record p { conn = record (p.conn) { tcpfd = fd } }

abbrev pub set_udpfd : Option ℕ → Proc → Proc
set_udpfd fd p = record p { conn = record (p.conn) { udpfd = fd } }

-- The bytes handed to the network so far, in order, whatever descriptor they went to.
unfoldable pub sent : List Event → List ℕ
sent [] = []
sent (wrote fd bytes ∷ es) = sent es ++ bytes
sent (opened fd ∷ es) = sent es
sent (connected fd ∷ es) = sent es
sent (bound fd ∷ es) = sent es
sent (closed fd ∷ es) = sent es
sent (slept ∷ es) = sent es

-- How often the program slept before another try to connect.
unfoldable pub naps : List Event → ℕ
naps [] = 0
naps (slept ∷ es) = suc (naps es)
naps (opened fd ∷ es) = naps es
naps (connected fd ∷ es) = naps es
naps (bound fd ∷ es) = naps es
naps (closed fd ∷ es) = naps es
naps (wrote fd bytes ∷ es) = naps es
