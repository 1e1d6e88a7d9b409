-- ===== src/Peer/Respond/Flow.antt =====
-- What the handlers of `respond` share: the answers so far, and whether one of them has returned.
use sprinter_3c509b.Base.{
  ℕ, Bool, true, false, Option, none, some, List, [], ◌∷◌, ◌++◌, if◌then◌else◌, Bytes,
}
use sprinter_3c509b.Card.{Reply}
use sprinter_3c509b.Peer.Scenario.{Network}
use sprinter_3c509b.Peer.Tcp.{at_once}

-- The network, the answers so far, and whether a handler has returned.
pub record Turn : Type 0 where
  pub network : Network
  pub out : List Reply
  pub stopped : Bool

abbrev pub answer : List Reply → Turn → Turn
answer replies t = record t { out = t.out ++ replies }

abbrev pub stop : Turn → Turn
stop t = record t { stopped = true }

-- A handler whose part the scenario has, where none has returned.
abbrev pub with_part {ℓ} : {A : Type ℓ} → Option A → (A → Turn → Turn) → Turn → Turn
with_part none f t = t
with_part (some part) f t = if t.stopped then t else f part t

-- What a request holds, for the handlers that read it.
abbrev pub with_read {ℓ} : {A : Type ℓ} → Option A → (A → Turn → Turn) → Turn → Turn
with_read none f t = t
with_read (some x) f t = f x t

abbrev pub at_once_if : Bool → Bytes → List Reply
at_once_if asked frame = if asked then at_once frame ∷ [] else []

-- `replies.filter(Boolean)`
abbrev pub built : Option Bytes → List Reply
built none = []
built (some frame) = at_once frame ∷ []

abbrev pub built_if : Bool → Option Bytes → List Reply
built_if asked frame = if asked then built frame else []

abbrev pub after_polls : ℕ → Bytes → Reply
after_polls polls frame = record {
  frame = frame;
  lost = false;
  status_error = false;
  polls = polls;
}

abbrev pub frame_if : Bool → Bytes → List Bytes
frame_if asked frame = if asked then frame ∷ [] else []

-- `a || b`
abbrev pub first_of : Option Bytes → Option Bytes → Option Bytes
first_of none b = b
first_of (some a) b = some a
