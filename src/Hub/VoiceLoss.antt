-- ===== src/Hub/VoiceLoss.antt =====
-- crates/hub/src/voice_loss.rs: the loss of a sender's packets, from the counters that the relay
-- reads. The percentage is left as the count of the lost and of the expected packets, of which the
-- source takes the rounded quotient.
pub mod Laws
mod Examples
use wavvon_server.Base.{
  ℕ, ◌+◌, ◌-◌, ◌%◌, ◌^◌, min, max, ◌==◌, leb, Bool, true, false, List, [], ◌∷◌, Option, none, some,
  length, if◌then◌else◌,
}
use wavvon_server.Identity.Wire.Encode.{Bytes}
use wavvon_server.Identity.Voice.{from_be, slice}

pub record SenderLoss : Type 0 where
  pub highest_ctr : ℕ
  pub first_ctr : ℕ
  pub received : ℕ

-- The eight bytes behind the key's id, where the payload has them.
unfoldable pub read_ctr : Bytes → Option ℕ
unfolding from_be
read_ctr payload = if leb 12 (length payload) then some (from_be 0 (slice 4 8 payload)) else none

unfoldable pub track : Option SenderLoss → ℕ → SenderLoss
track none ctr = record { highest_ctr = ctr; first_ctr = ctr; received = 1 }
track (some p) ctr = record {
  highest_ctr = max p.highest_ctr ctr;
  first_ctr = min p.first_ctr ctr;
  received = p.received + 1;
}

-- What the relay has of a sender after a sequence of counters.
unfoldable pub track_all : Option SenderLoss → List ℕ → Option SenderLoss
unfolding track
track_all t [] = t
track_all t (ctr ∷ ctrs) = track_all (some (track t ctr)) ctrs

-- The lost and the expected packets; the count of a `u64` wraps.
unfoldable pub loss : Option SenderLoss → Option (ℕ × ℕ)
loss none = none
loss (some t) =
    let expected = ((t.highest_ctr - t.first_ctr) + 1) % 2 ^ 64 in
    if leb expected 1 then none else some (expected - t.received, expected)
