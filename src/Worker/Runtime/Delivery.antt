-- ===== src/Worker/Runtime/Delivery.antt =====
-- When a message counts as delivered.
use rpa_group.Prelude.{ℕ, Bool, true, false, ◌||◌, ◌≡◌, refl, Option, none, some, Result, ok, err}
use rpa_group.Prelude.Value.{Fields}
use rpa_group.Worker.Runtime.{Wire, Reporter, awaited, plain, raise_unless, send_worker_message}

abbrev pub returns : Result (Unit {0}) → Bool
returns (ok a) = true
returns (err e) = false

-- A reporter stands in for the transport.
abbrev pub stands_in : Option Reporter → ℕ → Fields → Bool
stands_in none n payload = false
stands_in (some (plain r)) n payload = returns (r n payload)
stands_in (some (awaited r)) n payload = true

raise_unless_lem :
    (done : Bool) (r : Result (Unit {0})) → returns (raise_unless done r) ≡ returns r || done
raise_unless_lem done (ok a) = refl
raise_unless_lem true (err e) = refl
raise_unless_lem false (err e) = refl

-- Sending a message returns exactly where the transport takes it, or a plain reporter does, or there
-- is an awaited reporter. With an awaited reporter it returns even where the transport and the
-- reporter both raise, and the message is lost.
pub send_worker_message_lem :
    (wire : Wire) (n : ℕ) (payload : Fields)
    → returns (send_worker_message wire n payload).0
      ≡ (returns (wire.send_json n payload) || stands_in wire.reporter n payload)
unfolding send_worker_message
send_worker_message_lem wire n payload = go wire.reporter
  where
    go :
        (reporter : Option Reporter)
        → returns (send_worker_message (record wire { reporter = reporter }) n payload).0
          ≡ (returns (wire.send_json n payload) || stands_in reporter n payload)
    go none = raise_unless_lem false (wire.send_json n payload)
    go (some (plain r)) = raise_unless_lem (returns (r n payload)) (wire.send_json n payload)
    go (some (awaited r)) = raise_unless_lem true (wire.send_json n payload)
