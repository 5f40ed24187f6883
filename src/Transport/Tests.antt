-- ===== src/Transport/Tests.antt =====
-- Runs of the hub of internal/transport/hub.go at server 1.
use byz_bank.Prelude.{[], ◌∷◌, arith}
use byz_bank.Prelude.Int.{pos}
use byz_bank.Transport.{Envelope, new_view, client_request, deliver_all}
use byz_bank.Transport.Inbound.{IsSound, deliver_all-IsSound}
use byz_bank.Pbft.Sample.{one_text, ring_of_eight}

-- A client request, and an envelope that its sender did not sign.
abbrev request_in : Envelope
request_in = record { sender_id = pos 0; type = client_request; payload = 7 ∷ []; signature = [] }

abbrev forged : Envelope
forged = record { sender_id = pos 2; type = new_view; payload = 8 ∷ []; signature = [] }

deliver_all-IsSound_example :
    IsSound one_text ring_of_eight 1
      (deliver_all one_text ring_of_eight 1 (request_in ∷ forged ∷ request_in ∷ []) [])
deliver_all-IsSound_example =
    deliver_all-IsSound one_text ring_of_eight 1 (request_in ∷ forged ∷ request_in ∷ []) []
      (tt, omega arith)
