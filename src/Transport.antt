-- ===== src/Transport.antt =====
-- internal/transport: the envelopes, what is signed of them, and the queue of the envelopes that the hub
-- takes in. Connections are left out.
pub mod Inbound
mod Tests
use byz_bank.Prelude.{
  ℕ, Bool, true, false, not, ◌||◌, List, [], ◌∷◌, ◌++◌, Option, none, some, if◌then◌else◌, length,
  ltb,
}
use byz_bank.Prelude.Int.{ℤ, pos, pos_part, leb_ℤ}
use byz_bank.Prelude.Text.{Bytes, itoa}
use byz_bank.Pbft.Crypto.{Crypto, KeyRing, ring_sign, ring_verify}

-- The type constants; `unknown` is any other text.
pub data MessageType : Type 0 where
  ping pong : MessageType
  client_request client_reply : MessageType
  pre_prepare prepare prepare_cert commit commit_cert view_change new_view discard_seq : MessageType
  twopc_prepare twopc_prepared twopc_abort twopc_commit twopc_ack : MessageType
  set_fault query_balance query_datastore query_reply control_response : MessageType
  unknown : Bytes → MessageType

unfoldable pub type_text : MessageType → Bytes
type_text ping = b'P' ∷ b'I' ∷ b'N' ∷ b'G' ∷ []
type_text pong = b'P' ∷ b'O' ∷ b'N' ∷ b'G' ∷ []
type_text client_request =
    b'C' ∷ b'L' ∷ b'I' ∷ b'E' ∷ b'N' ∷ b'T' ∷ b'_' ∷ b'R' ∷ b'E' ∷ b'Q' ∷ b'U' ∷ b'E' ∷ b'S' ∷ b'T'
    ∷ []
type_text client_reply =
    b'C' ∷ b'L' ∷ b'I' ∷ b'E' ∷ b'N' ∷ b'T' ∷ b'_' ∷ b'R' ∷ b'E' ∷ b'P' ∷ b'L' ∷ b'Y' ∷ []
type_text pre_prepare =
    b'P' ∷ b'R' ∷ b'E' ∷ b'_' ∷ b'P' ∷ b'R' ∷ b'E' ∷ b'P' ∷ b'A' ∷ b'R' ∷ b'E' ∷ []
type_text prepare = b'P' ∷ b'R' ∷ b'E' ∷ b'P' ∷ b'A' ∷ b'R' ∷ b'E' ∷ []
type_text prepare_cert =
    b'P' ∷ b'R' ∷ b'E' ∷ b'P' ∷ b'A' ∷ b'R' ∷ b'E' ∷ b'_' ∷ b'C' ∷ b'E' ∷ b'R' ∷ b'T' ∷ []
type_text commit = b'C' ∷ b'O' ∷ b'M' ∷ b'M' ∷ b'I' ∷ b'T' ∷ []
type_text commit_cert =
    b'C' ∷ b'O' ∷ b'M' ∷ b'M' ∷ b'I' ∷ b'T' ∷ b'_' ∷ b'C' ∷ b'E' ∷ b'R' ∷ b'T' ∷ []
type_text view_change =
    b'V' ∷ b'I' ∷ b'E' ∷ b'W' ∷ b'_' ∷ b'C' ∷ b'H' ∷ b'A' ∷ b'N' ∷ b'G' ∷ b'E' ∷ []
type_text new_view = b'N' ∷ b'E' ∷ b'W' ∷ b'_' ∷ b'V' ∷ b'I' ∷ b'E' ∷ b'W' ∷ []
type_text discard_seq =
    b'D' ∷ b'I' ∷ b'S' ∷ b'C' ∷ b'A' ∷ b'R' ∷ b'D' ∷ b'_' ∷ b'S' ∷ b'E' ∷ b'Q' ∷ []
type_text twopc_prepare =
    b'2' ∷ b'P' ∷ b'C' ∷ b'_' ∷ b'P' ∷ b'R' ∷ b'E' ∷ b'P' ∷ b'A' ∷ b'R' ∷ b'E' ∷ []
type_text twopc_prepared =
    b'2' ∷ b'P' ∷ b'C' ∷ b'_' ∷ b'P' ∷ b'R' ∷ b'E' ∷ b'P' ∷ b'A' ∷ b'R' ∷ b'E' ∷ b'D' ∷ []
type_text twopc_abort = b'2' ∷ b'P' ∷ b'C' ∷ b'_' ∷ b'A' ∷ b'B' ∷ b'O' ∷ b'R' ∷ b'T' ∷ []
type_text twopc_commit = b'2' ∷ b'P' ∷ b'C' ∷ b'_' ∷ b'C' ∷ b'O' ∷ b'M' ∷ b'M' ∷ b'I' ∷ b'T' ∷ []
type_text twopc_ack = b'2' ∷ b'P' ∷ b'C' ∷ b'_' ∷ b'A' ∷ b'C' ∷ b'K' ∷ []
type_text set_fault = b'S' ∷ b'E' ∷ b'T' ∷ b'_' ∷ b'F' ∷ b'A' ∷ b'U' ∷ b'L' ∷ b'T' ∷ []
type_text query_balance =
    b'Q' ∷ b'U' ∷ b'E' ∷ b'R' ∷ b'Y' ∷ b'_' ∷ b'B' ∷ b'A' ∷ b'L' ∷ b'A' ∷ b'N' ∷ b'C' ∷ b'E' ∷ []
type_text query_datastore =
    b'Q' ∷ b'U' ∷ b'E' ∷ b'R' ∷ b'Y' ∷ b'_' ∷ b'D' ∷ b'A' ∷ b'T' ∷ b'A' ∷ b'S' ∷ b'T' ∷ b'O' ∷ b'R'
    ∷ b'E' ∷ []
type_text query_reply =
    b'Q' ∷ b'U' ∷ b'E' ∷ b'R' ∷ b'Y' ∷ b'_' ∷ b'R' ∷ b'E' ∷ b'P' ∷ b'L' ∷ b'Y' ∷ []
type_text control_response =
    b'C' ∷ b'O' ∷ b'N' ∷ b'T' ∷ b'R' ∷ b'O' ∷ b'L' ∷ b'_' ∷ b'R' ∷ b'E' ∷ b'S' ∷ b'P' ∷ b'O' ∷ b'N'
    ∷ b'S' ∷ b'E' ∷ []
type_text (unknown b) = b

unfoldable pub is_2pc : MessageType → Bool
is_2pc twopc_prepare = true
is_2pc twopc_prepared = true
is_2pc twopc_abort = true
is_2pc twopc_commit = true
is_2pc twopc_ack = true
is_2pc _ = false

unfoldable pub is_control : MessageType → Bool
is_control set_fault = true
is_control query_balance = true
is_control query_datastore = true
is_control query_reply = true
is_control control_response = true
is_control _ = false

unfoldable pub is_pbft : MessageType → Bool
is_pbft client_request = true
is_pbft client_reply = true
is_pbft pre_prepare = true
is_pbft prepare = true
is_pbft prepare_cert = true
is_pbft commit = true
is_pbft commit_cert = true
is_pbft view_change = true
is_pbft new_view = true
is_pbft discard_seq = true
is_pbft _ = false

-- `pb.Envelope`; the empty signature stands for a missing one.
pub record Envelope : Type 0 where
  pub sender_id : ℤ
  pub type : MessageType
  pub payload : Bytes
  pub signature : Bytes

unfoldable pub signing_bytes : ℤ → MessageType → Bytes → Bytes
unfolding type_text
signing_bytes sender_id type payload =
    itoa sender_id ++ (b'|' ∷ (type_text type ++ (b'|' ∷ payload)))

abbrev pub envelope_bytes : Envelope → Bytes
envelope_bytes env = signing_bytes env.sender_id env.type env.payload

unfoldable pub new_envelope : ℕ → MessageType → Bytes → Envelope
new_envelope sender type payload = record {
  sender_id = pos sender;
  type = type;
  payload = payload;
  signature = [];
}

-- `SenderID`
unfoldable pub sender_of : Envelope → Option ℕ
sender_of env = if leb_ℤ env.sender_id (pos 0) then none else some (pos_part env.sender_id)

-- The types that `Deliver` takes in without checking the envelope.
unfoldable pub is_unchecked : MessageType → Bool
is_unchecked client_request = true
is_unchecked prepare = true
is_unchecked commit = true
is_unchecked _ = false

-- `Inject`: the queue of inbound envelopes with one more, unless it is full.
unfoldable pub inject : ℕ → Envelope → List Envelope → Option (List Envelope)
inject capacity env queue = if ltb (length queue) capacity then some (queue ++ (env ∷ [])) else none

module _ (c : Crypto) where
  unfoldable pub sign_envelope : KeyRing → Envelope → Envelope
  sign_envelope ring env = record env { signature = ring_sign c ring (envelope_bytes env) }

  unfoldable pub verify_envelope : KeyRing → Envelope → Bool
  verify_envelope ring env = elim (sender_of env) [
    | none ↦ false
    | some sender ↦ ring_verify c ring sender (envelope_bytes env) env.signature
  ]

  -- `Deliver`; `none` is an error, and the queue stays.
  unfoldable pub deliver : KeyRing → ℕ → Envelope → List Envelope → Option (List Envelope)
  unfolding is_unchecked inject
  deliver ring capacity env queue =
      if is_unchecked env.type
      then inject capacity env queue
      else if not (verify_envelope ring env)
      then none
      else inject capacity env queue

  abbrev pub or_queue : List Envelope → Option (List Envelope) → List Envelope
  or_queue queue none = queue
  or_queue queue (some queue') = queue'

  -- What the hub holds after these envelopes came.
  unfoldable pub deliver_all : KeyRing → ℕ → List Envelope → List Envelope → List Envelope
  unfolding deliver
  deliver_all ring capacity [] queue = queue
  deliver_all ring capacity (env ∷ envs) queue =
      deliver_all ring capacity envs (or_queue queue (deliver ring capacity env queue))
