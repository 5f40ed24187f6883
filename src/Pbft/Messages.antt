-- ===== src/Pbft/Messages.antt =====
-- internal/pbft/messages.go: the requests, the messages of the protocol, and the texts that are
-- hashed and signed.
use byz_bank.Prelude.{ℕ, ◌+◌, ◌/◌, ◌%◌, List, [], ◌∷◌, ◌++◌, ltb, if◌then◌else◌}
use byz_bank.Prelude.Int.{ℤ}
use byz_bank.Prelude.Text.{Bytes, itoa}
use byz_bank.Pbft.Crypto.{Crypto}

-- The operation tag of a request: `unset` is the empty text, `other` a text that is none of these.
pub data Op : Type 0 where
  unset intra coord_prepare part_prepare_commit part_prepare_abort : Op
  coord_commit coord_abort part_commit part_abort : Op
  other : Bytes → Op

pub record Request : Type 0 where
  pub client_id : Bytes
  pub ts : ℤ
  pub x : ℤ
  pub y : ℤ
  pub amt : ℤ
  pub op : Op

-- The result texts of a reply.
pub data Verdict : Type 0 where
  committed aborted insufficient : Verdict

pub record Reply : Type 0 where
  pub client_id : Bytes
  pub ts : ℤ
  pub seq : ℤ
  pub x : ℤ
  pub y : ℤ
  pub amt : ℤ
  pub result : Verdict

pub record DiscardSeqMsg : Type 0 where
  pub seq : ℤ
  pub view : ℤ

pub record PrePrepareMsg : Type 0 where
  pub seq : ℤ
  pub view : ℤ
  pub digest : Bytes
  pub req : Request

-- `PrepareMsg` and `CommitMsg`, which have the same fields.
pub record PhaseMsg : Type 0 where
  pub seq : ℤ
  pub view : ℤ
  pub digest : Bytes

-- An entry of a view-change message, for a slot that is not executed yet.
pub record PreparedEntry : Type 0 where
  pub seq : ℤ
  pub view : ℤ
  pub digest : Bytes
  pub req : Request

pub record ViewChangeMsg : Type 0 where
  pub new_view : ℤ
  pub latest_stable : ℤ
  pub prepared : List PreparedEntry
  pub pending_reqs : List Request

pub record NewViewMsg : Type 0 where
  pub new_view : ℤ
  pub pre_prepares : List PrePrepareMsg
  pub view_changes : List ViewChangeMsg

pub record SigEntry : Type 0 where
  pub server_id : ℕ
  pub sig : Bytes

pub record CertificateMsg : Type 0 where
  pub seq : ℤ
  pub view : ℤ
  pub digest : Bytes
  pub sigs : List SigEntry

-- The texts that are signed begin with the name of the phase.
pub data SignedPhase : Type 0 where
  prepare_phase commit_phase : SignedPhase

unfoldable pub op_text : Op → Bytes
op_text unset = []
op_text intra = b'i' ∷ b'n' ∷ b't' ∷ b'r' ∷ b'a' ∷ []
op_text coord_prepare =
    b'c' ∷ b'o' ∷ b'o' ∷ b'r' ∷ b'd' ∷ b'_' ∷ b'p' ∷ b'r' ∷ b'e' ∷ b'p' ∷ b'a' ∷ b'r' ∷ b'e' ∷ []
op_text part_prepare_commit =
    b'p' ∷ b'a' ∷ b'r' ∷ b't' ∷ b'_' ∷ b'p' ∷ b'r' ∷ b'e' ∷ b'p' ∷ b'a' ∷ b'r' ∷ b'e' ∷ b'_' ∷ b'c'
    ∷ b'o' ∷ b'm' ∷ b'm' ∷ b'i' ∷ b't' ∷ []
op_text part_prepare_abort =
    b'p' ∷ b'a' ∷ b'r' ∷ b't' ∷ b'_' ∷ b'p' ∷ b'r' ∷ b'e' ∷ b'p' ∷ b'a' ∷ b'r' ∷ b'e' ∷ b'_' ∷ b'a'
    ∷ b'b' ∷ b'o' ∷ b'r' ∷ b't' ∷ []
op_text coord_commit =
    b'c' ∷ b'o' ∷ b'o' ∷ b'r' ∷ b'd' ∷ b'_' ∷ b'c' ∷ b'o' ∷ b'm' ∷ b'm' ∷ b'i' ∷ b't' ∷ []
op_text coord_abort =
    b'c' ∷ b'o' ∷ b'o' ∷ b'r' ∷ b'd' ∷ b'_' ∷ b'a' ∷ b'b' ∷ b'o' ∷ b'r' ∷ b't' ∷ []
op_text part_commit =
    b'p' ∷ b'a' ∷ b'r' ∷ b't' ∷ b'_' ∷ b'c' ∷ b'o' ∷ b'm' ∷ b'm' ∷ b'i' ∷ b't' ∷ []
op_text part_abort = b'p' ∷ b'a' ∷ b'r' ∷ b't' ∷ b'_' ∷ b'a' ∷ b'b' ∷ b'o' ∷ b'r' ∷ b't' ∷ []
op_text (other b) = b

-- `if op == "" { op = OpIntra }`
unfoldable pub or_intra : Op → Op
or_intra unset = intra
or_intra (other b) = other b
or_intra op = op

-- Values joined by '|', as the formats "%s|%d|…" have them.
unfoldable pub piped : Bytes → List Bytes → Bytes
piped a [] = a
piped a (b ∷ rest) = a ++ (b'|' ∷ piped b rest)

-- The text that `Digest` hashes.
unfoldable pub digest_text : Request → Bytes
unfolding or_intra
digest_text r =
    let numbers = itoa r.ts ∷ itoa r.x ∷ itoa r.y ∷ itoa r.amt ∷ [] in
    elim (or_intra r.op) [
      | intra ↦ piped r.client_id numbers
      | op ↦ piped r.client_id (op_text op ∷ numbers)
    ]

-- The client-facing view of a request.
unfoldable pub client_req : Request → Request
client_req r = record r { op = unset }

-- "%x" of bytes.
unfoldable pub hex_digit : ℕ → ℕ
hex_digit n = if ltb n 10 then 48 + n else 87 + n

unfoldable pub hex : Bytes → Bytes
unfolding hex_digit
hex [] = []
hex (c ∷ cs) = hex_digit (c / 16) ∷ hex_digit (c % 16) ∷ hex cs

unfoldable pub phase_text : SignedPhase → Bytes
phase_text prepare_phase = b'P' ∷ b'R' ∷ b'E' ∷ b'P' ∷ b'A' ∷ b'R' ∷ b'E' ∷ []
phase_text commit_phase = b'C' ∷ b'O' ∷ b'M' ∷ b'M' ∷ b'I' ∷ b'T' ∷ []

unfoldable pub phase_signing_bytes : SignedPhase → ℤ → ℤ → Bytes → Bytes
unfolding phase_text
phase_signing_bytes phase seq view digest =
    piped (phase_text phase) (itoa seq ∷ itoa view ∷ hex digest ∷ [])

module _ (c : Crypto) where
  -- `Digest`
  unfoldable pub digest_of : Request → Bytes
  digest_of r = c.sha256 (digest_text r)

  unfoldable pub txn_id : Request → Bytes
  txn_id r = hex (digest_of (client_req r))
