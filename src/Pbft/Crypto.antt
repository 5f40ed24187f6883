-- ===== src/Pbft/Crypto.antt =====
-- What the replicas use of crypto/sha256 and crypto/ed25519, as a parameter, and the key ring of
-- internal/crypto/keys.go over it.
use byz_bank.Prelude.{◌≡◌, length, ℕ, Bool, false, Option, none, some}
use byz_bank.Prelude.Keys.{GoMap, get, nat_key}
use byz_bank.Prelude.Text.{Bytes}

pub record Crypto : Type 0 where
  pub sha256 : Bytes → Bytes
  pub length-sha256 : (b : Bytes) → length (sha256 b) ≡ 32
  -- the private key, then the message
  pub sign : Bytes → Bytes → Bytes
  -- the public key, the message, then the signature
  pub verify : Bytes → Bytes → Bytes → Bool

pub record KeyRing : Type 0 where
  pub self : ℕ
  pub private_key : Bytes
  pub peers : GoMap ℕ Bytes

unfoldable pub public_key : KeyRing → ℕ → Option Bytes
public_key ring id = get id ring.peers

module _ (c : Crypto) where
  unfoldable pub ring_sign : KeyRing → Bytes → Bytes
  ring_sign ring msg = c.sign ring.private_key msg

  abbrev pub verify_by : Option Bytes → Bytes → Bytes → Bool
  verify_by none msg sig = false
  verify_by (some pub_key) msg sig = c.verify pub_key msg sig

  -- `KeyRing.Verify`
  unfoldable pub ring_verify : KeyRing → ℕ → Bytes → Bytes → Bool
  ring_verify ring sender msg sig = verify_by (public_key ring sender) msg sig
