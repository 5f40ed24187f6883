-- ===== src/Transport/Inbound.antt =====
-- The hub of internal/transport/hub.go queues only envelopes that their senders signed, but for the types that
-- carry a signature of their own, and a signature is over the whole envelope.
use byz_bank.Prelude.{
  ℕ, suc, ◌≤◌, ◌≡◌, refl, ap, true, false, ◌⊎◌, inl, inr, Bool-cases, List, [], ◌∷◌, ◌++◌, some,
  arith, length, ltb, All, All-append,
}
use byz_bank.Prelude.Int.{ℤ, pos, leb_ℤ}
use byz_bank.Prelude.Text.{Bytes, itoa, itoa-injective}
use byz_bank.Pbft.Crypto.{Crypto, KeyRing, public_key, ring_sign, ring_verify}
use byz_bank.Pbft.Signing.{IsBarFree, bar_split, itoa-IsBarFree}
use byz_bank.Transport.{
  MessageType, type_text, Envelope, signing_bytes, sender_of, is_unchecked, inject, sign_envelope,
  verify_envelope, new_envelope, deliver, or_queue, deliver_all,
}

-- The signed bytes settle the sender, the type and the payload, for types without a bar.
pub signing_bytes-injective :
    (s t : ℤ) (k l : MessageType) (p q : Bytes)
    → IsBarFree (type_text k)
    → IsBarFree (type_text l)
    → signing_bytes s k p ≡ signing_bytes t l q
    → (s ≡ t) × (type_text k ≡ type_text l) × (p ≡ q)
unfolding signing_bytes
signing_bytes-injective s t k l p q fk fl h =
    let (a, h₁) = bar_split (itoa s) (itoa t) _ _ (itoa-IsBarFree s) (itoa-IsBarFree t) h in
    let (b, h₂) = bar_split (type_text k) (type_text l) _ _ fk fl h₁ in
    (itoa-injective s t a, b, h₂)

module _ (c : Crypto) where
  -- The envelope is of a type that is taken in unchecked, or its sender signed it.
  abbrev pub IsAuthentic : KeyRing → Envelope → Type 0
  IsAuthentic ring env = (is_unchecked env.type ≡ true) ⊎ (verify_envelope c ring env ≡ true)

  -- Every queued envelope is authentic, and the queue is not longer than the channel.
  abbrev pub IsSound : KeyRing → ℕ → List Envelope → Type 0
  IsSound ring capacity queue = All (IsAuthentic ring) queue × (length queue ≤ capacity)

  length-snoc :
      (queue : List Envelope) (env : Envelope) → length (queue ++ (env ∷ [])) ≡ suc (length queue)
  length-snoc [] env = refl
  length-snoc (e ∷ queue) env = ap suc (length-snoc queue env)

  inject-IsSound :
      (ring : KeyRing) (capacity : ℕ) (env : Envelope) (queue : List Envelope)
      → IsAuthentic ring env
      → IsSound ring capacity queue
      → IsSound ring capacity (or_queue c queue (inject capacity env queue))
  unfolding inject
  inject-IsSound ring capacity env queue h (all, le) =
      elim (Bool-cases (ltb (length queue) capacity)) [
        | inr full ↦ rw full (all, le)
        | inl free ↦
            let longer = length-snoc queue env in
            rw free (All-append (IsAuthentic ring) queue (env ∷ []) all (h, tt), ground arith)
      ]

  deliver-IsSound :
      (ring : KeyRing) (capacity : ℕ) (env : Envelope) (queue : List Envelope)
      → IsSound ring capacity queue
      → IsSound ring capacity (or_queue c queue (deliver c ring capacity env queue))
  unfolding deliver
  deliver-IsSound ring capacity env queue h = elim (Bool-cases (is_unchecked env.type)) [
    | inl free ↦ rw free (inject-IsSound ring capacity env queue (inl free) h)
    | inr strict ↦ elim (Bool-cases (verify_envelope c ring env)) [
      | inl good ↦ rw (strict, good) (inject-IsSound ring capacity env queue (inr good) h)
      | inr bad ↦ rw (strict, bad) h
    ]
  ]

  -- Whatever comes in, in whatever order: every envelope that the hub queues has a good signature of its sender
  -- or is a client request or a vote, and the queue holds no more than its capacity.
  pub deliver_all-IsSound :
      (ring : KeyRing) (capacity : ℕ) (envs queue : List Envelope)
      → IsSound ring capacity queue
      → IsSound ring capacity (deliver_all c ring capacity envs queue)
  unfolding deliver_all
  deliver_all-IsSound ring capacity [] queue h = h
  deliver_all-IsSound ring capacity (env ∷ envs) queue h =
      deliver_all-IsSound ring capacity envs _ (deliver-IsSound ring capacity env queue h)

  -- A new envelope that a server signs passes the check of every server that knows its public key, where
  -- a signature with its private key is good under that key.
  pub verify_envelope-sign_envelope :
      (mine theirs : KeyRing) (self : ℕ) (key payload : Bytes) (type : MessageType)
      → ((msg : Bytes) → c.verify key msg (c.sign mine.private_key msg) ≡ true)
      → public_key theirs (suc self) ≡ some key
      → verify_envelope c theirs (sign_envelope c mine (new_envelope (suc self) type payload))
        ≡ true
  unfolding verify_envelope sign_envelope new_envelope sender_of ring_sign ring_verify
  verify_envelope-sign_envelope mine theirs self key payload type good known =
      let positive : leb_ℤ (pos (suc self)) (pos 0) ≡ false = ground arith in
      rw (positive, verify_envelope, sender_of)
        (rw (known, ring_verify) (good (signing_bytes (pos (suc self)) type payload)))
