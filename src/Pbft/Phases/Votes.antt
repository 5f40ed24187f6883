-- ===== src/Pbft/Phases/Votes.antt =====
-- The votes that a primary of internal/pbft/engine.go collects, and the certificates that it makes of
-- them.
use byz_bank.Prelude.{
  ℕ, ◌+◌, ◌≤◌, ◌<◌, ◌≡◌, refl, sym, ap₂, ◌∙◌, true, false, [], ◌∷◌, none, some, inl, inr,
  Bool-cases, leb, if◌then◌else◌, length, All, arith,
}
use byz_bank.Prelude.Int.{ℤ, int_key}
use byz_bank.Prelude.Keys.{◌==◌, GoMap, get, put, has, nat_key}
use byz_bank.Prelude.Distinct.{contains, IsDistinct}
use byz_bank.Prelude.Text.{Bytes, bytes_key}
use byz_bank.Store.Bbolt.{Bolt}
use byz_bank.Pbft.Crypto.{Crypto, KeyRing, ring_verify}
use byz_bank.Pbft.Messages.{PhaseMsg, CertificateMsg, prepare_phase, phase_signing_bytes}
use byz_bank.Pbft.Certificate.{build_cert, verify_cert}
use byz_bank.Pbft.Certificate.Build.{IsCollected, map_ids, verify_cert-build_cert}
use byz_bank.Pbft.State.{Engine, SeqState, broadcast_prepare_cert, primary, emit, set_slot}
use byz_bank.Pbft.Phases.{on_prepare, on_prepare_cert, certify_prepare, prepares_counted}

contains-map_ids-put :
    (id k : ℕ) (sig : Bytes) (m : GoMap ℕ Bytes)
    → contains k (map_ids (put id sig m)) ≡ (if id == k then true else contains k (map_ids m))
unfolding contains put
contains-map_ids-put id k sig [] = ground arith
contains-map_ids-put id k sig ((j, w) ∷ m) = ground (arith, contains-map_ids-put id k sig m)

length-put_new :
    (id : ℕ) (sig : Bytes) (m : GoMap ℕ Bytes)
    → has id m ≡ false
    → length (put id sig m) ≡ length m + 1
unfolding put has
length-put_new id sig [] new = refl
length-put_new id sig ((j, w) ∷ m) new = ground (arith, length-put_new id sig m)

module _ (c : Crypto) (ring : KeyRing) (bytes : Bytes) where
  -- A vote with a good signature from a server that has none yet keeps the votes fit for a
  -- certificate.
  IsDistinct-put :
      (id : ℕ) (sig : Bytes) (m : GoMap ℕ Bytes)
      → has id m ≡ false
      → IsDistinct (map_ids m)
      → IsDistinct (map_ids (put id sig m))
  unfolding put has contains
  IsDistinct-put id sig [] new h = (refl, tt)
  IsDistinct-put id sig ((j, w) ∷ m) new h = elim (Bool-cases (j == id)) [
    | inl e ↦ ground arith
    | inr e ↦ rw e (
      contains-map_ids-put id j sig m ∙ ground (arith, e, h.0),
      IsDistinct-put id sig m (ground arith) h.1,
    )
  ]

  signed-put :
      (id : ℕ) (sig : Bytes) (m : GoMap ℕ Bytes)
      → has id m ≡ false
      → ring_verify c ring id bytes sig ≡ true
      → All (λ e. ring_verify c ring e.0 bytes e.1 ≡ true) m
      → All (λ e. ring_verify c ring e.0 bytes e.1 ≡ true) (put id sig m)
  unfolding put has
  signed-put id sig [] new ok h = (ok, tt)
  signed-put id sig ((j, w) ∷ m) new ok h = ground (arith, signed-put id sig m)

  pub put-IsCollected :
      (id : ℕ) (sig : Bytes) (m : GoMap ℕ Bytes)
      → has id m ≡ false
      → ring_verify c ring id bytes sig ≡ true
      → IsCollected c ring bytes m
      → IsCollected c ring bytes (put id sig m)
  put-IsCollected id sig m new ok h = record {
    distinct = IsDistinct-put id sig m new h.distinct;
    signed = signed-put id sig m new ok h.signed;
  }

module _ (db : Bolt) (c : Crypto) where
  -- What a vote meets at the primary: it is in the primary's view and on the slot's digest, its
  -- signature is good, its sender has not voted in this slot, and the votes so far are good.
  pub record IsFreshPrepare (from : ℕ) (msg : PhaseMsg) (sig : Bytes) (st : SeqState)
      (e : Engine db) : Type 0 where
    pub leads : (primary db e == e.self) ≡ true
    pub same_view : (msg.view == e.view) ≡ true
    pub slot : get msg.seq e.log ≡ some st
    pub pre_prepared : st.pre_prepare ≡ true
    pub same_digest : (st.digest == msg.digest) ≡ true
    pub signed :
        ring_verify c e.ring from
          (phase_signing_bytes prepare_phase msg.seq msg.view msg.digest)
          sig
        ≡ true
    pub new : has from st.prepares ≡ false
    pub uncertified : st.prepare_cert ≡ none
    pub collected :
        IsCollected c e.ring
          (phase_signing_bytes prepare_phase msg.seq e.view st.digest)
          st.prepares

  signed_slot :
      (from : ℕ) (msg : PhaseMsg) (sig : Bytes) (st : SeqState) (e : Engine db)
      → IsFreshPrepare from msg sig st e
      → ring_verify c e.ring from (phase_signing_bytes prepare_phase msg.seq e.view st.digest) sig
        ≡ true
  signed_slot from msg sig st e v =
      rw
        (
          (bytes_key.beq_iff st.digest msg.digest).0 v.same_digest,
          sym ((int_key.beq_iff msg.view e.view).0 v.same_view),
        )
        v.signed

  counted :
      (from : ℕ) (msg : PhaseMsg) (sig : Bytes) (st : SeqState) (e : Engine db)
      → IsFreshPrepare from msg sig st e
      → on_prepare db c from msg sig e
        ≡ prepares_counted db c msg.seq (record st { prepares = put from sig st.prepares }) e
  unfolding on_prepare
  counted from msg sig st e v =
      rw (v.leads, v.same_view, v.slot, v.pre_prepared, v.same_digest, v.signed, v.new)

  certified :
      (seq : ℤ) (st : SeqState) (e : Engine db) (made : CertificateMsg)
      → st.prepare_cert ≡ none
      → leb e.prepare_collect (length st.prepares) ≡ true
      → build_cert st.prepares e.prepare_collect seq e.view st.digest ≡ some made
      → prepares_counted db c seq st e
        ≡ on_prepare_cert db c made (
            emit db
              (broadcast_prepare_cert made)
              (set_slot db seq (record st { prepare_cert = some made }) e))
  unfolding prepares_counted
  certified seq st e made free enough built =
      let full : (if leb e.prepare_collect (length st.prepares)
            then build_cert st.prepares e.prepare_collect seq e.view st.digest
            else none)
          ≡ some made =
        rw (enough, built) in
      ap₂ (λ o m. certify_prepare db c o m seq st e) free full

  uncertified :
      (seq : ℤ) (st : SeqState) (e : Engine db)
      → st.prepare_cert ≡ none
      → leb e.prepare_collect (length st.prepares) ≡ false
      → prepares_counted db c seq st e ≡ set_slot db seq st e
  unfolding prepares_counted
  uncertified seq st e free few =
      let short : (if leb e.prepare_collect (length st.prepares)
            then build_cert st.prepares e.prepare_collect seq e.view st.digest
            else none)
          ≡ none =
        rw few in
      ap₂ (λ o m. certify_prepare db c o m seq st e) free short

  -- A fresh good vote that completes the quorum makes the primary store it, broadcast a certificate
  -- that verifies under its key ring, and handle that certificate itself.
  pub on_prepare-quorum :
      (from : ℕ) (msg : PhaseMsg) (sig : Bytes) (st : SeqState) (e : Engine db)
      → IsFreshPrepare from msg sig st e
      → e.prepare_collect ≤ length st.prepares + 1
      → (made : CertificateMsg) × (on_prepare db c from msg sig e
          ≡ on_prepare_cert db c made (
              emit db (broadcast_prepare_cert made) (
                set_slot db msg.seq
                  (record st { prepares = put from sig st.prepares; prepare_cert = some made })
                  e)))
        × (verify_cert c e.ring made prepare_phase e.prepare_collect ≡ true)
  on_prepare-quorum from msg sig st e v enough =
      let votes =
        put-IsCollected c e.ring _ from sig st.prepares v.new (signed_slot from msg sig st e v)
          v.collected in
      let many = length-put_new from sig st.prepares v.new in
      let (made, built, ok, _) =
        verify_cert-build_cert c e.ring (put from sig st.prepares) prepare_phase e.prepare_collect
          msg.seq e.view st.digest votes (omega (arith, many)) in
      (
        made,
        counted from msg sig st e v
            ∙ certified msg.seq _ e made v.uncertified (rw many (ground arith)) built,
        ok,
      )

  -- Below the quorum a good vote is stored, and nothing else happens.
  pub on_prepare-short :
      (from : ℕ) (msg : PhaseMsg) (sig : Bytes) (st : SeqState) (e : Engine db)
      → IsFreshPrepare from msg sig st e
      → length st.prepares + 1 < e.prepare_collect
      → on_prepare db c from msg sig e
        ≡ set_slot db msg.seq (record st { prepares = put from sig st.prepares }) e
  on_prepare-short from msg sig st e v few =
      let many = length-put_new from sig st.prepares v.new in
      counted from msg sig st e v ∙ uncertified msg.seq _ e v.uncertified (rw many (ground arith))
