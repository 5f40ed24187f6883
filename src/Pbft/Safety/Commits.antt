-- ===== src/Pbft/Safety/Commits.antt =====
-- The commit votes and the prepare certificate, internal/pbft/engine.go, keep every slot sound.
use byz_bank.Prelude.{
  ℕ, ◌≡◌, refl, sym, ◌∙◌, Bool, true, false, not, ◌||◌, Option, none, some, inl, inr, Bool-cases,
}
use byz_bank.Prelude.Int.{ℤ, int_key}
use byz_bank.Prelude.Keys.{◌==◌, get, has, nat_key}
use byz_bank.Prelude.Text.{Bytes, bytes_key}
use byz_bank.Store.Bbolt.{Bolt}
use byz_bank.Pbft.Crypto.{Crypto, KeyRing, ring_verify, ring_sign}
use byz_bank.Pbft.Messages.{
  CertificateMsg, PhaseMsg, commit_phase, prepare_phase, phase_signing_bytes,
}
use byz_bank.Pbft.Certificate.{verify_cert}
use byz_bank.Pbft.State.{Engine, SeqState, primary, emit, sent_commit}
use byz_bank.Pbft.Phases.{is_none, on_commit, send_commit, on_prepare_cert}
use byz_bank.Pbft.Safety.{IsSafe-kept, IsSafe-put, IsSafe-if}
use byz_bank.Pbft.Safety.Handlers.{
  passed, Safe, Safe-slot, Sound-prepared, Sound-voted, accepted, commits_counted-IsSafe,
}

module _ (db : Bolt) (c : Crypto) (ring : KeyRing) (q : ℕ) (v : ℤ) where
  ballot : (a b : Bool) → (a || not b) ≡ false → (a ≡ false) × (b ≡ true)
  ballot false true h = (refl, refl)
  ballot false false h = cc
  ballot true b h = cc

  not_none : (o : Option CertificateMsg) → o ≡ none → is_none db c o ≡ false → ⊥
  not_none none e has = cc
  not_none (some _) e has = cc

  slot_text :
      (id : ℕ) (msg : PhaseMsg) (sig : Bytes) (st : SeqState) (e : Engine db)
      → Safe db c ring q v e
      → (msg.view == e.view) ≡ true
      → (st.digest == msg.digest) ≡ true
      → ring_verify c e.ring id (phase_signing_bytes commit_phase msg.seq msg.view msg.digest) sig
        ≡ true
      → ring_verify c ring id (phase_signing_bytes commit_phase msg.seq v st.digest) sig ≡ true
  slot_text id msg sig st e h view same ok =
      rw
        (
          sym h.ring_is,
          (bytes_key.beq_iff st.digest msg.digest).0 same,
          sym ((int_key.beq_iff msg.view e.view).0 view ∙ h.view_is),
        )
        ok

  prepared_live :
      (b : Bool) (o : Option CertificateMsg)
      → (b ≡ false → o ≡ none)
      → is_none db c o ≡ false
      → b ≡ true
  prepared_live true o idle has = refl
  prepared_live false o idle has = absurd (not_none o (idle refl) has)

  pub on_commit-IsSafe :
      (id : ℕ) (msg : PhaseMsg) (sig : Bytes) (e : Engine db)
      → Safe db c ring q v e
      → Safe db c ring q v (on_commit db c id msg sig e)
  unfolding on_commit
  on_commit-IsSafe id msg sig e h =
      IsSafe-if db c ring q v _ e _ (λ _. h)
        λ _.
          IsSafe-if db c ring q v _ e _ (λ _. h)
            λ view. Safe-slot db c ring q v (get msg.seq e.log) e _ h λ st found.
              IsSafe-if db c ring q v _ e _ (λ _. h)
                λ guard.
                  IsSafe-if db c ring q v _ e _ (λ _. h)
                    λ signed.
                      IsSafe-if db c ring q v _ e _ (λ _. h)
                        λ new.
                          let (ready, same) =
                            ballot (is_none db c st.prepare_cert) (st.digest == msg.digest) guard in
                          let sound = h.slots msg.seq st found in
                          let live =
                            prepared_live st.pre_prepare st.prepare_cert
                              (λ closed. (sound.idle closed).2) ready in
                          let ok =
                            slot_text id msg sig st e h (passed _ view) same (passed _ signed) in
                          commits_counted-IsSafe db c ring q v msg.seq _ e h
                            (Sound-voted db c ring q v msg.seq st id sig sound live new ok) live

  send_commit-IsSafe :
      (seq view : ℤ) (digest : Bytes) (e : Engine db)
      → Safe db c ring q v e
      → Safe db c ring q v (send_commit db c seq view digest e)
  unfolding send_commit
  send_commit-IsSafe seq view digest e h =
      let msg : PhaseMsg = record { seq = seq; view = view; digest = digest } in
      let sig = ring_sign c e.ring (phase_signing_bytes commit_phase seq view digest) in
      elim (Bool-cases (primary db e == e.self)) [
        | inl leads ↦ rw leads (on_commit-IsSafe e.self msg sig e h)
        | inr follows ↦ rw follows (
            IsSafe-kept db c ring q v e (emit db (sent_commit (primary db e) msg sig) e)
              (refl, refl, refl, refl) h)
      ]

  pub on_prepare_cert-IsSafe :
      (cert : CertificateMsg) (e : Engine db)
      → Safe db c ring q v e
      → Safe db c ring q v (on_prepare_cert db c cert e)
  unfolding on_prepare_cert
  on_prepare_cert-IsSafe cert e h =
      IsSafe-if db c ring q v (not (cert.view == e.view)) e _ (λ _. h)
        λ _.
          IsSafe-if db c ring q v (not (verify_cert c e.ring cert prepare_phase e.prepare_collect))
            e _ (λ _. h)
            λ _. Safe-slot db c ring q v (get cert.seq e.log) e _ h λ st found.
              IsSafe-if db c ring q v _ e _ (λ _. h)
                λ guard.
                  let (live, _) =
                    accepted db c ring q v st.pre_prepare (st.digest == cert.digest) guard in
                  send_commit-IsSafe cert.seq cert.view cert.digest _ (
                    IsSafe-put db c ring q v e cert.seq _ h (
                      Sound-prepared db c ring q v cert.seq st st.prepares (some cert)
                        (h.slots cert.seq st found) live))
