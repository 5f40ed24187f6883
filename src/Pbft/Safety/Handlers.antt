-- ===== src/Pbft/Safety/Handlers.antt =====
-- Certificates and counted votes that reach a slot, internal/pbft/engine.go, keep it sound.
use byz_bank.Prelude.{
  ℕ, ◌≡◌, refl, ◌∙◌, Bool, true, false, not, ◌||◌, List, Option, none, some, leb, if◌then◌else◌,
  length, arith,
}
use byz_bank.Prelude.Int.{ℤ, int_key}
use byz_bank.Prelude.Keys.{◌==◌, get, put, has, nat_key}
use byz_bank.Prelude.Text.{Bytes, bytes_key}
use byz_bank.Store.Bbolt.{Bolt}
use byz_bank.Pbft.Crypto.{Crypto, KeyRing, ring_verify}
use byz_bank.Pbft.Messages.{CertificateMsg, commit_phase, phase_signing_bytes}
use byz_bank.Pbft.Certificate.{build_cert}
use byz_bank.Pbft.Certificate.Build.{verify_cert-build_cert}
use byz_bank.Pbft.State.{Engine, SeqState, set_slot}
use byz_bank.Pbft.Phases.{with_slot, on_commit_cert, certify_commit, commits_counted}
use byz_bank.Pbft.Phases.Votes.{put-IsCollected}
use byz_bank.Pbft.Safety.{IsFor, IsSoundSlot, IsSafe, IsSafe-kept, IsSafe-put, IsSafe-if}
use byz_bank.Pbft.Safety.Execution.{try_execute-IsSafe}

pub passed : (b : Bool) → not b ≡ false → b ≡ true
passed true h = refl
passed false h = cc

built_fields :
    (m : List (ℕ × Bytes)) (quorum : ℕ) (seq view : ℤ) (digest : Bytes) (made : CertificateMsg)
    → build_cert m quorum seq view digest ≡ some made
    → (digest ≡ made.digest) × (made.seq ≡ seq) × (made.view ≡ view)
unfolding build_cert
built_fields m quorum seq view digest made h = ground arith

module _ (db : Bolt) (c : Crypto) (ring : KeyRing) (q : ℕ) (v : ℤ) where
  abbrev pub Safe : Engine db → Type 0
  Safe = IsSafe db c ring q v

  abbrev pub Sound : ℤ → SeqState → Type 0
  Sound = IsSoundSlot db c ring q v

  pub Safe-slot :
      (o : Option SeqState) (e : Engine db) (k : SeqState → Engine db)
      → Safe e
      → ((st : SeqState) → o ≡ some st → Safe (k st))
      → Safe (with_slot db c o e k)
  Safe-slot none e k h f = h
  Safe-slot (some st) e k h f = f st refl

  Sound-certified :
      (seq : ℤ) (st : SeqState) (cert : CertificateMsg)
      → Sound seq st
      → st.pre_prepare ≡ true
      → IsFor db c ring q v seq st cert
      → Sound seq (record st { commit_cert = some cert })
  Sound-certified seq st cert h live good = record {
    certified = λ cert' e. let eq : cert ≡ cert' = cc e in rw⁻¹ eq good;
    voted = h.voted;
    idle = λ closed. absurd (cc (live, closed));
  }

  pub Sound-prepared :
      (seq : ℤ) (st : SeqState) (m : List (ℕ × Bytes)) (o : Option CertificateMsg)
      → Sound seq st
      → st.pre_prepare ≡ true
      → Sound seq (record st { prepares = m; prepare_cert = o })
  Sound-prepared seq st m o h live = record {
    certified = h.certified;
    voted = h.voted;
    idle = λ closed. absurd (cc (live, closed));
  }

  -- Part of the guard of the certificate handlers.
  pub accepted : (a b : Bool) → (not a || not b) ≡ false → (a ≡ true) × (b ≡ true)
  accepted true true h = (refl, refl)
  accepted true false h = cc
  accepted false b h = cc

  pub on_commit_cert-IsSafe :
      (cert : CertificateMsg) (e : Engine db) → Safe e → Safe (on_commit_cert db c cert e)
  unfolding on_commit_cert
  on_commit_cert-IsSafe cert e h =
      IsSafe-if db c ring q v _ e _ (λ _. h)
        λ view.
          IsSafe-if db c ring q v _ e _ (λ _. h)
            λ ok. Safe-slot (get cert.seq e.log) e _ h λ st found.
              IsSafe-if db c ring q v _ e _ (λ _. h)
                λ guard.
                  let (live, same) = accepted st.pre_prepare (st.digest == cert.digest) guard in
                  let sound = Sound-certified cert.seq st cert (h.slots cert.seq st found) live (
                    rw⁻¹ (h.ring_is, h.quorum_is) (passed _ ok),
                    (bytes_key.beq_iff st.digest cert.digest).0 same,
                    refl,
                    (int_key.beq_iff cert.view e.view).0 (passed _ view) ∙ h.view_is,
                  ) in
                  try_execute-IsSafe db c ring q v _ (IsSafe-put db c ring q v e cert.seq _ h sound)

  pub Sound-voted :
      (seq : ℤ) (st : SeqState) (id : ℕ) (sig : Bytes)
      → Sound seq st
      → st.pre_prepare ≡ true
      → has id st.commits ≡ false
      → ring_verify c ring id (phase_signing_bytes commit_phase seq v st.digest) sig ≡ true
      → Sound seq (record st { commits = put id sig st.commits })
  Sound-voted seq st id sig h live new ok = record {
    certified = h.certified;
    voted = put-IsCollected c ring _ id sig st.commits new ok h.voted;
    idle = λ closed. absurd (cc (live, closed));
  }

  -- The certificate that a slot's votes make.
  made_cert :
      (b : Bool) (seq : ℤ) (st : SeqState) (made : CertificateMsg)
      → Sound seq st
      → leb q (length st.commits) ≡ b
      → (if b then build_cert st.commits q seq v st.digest else none) ≡ some made
      → IsFor db c ring q v seq st made
  made_cert true seq st made sound many built =
      let (made', built', ok, _) =
        verify_cert-build_cert c ring st.commits commit_phase q seq v st.digest sound.voted
          (ground arith) in
      let same : made' ≡ made = cc in
      let (digest, at, view) = built_fields st.commits q seq v st.digest made built in
      (rw⁻¹ same ok, digest, at, view)
  made_cert false seq st made sound few built = cc

  certify_commit-IsSafe :
      (o made : Option CertificateMsg) (seq : ℤ) (st : SeqState) (e : Engine db)
      → Safe e
      → Sound seq st
      → st.pre_prepare ≡ true
      → ((cert : CertificateMsg) → made ≡ some cert → IsFor db c ring q v seq st cert)
      → Safe (certify_commit db c o made seq st e)
  certify_commit-IsSafe (some _) made seq st e h sound live good =
      IsSafe-put db c ring q v e seq st h sound
  certify_commit-IsSafe none none seq st e h sound live good =
      IsSafe-put db c ring q v e seq st h sound
  certify_commit-IsSafe none (some cert) seq st e h sound live good = on_commit_cert-IsSafe cert _ (
      IsSafe-kept db c ring q v (set_slot db seq (record st { commit_cert = some cert }) e) _
        (refl, refl, refl, refl)
        (IsSafe-put db c ring q v e seq _ h
          (Sound-certified seq st cert sound live (good cert refl))))

  pub commits_counted-IsSafe :
      (seq : ℤ) (st : SeqState) (e : Engine db)
      → Safe e
      → Sound seq st
      → st.pre_prepare ≡ true
      → Safe (commits_counted db c seq st e)
  unfolding commits_counted
  commits_counted-IsSafe seq st e h sound live =
      certify_commit-IsSafe st.commit_cert _ seq st e h sound live
        λ cert made. made_cert _ seq st cert sound refl (rw⁻¹ (h.quorum_is, h.view_is) made)
