-- ===== src/Pbft/Safety.antt =====
-- What holds of every slot of a replica's log, internal/pbft/engine.go: a commit certificate in it was
-- verified and is for the slot's digest, and the commit votes in it are good.
pub mod Execution
pub mod Handlers
pub mod Commits
pub mod Slots
pub mod Proposals
pub mod Steps
pub mod Agreement
mod Tests
use byz_bank.Prelude.{
  ℕ, ◌≡◌, refl, sym, ap, ◌∙◌, Bool, true, false, not, List, [], ◌∷◌, Option, none, some, inl, inr,
  Bool-cases, if◌then◌else◌,
}
use byz_bank.Prelude.Int.{ℤ, int_key}
use byz_bank.Prelude.Keys.{◌==◌, get, put, get-put}
use byz_bank.Prelude.Text.{bytes_key}
use byz_bank.Store.Bbolt.{Bolt}
use byz_bank.Pbft.Crypto.{Crypto, KeyRing}
use byz_bank.Pbft.Messages.{CertificateMsg, commit_phase, phase_signing_bytes}
use byz_bank.Pbft.Certificate.{verify_cert}
use byz_bank.Pbft.Certificate.Build.{IsCollected}
use byz_bank.Pbft.State.{Engine, SeqState, empty_seq_state, set_slot}

module _ (db : Bolt) (c : Crypto) (ring : KeyRing) (q : ℕ) (v : ℤ) where
  -- A verified commit certificate for a slot: it has the slot's sequence number and digest, and the
  -- view.
  abbrev pub IsFor : ℤ → SeqState → CertificateMsg → Type 0
  IsFor seq st cert =
      (verify_cert c ring cert commit_phase q ≡ true)
      × (st.digest ≡ cert.digest)
      × (cert.seq ≡ seq)
      × (cert.view ≡ v)

  -- A slot that is not pre-prepared is empty.
  pub record IsSoundSlot (seq : ℤ) (st : SeqState) : Type 0 where
    pub certified : (cert : CertificateMsg) → st.commit_cert ≡ some cert → IsFor seq st cert
    pub voted : IsCollected c ring (phase_signing_bytes commit_phase seq v st.digest) st.commits
    pub idle :
        st.pre_prepare ≡ false
        → (st.commits ≡ []) × (st.commit_cert ≡ none) × (st.prepare_cert ≡ none)

  -- The engine has this ring, commit quorum and view, and sound slots only.
  pub record IsSafe (e : Engine db) : Type 0 where
    pub ring_is : e.ring ≡ ring
    pub quorum_is : e.commit_quorum ≡ q
    pub view_is : e.view ≡ v
    pub slots : (seq : ℤ) (st : SeqState) → get seq e.log ≡ some st → IsSoundSlot seq st

  -- Fields that the invariant does not read may change.
  abbrev pub IsKept : Engine db → Engine db → Type 0
  IsKept e e' =
      (e'.log ≡ e.log)
      × (e'.ring ≡ e.ring)
      × (e'.commit_quorum ≡ e.commit_quorum)
      × (e'.view ≡ e.view)

  pub IsSafe-kept : (e e' : Engine db) → IsKept e e' → IsSafe e → IsSafe e'
  IsSafe-kept e e' (l, r, k, w) h = record {
    ring_is = r ∙ h.ring_is;
    quorum_is = k ∙ h.quorum_is;
    view_is = w ∙ h.view_is;
    slots = λ seq st found. h.slots seq st (sym (ap (λ log. get seq log) l) ∙ found);
  }

  pub IsSafe-if :
      (b : Bool) (e e' : Engine db)
      → (b ≡ true → IsSafe e)
      → (b ≡ false → IsSafe e')
      → IsSafe (if b then e else e')
  IsSafe-if true e e' h k = h refl
  IsSafe-if false e e' h k = k refl

  Sound-at :
      (b : Bool) (seq j : ℤ) (st st' : SeqState) (o : Option SeqState)
      → IsSoundSlot seq st
      → (o ≡ some st' → IsSoundSlot j st')
      → (b ≡ true → seq ≡ j)
      → (if b then some st else o) ≡ some st'
      → IsSoundSlot j st'
  Sound-at true seq j st st' o h k same found = let e : st ≡ st' = cc in rw⁻¹ (same refl, e) h
  Sound-at false seq j st st' o h k same found = k found

  pub IsSafe-put :
      (e : Engine db) (seq : ℤ) (st : SeqState)
      → IsSafe e
      → IsSoundSlot seq st
      → IsSafe (set_slot db seq st e)
  IsSafe-put e seq st h sound = record {
    ring_is = h.ring_is;
    quorum_is = h.quorum_is;
    view_is = h.view_is;
    slots = λ j st' found.
        Sound-at (seq == j) seq j st st' (get j e.log) sound (h.slots j st')
          (int_key.beq_iff seq j).0 (sym (get-put seq j st e.log) ∙ found);
  }

  -- A fresh slot, and one that was discarded.
  pub Sound-empty :
      (seq : ℤ) (st : SeqState)
      → st.commits ≡ []
      → st.commit_cert ≡ none
      → st.prepare_cert ≡ none
      → IsSoundSlot seq st
  Sound-empty seq st a b d = record {
    certified = λ cert h. absurd (cc (h, b));
    voted = rw a (record { distinct = tt; signed = tt });
    idle = λ _. (a, b, d);
  }
