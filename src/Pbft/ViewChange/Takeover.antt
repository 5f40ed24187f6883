-- ===== src/Pbft/ViewChange/Takeover.antt =====
-- What becomes of the slots of a replica that takes over a NEW-VIEW message, internal/pbft/viewchange.go.
use byz_bank.Prelude.{
  ◌≡◌, ◌≢◌, refl, ap, sym, ◌∙◌, Bool, true, false, not, ◌&&◌, List, [], ◌∷◌, some, inl, inr,
  Bool-cases, All, arith, if◌then◌else◌,
}
use byz_bank.Prelude.Int.{leb_ℤ, int_key}
use byz_bank.Prelude.Keys.{◌==◌, get, put, get-put_self, beq_ne, nat_key}
use byz_bank.Prelude.Text.{bytes_key}
use byz_bank.Config.{same_cluster}
use byz_bank.Store.Bbolt.{Bolt}
use byz_bank.Store.{Store}
use byz_bank.Pbft.Crypto.{Crypto}
use byz_bank.Pbft.Messages.{CertificateMsg, PrePrepareMsg, NewViewMsg}
use byz_bank.Pbft.State.{Engine, SeqState, primary, ensure_seq}
use byz_bank.Pbft.Phases.{gap_clear, vote, send_prepare, process_pre_prepare}
use byz_bank.Pbft.Execute.{send_client_reply}
use byz_bank.Pbft.ViewChange.{accept_new_view_pre_prepare, accept_all, install_view, on_new_view}

and_false : (b : Bool) → (b && false) ≡ false
and_false true = refl
and_false false = refl

module _ (db : Bolt) (c : Crypto) where
  -- The slot of the pre-prepare is pre-prepared with the same digest.
  abbrev pub IsKnown : Engine db → PrePrepareMsg → Type 0
  IsKnown e pp =
      (st : SeqState) × (get pp.seq e.log ≡ some st)
      × (st.pre_prepare ≡ true)
      × (st.digest ≡ pp.digest)

  accept-known :
      (polls : List (Store db)) (pp : PrePrepareMsg) (e : Engine db)
      → IsKnown e pp
      → accept_new_view_pre_prepare db c polls pp e ≡ e
  unfolding accept_new_view_pre_prepare ensure_seq
  accept-known polls pp e (st, found, live, same) =
      let eq : (st.digest == pp.digest) ≡ true = (bytes_key.beq_iff st.digest pp.digest).1 same in
      elim (Bool-cases (same_cluster e.topo pp.req.x pp.req.y)) [
        | inr out ↦ rw out refl
        | inl within ↦ elim (Bool-cases (gap_clear pp.seq e.exec_seq e.log)) [
          | inr gap ↦ rw (within, gap) refl
          | inl clear ↦ rw (within, clear, found, live, eq) refl
        ]
      ]

  accept_all-known :
      (polls : List (Store db)) (pps : List PrePrepareMsg) (e : Engine db)
      → All (IsKnown e) pps
      → accept_all db c polls pps e ≡ e
  unfolding accept_all
  accept_all-known polls [] e h = refl
  accept_all-known polls (pp ∷ pps) e (h, rest) =
      rw (accept-known polls pp e h) (accept_all-known polls pps e rest)

  taken_over :
      (a b : Bool) (e e' : Engine db)
      → a ≡ true
      → b ≡ false
      → (if not a then e else if b then e else e') ≡ e'
  taken_over true false e e' h k = refl
  taken_over false b e e' h k = cc
  taken_over true true e e' h k = cc

  -- A replica that has pre-prepared all that a NEW-VIEW message proposes again only changes its view:
  -- it votes for none of these slots in the new view, and keeps their old votes and certificates.
  pub on_new_view-known :
      (polls : List (Store db)) (msg : NewViewMsg) (e : Engine db)
      → e.fault.alive ≡ true
      → leb_ℤ msg.new_view e.view ≡ false
      → All (IsKnown e) msg.pre_prepares
      → on_new_view db c polls msg e ≡ install_view db c msg e
  unfolding on_new_view install_view
  on_new_view-known polls msg e alive newer h =
      let next = install_view db c msg e in
      taken_over e.fault.alive (leb_ℤ msg.new_view e.view) e
        (accept_all db c polls msg.pre_prepares next) alive newer
      ∙ accept_all-known polls msg.pre_prepares next h

  -- What a replica that is not the primary does on a pre-prepare leaves its log alone.
  process_pre_prepare-log :
      (polls : List (Store db)) (msg : PrePrepareMsg) (e : Engine db)
      → (primary db e == e.self) ≡ false
      → (process_pre_prepare db c polls msg e).log ≡ e.log
  unfolding process_pre_prepare vote send_prepare send_client_reply primary
  process_pre_prepare-log polls msg e backup = ground arith

  -- A backup that takes over another request for a slot with a commit certificate keeps the certificate:
  -- the slot then holds the new request, as executed as it was, under a certificate for the old one.
  pub accept-stale :
      (polls : List (Store db)) (pp : PrePrepareMsg) (e : Engine db) (st : SeqState)
      (cert : CertificateMsg)
      → (primary db e == e.self) ≡ false
      → same_cluster e.topo pp.req.x pp.req.y ≡ true
      → gap_clear pp.seq e.exec_seq e.log ≡ true
      → get pp.seq e.log ≡ some st
      → st.commit_cert ≡ some cert
      → st.digest ≡ cert.digest
      → cert.digest ≢ pp.digest
      → (st' : SeqState) × (get pp.seq (accept_new_view_pre_prepare db c polls pp e).log ≡ some st')
        × (st'.req ≡ pp.req)
        × (st'.executed ≡ st.executed)
        × (st'.commit_cert ≡ some cert)
        × (st'.digest ≢ cert.digest)
  unfolding accept_new_view_pre_prepare ensure_seq primary
  accept-stale polls pp e st cert backup within clear found certified for differs =
      let st' : SeqState = record st { digest = pp.digest; req = pp.req; pre_prepare = true } in
      let e' : Engine db = record e { log = put pp.seq st' e.log; view_change_timer = false } in
      let other : (st.digest == pp.digest) ≡ false =
        beq_ne st.digest pp.digest (λ h. differs (sym for ∙ h)) in
      let fresh : (st.pre_prepare && (st.digest == pp.digest)) ≡ false =
        rw other (and_false st.pre_prepare) in
      let is : accept_new_view_pre_prepare db c polls pp e ≡ process_pre_prepare db c polls pp e' =
        rw (within, clear, found, fresh, backup) refl in
      (
        st',
        ap (λ (e'' : Engine db). get pp.seq e''.log) is
            ∙ ap (get pp.seq) (process_pre_prepare-log polls pp e' backup)
            ∙ get-put_self pp.seq st' e.log,
        refl,
        refl,
        certified,
        λ h. differs (sym h),
      )
