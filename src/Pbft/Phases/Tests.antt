-- ===== src/Pbft/Phases/Tests.antt =====
-- Runs of the phases of internal/pbft/engine.go: the third vote at a primary, and a backup that votes.
use byz_bank.Prelude.{◌≡◌, refl, true, [], ◌∷◌, some, arith}
use byz_bank.Prelude.Int.{ℤ, pos, ◌+ℤ◌, ◌-ℤ◌}
use byz_bank.Prelude.Keys.{get, put, has, nat_key}
use byz_bank.Prelude.Distinct.{contains}
use byz_bank.Prelude.Text.{data_eq}
use byz_bank.Config.{primary_of}
use byz_bank.Store.Sample.{sample_bolt, fresh_store}
use byz_bank.Pbft.Crypto.{ring_verify, public_key}
use byz_bank.Pbft.Messages.{
  Request, PrePrepareMsg, PhaseMsg, CertificateMsg, or_intra, prepare_phase, part_prepare_abort,
}
use byz_bank.Pbft.Certificate.{verify_cert}
use byz_bank.Pbft.State.{
  Engine, SeqState, empty_seq_state, broadcast_prepare_cert, emit, set_slot, primary,
}
use byz_bank.Pbft.Locks.{
  lock_items_for_op, is_commit_phase_op, locks_held_for_commit_op, ensure_locks_for_op,
}
use byz_bank.Pbft.Validate.{op_matches_cluster, validate_request}
use byz_bank.Pbft.Phases.{on_prepare, on_prepare_cert, on_pre_prepare, gap_clear}
use byz_bank.Pbft.Phases.Votes.{IsFreshPrepare, on_prepare-quorum, on_prepare-short}
use byz_bank.Pbft.Phases.Equivocation.{IsAcceptable, same_vote}
use byz_bank.Pbft.Sample.{any_text, engine_of, payment, leads-first, item_60}

abbrev two_votes : SeqState
two_votes = record empty_seq_state {
  digest = 1 ∷ [];
  pre_prepare = true;
  prepares = (1, []) ∷ (2, []) ∷ [];
}

abbrev one_vote : SeqState
one_vote = record two_votes { prepares = (1, []) ∷ [] }

abbrev leader_of : SeqState → Engine sample_bolt
leader_of st = record (engine_of 1 1) { log = (pos 1, st) ∷ [] }

abbrev ballot : PhaseMsg
ballot = record { seq = pos 1; view = pos 0; digest = 1 ∷ [] }

third_vote : IsFreshPrepare sample_bolt any_text 3 ballot [] two_votes (leader_of two_votes)
unfolding ring_verify public_key get has contains primary data_eq
third_vote = record {
  leads = leads-first;
  same_view = refl;
  slot = refl;
  pre_prepared = refl;
  same_digest = refl;
  signed = refl;
  new = refl;
  uncertified = refl;
  collected = record { distinct = (refl, (refl, tt)); signed = (refl, (refl, tt)) };
}

second_vote : IsFreshPrepare sample_bolt any_text 3 ballot [] one_vote (leader_of one_vote)
unfolding ring_verify public_key get has contains primary data_eq
second_vote = record {
  leads = leads-first;
  same_view = refl;
  slot = refl;
  pre_prepared = refl;
  same_digest = refl;
  signed = refl;
  new = refl;
  uncertified = refl;
  collected = record { distinct = (refl, tt); signed = (refl, tt) };
}

on_prepare-quorum_example :
    (made : CertificateMsg) × (on_prepare sample_bolt any_text 3 ballot [] (leader_of two_votes)
      ≡ on_prepare_cert sample_bolt any_text made (
          emit sample_bolt (broadcast_prepare_cert made) (
            set_slot sample_bolt
              (pos 1)
              (record two_votes {
                prepares = put 3 [] two_votes.prepares;
                prepare_cert = some made;
              })
              (leader_of two_votes))))
    × (verify_cert any_text (leader_of two_votes).ring made prepare_phase 3 ≡ true)
on_prepare-quorum_example =
    on_prepare-quorum sample_bolt any_text 3 ballot [] two_votes (leader_of two_votes) third_vote
      (omega arith)

on_prepare-short_example :
    on_prepare sample_bolt any_text 3 ballot [] (leader_of one_vote)
    ≡ set_slot sample_bolt
        (pos 1)
        (record one_vote { prepares = put 3 [] one_vote.prepares })
        (leader_of one_vote)
on_prepare-short_example =
    on_prepare-short sample_bolt any_text 3 ballot [] one_vote (leader_of one_vote) second_vote
      (omega arith)

abbrev refusal : ℤ → Request
refusal amt = record payment { amt = amt; op = part_prepare_abort }

abbrev proposal : ℤ → PrePrepareMsg
proposal amt = record { seq = pos 1; view = pos 0; digest = 1 ∷ []; req = refusal amt }

abbrev backup : Engine sample_bolt
backup = engine_of 6 2

refusal-IsAcceptable :
    (amt : ℤ) → IsAcceptable sample_bolt any_text (proposal amt) backup fresh_store
unfolding primary primary_of ◌+ℤ◌ ◌-ℤ◌ op_matches_cluster gap_clear get validate_request
    locks_held_for_commit_op ensure_locks_for_op is_commit_phase_op or_intra lock_items_for_op
refusal-IsAcceptable amt = record {
  backup = refl;
  honest = refl;
  same_view = refl;
  matches = rw item_60;
  clear = refl;
  free = refl;
  valid = refl;
  prepares = refl;
  locked = refl;
}

same_vote_example :
    (on_pre_prepare sample_bolt any_text [] (proposal (pos 4)) backup).out
    ≡ (on_pre_prepare sample_bolt any_text [] (proposal (pos 9)) backup).out
same_vote_example =
    same_vote sample_bolt any_text (proposal (pos 4)) (refusal (pos 9)) backup fresh_store
      fresh_store (refusal-IsAcceptable (pos 4)) (refusal-IsAcceptable (pos 9))
