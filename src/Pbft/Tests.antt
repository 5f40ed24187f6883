-- ===== src/Pbft/Tests.antt =====
-- Runs of the digests, the control calls and the client of internal/pbft.
use byz_bank.Prelude.{if◌then◌else◌, ◌≡◌, ◌≤◌, refl, true, List, [], ◌∷◌, ◌++◌, some, arith, In}
use byz_bank.Prelude.Int.{pos, int_key}
use byz_bank.Prelude.Text.{bytes_key, data_eq}
use byz_bank.Store.Sample.{sample_bolt}
use byz_bank.Pbft.Messages.{
  Reply, committed, coord_prepare, intra, unset, or_intra, op_text, digest_text,
}
use byz_bank.Pbft.State.{Engine, empty_seq_state}
use byz_bank.Pbft.Execute.{try_execute}
use byz_bank.Pbft.Digests.{digest_text-injective, digest_text-collides}
use byz_bank.Pbft.Control.{Meanwhile, after_rounds, quiet, drain_execute, drain_execute-try_execute}
use byz_bank.Pbft.Client.{
  matches, matching_count, wait_for_quorum, submit_with_retry, submit_to_all,
  submit_with_retry_sound,
}
use byz_bank.Pbft.Sample.{one_text, payment, engine_of, cert}

same_text : digest_text payment ≡ digest_text (record payment { op = intra })
unfolding digest_text or_intra
same_text = refl

digest_text-injective_example :
    (payment.client_id ≡ payment.client_id)
    × (or_intra unset ≡ or_intra intra)
    × (pos 1 ≡ pos 1)
    × (pos 1 ≡ pos 1)
    × (pos 60 ≡ pos 60)
    × (pos 4 ≡ pos 4)
digest_text-injective_example =
    digest_text-injective payment (record payment { op = intra }) (ground arith, tt)
      (ground arith, tt) tt tt same_text

digest_text-collides_example :
    digest_text (record payment {
      client_id = payment.client_id ++ (b'|' ∷ op_text coord_prepare);
      op = intra;
    })
    ≡ digest_text (record payment { op = coord_prepare })
digest_text-collides_example = digest_text-collides payment

abbrev committed_slot : Engine sample_bolt
committed_slot = record (engine_of 1 1) {
  log = (pos 1, record empty_seq_state { req = payment; commit_cert = some cert }) ∷ [];
}

-- Another goroutine takes the slot back during the pause of the first round.
abbrev taken_back : Meanwhile sample_bolt one_text
taken_back = record { before = λ e. e; after = λ e. e; pause = λ _. committed_slot }

drain_execute-try_execute_example :
    drain_execute sample_bolt one_text
      ((taken_back ∷ []) ++ (quiet sample_bolt one_text ∷ quiet sample_bolt one_text ∷ []))
      committed_slot
    ≡ (if (drain_execute sample_bolt one_text (taken_back ∷ []) committed_slot).1
        then drain_execute sample_bolt one_text (taken_back ∷ []) committed_slot
        else (
          try_execute sample_bolt one_text
              (after_rounds sample_bolt one_text (taken_back ∷ []) committed_slot),
          true,
        ))
unfolding after_rounds
drain_execute-try_execute_example =
    drain_execute-try_execute sample_bolt one_text (taken_back ∷ []) [] 1 committed_slot refl
      (omega arith)

abbrev answer : Reply
answer = record {
  client_id = payment.client_id;
  ts = payment.ts;
  seq = pos 1;
  x = payment.x;
  y = payment.y;
  amt = payment.amt;
  result = committed;
}

answers : matches payment committed answer ≡ true
unfolding matches data_eq
answers = refl

-- The first wait ends with one reply, and the second meets a second one.
two_replies :
    submit_with_retry payment 2 true
      ((answer ∷ []) ∷ [])
      (answer ∷ [])
      (true ∷ [])
      ((answer ∷ answer ∷ []) ∷ [])
      []
    ≡ (2, true)
unfolding submit_with_retry wait_for_quorum matching_count matches submit_to_all data_eq
two_replies = refl

submit_with_retry_sound_example :
    (replies : List Reply) × In replies ((answer ∷ []) ∷ (answer ∷ answer ∷ []) ∷ [])
    × (matching_count payment committed replies ≡ 2)
    × (2 ≤ 2)
submit_with_retry_sound_example =
    submit_with_retry_sound payment 2 2 true ((answer ∷ []) ∷ []) (answer ∷ []) (true ∷ [])
      ((answer ∷ answer ∷ []) ∷ []) [] two_replies
