-- ===== src/Twopc/Decision.antt =====
-- What the coordinator of internal/twopc starts for a transaction, as replies come in.
use mathlib.Core.List.{append_assoc, append-nil}
use byz_bank.Prelude.{
  ℕ, zero, suc, ap, subst, sym, All, ◌≡◌, refl, ◌∙◌, true, false, ◌⊎◌, inl, inr, List, [], ◌∷◌,
  ◌++◌, Bool-cases, if◌then◌else◌,
}
use byz_bank.Prelude.Text.{bytes_key}
use byz_bank.Store.Bbolt.{Bolt}
use byz_bank.Store.Types.{Outcome, committed, aborted}
use byz_bank.Store.{Store}
use byz_bank.Pbft.Crypto.{Crypto}
use byz_bank.Pbft.Messages.{Request, Op, txn_id, coord_commit, coord_abort}
use byz_bank.Pbft.Execute.Atomic.{tagged}
use byz_bank.Twopc.Collect.{same_outcome}
use byz_bank.Twopc.Messages.{ParticipantReplyMsg}
use byz_bank.Twopc.Node.{Node, is_primary, is_started}
use byz_bank.Twopc.Coordinator.{handle_participant_reply, mark_started, final_op}
use byz_bank.Twopc.Reply.{
  IsDeciding, checks, recorded, queued, recorded-IsDeciding, marked-IsDeciding, queued-IsDeciding,
  marked, first_step, later_step,
}

-- What the first good reply decides.
abbrev pub decision : Outcome → Op
decision committed = coord_commit
decision aborted = coord_abort

-- So many aborts of a transaction.
abbrev pub aborts : ℕ → Request → List Request
aborts zero r = []
aborts (suc k) r = tagged coord_abort r ∷ aborts k r

final_op-decision : (o : Outcome) → final_op o ≡ decision o
final_op-decision committed = refl
final_op-decision aborted = refl

append_two :
    {A : Type 0} (xs : List A) (a b : A) → (xs ++ (a ∷ [])) ++ (b ∷ []) ≡ xs ++ (a ∷ b ∷ [])
append_two [] a b = refl
append_two (x ∷ xs) a b = rw (append_two xs a b)

module _ (db : Bolt) (c : Crypto) (stores : List (Store db)) where
  pub first_reply_step :
      (reply : ParticipantReplyMsg) (n : Node db)
      → IsDeciding db c stores n
      → checks db c stores reply n ≡ true
      → is_started db (txn_id c reply.req) n ≡ false
      → let n' = handle_participant_reply db c stores reply n in
        (n'.engine.internal_ingress
          ≡ n.engine.internal_ingress ++ (tagged (decision reply.outcome) reply.req ∷ []))
        × (is_started db (txn_id c reply.req) n' ≡ true)
        × IsDeciding db c stores n'
  unfolding is_started is_primary
  first_reply_step reply n d good new = rw (first_step db c stores reply n d good new) (
    ap (λ o. n.engine.internal_ingress ++ (tagged o reply.req ∷ []))
        (final_op-decision reply.outcome),
    marked db c stores reply n,
    queued-IsDeciding db c stores (tagged (final_op reply.outcome) reply.req) _
        (marked-IsDeciding db c stores reply n d),
  )

  later_end :
      (reply : ParticipantReplyMsg) (n : Node db)
      → is_started db (txn_id c reply.req) n ≡ true
      → (o : Outcome)
      → let n' =
          if same_outcome o committed
          then queued db c stores (tagged coord_abort reply.req) (recorded db c stores reply n)
          else recorded db c stores reply n in
        ((n'.engine.internal_ingress ≡ n.engine.internal_ingress)
          ⊎ (n'.engine.internal_ingress
              ≡ n.engine.internal_ingress ++ (tagged coord_abort reply.req ∷ [])))
        × (is_started db (txn_id c reply.req) n' ≡ true)
  unfolding is_started
  later_end reply n started committed = (inr refl, started)
  later_end reply n started aborted = (inl refl, started)

  -- At the honest primary with the commit phase on, a reply of a marked transaction never queues its
  -- commit: it queues nothing, or the abort, and the mark stays.
  pub later_reply :
      (reply : ParticipantReplyMsg) (n : Node db)
      → IsDeciding db c stores n
      → is_started db (txn_id c reply.req) n ≡ true
      → let n' = handle_participant_reply db c stores reply n in
        ((n'.engine.internal_ingress ≡ n.engine.internal_ingress)
          ⊎ (n'.engine.internal_ingress
              ≡ n.engine.internal_ingress ++ (tagged coord_abort reply.req ∷ [])))
        × (is_started db (txn_id c reply.req) n' ≡ true)
  unfolding handle_participant_reply
  later_reply reply n d started = elim (Bool-cases (checks db c stores reply n)) [
    | inr bad ↦ rw bad (inl refl, started)
    | inl good ↦
        rw (later_step db c stores reply n d good started) (later_end reply n started reply.outcome)
  ]

  later-IsDeciding :
      (reply : ParticipantReplyMsg) (n : Node db)
      → IsDeciding db c stores n
      → is_started db (txn_id c reply.req) n ≡ true
      → IsDeciding db c stores (handle_participant_reply db c stores reply n)
  unfolding handle_participant_reply
  later-IsDeciding reply n d started = elim (Bool-cases (checks db c stores reply n)) [
    | inr bad ↦ rw bad d
    | inl good ↦ rw (later_step db c stores reply n d good started) (ended reply.outcome)
  ]
    where
      ended :
          (o : Outcome)
          → IsDeciding db c stores (
              if same_outcome o committed
              then queued db c stores (tagged coord_abort reply.req) (recorded db c stores reply n)
              else recorded db c stores reply n)
      ended committed =
          queued-IsDeciding db c stores (tagged coord_abort reply.req) _
            (recorded-IsDeciding db c stores reply n d)
      ended aborted = recorded-IsDeciding db c stores reply n d

  -- The replies, handled one after the other.
  unfoldable pub handle_replies : List ParticipantReplyMsg → Node db → Node db
  handle_replies [] n = n
  handle_replies (reply ∷ replies) n =
      handle_replies replies (handle_participant_reply db c stores reply n)

  later_replies :
      (r : Request) (replies : List ParticipantReplyMsg) (n : Node db)
      → IsDeciding db c stores n
      → is_started db (txn_id c r) n ≡ true
      → All (λ m. m.req ≡ r) replies
      → (k : ℕ) × ((handle_replies replies n).engine.internal_ingress
          ≡ n.engine.internal_ingress ++ aborts k r)
  unfolding handle_replies
  later_replies r [] n d started same = (0, sym (append-nil n.engine.internal_ingress))
  later_replies r (reply ∷ replies) n d started (is, same) =
      let marked_so : is_started db (txn_id c reply.req) n ≡ true = rw is started in
      let n' = handle_participant_reply db c stores reply n in
      let (queue, still) = later_reply reply n d marked_so in
      let (k, more) =
        later_replies r replies n' (later-IsDeciding reply n d marked_so)
          (subst (λ x. is_started db (txn_id c x) n' ≡ true) is still) same in
      elim queue [
        | inl kept ↦ (k, more ∙ ap (λ q. q ++ aborts k r) kept)
        | inr one ↦ (
          suc k,
          more
              ∙ ap (λ q. q ++ aborts k r) one
              ∙ append_assoc n.engine.internal_ingress (tagged coord_abort reply.req ∷ [])
                  (aborts k r)
              ∙ ap (λ x. n.engine.internal_ingress ++ (tagged coord_abort x ∷ aborts k r)) is,
        )
      ]

  -- At the honest primary with the commit phase on: the first reply of a transaction whose certificate
  -- checks queues the commit of the transaction if its outcome is committed, and its abort otherwise, and
  -- whatever replies of the transaction follow, with whatever outcomes and certificates, they queue
  -- aborts of it only.
  pub first_reply :
      (reply : ParticipantReplyMsg) (replies : List ParticipantReplyMsg) (n : Node db)
      → IsDeciding db c stores n
      → checks db c stores reply n ≡ true
      → is_started db (txn_id c reply.req) n ≡ false
      → All (λ m. m.req ≡ reply.req) replies
      → (k : ℕ) × ((handle_replies (reply ∷ replies) n).engine.internal_ingress
          ≡ n.engine.internal_ingress
            ++ (tagged (decision reply.outcome) reply.req ∷ aborts k reply.req))
  unfolding handle_replies
  first_reply reply replies n d good new same =
      let n' = handle_participant_reply db c stores reply n in
      let (queue, started, d') = first_reply_step reply n d good new in
      let (k, more) = later_replies reply.req replies n' d' started same in
      (
        k,
        more
            ∙ ap (λ q. q ++ aborts k reply.req) queue
            ∙ append_assoc n.engine.internal_ingress _ (aborts k reply.req),
      )

  -- At the honest primary with the commit phase on, the same reply with outcome committed, whose
  -- certificate checks, delivered twice for a transaction that is not marked, queues the commit of the
  -- transaction and then its abort.
  pub repeated_reply :
      (reply : ParticipantReplyMsg) (n : Node db)
      → IsDeciding db c stores n
      → checks db c stores reply n ≡ true
      → is_started db (txn_id c reply.req) n ≡ false
      → reply.outcome ≡ committed
      → (handle_participant_reply db c stores reply
          (handle_participant_reply db c stores reply n)).engine.internal_ingress
        ≡ n.engine.internal_ingress
          ++ (tagged coord_commit reply.req ∷ tagged coord_abort reply.req ∷ [])
  unfolding is_primary is_started
  repeated_reply reply n d good new outcome =
      let first = tagged (final_op reply.outcome) reply.req in
      let n₁ =
        queued db c stores first
          (mark_started db c (txn_id c reply.req) (recorded db c stores reply n)) in
      let d' = queued-IsDeciding db c stores first _ (marked-IsDeciding db c stores reply n d) in
      rw
        (
          first_step db c stores reply n d good new,
          later_step db c stores reply n₁ d' good (marked db c stores reply n),
          outcome,
        )
        (append_two n.engine.internal_ingress _ _)
