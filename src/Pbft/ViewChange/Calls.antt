-- ===== src/Pbft/ViewChange/Calls.antt =====
-- How `triggerViewChange` and `onViewChange` of internal/pbft/viewchange.go call each other.
use byz_bank.Prelude.{
  ℕ, ◌≡◌, refl, Bool, true, false, not, ◌&&◌, List, [], ◌∷◌, ◌++◌, if◌then◌else◌,
}
use byz_bank.Prelude.Int.{pos, ◌+64◌, int_key}
use byz_bank.Prelude.Keys.{GoMap, get, put, get-put_self, nat_key}
use byz_bank.Store.Bbolt.{Bolt}
use byz_bank.Store.{Store}
use byz_bank.Pbft.Crypto.{Crypto}
use byz_bank.Pbft.Messages.{ViewChangeMsg}
use byz_bank.Pbft.State.{Engine}
use byz_bank.Pbft.NewView.{build_view_change, reports_or_empty}
use byz_bank.Pbft.ViewChange.{
  is_set, count_view_change, on_view_change_with, trigger_with, trigger_view_change,
}

module _ (db : Bolt) (c : Crypto) where
  no_amplify : (a : Bool) (x y : Engine db) → (if a && not true then x else y) ≡ y
  no_amplify true x y = refl
  no_amplify false x y = refl

  -- A vote for a view whose vote was sent triggers nothing.
  count_view_change-sent :
      (t t' : Engine db → Engine db) (polls : List (Store db)) (reports : GoMap ℕ ViewChangeMsg)
      (msg : ViewChangeMsg) (e : Engine db)
      → is_set db c (get msg.new_view e.view_change_sent) ≡ true
      → count_view_change db c t polls reports msg e ≡ count_view_change db c t' polls reports msg e
  unfolding count_view_change
  count_view_change-sent t t' polls reports msg e sent =
      rw sent (rw (no_amplify _ (t _) _) (rw (no_amplify _ (t' _) _) refl))

  on_view_change_with-sent :
      (t t' : Engine db → Engine db) (polls : List (Store db)) (id : ℕ) (msg : ViewChangeMsg)
      (e : Engine db)
      → is_set db c (get msg.new_view e.view_change_sent) ≡ true
      → on_view_change_with db c t polls id msg e ≡ on_view_change_with db c t' polls id msg e
  unfolding on_view_change_with
  on_view_change_with-sent t t' polls id msg e sent =
      let reports = reports_or_empty db c (get msg.new_view e.view_change_log) in
      rw
        (count_view_change-sent t t' polls (put id msg reports) msg
          (record e { view_change_received = e.view_change_received ++ (msg ∷ []) }) sent)
        refl

  marked : Engine db → Engine db
  marked e = record e {
    view_change_sent = put (e.view +64 pos 1) true e.view_change_sent;
    in_view_change = true;
    view_change_target = e.view +64 pos 1;
  }

  trigger_with-agree :
      (k k' : ViewChangeMsg → Engine db → Engine db) (e : Engine db)
      → k (build_view_change db c e) (marked e) ≡ k' (build_view_change db c e) (marked e)
      → trigger_with db c k e ≡ trigger_with db c k' e
  unfolding trigger_with marked
  trigger_with-agree k k' e h = rw h refl

  marked-sent :
      (e : Engine db)
      → is_set db c (get (build_view_change db c e).new_view (marked e).view_change_sent) ≡ true
  unfolding marked build_view_change
  marked-sent e = rw (get-put_self (e.view +64 pos 1) true e.view_change_sent) refl

  -- Whatever stands for the call of `triggerViewChange` that `onViewChange` would make within a call of
  -- `triggerViewChange`, even one that never ends: the outcome is the model's, so that the code never
  -- comes to that call. With the code's own `triggerViewChange` in its place this is the equation of the code.
  pub trigger_view_change_lem :
      (inner : Engine db → Engine db) (polls : List (Store db)) (e : Engine db)
      → trigger_with db c (λ msg e'. on_view_change_with db c inner polls e'.self msg e') e
        ≡ trigger_view_change db c polls e
  unfolding trigger_view_change
  trigger_view_change_lem inner polls e =
      trigger_with-agree _ _ e (
        on_view_change_with-sent inner (λ e'. e') polls (marked e).self _ (marked e)
          (marked-sent e))
