-- ===== src/Pbft/Locks.antt =====
-- The locks that an operation takes, internal/pbft/engine.go.
use byz_bank.Prelude.{Bool, true, false, not, ◌&&◌, List, [], ◌∷◌, if◌then◌else◌}
use byz_bank.Prelude.Int.{ℤ, int_key}
use byz_bank.Prelude.Keys.{◌==◌}
use byz_bank.Store.Bbolt.{Bolt}
use byz_bank.Store.{Store, is_locked, lock_seq, acquire_lock, acquire_lock_for_seq, release_lock}
use byz_bank.Pbft.Messages.{
  Op, Request, unset, intra, coord_prepare, part_prepare_commit, coord_commit, coord_abort,
  part_commit, part_abort,
}

unfoldable pub is_commit_phase_op : Op → Bool
is_commit_phase_op coord_commit = true
is_commit_phase_op coord_abort = true
is_commit_phase_op part_commit = true
is_commit_phase_op part_abort = true
is_commit_phase_op _ = false

unfoldable pub items_of : Op → ℤ → ℤ → List ℤ
items_of intra x y = x ∷ y ∷ []
items_of unset x y = x ∷ y ∷ []
items_of coord_prepare x y = x ∷ []
items_of part_prepare_commit x y = y ∷ []
items_of _ x y = []

unfoldable pub lock_items_for_op : Request → List ℤ
unfolding items_of
lock_items_for_op r = items_of r.op r.x r.y

module _ (db : Bolt) where
  unfoldable pub held_for : Op → ℤ → ℤ → Store db → Bool
  held_for coord_commit x y s = is_locked db s x
  held_for coord_abort x y s = is_locked db s x
  held_for part_commit x y s = is_locked db s y
  held_for part_abort x y s = is_locked db s y
  held_for _ x y s = true

  unfoldable pub locks_held_for_commit_op : Request → Store db → Bool
  unfolding held_for
  locks_held_for_commit_op r s = held_for r.op r.x r.y s

  unfoldable pub none_locked : List ℤ → Store db → Bool
  none_locked [] s = true
  none_locked (i ∷ is) s = not (is_locked db s i) && none_locked is s

  unfoldable pub can_acquire_for_op : Request → Store db → Bool
  unfolding none_locked
  can_acquire_for_op r s = none_locked (lock_items_for_op r) s

  -- The loop stops at the first lock that is refused, and keeps those before it.
  unfoldable pub acquire_all : ℤ → List ℤ → Store db → Bool × Store db
  acquire_all seq [] s = (true, s)
  acquire_all seq (i ∷ is) s =
      let (done, s') = acquire_lock db i seq s in
      let rest = acquire_all seq is s' in if done then rest else (false, s')

  unfoldable pub acquire_locks_for_op : ℤ → Request → Store db → Bool × Store db
  unfolding acquire_all
  acquire_locks_for_op seq r s = acquire_all seq (lock_items_for_op r) s

  unfoldable pub release_all : List ℤ → Store db → Store db
  release_all [] s = s
  release_all (i ∷ is) s = release_all is (release_lock db i s)

  unfoldable pub release_locks_for_op : Request → Store db → Store db
  unfolding release_all
  release_locks_for_op r s = release_all (lock_items_for_op r) s

  unfoldable pub ensure_all : ℤ → List ℤ → Store db → Bool × Store db
  ensure_all seq [] s = (true, s)
  ensure_all seq (i ∷ is) s =
      let (done, s') = acquire_lock_for_seq db i seq s in
      let rest = ensure_all seq is s' in if done then rest else (false, s')

  unfoldable pub ensure_locks_for_op : ℤ → Request → Store db → Bool × Store db
  unfolding ensure_all
  ensure_locks_for_op seq r s = ensure_all seq (lock_items_for_op r) s

  unfoldable pub none_held_by_other : ℤ → List ℤ → Store db → Bool
  none_held_by_other seq [] s = true
  none_held_by_other seq (i ∷ is) s =
      not (is_locked db s i && not (lock_seq db s i == seq)) && none_held_by_other seq is s

  unfoldable pub locks_ready_for_seq : ℤ → Request → Store db → Bool
  unfolding none_held_by_other
  locks_ready_for_seq seq r s = none_held_by_other seq (lock_items_for_op r) s
