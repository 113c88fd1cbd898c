-- ===== src/Utils/BlockingQueue.antt =====
-- lib/libkvm/utils/blocking_queue.hpp: the queue that hands items to waiting threads. A call is
-- one stretch under the lock. The head of the list is the back of the vector.
use libvmod_tinykvm.Common.{Bool, true, false, List, [], ◌∷◌}

pub record BlockingQueue {ℓ} (A : Type ℓ) : Type ℓ where
  pub queue : List A
  pub is_shutdown : Bool

-- What `pop` does when it has the lock: it returns `true` and an item, or `false`, or it waits.
pub data Popped {ℓ} (A : Type ℓ) : Type ℓ where
  item : A → Popped A
  refused : Popped A
  waits : Popped A

module _ {ℓ} {A : Type ℓ} where
  unfoldable pub push : BlockingQueue A → A → BlockingQueue A
  push q a = record q { queue = a ∷ q.queue }

  abbrev pub pop_with : List A → Bool → BlockingQueue A → BlockingQueue A × Popped A
  pop_with [] true q = (q, refused)
  pop_with [] false q = (q, waits)
  pop_with (a ∷ rest) s q = (record q { queue = rest }, item a)

  unfoldable pub pop : BlockingQueue A → BlockingQueue A × Popped A
  pop q = pop_with q.queue q.is_shutdown q

  unfoldable pub shutdown : BlockingQueue A → BlockingQueue A
  shutdown q = record q { is_shutdown = true }
