-- ===== src/Garage/Writes.antt =====
-- What holds of the store before a write and of the store that it leaves, however its commit goes.
use carma.Garage.{Garage, Write, committed, unconfirmed, rolled_back, settle, settle_done}

module _ {F : Type 0} (P : Garage F → Type 0) (write : Write) (before after : Garage F) where
  pub settle_keeps : {A : Type 0} (a : A) → P before → P after → P (settle write before after a).0
  settle_keeps a h k = by_write write
    where
      by_write : (write : Write) → P (settle write before after a).0
      by_write committed = k
      by_write unconfirmed = k
      by_write rolled_back = h

  pub settle_done_keeps : P before → P after → P (settle_done write before after).0
  settle_done_keeps h k = by_write write
    where
      by_write : (write : Write) → P (settle_done write before after).0
      by_write committed = k
      by_write unconfirmed = k
      by_write rolled_back = h
