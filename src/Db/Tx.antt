-- ===== src/Db/Tx.antt =====
-- What a transaction keeps: a relation that holds from a database to itself needs only the
-- successful outcomes, since a raise rolls back.
use simple_a2a_registry.Prelude.{◌≡◌, refl, arith}
use simple_a2a_registry.Db.{Db, Action, Result, ok, raise, Error, tx, close_tx}

module _ {A : Type 0} where
  -- A transaction that raises leaves the database as it was.
  pub tx_atomic :
      (block : Action A) (db : Db) (e : Error) → (tx block db).0 ≡ raise e → (tx block db).1 ≡ db
  unfolding tx
  tx_atomic block db e h = ground arith

  pub tx_keeps :
      (R : Db → Type 0) (block : Action A) (db : Db)
      → R db
      → ((a : A) → (block db).0 ≡ ok a → R (block db).1)
      → R (tx block db).1
  unfolding tx
  tx_keeps R block db same step = close (block db).0 (block db).1 step
    where
      close :
          (r : Result A) (after : Db)
          → ((a : A) → r ≡ ok a → R after)
          → R (close_tx db (r, after)).1
      close (ok a) after step = step a refl
      close (raise e) after step = same
