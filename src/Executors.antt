-- ===== src/Executors.antt =====
-- The database server of mobile/web/drift_worker.dart.js, `A.kS`: which transaction has its turn. `X`
-- stands for the executors of transactions.
pub mod Ending
pub mod Turn
mod Examples
use bojairu.Prelude.{
  ℕ, ◌+◌, Bool, true, false, Option, none, some, List, [], ◌∷◌, ◌==◌, if◌then◌else◌,
}
use bojairu.Prelude.Dict.{lookup, insert, remove, nat_Eq}

-- The fields `e`, `d` and `w`.
pub record Executors (X : Type 0) : Type 0 where
  pub next_id : ℕ
  pub open_ones : List (ℕ × X)
  pub stack : List ℕ

-- The first of the equal entries is taken out (`B.c.G`).
unfoldable pub take_out : ℕ → List ℕ → List ℕ
take_out a [] = []
take_out a (b ∷ w) = let rest = take_out a w in if b == a then w else b ∷ rest

module _ {X : Type 0} where
  abbrev pub no_executors : Executors X
  no_executors = record { next_id = 0; open_ones = []; stack = [] }

  -- `dY`: a transaction gets an id, and the turn.
  unfoldable pub put_executor : Executors X → X → Executors X
  unfolding insert
  put_executor s a =
      let q = s.next_id in
      record { next_id = q + 1; open_ones = insert q a s.open_ones; stack = q ∷ s.stack }

  -- `cB`, without the message to those that wait for a turn.
  unfoldable pub release : Executors X → ℕ → Executors X
  unfolding take_out remove
  release s a = record s { open_ones = remove a s.open_ones; stack = take_out a s.stack }

  -- `A.kW`: whether a transaction, or what is in none, has its turn.
  unfoldable pub has_turn : Executors X → Option ℕ → Bool
  has_turn s none = elim s.stack [ [] ↦ true | b ∷ w ↦ false ]
  has_turn s (some r) = elim s.stack [ [] ↦ false | b ∷ w ↦ b == r ]

  -- The executor that `aC` finds once it is the turn of `a`; the outer `none` is the error of a
  -- missing one, the inner the database itself.
  unfoldable pub find_executor : Executors X → Option ℕ → Option (Option X)
  unfolding lookup
  find_executor s none = some none
  find_executor s (some a) = elim (lookup a s.open_ones) [ none ↦ none | some x ↦ some (some x) ]
