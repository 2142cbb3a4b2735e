-- ===== src/Executors/Examples.antt =====
-- Runs of the transactions of the database server of mobile/web/drift_worker.dart.js.
use bojairu.Prelude.{ℕ, ◌≡◌, refl, true, false, Option, none, some}
use bojairu.Executors.{
  Executors, no_executors, put_executor, release, take_out, has_turn, find_executor,
}
use bojairu.Executors.Turn.{here, next, put, released, IsInTurn, turn_lem}

-- Two transactions are opened, and the first of them ends.
abbrev one_open : Executors ℕ
one_open = release (put_executor (put_executor no_executors 10) 20) 0

second_turn : (has_turn one_open (some 1) ≡ true) × (has_turn one_open none ≡ false)
unfolding release put_executor take_out has_turn
second_turn = (refl, refl)

turn_lem_example :
    (r : Option ℕ) × (x : Option ℕ) × (has_turn one_open r ≡ true)
    × (find_executor one_open r ≡ some x)
    × ((q : Option ℕ) → has_turn one_open q ≡ true → q ≡ r)
    × IsInTurn one_open r
turn_lem_example = turn_lem one_open (next (next (next here (put 10)) (put 20)) (released 0))
