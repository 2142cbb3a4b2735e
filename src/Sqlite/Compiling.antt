-- ===== src/Sqlite/Compiling.antt =====
-- How `A.h_` of mobile/web/drift_worker.dart.js prepares the one statement of an SQL text (`iY` and
-- `d5`).
use Prim.Native.String.{String}
use bojairu.Prelude.{
  ℕ, zero, suc, Option, none, some, List, [], ◌∷◌, if◌then◌else◌, ◌==◌, length, ltb, not,
}
use bojairu.Server.{returned}
use bojairu.Sqlite.{
  Sqlite, Compiled, closed_fault, argument_fault, endless, Statement, SqlTask, ◌>>=◌, pure, fail,
  throw_code, new_statement, dispose_all,
}

abbrev pub as_list : Option Statement → List Statement
as_list none = []
as_list (some s) = s ∷ []

module _ {q : Sqlite} where
  -- `eT`
  abbrev pub compile_from : List ℕ → ℕ → SqlTask q Compiled
  compile_from bs j d = let r = q.compile bs j d.world in (record d { world = r.0 }, returned r.1)

  -- `new A.dn`, pushed on the list `l`.
  abbrev pub push_statement : ℕ → List Statement → SqlTask q (List Statement)
  push_statement p ss d = let r = new_statement p d in (r.0, returned (r.1 ∷ ss))

  -- `k.$0()`, and what is thrown then.
  abbrev pub throw_after : {A : Type 0} → List Statement → SqlTask q A → SqlTask q A
  throw_after ss m d = m (dispose_all ss d)

  -- Where `l.length===c` holds the loop is left.
  abbrev pub take_statement :
      Option ℕ → ℕ → SqlTask q (Option Statement × ℕ) → SqlTask q (Option Statement × ℕ)
  take_statement none g next = next
  take_statement (some p) g next = λ d. let r = new_statement p d in (r.0, returned (some r.1, g))

  -- The body of the second loop, once SQLite has answered.
  abbrev pub refuse_statement : Option ℕ → ℕ → List Statement → SqlTask q Unit → SqlTask q Unit
  refuse_statement (some p) code ss next =
      push_statement p ss >>= (λ ts. throw_after ts (fail argument_fault))
  refuse_statement none code ss next =
      if not (code == 0) then throw_after ss (fail argument_fault) else next

  -- The first loop of `iY`, where one statement is wanted: it and where it ends, or the end of the
  -- text. The list `l` has it alone, or is empty.
  unfoldable pub first_statement : ℕ → List ℕ → ℕ → SqlTask q (Option Statement × ℕ)
  unfolding new_statement
  first_statement zero bs j = fail endless
  first_statement (suc fuel) bs j =
      let rest = compile_from bs j >>= (λ c.
        if not (c.code == 0)
        then throw_code c.code
        else take_statement c.statement c.tail (first_statement fuel bs c.tail)) in
      if ltb j (length bs) then rest else pure (none, j)

  -- The second loop: nothing but spaces and comments may follow.
  unfoldable pub check_rest : ℕ → List ℕ → ℕ → List Statement → SqlTask q Unit
  unfolding new_statement dispose_all
  check_rest zero bs j ss = fail endless
  check_rest (suc fuel) bs j ss =
      let rest =
        compile_from bs j
        >>= (λ c. refuse_statement c.statement c.code ss (check_rest fuel bs c.tail ss)) in
      if ltb j (length bs) then rest else pure tt

  -- `iY` for one statement and nothing behind it. Each call of SQLite reads at least a byte, but at a
  -- byte zero, where the loops do not end.
  unfoldable pub prepare_one : String → SqlTask q (Option Statement)
  unfolding first_statement check_rest
  prepare_one a d =
      if d.shut
      then fail closed_fault d
      else (let bs = q.to_bytes a in
          let fuel = suc (length bs) in
          (first_statement fuel bs 0
              >>= (λ r. check_rest fuel bs r.1 (as_list r.0) >>= (λ u. pure r.0)))
            d)

  -- `B.c.gF(s)`, or the exception for an empty list.
  abbrev pub only_statement : Option Statement → SqlTask q Statement
  only_statement none = fail argument_fault
  only_statement (some s) = pure s

  -- `d5`
  unfoldable pub prepare : String → SqlTask q Statement
  unfolding prepare_one
  prepare a = prepare_one a >>= only_statement
