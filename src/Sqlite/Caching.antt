-- ===== src/Sqlite/Caching.antt =====
-- How the delegate `A.iS` of mobile/web/drift_worker.dart.js runs SQL texts (`A.cA`): the last 64
-- prepared statements are kept.
use Prim.Native.String.{String}
use bojairu.Prelude.{
  zero, suc, Bool, true, false, Option, none, some, List, [], ◌∷◌, ◌++◌, if◌then◌else◌, ◌==◌,
  length, map,
}
use bojairu.Prelude.Dict.{lookup, insert, remove, string_Eq}
use bojairu.Prelude.Int.{ℤ, pos, negsuc}
use bojairu.Protocol.{Value, BatchArgs}
use bojairu.Server.{Completion, returned, thrown}
use bojairu.Sqlite.{
  Sqlite, SqlFault, closed_fault, range_fault, Statement, Delegate, SqlTask, ◌>>=◌, pure, fail,
  finally, call_sqlite, check_code, dispose, dispose_all,
}
use bojairu.Sqlite.Statements.{execute, select_rows}
use bojairu.Sqlite.Compiling.{prepare}

-- `J.aJ(i, r.a)`
abbrev pub at_index : List Statement → ℤ → Option Statement
at_index ss (negsuc n) = none
at_index [] (pos n) = none
at_index (s ∷ ss) (pos zero) = some s
at_index (s ∷ ss) (pos (suc n)) = at_index ss (pos n)

module _ {q : Sqlite} where
  -- The first of 64 kept statements is given up.
  unfoldable pub make_room : List (String × Statement) → Delegate q → Delegate q
  unfolding dispose
  make_room [] d = d
  make_room ((a, s) ∷ m) d =
      if length ((a, s) ∷ m) == 64 then dispose s (record d { kept = m }) else d

  -- A statement that explains is not kept; otherwise it is kept as the last.
  unfoldable pub keep_statement : String → Statement → SqlTask q (Statement × Bool)
  unfolding make_room insert
  keep_statement a s d =
      if q.is_explain d.world s.raw == 0
      then (let e = make_room d.kept d in
          (record e { kept = insert a s e.kept }, returned (s, q.is_explain e.world s.raw == 0)))
      else (d, returned (s, q.is_explain d.world s.raw == 0))

  -- A kept statement becomes the last one.
  abbrev pub take_or_prepare : Option Statement → String → SqlTask q (Statement × Bool)
  take_or_prepare none a = prepare a >>= keep_statement a
  take_or_prepare (some s) a =
      λ d. (record d { kept = insert a s (remove a d.kept) }, returned (s, true))

  -- `fi`: the statement of a text, and whether it is kept.
  unfoldable pub find_statement : String → SqlTask q (Statement × Bool)
  unfolding lookup insert remove prepare keep_statement
  find_statement a d = take_or_prepare (lookup a d.kept) a d

  abbrev pub dispose_unless : Bool → Statement → Delegate q → Delegate q
  dispose_unless true s d = d
  dispose_unless false s d = dispose s d

  -- `h4`, without arguments.
  unfoldable pub run_script : String → SqlTask q Unit
  run_script a d =
      if d.shut then fail closed_fault d else (call_sqlite (q.execute_script a) >>= check_code) d

  -- `l6`
  unfoldable pub run_sql : String → List Value → SqlTask q Unit
  unfolding run_script find_statement execute
  run_sql a [] = run_script a
  run_sql a (v ∷ vs) =
      find_statement a >>= (λ r. finally (execute r.0 (v ∷ vs)) (dispose_unless r.1 r.0))

  -- `l3`
  unfoldable pub select_sql : String → List Value → SqlTask q (List (List Value))
  unfolding find_statement select_rows
  select_sql a vs =
      find_statement a >>= (λ r. finally (select_rows r.0 vs) (dispose_unless r.1 r.0))

  abbrev pub execute_at : Option Statement → List Value → SqlTask q Unit
  execute_at none vs = fail range_fault
  execute_at (some s) vs = execute s vs

  -- The second loop of `kZ`.
  unfoldable pub execute_each : List Statement → List BatchArgs → SqlTask q Unit
  unfolding execute
  execute_each ss [] = pure tt
  execute_each ss (r ∷ rs) =
      execute_at (at_index ss r.statement) r.args >>= (λ u. execute_each ss rs)

  -- The statements so far are disposed of when one more cannot be prepared.
  unfoldable pub or_dispose :
      List Statement
      → Delegate q × Completion (SqlFault q.Error) Statement
      → (Statement → SqlTask q Unit)
      → Delegate q × Completion (SqlFault q.Error) Unit
  unfolding dispose_all
  or_dispose done (d, thrown e) f = (dispose_all done d, thrown e)
  or_dispose done (d, returned s) f = f s d

  -- `kZ`: `done` are the statements that are prepared; all are disposed of in the end.
  unfoldable pub run_statements : List String → List Statement → List BatchArgs → SqlTask q Unit
  unfolding prepare execute_each dispose_all or_dispose
  run_statements [] done rs = finally (execute_each done rs) (dispose_all done)
  run_statements (a ∷ texts) done rs =
      λ d. or_dispose done (prepare a d) (λ s. run_statements texts (done ++ (s ∷ [])) rs)

  -- `kq`
  unfoldable pub forget_all : Delegate q → Delegate q
  unfolding dispose_all
  forget_all d = record (dispose_all (map (λ e. e.1) d.kept) d) { kept = [] }

  -- `n` of `A.h_`
  unfoldable pub shut_database : SqlTask q Unit
  shut_database d =
      if d.shut
      then pure tt d
      else (call_sqlite q.close_connection >>= check_code) (record d { shut = true })

  -- `n` of `A.iS`
  unfoldable pub close_delegate : SqlTask q Unit
  unfolding forget_all shut_database
  close_delegate d = shut_database (forget_all d)

  -- `A.iS` with a database that was just opened.
  abbrev pub opened_delegate : q.World → Delegate q
  opened_delegate w = record {
    world = w;
    next = 0;
    flags = λ i. record { closed = false; fresh = true };
    kept = [];
    shut = false;
  }

-- `a7` and the other ways to `l6`, `ab` and `av`.
pub data SqlCommand : Type 0 where
  run_text : String → List Value → SqlCommand
  select_text : String → List Value → SqlCommand
  run_texts : List String → List BatchArgs → SqlCommand

module _ {q : Sqlite} where
  unfoldable pub perform : SqlCommand → SqlTask q Unit
  unfolding run_sql select_sql run_statements
  perform (run_text a vs) = run_sql a vs
  perform (select_text a vs) = select_sql a vs >>= (λ rows. pure tt)
  perform (run_texts texts rs) = run_statements texts [] rs

  -- The delegate after commands, whatever came of each.
  unfoldable pub perform_all : List SqlCommand → Delegate q → Delegate q
  unfolding perform
  perform_all [] d = d
  perform_all (c ∷ cs) d = perform_all cs (perform c d).0
