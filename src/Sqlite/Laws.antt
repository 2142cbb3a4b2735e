-- ===== src/Sqlite/Laws.antt =====
-- What the delegate of mobile/web/drift_worker.dart.js leaves open after any commands.
use mathlib.Core.Path.{subst}
use Prim.Native.String.{String}
use bojairu.Prelude.{
  ℕ, ◌≤◌, ◌≡◌, refl, sym, Bool, true, false, Option, none, some, List, [], ◌∷◌, ◌++◌, ◌==◌, length,
  arith, if_elim, All,
}
use bojairu.Protocol.{Value, BatchArgs}
use bojairu.Server.{Completion, returned, thrown}
use bojairu.Sqlite.{
  Sqlite, SqlFault, closed_fault, Statement, Delegate, SqlTask, continue, ◌>>=◌, pure, fail,
  finally, call_sqlite, check_code, throw_code, dispose, dispose_all,
}
use bojairu.Sqlite.Statements.{execute, select_rows}
use bojairu.Sqlite.Compiling.{prepare}
use bojairu.Sqlite.Caching.{
  find_statement, dispose_unless, run_script, run_sql, select_sql, at_index, execute_at,
  execute_each, or_dispose, run_statements, forget_all, shut_database, close_delegate,
  opened_delegate, SqlCommand, run_text, select_text, run_texts, perform, perform_all,
}
use bojairu.Sqlite.Owning.{
  SqliteLaws, IsPlain, Owns, Owns-reorder, total, total-append, has_raw, Calm, Calm-Owns, Calm-refl,
}
use bojairu.Sqlite.Running.{
  Quiet, bind-Quiet, chosen-Quiet, checked-Quiet, execute-Quiet, select_rows-Quiet,
}
use bojairu.Sqlite.Preparing.{Leaves, prepare-Leaves, dispose_all-kept, dispose_all-Owns}
use bojairu.Sqlite.Keeping.{statements, Keyed, Holds, IsFound, find_statement-IsFound}

module _ {q : Sqlite} (l : SqliteLaws q) where
  -- Only the kept statements are open afterwards.
  abbrev pub Tidied : {A : Type 0} → Delegate q × Completion (SqlFault q.Error) A → Type 0
  Tidied r = Holds l [] r.0

  Calm-Holds : (ss : List Statement) (d e : Delegate q) → Calm l d e → Holds l ss d → Holds l ss e
  Calm-Holds ss d e c h =
      subst (λ m. Owns l e (ss ++ statements m) × Keyed m × (length m ≤ 64)) (sym c.same_kept)
        (Calm-Owns l d e (ss ++ statements d.kept) c h.0, h.1, h.2)

  dispose_all-Holds :
      (ts : List Statement) (d : Delegate q) → Holds l ts d → Holds l [] (dispose_all ts d)
  dispose_all-Holds ts d h =
      subst (λ m. Owns l (dispose_all ts d) (statements m) × Keyed m × (length m ≤ 64))
        (sym (dispose_all-kept ts d)) (dispose_all-Owns l ts (statements d.kept) d h.0, h.1, h.2)

  dispose-Holds : (s : Statement) (d : Delegate q) → Holds l (s ∷ []) d → Holds l [] (dispose s d)
  unfolding dispose_all
  dispose-Holds s d h = dispose_all-Holds (s ∷ []) d h

  Quiet-Tidied :
      {A : Type 0} (m : SqlTask q A) (d : Delegate q) → Quiet l m → Holds l [] d → Tidied (m d)
  Quiet-Tidied m d k h = Calm-Holds [] d (m d).0 (k d) h

  -- A call with the statement of a text.
  used-Tidied :
      {A : Type 0} (m : Statement → SqlTask q A)
      (r : Delegate q × Completion (SqlFault q.Error) (Statement × Bool))
      → ((s : Statement) → Quiet l (m s))
      → IsFound l r
      → Tidied (continue r (λ p. finally (m p.0) (dispose_unless p.1 p.0)))
  used-Tidied m (e, returned (s, true)) k h = Quiet-Tidied (m s) e (k s) h
  used-Tidied m (e, returned (s, false)) k h =
      dispose-Holds s (m s e).0 (Calm-Holds (s ∷ []) e (m s e).0 (k s e) h)
  used-Tidied m (e, thrown x) k h = h

  run_script-Quiet : (a : String) → Quiet l (run_script {q = q} a)
  unfolding run_script
  run_script-Quiet a d =
      chosen-Quiet l d d.shut (fail closed_fault d)
        ((call_sqlite (q.execute_script a) >>= check_code) d) (λ b. Calm-refl l d)
        (λ b. checked-Quiet l (q.execute_script a) (l.script_live a) d)

  run_sql-Tidied :
      (a : String) (vs : List Value) (d : Delegate q)
      → IsPlain (q.to_bytes a)
      → Holds l [] d
      → Tidied (run_sql a vs d)
  unfolding run_sql
  run_sql-Tidied a [] d z h = Quiet-Tidied (run_script a) d (run_script-Quiet a) h
  run_sql-Tidied a (v ∷ vs) d z h =
      used-Tidied (λ s. execute s (v ∷ vs)) (find_statement a d) (λ s. execute-Quiet l s (v ∷ vs))
        (find_statement-IsFound l a d z h)

  select_sql-Tidied :
      (a : String) (vs : List Value) (d : Delegate q)
      → IsPlain (q.to_bytes a)
      → Holds l [] d
      → Tidied (select_sql a vs d)
  unfolding select_sql
  select_sql-Tidied a vs d z h =
      used-Tidied (λ s. select_rows s vs) (find_statement a d) (λ s. select_rows-Quiet l s vs)
        (find_statement-IsFound l a d z h)

  execute_at-Quiet : (x : Option Statement) (vs : List Value) → Quiet l (execute_at {q = q} x vs)
  execute_at-Quiet none vs = λ d. Calm-refl l d
  execute_at-Quiet (some s) vs = execute-Quiet l s vs

  execute_each-Quiet :
      (ss : List Statement) (rs : List BatchArgs) → Quiet l (execute_each {q = q} ss rs)
  unfolding execute_each
  execute_each-Quiet ss [] = λ d. Calm-refl l d
  execute_each-Quiet ss (r ∷ rs) =
      bind-Quiet l (execute_at (at_index ss r.statement) r.args) (λ u. execute_each ss rs)
        (execute_at-Quiet (at_index ss r.statement) r.args) (λ u. execute_each-Quiet ss rs)

  run_statements-Tidied :
      (texts : List String) (done : List Statement) (rs : List BatchArgs) (d : Delegate q)
      → All (λ a. IsPlain (q.to_bytes a)) texts
      → Holds l done d
      → Tidied (run_statements texts done rs d)
  unfolding run_statements or_dispose
  run_statements-Tidied [] done rs d z h =
      let k = execute_each-Quiet done rs d in
      dispose_all-Holds done (execute_each done rs d).0
        (Calm-Holds done d (execute_each done rs d).0 k h)
  run_statements-Tidied (a ∷ texts) done rs d z h =
      prepared (prepare a d) (λ s e. run_statements-Tidied texts (done ++ (s ∷ [])) rs e z.1)
        (prepare-Leaves l a d (done ++ statements d.kept) h.0)
    where
      back :
          (e : Delegate q) (ss : List Statement)
          → e.kept ≡ d.kept
          → Owns l e (ss ++ statements d.kept)
          → Holds l ss e
      back e ss c o =
          subst (λ m. Owns l e (ss ++ statements m) × Keyed m × (length m ≤ 64)) (sym c)
            (o, h.1, h.2)

      prepared :
          (r : Delegate q × Completion (SqlFault q.Error) Statement)
          → ((s : Statement) (e : Delegate q)
              → Holds l (done ++ (s ∷ [])) e
              → Tidied (run_statements texts (done ++ (s ∷ [])) rs e))
          → Leaves l (IsPlain (q.to_bytes a)) d (done ++ statements d.kept) (λ s. s ∷ []) r
          → Tidied (or_dispose done r (λ s. run_statements texts (done ++ (s ∷ [])) rs))
      prepared (e, returned s) next p = next s e (
          back e (done ++ (s ∷ [])) p.0 (
            Owns-reorder l e (s ∷ (done ++ statements d.kept))
              ((done ++ (s ∷ [])) ++ statements d.kept)
              (λ f. omega (
                arith,
                total-append f done (statements d.kept),
                total-append f (done ++ (s ∷ [])) (statements d.kept),
                total-append f done (s ∷ []),
              ))
              p.1))
      prepared (e, thrown x) next p = dispose_all-Holds done e (back e done p.0 (p.1 z.0))

  -- The texts of a command have no byte zero.
  abbrev pub AllPlain : SqlCommand → Type 0
  AllPlain (run_text a vs) = IsPlain (q.to_bytes a)
  AllPlain (select_text a vs) = IsPlain (q.to_bytes a)
  AllPlain (run_texts texts rs) = All (λ a. IsPlain (q.to_bytes a)) texts

  perform-Tidied :
      (c : SqlCommand) (d : Delegate q) → AllPlain c → Holds l [] d → Tidied (perform c d)
  unfolding perform
  perform-Tidied (run_text a vs) d z h = run_sql-Tidied a vs d z h
  perform-Tidied (select_text a vs) d z h =
      dropped (select_sql a vs d) (select_sql-Tidied a vs d z h)
    where
      dropped :
          (r : Delegate q × Completion (SqlFault q.Error) (List (List Value)))
          → Tidied r
          → Tidied (continue r (λ rows. pure tt))
      dropped (e, returned rows) t = t
      dropped (e, thrown x) t = t
  perform-Tidied (run_texts texts rs) d z h = run_statements-Tidied texts [] rs d z h

  perform_all-Holds :
      (cs : List SqlCommand) (d : Delegate q)
      → All AllPlain cs
      → Holds l [] d
      → Holds l [] (perform_all cs d)
  unfolding perform_all
  perform_all-Holds [] d z h = h
  perform_all-Holds (c ∷ cs) d z h =
      perform_all-Holds cs (perform c d).0 z.1 (perform-Tidied c d z.0 h)

  pub opened_delegate-Holds :
      (w : q.World) → ((p : ℕ) → l.live w p ≡ 0) → Holds l [] (opened_delegate {q = q} w)
  opened_delegate-Holds w h = (
    record {
      counted = h;
      single = λ i. omega arith;
      below = λ i k. refl;
      still_open = λ i k. refl;
    },
    tt,
    omega arith,
  )

  shut_database_lem :
      (d : Delegate q) (p : ℕ) → l.live (shut_database d).0.world p ≤ l.live d.world p
  unfolding shut_database
  shut_database_lem d p =
      if_elim
        (λ (r : Delegate q × Completion (SqlFault q.Error) Unit).
          l.live r.0.world p ≤ l.live d.world p)
        d.shut (pure tt d)
        ((call_sqlite q.close_connection >>= check_code) (record d { shut = true }))
        (λ b. omega arith)
        (λ b.
          let closed : Delegate q = record d {
            world = (q.close_connection d.world).0;
            shut = true;
          } in
          if_elim (λ (m : SqlTask q Unit). l.live (m closed).0.world p ≤ l.live d.world p)
            ((q.close_connection d.world).1 == 0) (pure tt)
            (throw_code (q.close_connection d.world).1) (λ k. l.close_live d.world p)
            (λ k. l.close_live d.world p))

  -- All kept statements are finalized at the end.
  forget_all_lem : (d : Delegate q) (p : ℕ) → Holds l [] d → l.live (forget_all d).world p ≡ 0
  unfolding forget_all
  forget_all_lem d p h =
      (dispose_all-Owns l (statements d.kept) [] d (
          Owns-reorder l d (statements d.kept) (statements d.kept ++ [])
            (λ f. omega (arith, total-append f (statements d.kept) [])) h.0)).counted
        p

  -- Where SQLite has no statement open when the delegate is created: after any texts, queries and
  -- batches whose texts have no byte zero, each of which may have thrown, the statements that
  -- SQLite has open are exactly those that the delegate keeps, and these are at most 64; and
  -- closing the delegate leaves none open.
  pub perform_all_lem :
      (w : q.World) (cs : List SqlCommand) (p : ℕ)
      → All AllPlain cs
      → ((p : ℕ) → l.live w p ≡ 0)
      → (l.live (perform_all cs (opened_delegate {q = q} w)).world p
          ≡ total (has_raw p) (statements (perform_all cs (opened_delegate {q = q} w)).kept))
        × (length (perform_all cs (opened_delegate {q = q} w)).kept ≤ 64)
        × (l.live (close_delegate (perform_all cs (opened_delegate {q = q} w))).0.world p ≡ 0)
  unfolding close_delegate
  perform_all_lem w cs p z h =
      let d : Delegate q = perform_all cs (opened_delegate w) in
      let k : Holds l [] d =
        perform_all-Holds cs (opened_delegate w) z (opened_delegate-Holds w h) in
      (
        (k.0).counted p,
        k.2,
        omega (arith, shut_database_lem (forget_all d) p, forget_all_lem d p k),
      )
