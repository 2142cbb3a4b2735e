-- ===== src/Server.antt =====
-- The database server of mobile/web/drift_worker.dart.js, `A.kS`: its requests. The database and the
-- executors of its transactions are a parameter.
mod Examples
pub mod Laws
use Prim.Native.String.{String}
use bojairu.Prelude.{
  ℕ, ◌+◌, Bool, true, false, Option, none, some, List, [], ◌∷◌, if◌then◌else◌, ◌==◌, map,
}
use bojairu.Prelude.Int.{ℤ, pos, negsuc}
use bojairu.Protocol.{
  BatchArgs, Control, begin_transaction, commit, rollback, start_exclusive, end_exclusive, Request,
  terminate_all, execute_query, execute_batched, run_transaction, ensure_open, server_info,
  run_before_open, tables_updated, cancel_request, Response, primitive_bool, primitive_int,
  select_result, Row, StatementMethod, custom, delete_or_update, insert_method, select, Value,
  TableUpdate, Wire,
}
use bojairu.Channel.{Channel, tell}
use bojairu.Executors.{Executors, put_executor, release, has_turn, find_executor}

-- What a call gives, or the exception that it throws.
pub data Completion (E A : Type 0) : Type 0 where
  returned : A → Completion E A
  thrown : E → Completion E A

-- The executors of Drift: the database and its transactions, over a state of the database.
pub record Backend : Type 1 where
  pub World : Type 0
  pub Executor : Type 0
  pub Error : Type 0
  pub database : Executor
  -- `t.w.b(l)`
  pub is_transaction : Executor → Bool
  -- `cO` and `cN`
  pub begin : Executor → World → World × Executor
  pub begin_exclusive : Executor → World → World × Executor
  -- `ao` with the schema's version, for a client
  pub open_executor : Executor → ℕ → ℤ → World → World × Completion Error Bool
  -- `a7`, `cb`, `aw`, `ab` and `av`
  pub run_custom : Executor → String → List Value → World → World × Completion Error Unit
  pub run_update : Executor → String → List Value → World → World × Completion Error ℤ
  pub run_insert : Executor → String → List Value → World → World × Completion Error ℤ
  pub run_select : Executor → String → List Value → World → World × Completion Error (List Row)
  pub run_batch : Executor → List Wire → List BatchArgs → World → World × Completion Error Unit
  -- `bf`, `bC` and `n`
  pub commit_executor : Executor → World → World × Completion Error Unit
  pub roll_back_executor : Executor → World → World × Completion Error Unit
  pub close_executor : Executor → World → World × Completion Error Unit

-- The exceptions: of the database, and the server's own. `missing` is that of a `null`.
pub data Fault (E : Type 0) : Type 0 where
  of_database : E → Fault E
  missing : Fault E
  remote_shutdown : Fault E
  no_transaction : Fault E

-- `A.kS`: the fields `e`, `d` and `w`, the field `f`, and the database.
pub record Server (b : Backend) : Type 0 where
  pub executors : Executors b.Executor
  pub version : ℤ
  pub world : b.World

-- The server after a request, and its answer.
abbrev pub Served : Backend → Type 0
Served b = Server b × Completion (Fault b.Error) (Option Response)

module _ {b : Backend} where
  -- The end of a call of the database.
  abbrev pub ended :
      {A : Type 0}
      → Server b
      → b.World × Completion b.Error A
      → (Server b → A → Served b)
      → Served b
  ended s (w, returned a) f = f (record s { world = w }) a
  ended s (w, thrown e) f = (record s { world = w }, thrown (of_database e))

  -- `aC`, once it is the request's turn.
  abbrev pub with_found : Server b → Option (Option b.Executor) → (b.Executor → Served b) → Served b
  with_found s none f = (s, thrown missing)
  with_found s (some none) f = f b.database
  with_found s (some (some x)) f = f x

  abbrev pub with_executor : Server b → Option ℤ → (b.Executor → Served b) → Served b
  with_executor s none f = f b.database
  with_executor s (some (negsuc n)) f = (s, thrown missing)
  with_executor s (some (pos n)) f = with_found s (find_executor s.executors (some n)) f

  -- `bJ`
  unfoldable pub open_database : ℕ → ℤ → Option ℤ → Server b → Served b
  open_database client v id s = with_executor s id (λ x.
      ended (record s { version = v }) (b.open_executor x client v s.world)
        (λ r c. (r, returned (some (primitive_bool c)))))

  -- The end of `bT` and `bS`: the new executor is opened and gets an id.
  unfoldable pub begin_with : ℕ → Server b → b.World × b.Executor → Served b
  begin_with client s (w, x) = ended s (b.open_executor x client s.version w) (λ r c. (
    record r { executors = put_executor r.executors x },
    returned (some (primitive_int (pos (r.executors).next_id))),
  ))

  -- `c.toString(); m.cB(c)`
  unfoldable pub release_id : Option ℤ → Server b → Served b
  release_id none s = (s, thrown missing)
  release_id (some (negsuc n)) s = (s, returned none)
  release_id (some (pos n)) s = (record s { executors = release s.executors n }, returned none)

  -- `finally`: the transaction is released, and what was thrown is thrown on.
  unfoldable pub rolled_back : Option ℤ → Server b → b.World × Completion b.Error Unit → Served b
  unfolding release_id
  rolled_back id s (w, returned u) = release_id id (record s { world = w })
  rolled_back none s (w, thrown e) = (record s { world = w }, thrown missing)
  rolled_back (some (negsuc n)) s (w, thrown e) = (record s { world = w }, thrown (of_database e))
  rolled_back (some (pos n)) s (w, thrown e) =
      (record s { world = w; executors = release s.executors n }, thrown (of_database e))

  -- The controls that end a transaction, with its executor.
  unfoldable pub control_transaction : Control → Option ℤ → b.Executor → Server b → Served b
  unfolding release_id rolled_back
  control_transaction commit id x s = ended s (b.commit_executor x s.world) (λ r u. release_id id r)
  control_transaction rollback id x s = rolled_back id s (b.roll_back_executor x s.world)
  control_transaction c id x s = (s, returned none)

  -- `aE`
  unfoldable pub control : ℕ → Control → Option ℤ → Server b → Served b
  unfolding begin_with control_transaction
  control client begin_transaction id s =
      with_executor s id (λ x. begin_with client s (b.begin x s.world))
  control client start_exclusive id s =
      with_executor s id (λ x. begin_with client s (b.begin_exclusive x s.world))
  control client end_exclusive id s =
      with_executor s id (λ x. ended s (b.close_executor x s.world) (λ r u. release_id id r))
  control client c id s =
      with_executor s id (λ x.
        if b.is_transaction x then control_transaction c id x s else (s, thrown no_transaction))

  -- `aD`, for a method that exists.
  unfoldable pub query : StatementMethod → String → List Value → Option ℤ → Server b → Served b
  query custom sql args id s =
      with_executor s id
        (λ x. ended s (b.run_custom x sql args s.world) (λ r u. (r, returned none)))
  query delete_or_update sql args id s = with_executor s id (λ x.
      ended s (b.run_update x sql args s.world) (λ r n. (r, returned (some (primitive_int n)))))
  query insert_method sql args id s = with_executor s id (λ x.
      ended s (b.run_insert x sql args s.world) (λ r n. (r, returned (some (primitive_int n)))))
  query select sql args id s = with_executor s id (λ x.
      ended s (b.run_select x sql args s.world)
        (λ r rows. (r, returned (some (select_result rows)))))

  -- `bR`
  unfoldable pub batch : List Wire → List BatchArgs → Option ℤ → Server b → Served b
  batch statements args id s =
      with_executor s id
        (λ x. ended s (b.run_batch x statements args s.world) (λ r u. (r, returned none)))

  -- `iC`. What a `c2` cancels is in Cancels.
  unfoldable pub handle_request : ℕ → Request → Server b → Served b
  unfolding open_database query batch control
  handle_request client terminate_all s = (s, thrown remote_shutdown)
  handle_request client (ensure_open v id) s = open_database client v id s
  handle_request client (execute_query none sql args id) s =
      with_executor s id (λ x. (s, thrown missing))
  handle_request client (execute_query (some m) sql args id) s = query m sql args id s
  handle_request client (execute_batched statements args id) s = batch statements args id s
  handle_request client (run_transaction none id) s =
      with_executor s id (λ x. (s, thrown (if b.is_transaction x then missing else no_transaction)))
  handle_request client (run_transaction (some c) id) s = control client c id s
  handle_request client r s = (s, returned none)

-- `k9`: the updates go to every channel but the one they came from, until one of them throws.
unfoldable pub notify :
    {R E : Type 0}
    → ℕ
    → List TableUpdate
    → List (ℕ × Channel Request R E)
    → List (ℕ × Channel Request R E) × Bool
unfolding tell
notify i us [] = ([], true)
notify i us ((j, ch) ∷ cs) =
    let told = tell ch (tables_updated us) in
    let rest = notify i us cs in
    if j == i
    then ((j, ch) ∷ rest.0, rest.1)
    else (if told.1 then ((j, told.0) ∷ rest.0, rest.1) else ((j, told.0) ∷ cs, false))
