-- ===== src/Server/Examples.antt =====
-- Runs of the database server of mobile/web/drift_worker.dart.js, over a database that refuses every
-- rollback and counts its calls.
use bojairu.Prelude.{ℕ, zero, suc, ◌≡◌, refl, true, false, none, some, []}
use bojairu.Prelude.Dict.{lookup, insert, nat_Eq}
use bojairu.Prelude.Int.{pos}
use bojairu.Protocol.{primitive_int, begin_transaction, commit, rollback, Request}
use bojairu.Channel.{Channel, new_channel}
use bojairu.Executors.{no_executors, put_executor, has_turn, find_executor}
use bojairu.Executors.Ending.{IsOver}
use bojairu.Server.{Backend, Server, returned, thrown, control}
use bojairu.Server.Laws.{IsCommitted, control_lem, control-control}

-- The executor 0 is the database, the others are transactions.
abbrev stubborn : Backend
stubborn = record {
  World = ℕ;
  Executor = ℕ;
  Error = ℕ;
  database = 0;
  is_transaction = λ x. elim x [ zero ↦ false | suc n ↦ true ];
  begin = λ x w. (suc w, suc w);
  begin_exclusive = λ x w. (suc w, suc w);
  open_executor = λ x c v w. (suc w, returned true);
  run_custom = λ x q a w. (suc w, returned tt);
  run_update = λ x q a w. (suc w, returned (pos 1));
  run_insert = λ x q a w. (suc w, returned (pos 1));
  run_select = λ x q a w. (suc w, returned []);
  run_batch = λ x q a w. (suc w, returned tt);
  commit_executor = λ x w. (suc w, returned tt);
  roll_back_executor = λ x w. (suc w, thrown 5);
  close_executor = λ x w. (suc w, returned tt);
}

abbrev idle_server : Server stubborn
idle_server = record { executors = no_executors; version = pos 1; world = 0 }

abbrev busy_server : Server stubborn
busy_server = record { executors = put_executor no_executors 1; version = pos 1; world = 2 }

control_lem_example :
    IsOver busy_server.executors 0 (control 9 rollback (some (pos 0)) busy_server).0.executors
    × IsCommitted busy_server 0 (control 9 commit (some (pos 0)) busy_server)
unfolding find_executor has_turn put_executor insert lookup
control_lem_example = control_lem 9 0 busy_server 1 refl refl refl

control-control_example :
    ((control 9 begin_transaction none idle_server).1 ≡ returned (some (primitive_int (pos 0))))
    × ((control 9 rollback
          (some (pos 0))
          (control 9 begin_transaction none idle_server).0).0.executors.stack
        ≡ [])
control-control_example = control-control 9 idle_server true refl refl

abbrev fresh : Channel Request ℕ ℕ
fresh = new_channel
