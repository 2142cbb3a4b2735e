-- ===== src/IndexedDb/Mirror/Ending.antt =====
-- The end of an operation of the database worker's queue (mobile/web/drift_worker.dart.js, `A.ko`),
-- and the stored files.
use bojairu.Prelude.{◌≡◌, some, [], ◌∷◌, ◌++◌}
use bojairu.IndexedDb.Queue.{Op, finish}
use bojairu.IndexedDb.Queue.Order.{Store, Same, Does, Runs}
use bojairu.IndexedDb.Queue.Turns.{work, finish_lem}
use bojairu.IndexedDb.Mirror.{Task, IndexedFs}
use bojairu.IndexedDb.Mirror.Follows.{persisted, Follows, split_queue}

module _ (effect : Task → Store → Store → Type 0) where
  -- When the running operation of a file system whose queue leads from the stored files to those in
  -- memory has changed the stored files as it does, what is left of the queue leads from these to
  -- the files in memory.
  pub finish-Follows :
      (stored : Store) (fs : IndexedFs) (o : Op Task)
      → Follows effect stored fs
      → fs.worker.running ≡ some o
      → (from stored' : Store) × Same stored from
        × Does effect o from stored'
        × Follows effect stored' (record fs { worker = finish fs.worker })
  unfolding persisted
  finish-Follows stored fs o f e =
      let (busy, parts) = finish_lem fs.worker o e in
      let whole : Runs effect (work (finish fs.worker) ++ (o ∷ [])) stored (persisted fs) =
        rw (← parts) f.queued in
      let (u, (from, same, does), rest) =
        split_queue effect (work (finish fs.worker)) (o ∷ []) stored (persisted fs) whole in
      (from, u, same, does, record { sound = f.sound; busy = busy; kept = f.kept; queued = rest })
