-- ===== src/IndexedDb/Mirror/Follows.antt =====
-- The relation between the stored files and those in memory, for `A.d5` of
-- mobile/web/drift_worker.dart.js: the operations that run and wait lead from the ones to the others.
use Prim.Native.String.{String}
use bojairu.Prelude.{◌≡◌, ◌≢◌, refl, true, false, none, some, List, [], ◌∷◌, ◌++◌}
use bojairu.Prelude.Dict.{lookup, string_Eq}
use bojairu.MemoryFs.Laws.{IsSound, file}
use bojairu.IndexedDb.Queue.{Op, Worker, join_queue, submit}
use bojairu.IndexedDb.Queue.Order.{Store, Does, Runs}
use bojairu.IndexedDb.Queue.Dropping.{Runs-Same}
use bojairu.IndexedDb.Queue.Joining.{join_queue_refines}
use bojairu.IndexedDb.Queue.Turns.{IsBusy, doing, work, submit_lem}
use bojairu.IndexedDb.Mirror.{Task, IndexedFs, is_temporary, submit_to}

-- The files in memory that are meant to be stored.
unfoldable pub persisted : IndexedFs → Store
persisted fs k = elim (lookup k fs.temporary) [ none ↦ file fs.files k | some _ ↦ none ]

module _ (effect : Task → Store → Store → Type 0) where
  pub split_queue :
      (q r : List (Op Task)) (s t : Store)
      → Runs effect (q ++ r) s t
      → (u : Store) × Runs effect r s u × Runs effect q u t
  split_queue [] r s t runs = (t, runs, λ k. refl)
  split_queue (o ∷ q) r s t (v, before, does) =
      let (u, first, rest) = split_queue q r s v before in (u, first, (v, rest, does))

  append_queues :
      (q r : List (Op Task)) (s u t : Store)
      → Runs effect r s u
      → Runs effect q u t
      → Runs effect (q ++ r) s t
  append_queues [] r s u t first same = Runs-Same effect r s u t first same
  append_queues (o ∷ q) r s u t first (v, rest, does) =
      (v, append_queues q r s u v first rest, does)

  -- A submitted operation is done after all others.
  submit-Runs :
      (w : Worker Task) (o : Op Task) (s u t : Store)
      → w.closed ≡ false
      → IsBusy w
      → Runs effect (work w) s u
      → Does effect o u t
      → (w' : Worker Task) × (submit w o ≡ some w') × IsBusy w' × Runs effect (work w') s t
  submit-Runs w o s u t open_ busy runs does =
      let (w', done, busy', same) = (submit_lem w o busy).1 open_ in
      let (x, first, rest) = split_queue w.pending (doing w.running) s u runs in
      let joined = join_queue_refines effect o w.pending x t (u, rest, does) in
      (
        w',
        done,
        busy',
        rw same (append_queues ((join_queue o w.pending).0) (doing w.running) s x t first joined),
      )

  -- The file system is sound, operations wait only while one runs, the temporary files exist in
  -- memory, and what runs and waits leads from the stored files to those in memory.
  pub record Follows (stored : Store) (fs : IndexedFs) : Type 0 where
    pub sound : IsSound fs.files
    pub busy : IsBusy fs.worker
    pub kept : (k : String) → is_temporary fs k ≡ true → file fs.files k ≢ none
    pub queued : Runs effect (work fs.worker) stored (persisted fs)

  pub submit_to-Follows :
      (stored : Store) (fs : IndexedFs) (o : Op Task) (u : Store)
      → fs.worker.closed ≡ false
      → IsSound fs.files
      → IsBusy fs.worker
      → ((k : String) → is_temporary fs k ≡ true → file fs.files k ≢ none)
      → Runs effect (work fs.worker) stored u
      → Does effect o u (persisted fs)
      → (fs' : IndexedFs) × (submit_to fs o ≡ some fs')
        × Follows stored fs'
        × (fs'.files ≡ fs.files)
  unfolding submit_to persisted
  submit_to-Follows stored fs o u open_ sound busy kept runs does =
      let (w', done, busy', runs') =
        submit-Runs fs.worker o stored u (persisted fs) open_ busy runs does in
      (
        record fs { worker = w' },
        rw (done, submit_to) refl,
        record { sound = sound; busy = busy'; kept = kept; queued = runs' },
        refl,
      )
