-- ===== src/IndexedDb/Disk/Writing.antt =====
-- What the queued operations of mobile/web/drift_worker.dart.js that write to a file do to the stored
-- files, and what all of them do.
use Prim.Native.String.{String}
use mathlib.Core.Path.{subst}
use bojairu.Prelude.{length, ◌≤◌, ℕ, ◌≡◌, refl, sym, ◌∙◌, Option, some, List, arith, inl}
use bojairu.Prelude.Dict.{nat_Eq, string_Eq}
use bojairu.IndexedDb.{new_request, add_writes}
use bojairu.IndexedDb.Storage.{truncate_file, Database, FileRecord}
use bojairu.IndexedDb.Loading.{Holds}
use bojairu.IndexedDb.Writes.{write_all_at}
use bojairu.IndexedDb.Saving.{save_lem}
use bojairu.IndexedDb.Truncation.{truncate_file_grow}
use bojairu.Bytes.Flat.{resize}
use bojairu.IndexedDb.Mirror.{Task, set_file_length, close_database}
use bojairu.IndexedDb.Queue.{Op, task, delete_file, create_file as creation, write_file}
use bojairu.IndexedDb.Queue.Order.{Same, Does, Store, Change, Writes}
use bojairu.IndexedDb.Disk.{run_task, run_op, Names, Disk, run_create, run_write}
use bojairu.IndexedDb.Disk.Naming.{
  SameNames-refl, update_file-SameNames, name_of, write_back-SameNames,
}
use bojairu.IndexedDb.Disk.Keeping.{Keeps, Changed, Changed-Keeps}
use bojairu.IndexedDb.Disk.Effects.{file_id_lem, run_delete_lem, run_create_lem}

-- What a queued function does to the stored files, where it is right about them: a file is extended by
-- zeros; the end of the connection changes nothing.
abbrev pub Grows : ℕ → Option (List ℕ) → Option (List ℕ) → Type 0
Grows c a b = (f : List ℕ) × (a ≡ some f) × (length f ≤ c) × (b ≡ some (resize f c))

abbrev pub Extends : Task → Store → Store → Type 0
Extends (set_file_length p c) s t = Change p (Grows c) s t
Extends close_database s t = Same s t

module _ (d : Database) (n : Names d) where
  -- `A.cR.U`: a stored file is written.
  pub run_write_lem :
      (t : Disk d n) (s u : Store) (p : String) (y : List ℕ) (z : List (ℕ × List ℕ))
      → Keeps d n t s
      → Change p (Writes y z) s u
      → (t' : Disk d n) × (run_write d n t p y z ≡ some t') × Keeps d n t' u
  run_write_lem t s u p y z v does =
      let (i, key, held) = v.present p y ((does.0).0) in
      let (ids, found, known) = file_id_lem d n t s p i v key in
      let (db', done, held', others) = save_lem d t.db i y z held in
      let names = write_back-SameNames d n t.db db' i (add_writes (new_request y) z) done in
      let t' : Disk d n = record { ids = ids; db = db' } in
      let c : Changed d n t.db db' p i = record {
        keys = λ q m. names.keys q;
        files = λ j m. others.0 j (λ e. m (sym e));
        blocks = λ j k m. others.1 j k (λ e. m (sym e));
        next = omega (arith, names.next);
        whose = inl (v.named p i key);
        here = λ j e. names.names j ∙ v.named p j (sym (names.keys p) ∙ e);
        live_here = omega (arith, names.next, v.live p i (v.named p i key));
      } in
      (
        t',
        rw (found, run_write) (rw done refl),
        Changed-Keeps d n t t' s u p i v c (does.1) (λ q j h. names.keys q ∙ known q j h)
            (λ f h.
              let same : f ≡ write_all_at y z = ground (arith, h, (does.0).1) in
              (i, names.keys p ∙ key, rw same held'))
            (λ h. absurd (ground (arith, h, (does.0).1))),
      )

  truncate_file-update_file :
      (db : d.Db) (i c : ℕ) (r : FileRecord)
      → d.get_file db i ≡ some r
      → r.file_length ≤ c
      → truncate_file d db i c
        ≡ some (d.update_file db i (record { name = r.name; file_length = c }))
  unfolding truncate_file
  truncate_file-update_file db i c r h w = ground (arith, h, w)

  -- `A.mQ`: a stored file is extended by zeros.
  run_task-Grows :
      (t : Disk d n) (s u : Store) (p : String) (b : ℕ)
      → Keeps d n t s
      → Change p (Grows b) s u
      → (t' : Disk d n) × (run_task d n t (set_file_length p b) ≡ some t') × Keeps d n t' u
  run_task-Grows t s u p b v does =
      let (f, old, enough, new) = does.0 in
      let (i, key, held) = v.present p f old in
      let (ids, found, known) = file_id_lem d n t s p i v key in
      let r : FileRecord = record { name = held.entry.name; file_length = b } in
      let db' = d.update_file t.db i r in
      let done : truncate_file d t.db i b ≡ some db' =
        truncate_file-update_file t.db i b held.entry held.is_there
          (omega (arith, held.len, enough)) in
      let (db₁, done₁, held₁) = truncate_file_grow d t.db i b f held enough in
      let held' : Holds d db' i (resize f b) =
        subst (λ (x : d.Db). Holds d x i (resize f b)) (ground (arith, done, done₁)) held₁ in
      let names =
        update_file-SameNames d n t.db t.db i r (SameNames-refl d n t.db)
          (rw (held.is_there, name_of) refl) in
      let t' : Disk d n = record { ids = ids; db = db' } in
      let c : Changed d n t.db db' p i = record {
        keys = λ q m. names.keys q;
        files = λ j m. ground (arith, d.get_file-update_file t.db i j r, m);
        blocks = λ j k m. d.get_block-update_file t.db i j k r;
        next = omega (arith, names.next);
        whose = inl (v.named p i key);
        here = λ j e. names.names j ∙ v.named p j (sym (names.keys p) ∙ e);
        live_here = omega (arith, names.next, v.live p i (v.named p i key));
      } in
      (
        t',
        rw (found, run_task) (rw done refl),
        Changed-Keeps d n t t' s u p i v c (does.1) (λ q j h. names.keys q ∙ known q j h)
            (λ f' h.
              let same : f' ≡ resize f b = ground (arith, h, new) in
              (i, names.keys p ∙ key, rw same held'))
            (λ h. absurd (ground (arith, h, new))),
      )

  pub Keeps-Same : (t : Disk d n) (s u : Store) → Keeps d n t s → Same s u → Keeps d n t u
  Keeps-Same t s u v same = record {
    present = λ p f e. v.present p f (same p ∙ e);
    absent = λ p e. v.absent p (same p ∙ e);
    named = v.named;
    known = v.known;
    live = v.live;
    live_block = v.live_block;
  }

  run_task_lem :
      (t : Disk d n) (x : Task) (s u : Store)
      → Keeps d n t s
      → Extends x s u
      → (t' : Disk d n) × (run_task d n t x ≡ some t') × Keeps d n t' u
  run_task_lem t (set_file_length p c) s u v does = run_task-Grows t s u p c v does
  run_task_lem t close_database s u v does = (t, refl, Keeps-Same t s u v does)

  -- Where the disk has certain files and the ids that the worker knows are right: a queued creation
  -- of a file that is missing, a deletion of a file that exists, a list of writes to a file with
  -- the content they start from, an extension of a file, or the end of the connection succeeds. The
  -- disk then has the files as that operation changes them, each under its name, and the ids that
  -- the worker knows are right again.
  pub run_op_lem :
      (t : Disk d n) (o : Op Task) (s u : Store)
      → Keeps d n t s
      → Does Extends o s u
      → (t' : Disk d n) × (run_op d n t o ≡ some t') × Keeps d n t' u
  run_op_lem t (task x) s u v (w, does, same) =
      let (t', done, v') = run_task_lem t x s w v does in (t', done, Keeps-Same t' w u v' same)
  run_op_lem t (delete_file p) s u v does = run_delete_lem d n t s u p v does
  run_op_lem t (creation p) s u v does =
      (run_create d n t p, refl, run_create_lem d n t s u p v does)
  run_op_lem t (write_file p y z) s u v does = run_write_lem t s u p y z v does
