-- ===== src/IndexedDb/Disk.antt =====
-- The files of `A.d5` of mobile/web/drift_worker.dart.js on the disk: the names of the stored files
-- (`A.fP.d1` and `cV`), their ids (`bn`), what the queued operations do to the database (`U`), and the
-- start of a worker (`bO`).
pub mod Naming
pub mod Keeping
pub mod Effects
pub mod Writing
pub mod Loaded
pub mod Restart
mod Examples
use Prim.Native.String.{String}
use bojairu.Prelude.{
  ℕ, zero, suc, ◌≡◌, false, Option, none, some, List, [], ◌∷◌, ltb, ◌==◌, if◌then◌else◌, length,
}
use bojairu.Prelude.Dict.{lookup, insert, remove, string_Eq}
use bojairu.Bytes.Buffer.{Buffer, empty_buffer, set_length, set_range_in}
use bojairu.MemoryFs.{Files}
use bojairu.IndexedDb.{new_request, add_writes}
use bojairu.IndexedDb.Storage.{
  Database, FileRecord, Distinct, write_back, read_file, truncate_file, create_file, drop_file,
}
use bojairu.IndexedDb.Queue.{
  Op, task, delete_file, create_file as creation, write_file, Worker, finish,
}
use bojairu.IndexedDb.Mirror.{Task, set_file_length, close_database, IndexedFs}

-- The key generator of the object store "files" and its unique index "fileName".
pub record Names (d : Database) : Type 0 where
  -- the next id
  pub next_id : d.Db → ℕ
  -- `index.getKey(name)`
  pub key_of : d.Db → String → Option ℕ
  -- what `index.openKeyCursor()` goes through
  pub name_keys : d.Db → List (String × ℕ)
  pub lookup-name_keys : (db : d.Db) (p : String) → lookup p (name_keys db) ≡ key_of db p
  pub name_keys-Distinct : (db : d.Db) → Distinct (name_keys db)
  pub next_id-put_block :
      (db : d.Db) (f k : ℕ) (s : List ℕ) → next_id (d.put_block db f k s) ≡ next_id db
  pub key_of-put_block :
      (db : d.Db) (f k : ℕ) (s : List ℕ) (p : String)
      → key_of (d.put_block db f k s) p ≡ key_of db p
  pub next_id-update_file :
      (db : d.Db) (f : ℕ) (r : FileRecord) → next_id (d.update_file db f r) ≡ next_id db
  pub key_of-update_file :
      (db : d.Db) (f : ℕ) (r r' : FileRecord) (p : String)
      → d.get_file db f ≡ some r'
      → r'.name ≡ r.name
      → key_of (d.update_file db f r) p ≡ key_of db p
  pub next_id-delete_blocks :
      (db : d.Db) (f lo hi : ℕ) → next_id (d.delete_blocks db f lo hi) ≡ next_id db
  pub key_of-delete_blocks :
      (db : d.Db) (f lo hi : ℕ) (p : String) → key_of (d.delete_blocks db f lo hi) p ≡ key_of db p
  pub next_id-delete_file : (db : d.Db) (f : ℕ) → next_id (d.delete_file db f) ≡ next_id db
  pub key_of-delete_file :
      (db : d.Db) (f : ℕ) (r : FileRecord) (p : String)
      → d.get_file db f ≡ some r
      → key_of (d.delete_file db f) p ≡ (if string_Eq.beq r.name p then none else key_of db p)
  pub get_file-delete_file :
      (db : d.Db) (f g : ℕ)
      → d.get_file (d.delete_file db f) g ≡ (if f == g then none else d.get_file db g)
  pub get_block-delete_file :
      (db : d.Db) (f g k : ℕ) → d.get_block (d.delete_file db f) g k ≡ d.get_block db g k
  pub add_file-next_id : (db : d.Db) (r : FileRecord) → (d.add_file db r).1 ≡ next_id db
  pub next_id-add_file :
      (db : d.Db) (r : FileRecord)
      → key_of db r.name ≡ none
      → next_id ((d.add_file db r).0) ≡ suc (next_id db)
  pub key_of-add_file :
      (db : d.Db) (r : FileRecord) (p : String)
      → key_of db r.name ≡ none
      → key_of ((d.add_file db r).0) p
        ≡ (if string_Eq.beq r.name p then some (next_id db) else key_of db p)
  pub get_file-add_file :
      (db : d.Db) (r : FileRecord) (g : ℕ)
      → key_of db r.name ≡ none
      → d.get_file ((d.add_file db r).0) g ≡ (if next_id db == g then some r else d.get_file db g)
  pub get_block-add_file :
      (db : d.Db) (r : FileRecord) (g k : ℕ)
      → key_of db r.name ≡ none
      → d.get_block ((d.add_file db r).0) g k ≡ d.get_block db g k

-- `l.t(name,id)` for each entry of a list.
unfoldable pub put_all {ℓ} :
    {V : Type ℓ} → List (String × V) → List (String × V) → List (String × V)
put_all m [] = m
put_all m ((p, i) ∷ r) = put_all (insert p i m) r

-- The buffer that `bO` copies a file's bytes into; `none` is a thrown error.
unfoldable pub loaded_buffer : List ℕ → Option Buffer
unfolding set_length set_range_in
loaded_buffer j = set_range_in (set_length empty_buffer (length j)) 0 (length j) j 0

-- The file system of a worker that has started with these files in memory.
abbrev pub started_with : Files → IndexedFs
started_with files = record {
  files = files;
  temporary = [];
  worker = record { closed = false; running = none; pending = [] };
}

module _ (d : Database) (n : Names d) where
  -- The ids that the worker has looked up (the field `y`), and the database.
  pub record Disk : Type 0 where
    pub ids : List (String × ℕ)
    pub db : d.Db

  -- `bn`: the id of a file; `none` is the error of a name that is not stored.
  unfoldable pub file_id : Disk → String → Option (ℕ × Disk)
  file_id t a = elim (lookup a t.ids) [
    | some i ↦ some (i, t)
    | none ↦ elim (n.key_of t.db a) [
      | none ↦ none
      | some o ↦ some (o, record t { ids = insert a o t.ids })
    ]
  ]

  -- `A.dz.U`
  abbrev pub run_delete : Disk → String → Option Disk
  run_delete t o = elim (file_id t o) [
    | none ↦ none
    | some (i, t') ↦ some (record { ids = remove o t'.ids; db = drop_file d t'.db i })
  ]

  -- `A.cH.U`
  abbrev pub run_create : Disk → String → Disk
  run_create t o = let (db, b) = create_file d t.db o in record { ids = insert o b t.ids; db = db }

  -- `A.cR.U`
  abbrev pub run_write : Disk → String → List ℕ → List (ℕ × List ℕ) → Option Disk
  run_write t x y z =
      let l = add_writes (new_request y) z in
      elim (file_id t x) [
        | none ↦ none
        | some (b, t') ↦ elim (write_back d t'.db b l) [
          | none ↦ none
          | some db ↦ some (record t' { db = db })
        ]
      ]

  -- `A.mQ` and `A.fP.n`, which `A.dB.U` runs. The end of the connection leaves the files as they are.
  abbrev pub run_task : Disk → Task → Option Disk
  run_task t (set_file_length c b) = elim (file_id t c) [
    | none ↦ none
    | some (i, t') ↦ elim (truncate_file d t'.db i b) [
      | none ↦ none
      | some db ↦ some (record t' { db = db })
    ]
  ]
  run_task t close_database = some t

  -- `U`; `none` is an error.
  abbrev pub run_op : Disk → Op Task → Option Disk
  run_op t (task x) = run_task t x
  run_op t (delete_file o) = run_delete t o
  run_op t (creation o) = some (run_create t o)
  run_op t (write_file x y z) = run_write t x y z

  -- `fH` and `A.ko` one after the other: a number of operations are run, one at a time. `none` is the
  -- error of one of them, after which the code would go on with the next.
  unfoldable pub work_off : ℕ → Disk → Worker Task → Option (Disk × Worker Task)
  unfolding file_id finish
  work_off zero t w = some (t, w)
  work_off (suc fuel) t w = elim w.running [
    | none ↦ some (t, w)
    | some o ↦ elim (run_op t o) [ none ↦ none | some t' ↦ work_off fuel t' (finish w) ]
  ]

  -- The loop of `bO`: each stored file is loaded into memory. `none` is an error.
  unfoldable pub load_each : d.Db → List (String × ℕ) → Files → Option Files
  unfolding loaded_buffer
  load_each db [] o = some o
  load_each db ((m, l) ∷ g) o = elim (read_file d db l) [
    | none ↦ none
    | some j ↦ elim (loaded_buffer j) [ none ↦ none | some k ↦ load_each db g (insert m k o) ]
  ]

  -- `bO`
  unfoldable pub load_all : Disk → Files → Option (Disk × Files)
  unfolding load_each put_all
  load_all t o =
      let g = put_all [] (n.name_keys t.db) in
      elim (load_each t.db g o) [
        | none ↦ none
        | some o' ↦ some (record t { ids = put_all t.ids g }, o')
      ]

  -- `A.hg`, once the database is open: a worker starts.
  unfoldable pub start_indexed : d.Db → Option (Disk × IndexedFs)
  unfolding load_all
  start_indexed db = elim (load_all (record { ids = []; db = db }) []) [
    | none ↦ none
    | some (t, files) ↦ some (t, started_with files)
  ]
