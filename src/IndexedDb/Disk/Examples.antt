-- ===== src/IndexedDb/Disk/Examples.antt =====
-- A run of the disk of mobile/web/drift_worker.dart.js on a small database.
use Prim.Native.String.{String}
use text.Mathlib.Text.{◌==◌ as str_eq}
use text.Mathlib.TextEquality.{eq_iff}
use bojairu.Prelude.{
  ℕ, suc, ◌+◌, ◌≡◌, ◌≢◌, refl, sym, ◌∙◌, none, some, false, [], ◌∷◌, arith, length, if◌then◌else◌,
}
use bojairu.Prelude.Dict.{lookup, insert, remove, lookup-insert, lookup-remove, nat_Eq, string_Eq}
use bojairu.MemoryFs.Laws.{IsSound, file, insert-IsSound}
use bojairu.Bytes.{overwrite}
use bojairu.Bytes.Flat.{byte-beyond, write_at}
use bojairu.IndexedDb.Writes.{write_all_at}
use bojairu.Bytes.Buffer.{Buffer, IsValid}
use bojairu.IndexedDb.Storage.{max_offset, FileRecord}
use bojairu.IndexedDb.ListDatabase.{Lists, list_database, firsts, lookup-firsts, firsts-Distinct}
use bojairu.IndexedDb.Queue.{create_file, write_file, Worker}
use bojairu.IndexedDb.Queue.Order.{Store, Does}
use bojairu.IndexedDb.Queue.Turns.{work}
use bojairu.IndexedDb.Mirror.{Task, IndexedFs}
use bojairu.IndexedDb.Mirror.Follows.{persisted, Follows}
use bojairu.IndexedDb.Disk.{Names, Disk, run_op, work_off, start_indexed}
use bojairu.IndexedDb.Disk.Keeping.{Keeps}
use bojairu.IndexedDb.Disk.Writing.{Extends, run_op_lem}
use bojairu.IndexedDb.Disk.Loaded.{IsSmall}
use bojairu.IndexedDb.Disk.Restart.{start_indexed-work_off}

-- The index is a list, and the ids are counted.
abbrev list_names : Names list_database
list_names = record {
  next_id = λ db. db.next;
  key_of = λ db p. lookup p db.index;
  name_keys = λ db. firsts db.index;
  lookup-name_keys = λ db p. lookup-firsts db.index p;
  name_keys-Distinct = λ db. firsts-Distinct db.index;
  next_id-put_block = λ db f k s. refl;
  key_of-put_block = λ db f k s p. refl;
  next_id-update_file = λ db f r. refl;
  key_of-update_file = λ db f r r' p h e. refl;
  next_id-delete_blocks = λ db f lo hi. refl;
  key_of-delete_blocks = λ db f lo hi p. refl;
  next_id-delete_file = λ db f. refl;
  key_of-delete_file = λ db f r p h. removed db f r p h (lookup-remove r.name p db.index);
  get_file-delete_file = λ db f g. refl;
  get_block-delete_file = λ db f g k. refl;
  add_file-next_id = λ db r. refl;
  next_id-add_file = λ db r h. counted db.next;
  key_of-add_file = λ db r p h. lookup-insert r.name p db.next db.index;
  get_file-add_file = λ db r g h. refl;
  get_block-add_file = λ db r g k h. refl;
}
  where
    counted : (n : ℕ) → n + 1 ≡ suc n
    counted n = omega arith

    removed :
        (db : Lists) (f : ℕ) (r : FileRecord) (p : String)
        → db.files f ≡ some r
        → lookup p (remove r.name db.index) ≡ (if str_eq r.name p then none else lookup p db.index)
        → lookup p (elim (db.files f) [ none ↦ db.index | some r' ↦ remove r'.name db.index ])
          ≡ (if str_eq r.name p then none else lookup p db.index)
    removed db f r p h e = rw h e

abbrev no_lists : Lists
no_lists = record { files = λ i. none; blocks = λ i. []; next = 1; index = [] }

abbrev no_files : Store
no_files k = none

abbrev new_disk : Disk list_database list_names
new_disk = record { ids = []; db = no_lists }

new_disk-Keeps : Keeps list_database list_names new_disk no_files
unfolding lookup
new_disk-Keeps = record {
  present = λ p f e. absurd (ground (arith, e));
  absent = λ p e. refl;
  named = λ p i e. cc e;
  known = λ p i e. cc e;
  live = λ p i e. absurd (ground (arith, e));
  live_block = λ i k b e. absurd (ground (arith, e));
}

-- "/a" was opened as a new file, and a byte was written to it.
abbrev one_byte : Buffer
one_byte = record { store = 7 ∷ []; len = 1 }

abbrev one_file : IndexedFs
one_file = record {
  files = ("/a", one_byte) ∷ [];
  temporary = [];
  worker = record {
    closed = false;
    running = some (create_file "/a");
    pending = write_file "/a" [] ((0, 7 ∷ []) ∷ []) ∷ [];
  };
}

one_byte-IsValid : IsValid one_byte
one_byte-IsValid = record { within = omega arith; blank = λ i h. byte-beyond (7 ∷ []) i h }

empty-IsSound : IsSound []
unfolding lookup
empty-IsSound = record { valid = λ k r e. cc e }

one_file-IsSound : IsSound one_file.files
unfolding insert
one_file-IsSound = insert-IsSound [] "/a" one_byte empty-IsSound one_byte-IsValid

abbrev created : Store
created k = if str_eq k "/a" then some [] else none

other : (k : String) → k ≢ "/a" → (created k ≡ none) × (persisted one_file k ≡ none)
unfolding persisted file lookup
other k n = ground (arith, n, eq_iff k "/a", eq_iff "/a" k)

one_file-Follows : Follows Extends no_files one_file
unfolding persisted file lookup write_all_at write_at overwrite
one_file-Follows = record {
  sound = one_file-IsSound;
  busy = λ e. cc e;
  kept = λ k e. cc e;
  queued = (
    created,
    (no_files, λ k. refl, ((refl, refl), λ k n. (other k n).0)),
    ((refl, refl), λ k n. (other k n).1 ∙ sym ((other k n).0)),
  );
}

one_file-IsSmall : IsSmall (persisted one_file)
unfolding persisted file lookup max_offset
one_file-IsSmall p f e = ground (arith, e)

start_indexed-work_off_example :
    (t' : Disk list_database list_names) × (w : Worker Task) × (work_off list_database list_names
        (length (work one_file.worker))
        new_disk
        one_file.worker
      ≡ some (t', w))
    × (work w ≡ [])
    × (t₁ : Disk list_database list_names) × (fs₁ : IndexedFs) × (start_indexed list_database
          list_names t'.db
        ≡ some (t₁, fs₁))
    × ((p : String) → file fs₁.files p ≡ persisted one_file p)
    × Follows Extends (persisted one_file) fs₁
    × Keeps list_database list_names t₁ (persisted one_file)
start_indexed-work_off_example =
    start_indexed-work_off list_database list_names new_disk one_file no_files new_disk-Keeps
      one_file-Follows one_file-IsSmall

created-Creates : Does Extends (create_file "/a") no_files created
created-Creates = ((refl, refl), λ k n. (other k n).0)

run_op_lem_example :
    (t' : Disk list_database list_names) × (run_op list_database list_names new_disk
        (create_file "/a")
      ≡ some t')
    × Keeps list_database list_names t' created
run_op_lem_example =
    run_op_lem list_database list_names new_disk (create_file "/a") no_files created new_disk-Keeps
      created-Creates
