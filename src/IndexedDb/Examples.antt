-- ===== src/IndexedDb/Examples.antt =====
-- Runs of the IndexedDB files of mobile/web/drift_worker.dart.js on a small database.
use bojairu.Prelude.{
  ℕ, ◌≡◌, refl, ◌≤◌, ◌+◌, ◌*◌, ◌/◌, none, some, List, [], ◌∷◌, arith, length, ◌==◌, if◌then◌else◌,
}
use bojairu.Prelude.Dict.{lookup}
use bojairu.Bytes.Flat.{write_at, resize, length-write_at}
use bojairu.IndexedDb.{block_size, new_request, add_write, add_writes, piece}
use bojairu.IndexedDb.Writes.{Stands, new_request-Stands, add_write_refines, write_all_at}
use bojairu.IndexedDb.Storage.{max_offset, write_back, read_file, truncate_file}
use bojairu.IndexedDb.Loading.{Holds}
use bojairu.IndexedDb.Saving.{SameElsewhere, load-save}
use bojairu.IndexedDb.Truncation.{truncate_file_stale}
use bojairu.IndexedDb.ListDatabase.{Lists, list_database}

-- A database with one empty file.
abbrev one_file : Lists
one_file = record {
  files = λ id. if id == 1 then some (record { name = "/database"; file_length = 0 }) else none;
  blocks = λ id. [];
  next = 2;
  index = ("/database", 1) ∷ [];
}

one_file-Holds : Holds list_database one_file 1 []
unfolding lookup
one_file-Holds = record {
  entry = record { name = "/database"; file_length = 0 };
  is_there = refl;
  len = refl;
  good = λ k s e. cc;
  same = λ i. refl;
}

-- Two bytes on both sides of a block's end, then one at the front.
abbrev some_writes : List (ℕ × List ℕ)
some_writes = (4095, 1 ∷ (2 ∷ [])) ∷ ((0, 3 ∷ []) ∷ [])

small : length (write_all_at [] some_writes) ≤ max_offset
unfolding write_all_at max_offset
small = omega (
  arith,
  length-write_at [] 4095 (1 ∷ (2 ∷ [])),
  length-write_at (write_at [] 4095 (1 ∷ (2 ∷ []))) 0 (3 ∷ []),
)

load-save_example :
    (db : Lists) × (write_back list_database one_file 1 (add_writes (new_request []) some_writes)
      ≡ some db)
    × Holds list_database db 1 (write_all_at [] some_writes)
    × (read_file list_database db 1 ≡ some (write_all_at [] some_writes))
    × SameElsewhere list_database 1 one_file db
load-save_example = load-save list_database one_file 1 [] some_writes one_file-Holds small

add_write_refines_example :
    Stands (add_write (new_request []) 4095 (1 ∷ (2 ∷ []))) (write_at [] 4095 (1 ∷ (2 ∷ [])))
add_write_refines_example =
    add_write_refines (new_request []) [] 4095 (1 ∷ (2 ∷ [])) (new_request-Stands [])

-- The file after these writes.
abbrev written : List ℕ
written = write_all_at [] some_writes

length-written : length written ≡ 4097
unfolding write_all_at
length-written = omega (
  arith,
  length-write_at [] 4095 (1 ∷ (2 ∷ [])),
  length-write_at (write_at [] 4095 (1 ∷ (2 ∷ []))) 0 (3 ∷ []),
)

stored : (db : Lists) × Holds list_database db 1 written
stored =
    let (db, _, held, _, _) =
      load-save list_database one_file 1 [] some_writes one_file-Holds small in
    (db, held)

truncate_file_stale_example :
    (db₁ db₂ : Lists) × (truncate_file list_database (stored.0) 1 0 ≡ some db₁)
    × (truncate_file list_database db₁ 1 (length written) ≡ some db₂)
    × (read_file list_database db₂ 1
        ≡ some
            (resize (resize written (0 / block_size * block_size + block_size)) (length written)))
truncate_file_stale_example =
    truncate_file_stale list_database (stored.0) 1 0 written (stored.1)
      (omega (arith, length-written)) small

-- The sizes of the pieces at a block's end, and on a block's border.
pieces : (piece 4095 9 ≡ 1) × (piece 0 9 ≡ 9) × (piece 0 5000 ≡ 4096)
unfolding piece
pieces = (refl, refl, refl)
