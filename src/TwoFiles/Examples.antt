-- ===== src/TwoFiles/Examples.antt =====
-- Runs of the OPFS file system without a worker.
use Prim.Native.Nat.{bit_and}
use bojairu.Prelude.{
  ℕ, ◌≡◌, ◌≢◌, refl, false, none, some, List, [], ◌∷◌, length, take, drop, if◌then◌else◌, arith,
}
use bojairu.Bytes.{zeros}
use bojairu.Bytes.Flat.{write_at, resize}
use bojairu.MemoryFs.{err}
use bojairu.TwoFiles.{
  FileKind, Handles, HandleLaws, database, journal, file_kind, TwoFiles, held, delete_named,
  open_named, start_two_files, read_named, write_named,
}
use bojairu.TwoFiles.Flags.{same_kind, found, InSync, TakesAll}
use bojairu.TwoFiles.Opening.{Opens, open_named_lem}
use bojairu.TwoFiles.Laws.{delete_named-start_two_files, read_named-write_named}

-- Handles of lists of bytes.
abbrev lists : Handles
lists = record {
  Held = List ℕ;
  read_bytes = λ f at n. take n (drop at f);
  write_bytes = λ f at bs. (write_at f at bs, length bs);
  size = λ f. length f;
  set_size = λ f n. some (resize f n);
  flush = λ f. f;
}

resized : (f f' : List ℕ) (n : ℕ) → some (resize f n) ≡ some f' → f' ≡ resize f n
resized f f' n e = ground (arith, e)

abbrev list_laws : HandleLaws lists
list_laws = record {
  contents = λ f. f;
  read_bytes_lem = λ f at n. refl;
  write_bytes_lem = λ f at bs e. refl;
  set_size_lem = λ f f' n e. resized f f' n e;
}

takes_all : TakesAll lists list_laws
takes_all f at bs = refl

-- The database exists, the journal does not.
abbrev one_file : TwoFiles lists
one_file = record {
  meta = 1 ∷ (0 ∷ []);
  main = 7 ∷ (8 ∷ []);
  log = 9 ∷ [];
  flags = 1 ∷ (0 ∷ []);
  memory = [];
}

one_file-InSync : InSync lists list_laws one_file
one_file-InSync = record {
  is_ready = record { flags_size = refl; meta_size = refl };
  synced = refl;
}

database_kind : file_kind "/database" ≡ some database
unfolding file_kind
database_kind = refl

journal_kind : file_kind "/database-journal" ≡ some journal
unfolding file_kind
journal_kind = refl

open_named_lem_example :
    (found lists list_laws one_file journal ≢ none
      → Opens lists list_laws
          (open_named lists one_file (some "/database-journal") "" 6)
          journal
          6
          (found lists list_laws one_file))
    × (found lists list_laws one_file journal ≡ none
        → bit_and 6 4 ≡ 0
        → open_named lists one_file (some "/database-journal") "" 6 ≡ err 14)
    × ((f : List ℕ)
        → found lists list_laws one_file journal ≡ none
        → bit_and 6 4 ≢ 0
        → lists.set_size (held lists one_file journal) 0 ≡ some f
        → Opens lists list_laws
            (open_named lists one_file (some "/database-journal") "" 6)
            journal
            6
            (λ j. if same_kind j journal then some [] else found lists list_laws one_file j))
open_named_lem_example =
    open_named_lem lists list_laws one_file "/database-journal" "" journal 6 takes_all journal_kind
      one_file-InSync.is_ready

-- A file system that starts where both files are on the disk.
abbrev started : TwoFiles lists
started = record {
  meta = resize (1 ∷ (1 ∷ [])) 2;
  main = 7 ∷ [];
  log = 9 ∷ [];
  flags = zeros 2;
  memory = [];
}

started_lem : start_two_files lists (1 ∷ (1 ∷ [])) (7 ∷ []) (9 ∷ []) ≡ some started
unfolding start_two_files
started_lem = refl

delete_named-start_two_files_example :
    found lists list_laws (delete_named lists started "/database-journal") database ≡ none
delete_named-start_two_files_example =
    delete_named-start_two_files lists list_laws (1 ∷ (1 ∷ [])) (7 ∷ []) (9 ∷ []) started
      "/database-journal" journal takes_all journal_kind started_lem database

read_named-write_named_example :
    (s' : TwoFiles lists) × (write_named lists one_file database (4 ∷ (5 ∷ [])) 1 ≡ (s', none))
    × (read_named lists s' database (0 ∷ (0 ∷ [])) 1 ≡ (4 ∷ (5 ∷ []), none))
    × (held lists s' database ≡ write_at (held lists one_file database) 1 (4 ∷ (5 ∷ [])))
    × ((j : FileKind)
        → same_kind j database ≡ false
        → found lists list_laws s' j ≡ found lists list_laws one_file j)
read_named-write_named_example =
    read_named-write_named lists list_laws one_file database (4 ∷ (5 ∷ [])) (0 ∷ (0 ∷ [])) 1
      takes_all refl
