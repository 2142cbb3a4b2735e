-- ===== src/Opfs/Examples.antt =====
-- Runs of the OPFS file system of mobile/web/drift_worker.dart.js, over a disk with one file.
use bojairu.Prelude.{
  ℕ, ◌≡◌, refl, ◌≤◌, true, false, some, List, [], ◌∷◌, length, take, drop, replicate,
  length-replicate, arith, none,
}
use bojairu.Prelude.Dict.{lookup, insert, nat_Eq}
use bojairu.Prelude.Int.{pos}
use bojairu.Bytes.{overwrite}
use bojairu.Bytes.Flat.{write_at, resize}
use bojairu.Opfs.{Opfs, OpfsLaws, OpenFile, Worker, answer, numbers, int32, int32_message}
use bojairu.Opfs.Serving.{
  idle, x_open, x_lock, walk, resolve, enter, serve_open, opened, tries, ensure_handle, give_up,
  give_up_implicit,
}
use bojairu.Opfs.Rounds.{round, serve, serve_lock, mark_explicit, put_reply}
use bojairu.Opfs.Life.{initial, start, Reachable, begun, requested, waiting_lem}
use bojairu.Opfs.Client.{size_remote, read_remote, write_remote, lock_remote, unlock_remote}
use bojairu.Opfs.Transfers.{IsReady}
use bojairu.Opfs.Transfers.Writing.{Written}
use bojairu.Opfs.Transfers.Reading.{bytes_there}
use bojairu.Opfs.Access.{write_remote_lem, read_remote_lem, read_remote-write_remote}
use bojairu.Opfs.Sizes.{size_remote_lem}
use bojairu.Opfs.Locks.{IsFree}
use bojairu.Opfs.Relocking.{lock_remote-unlock_remote}

abbrev one_file : Opfs
one_file = record {
  Disk = List ℕ;
  Directory = Unit;
  File = Unit;
  get_directory = λ d r s c. some (d, tt);
  get_file = λ d r s c. some (d, tt);
  remove_entry = λ d r s. some [];
  acquire = λ d f. (d, true);
  release = λ d f. d;
  flush = λ d f. d;
  size = λ d f. length d;
  set_size = λ d f n. some (resize d n);
  read_bytes = λ d f at n. take n (drop at d);
  write_bytes = λ d f at bs. (write_at d at bs, length bs);
  relative = λ s. s;
  split = λ s. s ∷ [];
  to_bytes = λ s. [];
  of_bytes = λ bs. "";
}

one_file_laws : OpfsLaws one_file
one_file_laws = record {
  contents = λ d f. d;
  read_bytes_lem = λ d f at n. refl;
  write_bytes_lem = λ d f at bs h. refl;
}

abbrev database : OpenFile one_file
database = record {
  read_only = false;
  delete_on_close = false;
  directory = tt;
  name = "database";
  file = tt;
  explicit = false;
  handle = true;
}

abbrev memory : List ℕ
memory = replicate 65536 0

-- A worker whose file 0 has the handle, as an implicit lock.
abbrev holding : Worker one_file
holding = record {
  disk = 1 ∷ (2 ∷ (3 ∷ []));
  root = tt;
  next = 1;
  open_files = (0, database) ∷ [];
  implicit = 0 ∷ [];
  memory = memory;
  message = numbers (pos 0) (pos 0) (pos 0);
  name_length = pos 0;
  stopped = false;
}

memory_lem : 65536 ≤ length memory
memory_lem = omega (arith, length-replicate {A = ℕ} 65536 0)

holding-IsReady : IsReady 0 database holding
unfolding lookup
holding-IsReady = ((refl, refl), omega arith, memory_lem)

write_remote_lem_example :
    Written one_file_laws 0 database 2
      (7 ∷ (8 ∷ []))
      holding
      (write_remote (pos 0) (7 ∷ (8 ∷ [])) 2 holding)
write_remote_lem_example =
    write_remote_lem one_file_laws holding 0 database 2 (7 ∷ (8 ∷ [])) (omega arith) holding-IsReady
      (λ d at bs. refl)

read_remote-write_remote_example :
    (read_remote (pos 0) (0 ∷ (0 ∷ [])) 2 (write_remote (pos 0) (7 ∷ (8 ∷ [])) 2 holding).0).1
    ≡ answer (2, 7 ∷ (8 ∷ []))
read_remote-write_remote_example =
    read_remote-write_remote one_file_laws holding 0 database 2 7 (8 ∷ []) (0 ∷ (0 ∷ [])) refl
      (omega arith) holding-IsReady (λ d at bs. refl)

-- The array is longer than what is left of the file.
read_remote_lem_example :
    ((read_remote (pos 0) (9 ∷ (9 ∷ (9 ∷ []))) 1 holding).1
      ≡ answer (
        length (bytes_there one_file_laws database 1 3 holding),
        overwrite (9 ∷ (9 ∷ (9 ∷ []))) 0 (bytes_there one_file_laws database 1 3 holding),
      ))
    × ((read_remote (pos 0) (9 ∷ (9 ∷ (9 ∷ []))) 1 holding).0.disk ≡ 1 ∷ (2 ∷ (3 ∷ [])))
    × IsReady 0 database (read_remote (pos 0) (9 ∷ (9 ∷ (9 ∷ []))) 1 holding).0
read_remote_lem_example =
    read_remote_lem one_file_laws holding 0 database 1 (9 ∷ (9 ∷ (9 ∷ []))) (omega arith)
      holding-IsReady

-- The same worker without the handle.
abbrev resting : Worker one_file
resting = record holding {
  open_files = (0, record database { handle = false; explicit = false }) ∷ [];
  implicit = [];
}

lock_remote-unlock_remote_example :
    ((unlock_remote (pos 0) 1 0 holding).1 ≡ answer 1)
    × IsFree 0 (unlock_remote (pos 0) 1 0 holding).0
    × (lock_remote (pos 0) 1 1 (unlock_remote (pos 0) 1 0 holding).0
        ≡ ((unlock_remote (pos 0) 1 0 holding).0, answer 1))
unfolding lookup
lock_remote-unlock_remote_example =
    lock_remote-unlock_remote holding 0 database false 0 1 refl (omega arith)

size_remote_lem_example : (size_remote (pos 0) holding).1 ≡ answer (pos 3)
unfolding lookup
size_remote_lem_example =
    size_remote_lem holding 0 database (refl, refl) (omega arith) (omega arith)

-- A worker that has started, opened a file and locked it.
abbrev locking : Worker one_file
locking =
    (round x_lock
      (round x_open (start "" (initial [] tt [] (numbers (pos 4) (pos 0) (pos 0)) (pos 0))).0).0).0

locking-Reachable : Reachable locking
unfolding start walk
locking-Reachable =
    requested _ x_lock
      (requested _ x_open (begun "" [] tt [] (numbers (pos 4) (pos 0) (pos 0)) (pos 0) refl))

waiting_lem_example : (false ≡ false) × (lookup locking.next locking.open_files ≡ none)
unfolding start walk round serve put_reply serve_open resolve enter serve_lock ensure_handle tries
    opened mark_explicit idle give_up_implicit give_up int32 int32_message lookup insert
waiting_lem_example =
    waiting_lem locking 0
      (record {
        read_only = false;
        delete_on_close = false;
        directory = tt;
        name = "";
        file = tt;
        explicit = false;
        handle = false;
      })
      locking-Reachable refl
