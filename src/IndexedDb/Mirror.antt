-- ===== src/IndexedDb/Mirror.antt =====
-- The IndexedDB file system of mobile/web/drift_worker.dart.js as SQLite calls it: `A.d5` and its
-- open files `A.it`. The files are kept in memory, and each change joins the queue for the database.
pub mod Follows
pub mod Writing
pub mod Deleting
pub mod Opening
pub mod Ending
mod Examples
use Prim.Native.Nat.{bit_and}
use Prim.Native.String.{String}
use bojairu.Prelude.{
  ℕ, ◌+◌, ltb, length, Bool, true, false, not, Option, none, some, List, [], ◌∷◌, ◌==◌,
  if◌then◌else◌,
}
use bojairu.Prelude.Dict.{lookup, insert, remove, string_Eq}
use bojairu.Bytes.Buffer.{contents}
use bojairu.MemoryFs.{
  Result, ok, err, Files, File, exists, opened_path, open_file, delete, truncate, write, access,
  read, check_reserved_lock, file_size, lock, unlock,
}
use bojairu.IndexedDb.Queue.{Op, task, delete_file, create_file, write_file, Worker, submit}

-- The functions that `A.dB` runs: `A.mQ`, which sets a stored file's length, and the end of the
-- database.
pub data Task : Type 0 where
  set_file_length : String → ℕ → Task
  close_database : Task

-- The fields `r` (the files in memory), `x` (the files that are kept in memory only) and the queue.
pub record IndexedFs : Type 0 where
  pub files : Files
  pub temporary : List (String × Unit {0})
  pub worker : Worker Task

abbrev pub is_temporary : IndexedFs → String → Bool
is_temporary fs a = elim (lookup a fs.temporary) [ none ↦ false | some _ ↦ true ]

-- `bV` on the file system; `none` is the exception with the code 10.
unfoldable pub submit_to : IndexedFs → Op Task → Option IndexedFs
submit_to fs o = elim (submit fs.worker o) [
  | none ↦ none
  | some w ↦ some (record fs { worker = w })
]

-- `dc`, xDelete.
unfoldable pub delete_indexed : IndexedFs → String → Option IndexedFs
unfolding submit_to remove
delete_indexed fs a =
    if is_temporary fs a
    then some (record fs { files = delete fs.files a; temporary = remove a fs.temporary })
    else submit_to (record fs { files = delete fs.files a }) (delete_file a)

-- The end of `aX`: a new file is noted as temporary, or its creation is queued.
unfoldable pub note_opened : IndexedFs → String → Bool → ℕ → Option IndexedFs
unfolding submit_to insert
note_opened fs o existed flags =
    if existed
    then some fs
    else (if not (bit_and flags 8 == 0)
        then some (record fs { temporary = insert o tt fs.temporary })
        else submit_to fs (create_file o))

-- `aX`, xOpen.
unfoldable pub open_indexed : IndexedFs → Option String → String → ℕ → Result (IndexedFs × File)
unfolding note_opened open_file
open_indexed fs name random_path flags =
    let o = opened_path name random_path in
    elim (open_file fs.files (some o) random_path flags) [
      | err c ↦ err c
      | ok (files, h, out) ↦
          elim (note_opened (record fs { files = files }) o (exists fs.files o) flags) [
            | none ↦ err 10
            | some fs' ↦ ok (fs', h)
          ]
    ]

-- What the content `q` of a write's operation holds when that runs. It is no copy but a view of the
-- file's buffer. A write that ends behind the backing store makes a new store and leaves the old one,
-- and with it the view, as it is; another one and the writes after it may change the view in place:
-- `later` is what it then holds. Where the file was deleted it is a view of a new buffer without
-- bytes.
unfoldable pub view_of : Files → String → ℕ → List ℕ → List ℕ
view_of fs s end later = elim (lookup s fs) [
  | none ↦ []
  | some r ↦ if ltb (length r.store) end then contents r else later
]

-- `be`, xWrite; `none` is an exception.
unfoldable pub write_indexed : IndexedFs → File → List ℕ → ℕ → List ℕ → Option IndexedFs
unfolding submit_to view_of
write_indexed fs h a b later = if fs.worker.closed then none else elim (write fs.files h a b) [
  | none ↦ none
  | some files ↦
      if is_temporary fs h.path
      then some (record fs { files = files })
      else submit_to (record fs { files = files })
          (write_file h.path (view_of fs.files h.path (b + length a) later) ((b, a) ∷ []))
]

-- `cl`, xTruncate.
unfoldable pub truncate_indexed : IndexedFs → File → ℕ → Option IndexedFs
unfolding submit_to
truncate_indexed fs h a =
    if fs.worker.closed
    then none
    else (let fs' : IndexedFs = record fs { files = truncate fs.files h a } in
        if is_temporary fs h.path
        then some fs'
        else submit_to fs' (task (set_file_length h.path a)))

-- `n`: the file system is closed once the queue has been worked off.
unfoldable pub close_indexed : IndexedFs → Option IndexedFs
unfolding submit_to
close_indexed fs = if fs.worker.closed then some fs else elim (submit_to fs (task close_database)) [
  | none ↦ none
  | some fs' ↦ some (record fs' { worker = record fs'.worker { closed = true } })
]

-- The methods that pass a call on: `cg`, `eO`, `da`, `ck`, `de` and `dh`.
abbrev pub access_indexed : IndexedFs → String → ℕ
access_indexed fs a = access fs.files a

abbrev pub read_indexed : IndexedFs → File → List ℕ → ℕ → List ℕ × Option ℕ
read_indexed fs h a b = read fs.files h a b

abbrev pub check_reserved_indexed : File → ℕ
check_reserved_indexed h = check_reserved_lock h

abbrev pub size_indexed : IndexedFs → File → Option ℕ
size_indexed fs h = file_size fs.files h

abbrev pub lock_indexed : File → ℕ → File
lock_indexed h a = lock h a

abbrev pub unlock_indexed : File → ℕ → File
unlock_indexed h a = unlock h a
