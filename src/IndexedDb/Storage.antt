-- ===== src/IndexedDb/Storage.antt =====
-- `A.fP` of mobile/web/drift_worker.dart.js: the files and their blocks in IndexedDB. The browser's
-- database is a parameter with the documented behaviour of its object stores.
use Prim.Native.String.{String}
use bojairu.Prelude.{
  ℕ, ◌+◌, ◌-◌, ◌*◌, ◌/◌, min, ◌≡◌, not, ◌&&◌, Option, none, some, List, [], ◌∷◌, ltb, leb, ◌==◌,
  if◌then◌else◌, length, take,
}
use bojairu.Prelude.Dict.{Eq, lookup, nat_Eq}
use bojairu.Bytes.{overwrite, zeros}
use bojairu.IndexedDb.{Request, block_size}

-- 9007199254740992, the largest offset of the key ranges.
unfoldable pub max_offset : ℕ
max_offset = 9007199254740992

-- The objects of the store "files".
pub record FileRecord : Type 0 where
  pub name : String
  pub file_length : ℕ

-- No key stands twice among the entries.
abbrev pub Distinct : {K : Type 0} {V : Type 0} → ⦃e : Eq K⦄ → List (K × V) → Type 0
Distinct [] = Unit
Distinct ((k, s) ∷ m) = (lookup k m ≡ none) × Distinct m

-- The object stores "files", by file ids, and "blocks", by file ids and offsets.
pub record Database : Type 1 where
  pub Db : Type 0
  -- `files.get(id)`
  pub get_file : Db → ℕ → Option FileRecord
  -- `cursor.update(record)` at the record of a file
  pub update_file : Db → ℕ → FileRecord → Db
  -- `files.put(record)`, which makes a new id
  pub add_file : Db → FileRecord → Db × ℕ
  -- `files.delete(id)`
  pub delete_file : Db → ℕ → Db
  -- the block at a key
  pub get_block : Db → ℕ → ℕ → Option (List ℕ)
  -- `blocks.put(block,key)`, and `update` at a cursor on that key
  pub put_block : Db → ℕ → ℕ → List ℕ → Db
  -- `blocks.delete(IDBKeyRange.bound([id,from],[id,to]))`
  pub delete_blocks : Db → ℕ → ℕ → ℕ → Db
  -- what a cursor over such a range goes through
  pub cursor : Db → ℕ → ℕ → ℕ → List (ℕ × List ℕ)
  pub get_block-put_block :
      (db : Db) (f k g j : ℕ) (s : List ℕ)
      → get_block (put_block db f k s) g j ≡ (if f == g && k == j then some s else get_block db g j)
  pub get_file-put_block :
      (db : Db) (f k g : ℕ) (s : List ℕ) → get_file (put_block db f k s) g ≡ get_file db g
  pub get_block-update_file :
      (db : Db) (f g j : ℕ) (r : FileRecord) → get_block (update_file db f r) g j ≡ get_block db g j
  pub get_file-update_file :
      (db : Db) (f g : ℕ) (r : FileRecord)
      → get_file (update_file db f r) g ≡ (if f == g then some r else get_file db g)
  pub get_block-delete_blocks :
      (db : Db) (f lo hi g j : ℕ)
      → get_block (delete_blocks db f lo hi) g j
        ≡ (if f == g && (leb lo j && leb j hi) then none else get_block db g j)
  pub get_file-delete_blocks :
      (db : Db) (f lo hi g : ℕ) → get_file (delete_blocks db f lo hi) g ≡ get_file db g
  pub lookup-cursor :
      (db : Db) (f lo hi j : ℕ)
      → lookup j (cursor db f lo hi) ≡ (if leb lo j && leb j hi then get_block db f j else none)
  pub cursor-Distinct : (db : Db) (f lo hi : ℕ) → Distinct (cursor db f lo hi)

-- The keys of the changed blocks in ascending order (`B.c.hG(l)`).
unfoldable pub insert_key : ℕ → List ℕ → List ℕ
insert_key k [] = k ∷ []
insert_key k (j ∷ l) = if leb k j then k ∷ (j ∷ l) else j ∷ insert_key k l

unfoldable pub sorted_keys : List (ℕ × List ℕ) → List ℕ
unfolding insert_key
sorted_keys [] = []
sorted_keys ((k, s) ∷ m) = insert_key k (sorted_keys m)

-- `A.jc` for each block under the cursor: its bytes go to the offset `k` of the array `l`, as far as
-- the file reaches. `none` is the `RangeError` of a view of negative length or behind the buffer.
unfoldable pub copy_blocks : ℕ → List ℕ → List (ℕ × List ℕ) → Option (List ℕ)
copy_blocks e l [] = some l
copy_blocks e l ((k, s) ∷ m) =
    let m' = min block_size (e - k) in
    let rest = copy_blocks e (overwrite l k (take m' s)) m in
    if leb k e && leb m' (length s) then rest else none

module _ (d : Database) where
  open d use {
    Db, get_file, update_file, add_file, delete_file, get_block, put_block, delete_blocks, cursor,
  }

  -- `A.j9` and `A.ja` for each key: the block is put, or updated where there is one.
  unfoldable pub put_blocks : Db → ℕ → List (ℕ × List ℕ) → List ℕ → Option Db
  put_blocks db id blocks [] = some db
  put_blocks db id blocks (k ∷ l) = elim (lookup k blocks) [
    | none ↦ none
    | some s ↦ put_blocks (put_block db id k s) id blocks l
  ]

  -- `b5`: the changed blocks are stored, and the length if it changed. `none` is the error of an
  -- unknown file.
  unfoldable pub write_back : Db → ℕ → Request → Option Db
  write_back db id rq = elim (get_file db id) [
    | none ↦ none
    | some n ↦ elim (put_blocks db id rq.blocks (sorted_keys rq.blocks)) [
      | none ↦ none
      | some db' ↦
          if not (rq.new_length == n.file_length)
          then some (update_file db' id (record { name = n.name; file_length = rq.new_length }))
          else some db'
    ]
  ]

  -- `bB`: the whole file.
  unfoldable pub read_file : Db → ℕ → Option (List ℕ)
  unfolding copy_blocks
  read_file db id = elim (get_file db id) [
    | none ↦ none
    | some m ↦ copy_blocks m.file_length (zeros m.file_length) (cursor db id 0 max_offset)
  ]

  -- `bd`: the length of the file is set.
  unfoldable pub truncate_file : Db → ℕ → ℕ → Option Db
  truncate_file db id c = elim (get_file db id) [
    | none ↦ none
    | some m ↦
        let db' =
          if ltb c m.file_length
          then delete_blocks db id (c / block_size * block_size + 1) max_offset
          else db in
        some (update_file db' id (record { name = m.name; file_length = c }))
  ]

  -- `cR` and `cT`: a file is created, and deleted with its blocks.
  unfoldable pub create_file : Db → String → Db × ℕ
  create_file db name = add_file db (record { name = name; file_length = 0 })

  unfoldable pub drop_file : Db → ℕ → Db
  drop_file db id = delete_file (delete_blocks db id 0 max_offset) id
