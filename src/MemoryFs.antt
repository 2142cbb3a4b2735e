-- ===== src/MemoryFs.antt =====
-- The in-memory file system of the database worker (mobile/web/drift_worker.dart.js): the classes
-- `A.he` (the file system), `A.is` (an open file) and `A.fS` (their common base, with `xRead`).
-- A method returns the new state with its result; `err` is a thrown `VfsException` with its code.
pub mod Laws
pub mod Reach
mod Examples
use Prim.Native.Nat.{bit_and}
use Prim.Native.String.{String}
use bojairu.Prelude.{
  ℕ, zero, suc, ◌+◌, ◌-◌, ◌≤◌, ◌<◌, min, Bool, true, false, not, Option, none, some, List, [], ◌∷◌,
  ◌++◌, ltb, leb, ◌==◌, if◌then◌else◌, length, take, drop, replicate,
}
use bojairu.Prelude.Dict.{lookup, insert, remove, string_Eq}
use bojairu.Bytes.{overwrite, fill_range}
use bojairu.Bytes.Buffer.{Buffer, empty_buffer, contents, set_length, write_buffer}

pub data Result {ℓ} (A : Type ℓ) : Type ℓ where
  ok : A → Result A
  err : ℕ → Result A

-- The map `d` of `A.he`.
abbrev pub Files : Type 0
Files = List (String × Buffer)

-- The fields `b`, `c` and `d` of `A.is`.
pub record File : Type 0 where
  pub path : String
  pub delete_on_close : Bool
  pub lock_level : ℕ

abbrev pub exists : Files → String → Bool
exists fs a = elim (lookup a fs) [ none ↦ false | some _ ↦ true ]

-- `cg`, xAccess.
unfoldable pub access : Files → String → ℕ
unfolding lookup
access fs a = if exists fs a then 1 else 0

-- `dc`, xDelete.
unfoldable pub delete : Files → String → Files
unfolding remove
delete fs a = remove a fs

-- A file that is opened without a name gets the given random one.
unfoldable pub opened_path : Option String → String → String
opened_path none random_path = random_path
opened_path (some n) random_path = n

-- `aX`, xOpen: without a name the file gets `random_path`. Flag 4 creates a missing file, and flag 8
-- deletes it when it is closed. The second result is the flags that are passed back.
unfoldable pub open_file : Files → Option String → String → ℕ → Result (Files × File × ℕ)
unfolding lookup insert opened_path
open_file fs name random_path flags =
    let r : String = opened_path name random_path in
    let file : File = record {
      path = r;
      delete_on_close = not (bit_and flags 8 == 0);
      lock_level = 0;
    } in
    if not (exists fs r)
    then (if not (bit_and flags 4 == 0) then ok (insert r empty_buffer fs, file, 0) else err 14)
    else ok (fs, file, 0)

-- `eG`: the bytes from `b` on over the front of `a`, with their number. `M` does not throw here, as
-- that number is neither above the length of `a` nor above what the file holds from `b` on.
unfoldable pub read_into : Files → File → List ℕ → ℕ → List ℕ × ℕ
unfolding lookup
read_into fs h a b = elim (lookup h.path fs) [
  | none ↦ (a, 0)
  | some r ↦
      if leb r.len b
      then (a, 0)
      else (let s = min (length a) (r.len - b) in (overwrite a 0 (take s (drop b (contents r))), s))
]

-- `fS.eO`, xRead: a short read clears the rest of `a` and throws 522. The caller's array holds the
-- bytes in both cases.
unfoldable pub read : Files → File → List ℕ → ℕ → List ℕ × Option ℕ
unfolding read_into fill_range
read fs h a b =
    let (a', s) = read_into fs h a b in
    if ltb s (length a) then (fill_range a' s (length a) 0, some 522) else (a', none)

-- `da`, xCheckReservedLock.
unfoldable pub check_reserved_lock : File → ℕ
check_reserved_lock h = if leb 2 h.lock_level then 1 else 0

-- `ci`, xClose.
unfoldable pub close : Files → File → Files
unfolding remove
close fs h = if h.delete_on_close then remove h.path fs else fs

-- `ck`, xFileSize; `none` is the error of a read through `null`.
unfoldable pub file_size : Files → File → Option ℕ
unfolding lookup
file_size fs h = elim (lookup h.path fs) [ none ↦ none | some r ↦ some r.len ]

-- `de` and `dh`, xLock and xUnlock.
unfoldable pub lock : File → ℕ → File
lock h a = record h { lock_level = a }

unfoldable pub unlock : File → ℕ → File
unlock h a = record h { lock_level = a }

-- `cl`, xTruncate.
unfoldable pub truncate : Files → File → ℕ → Files
unfolding lookup insert
truncate fs h a = elim (lookup h.path fs) [
  | none ↦ insert h.path (set_length empty_buffer a) fs
  | some q ↦ insert h.path (set_length q a) fs
]

-- `be`, xWrite; `none` is an error of the buffer.
unfoldable pub write : Files → File → List ℕ → ℕ → Option Files
unfolding lookup insert
write fs h a b =
    let p : Buffer = elim (lookup h.path fs) [ none ↦ empty_buffer | some r ↦ r ] in
    elim (write_buffer p b a) [ none ↦ none | some q ↦ some (insert h.path q fs) ]
