-- ===== src/TwoFiles.antt =====
-- The OPFS file system without a worker of mobile/web/drift_worker.dart.js, `A.dm` and its open files
-- `A.iK`: a database and its journal, a file "meta" with a byte for each that says whether it exists,
-- and the files in memory for everything else. The browser's synchronous handles are a parameter.
pub mod Flags
pub mod Opening
pub mod Laws
mod Examples
use Prim.Native.Nat.{bit_and}
use Prim.Native.String.{String}
use text.Mathlib.Text.{◌==◌ as str_eq}
use bojairu.Prelude.{
  ℕ, ◌≡◌, Bool, true, false, not, Option, none, some, List, [], ◌∷◌, ltb, leb, ◌==◌, if◌then◌else◌,
  length, take, drop,
}
use bojairu.Bytes.{overwrite, fill_range, zeros}
use bojairu.Bytes.Flat.{byte, write_at, resize}
use bojairu.MemoryFs.{
  Result, ok, err, Files, File, access, delete, open_file, lock, check_reserved_lock,
}

-- A file behind a handle: `read`, `write`, `getSize()`, `truncate(n)`, where `none` is an exception,
-- and `flush()`.
pub record Handles : Type 1 where
  pub Held : Type 0
  pub read_bytes : Held → ℕ → ℕ → List ℕ
  pub write_bytes : Held → ℕ → List ℕ → Held × ℕ
  pub size : Held → ℕ
  pub set_size : Held → ℕ → Option Held
  pub flush : Held → Held

-- What the browser documents of them. A write that takes all the bytes leaves them in the file.
pub record HandleLaws (h : Handles) : Type 1 where
  pub contents : h.Held → List ℕ
  pub read_bytes_lem : (f : h.Held) (at n : ℕ) → h.read_bytes f at n ≡ take n (drop at (contents f))
  pub write_bytes_lem :
      (f : h.Held) (at : ℕ) (bs : List ℕ)
      → (h.write_bytes f at bs).1 ≡ length bs
      → contents ((h.write_bytes f at bs).0) ≡ write_at (contents f) at bs
  pub set_size_lem :
      (f f' : h.Held) (n : ℕ) → h.set_size f n ≡ some f' → contents f' ≡ resize (contents f) n

-- `A.d4`
pub data FileKind : Type 0 where
  database : FileKind
  journal : FileKind

abbrev pub file_index : FileKind → ℕ
file_index database = 0
file_index journal = 1

-- The map of the paths.
unfoldable pub file_kind : String → Option FileKind
file_kind a =
    if str_eq a "/database"
    then some database
    else (if str_eq a "/database-journal" then some journal else none)

module _ (h : Handles) where
  -- The fields `d`, `f`, `e` and `r`.
  pub record TwoFiles : Type 0 where
    pub meta : h.Held
    pub main : h.Held
    pub log : h.Held
    pub flags : List ℕ
    pub memory : Files

  -- `A.iK`, and a file in memory with the flags that opening it gives.
  pub data Opened : Type 0 where
    in_memory : File → ℕ → Opened
    on_disk : FileKind → Bool → ℕ → Opened

  abbrev pub held : TwoFiles → FileKind → h.Held
  held s database = s.main
  held s journal = s.log

  abbrev pub with_held : TwoFiles → FileKind → h.Held → TwoFiles
  with_held s database f = record s { main = f }
  with_held s journal f = record s { log = f }

  -- `dU`
  unfoldable pub set_flag : FileKind → Bool → TwoFiles → TwoFiles
  unfolding overwrite
  set_flag a b s =
      let e = overwrite s.flags (file_index a) ((if b then 1 else 0) ∷ []) in
      record s { flags = e; meta = (h.write_bytes s.meta 0 e).0 }

  -- `A.k7(p.d,e,{at: 0})`
  unfoldable pub read_flags : TwoFiles → TwoFiles
  unfolding overwrite
  read_flags s = record s { flags = overwrite s.flags 0 (h.read_bytes s.meta 0 (length s.flags)) }

  -- `cg`, xAccess.
  unfoldable pub access_named : TwoFiles → String → TwoFiles × ℕ
  unfolding file_kind read_flags access
  access_named s a = elim (file_kind a) [
    | none ↦ (s, access s.memory a)
    | some k ↦ let s' = read_flags s in (s', byte s'.flags (file_index k))
  ]

  -- `dc`, xDelete.
  unfoldable pub delete_named : TwoFiles → String → TwoFiles
  unfolding file_kind set_flag delete
  delete_named s a = elim (file_kind a) [
    | none ↦ record s { memory = delete s.memory a }
    | some k ↦ set_flag k false s
  ]

  abbrev pub open_in_memory : TwoFiles → Option String → String → ℕ → Result (TwoFiles × Opened)
  open_in_memory s name random_path flags = elim (open_file s.memory name random_path flags) [
    | err c ↦ err c
    | ok (memory, f, out) ↦ ok (record s { memory = memory }, in_memory f out)
  ]

  -- The rest of `aX` for one of the two files, after the flags were read.
  unfoldable pub open_on_disk : TwoFiles → FileKind → ℕ → Result (TwoFiles × Opened)
  unfolding set_flag
  open_on_disk s k flags =
      let opened = on_disk k (not (bit_and flags 8 == 0)) 0 in
      if not (byte s.flags (file_index k) == 0)
      then ok (s, opened)
      else (if bit_and flags 4 == 0 then err 14 else elim (h.set_size (held s k) 0) [
        | none ↦ err 1
        | some f ↦ ok (set_flag k true (with_held s k f), opened)
      ])

  -- `aX`, xOpen.
  unfoldable pub open_named : TwoFiles → Option String → String → ℕ → Result (TwoFiles × Opened)
  unfolding file_kind open_on_disk read_flags open_file
  open_named s none random_path flags = open_in_memory s none random_path flags
  open_named s (some o) random_path flags = elim (file_kind o) [
    | none ↦ open_in_memory s (some o) random_path flags
    | some k ↦ open_on_disk (read_flags s) k flags
  ]

  -- `eG` and xRead: a short read clears the rest of the array and throws 522.
  unfoldable pub read_named : TwoFiles → FileKind → List ℕ → ℕ → List ℕ × Option ℕ
  unfolding overwrite fill_range
  read_named s k a b =
      let got = h.read_bytes (held s k) b (length a) in
      let a' = overwrite a 0 got in
      if ltb (length got) (length a)
      then (fill_range a' (length got) (length a) 0, some 522)
      else (a', none)

  -- `be`, xWrite, with the code that is thrown.
  unfoldable pub write_named : TwoFiles → FileKind → List ℕ → ℕ → TwoFiles × Option ℕ
  write_named s k a b =
      let (f, n) = h.write_bytes (held s k) b a in
      (with_held s k f, if ltb n (length a) then some 778 else none)

  -- `cl`, `ck` and `dg`.
  unfoldable pub truncate_named : TwoFiles → FileKind → ℕ → Option TwoFiles
  truncate_named s k n = elim (h.set_size (held s k) n) [
    | none ↦ none
    | some f ↦ some (with_held s k f)
  ]

  abbrev pub size_named : TwoFiles → FileKind → ℕ
  size_named s k = h.size (held s k)

  abbrev pub sync_named : TwoFiles → FileKind → TwoFiles
  sync_named s k = with_held s k (h.flush (held s k))

  -- `de` and `dh`, and `da`.
  abbrev pub lock_named : Opened → ℕ → Opened
  lock_named (in_memory f out) a = in_memory (lock f a) out
  lock_named (on_disk k delete_on_close e) a = on_disk k delete_on_close a

  abbrev pub check_reserved_named : Opened → ℕ
  check_reserved_named (in_memory f out) = check_reserved_lock f
  check_reserved_named (on_disk k delete_on_close e) = if leb 2 e then 1 else 0

  -- `ci`, xClose.
  unfoldable pub close_named : TwoFiles → FileKind → Bool → TwoFiles
  unfolding set_flag
  close_named s k delete_on_close =
      let s' = sync_named s k in if delete_on_close then set_flag k false s' else s'

  -- `A.hL`, once the handles are there.
  unfoldable pub start_two_files : h.Held → h.Held → h.Held → Option TwoFiles
  unfolding zeros
  start_two_files meta main log = elim (h.set_size meta 2) [
    | none ↦ none
    | some i ↦ some (record { meta = i; main = main; log = log; flags = zeros 2; memory = [] })
  ]
