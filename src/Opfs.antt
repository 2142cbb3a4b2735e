-- ===== src/Opfs.antt =====
-- The OPFS file system of mobile/web/drift_worker.dart.js: the worker `A.eT`, which holds the files of
-- the origin private file system open, and the memory that its client `A.du` shares with it. The
-- browser's file system and the names of paths are parameters.
pub mod Access
pub mod Client
mod Examples
pub mod Handles
pub mod Invariant
pub mod Life
pub mod Locks
pub mod Relocking
pub mod Rounds
pub mod Serving
pub mod Sizes
pub mod Steps
pub mod Transfers
pub use bojairu.Prelude.{without, among}
use Prim.Native.String.{String}
use bojairu.Prelude.{
  ℕ, ◌+◌, ◌≤◌, ◌≡◌, ◌≢◌, Bool, true, false, not, Option, none, some, List, [], ◌∷◌, ◌++◌,
  if◌then◌else◌, length, take, drop, leb, ltb, ◌==◌, ◌%◌, ◌-◌, ◌^◌, min,
}
use bojairu.Prelude.Dict.{lookup, nat_Eq}
use bojairu.Prelude.Int.{ℤ, pos, negsuc}
use bojairu.Bytes.Flat.{write_at, resize}

-- The browser: `none` is a promise that is rejected, or a call that throws.
pub record Opfs : Type 1 where
  pub Disk : Type 0
  pub Directory : Type 0
  pub File : Type 0
  -- `getDirectoryHandle(name,{create})`, `getFileHandle(name,{create})` and `removeEntry(name)`
  pub get_directory : Disk → Directory → String → Bool → Option (Disk × Directory)
  pub get_file : Disk → Directory → String → Bool → Option (Disk × File)
  pub remove_entry : Disk → Directory → String → Option Disk
  -- `createSyncAccessHandle()`, which locks the file; time goes on whether it succeeds or not.
  pub acquire : Disk → File → Disk × Bool
  -- `close()`, `flush()`, `getSize()`, `truncate(n)`, `read` and `write` of such a handle
  pub release : Disk → File → Disk
  pub flush : Disk → File → Disk
  pub size : Disk → File → ℕ
  pub set_size : Disk → File → ℕ → Option Disk
  pub read_bytes : Disk → File → ℕ → ℕ → List ℕ
  pub write_bytes : Disk → File → ℕ → List ℕ → Disk × ℕ
  -- the path relative to "/", and its parts (Dart's package path)
  pub relative : String → String
  pub split : String → List String
  -- UTF-8
  pub to_bytes : String → List ℕ
  pub of_bytes : List ℕ → String

-- What the browser documents of a file that is held open. A read gives the bytes that are there. A
-- write that takes all the bytes leaves them in the file.
pub record OpfsLaws (o : Opfs) : Type 1 where
  pub contents : o.Disk → o.File → List ℕ
  pub read_bytes_lem :
      (d : o.Disk) (f : o.File) (at n : ℕ) → o.read_bytes d f at n ≡ take n (drop at (contents d f))
  pub write_bytes_lem :
      (d : o.Disk) (f : o.File) (at : ℕ) (bs : List ℕ)
      → (o.write_bytes d f at bs).1 ≡ length bs
      → contents (o.write_bytes d f at bs).0 f ≡ write_at (contents d f) at bs

-- `A.dI`: `handle` says whether `x` holds a synchronous handle.
pub record OpenFile (o : Opfs) : Type 0 where
  pub read_only : Bool
  pub delete_on_close : Bool
  pub directory : o.Directory
  pub name : String
  pub file : o.File
  pub explicit : Bool
  pub handle : Bool

-- The three numbers of `A.P`, and the name of `A.aV` with its length.
pub record Message : Type 0 where
  pub first : ℤ
  pub second : ℤ
  pub third : ℤ

-- `A.eT` and the shared memory: the first 65536 bytes (`memory`) and the 32-bit numbers behind them.
pub record Worker (o : Opfs) : Type 0 where
  pub disk : o.Disk
  pub root : o.Directory
  pub next : ℕ
  pub open_files : List (ℕ × OpenFile o)
  pub implicit : List ℕ
  pub memory : List ℕ
  pub message : Message
  pub name_length : ℤ
  pub stopped : Bool

-- The answer of a call, or the code of its exception. An exception of JavaScript has the code 1.
pub data Reply (A : Type 0) : Type 0 where
  answer : A → Reply A
  failure : ℕ → Reply A

abbrev pub Action : Opfs → Type 0 → Type 0
Action o A = Worker o → Worker o × Reply A

module _ {o : Opfs} where
  abbrev pub continue : {A B : Type 0} → Worker o × Reply A → (A → Action o B) → Worker o × Reply B
  continue (w, answer a) f = f a w
  continue (w, failure c) f = (w, failure c)

  infixl 5 ◌>>=◌
  abbrev pub ◌>>=◌ : {A B : Type 0} → Action o A → (A → Action o B) → Action o B
  m >>= f = λ w. continue (m w) f

  abbrev pub pure : {A : Type 0} → A → Action o A
  pure a w = (w, answer a)

  abbrev pub fail : {A : Type 0} → ℕ → Action o A
  fail c w = (w, failure c)

  -- `try m catch h`
  abbrev pub caught : {A : Type 0} → Worker o × Reply A → Action o A → Worker o × Reply A
  caught (w, answer a) h = (w, answer a)
  caught (w, failure c) h = h w

  abbrev pub recover : {A : Type 0} → Action o A → Action o A → Action o A
  recover m h w = caught (m w) h

  -- `try m finally g`, where `g` does not throw.
  abbrev pub after : {A : Type 0} → Action o A → (Worker o → Worker o) → Action o A
  after m g w = (g (m w).0, (m w).1)

  abbrev pub or_fail : {A : Type 0} → ℕ → Option A → Action o A
  or_fail c none = fail c
  or_fail c (some a) = pure a

  -- A call of the browser that changes the disk.
  abbrev pub on_disk : {A : Type 0} → Option (o.Disk × A) → Action o A
  on_disk none w = (w, failure 1)
  on_disk (some p) w = (record w { disk = p.0 }, answer p.1)

-- `setInt32` and `getInt32`: a number modulo 2^32, with a sign.
unfoldable pub int32 : ℤ → ℤ
int32 (pos n) =
    if ltb (n % 2 ^ 32) (2 ^ 31) then pos (n % 2 ^ 32) else negsuc (2 ^ 32 - 1 - n % 2 ^ 32)
int32 (negsuc n) =
    if ltb (n % 2 ^ 32) (2 ^ 31) then negsuc (n % 2 ^ 32) else pos (2 ^ 32 - 1 - n % 2 ^ 32)

unfoldable pub int32_message : Message → Message
unfolding int32
int32_message m = record { first = int32 m.first; second = int32 m.second; third = int32 m.third }

abbrev pub numbers : ℤ → ℤ → ℤ → Message
numbers a b c = record { first = a; second = b; third = c }

abbrev pub with_member : ℕ → List ℕ → List ℕ
with_member n xs = if among n xs then xs else xs ++ (n ∷ [])
