-- ===== src/MemoryFs/Reach.antt =====
-- Every state that the in-memory file system of the database worker
-- (mobile/web/drift_worker.dart.js, `A.he` and `A.is`) can reach.
use Prim.Native.String.{String}
use bojairu.Prelude.{ℕ, ◌≡◌, Bool-cases, ◌⊎◌, inl, inr, Option, some, List, [], arith}
use bojairu.Prelude.Dict.{lookup, insert, remove, lookup-remove, string_Eq}
use bojairu.Bytes.Buffer.{empty_buffer}
use bojairu.Bytes.Buffer.Laws.{empty_buffer-IsValid}
use bojairu.MemoryFs.{
  ok, Files, File, exists, opened_path, open_file, delete, close, truncate, write,
}
use bojairu.MemoryFs.Laws.{IsSound, insert-IsSound, write_refines, truncate_refines}

-- One call of a method that changes the map of files.
pub data Step : Files → Files → Type 0 where
  opened :
      {fs fs' : Files} (name : Option String) (random_path : String) (flags : ℕ) (h : File)
      (out : ℕ)
      → open_file fs name random_path flags ≡ ok (fs', h, out)
      → Step fs fs'
  deleted : {fs : Files} (k : String) → Step fs (delete fs k)
  closed : {fs : Files} (h : File) → Step fs (close fs h)
  truncated : {fs : Files} (h : File) (n : ℕ) → Step fs (truncate fs h n)
  wrote : {fs fs' : Files} (h : File) (a : List ℕ) (b : ℕ) → write fs h a b ≡ some fs' → Step fs fs'

pub data Reach : Files → Files → Type 0 where
  here : {fs : Files} → Reach fs fs
  next : {fs gs hs : Files} → Reach fs gs → Step gs hs → Reach fs hs

remove-IsSound : (fs : Files) (k : String) → IsSound fs → IsSound (remove k fs)
remove-IsSound fs k v = record {
  valid = λ j r e. ground (arith, lookup-remove k j fs, v.valid j r);
}

-- Opening a file leaves the files as they are, or adds an empty one.
open_file_cases :
    (fs fs' : Files) (name : Option String) (random_path : String) (flags out : ℕ) (h : File)
    → open_file fs name random_path flags ≡ ok (fs', h, out)
    → (fs' ≡ fs) ⊎ (fs' ≡ insert (opened_path name random_path) empty_buffer fs)
unfolding open_file
open_file_cases fs fs' name random_path flags out h e =
    elim (Bool-cases (exists fs (opened_path name random_path))) [
      | inl t ↦ inl (ground arith)
      | inr t ↦ inr (ground arith)
    ]

open_file-IsSound :
    (fs fs' : Files) (name : Option String) (random_path : String) (flags out : ℕ) (h : File)
    → IsSound fs
    → open_file fs name random_path flags ≡ ok (fs', h, out)
    → IsSound fs'
open_file-IsSound fs fs' name random_path flags out h v e =
    elim (open_file_cases fs fs' name random_path flags out h e) [
      | inl same ↦ rw same v
      | inr new ↦ rw new (insert-IsSound fs _ empty_buffer v empty_buffer-IsValid)
    ]

close-IsSound : (fs : Files) (h : File) → IsSound fs → IsSound (close fs h)
unfolding close
close-IsSound fs h v = elim (Bool-cases h.delete_on_close) [
  | inl t ↦ rw t (remove-IsSound fs h.path v)
  | inr t ↦ rw t v
]

write-IsSound :
    (fs fs' : Files) (h : File) (a : List ℕ) (b : ℕ)
    → IsSound fs
    → write fs h a b ≡ some fs'
    → IsSound fs'
write-IsSound fs fs' h a b v e =
    let (gs, done, sound, _) = write_refines fs h a b v in let same : fs' ≡ gs = cc in rw same sound

pub Step-IsSound : {fs gs : Files} → Step fs gs → IsSound fs → IsSound gs
unfolding delete
Step-IsSound (opened name random_path flags h out e) v =
    open_file-IsSound _ _ name random_path flags out h v e
Step-IsSound (deleted {fs} k) v = remove-IsSound fs k v
Step-IsSound (closed {fs} h) v = close-IsSound fs h v
Step-IsSound (truncated {fs} h n) v = (truncate_refines fs h n v).0
Step-IsSound (wrote h a b e) v = write-IsSound _ _ h a b v e

Reach-IsSound : {fs gs : Files} → IsSound fs → Reach fs gs → IsSound gs
Reach-IsSound v here = v
Reach-IsSound v (next r s) = Step-IsSound s (Reach-IsSound v r)

empty-IsSound : IsSound []
unfolding lookup
empty-IsSound = record { valid = λ k r e. cc }

-- In every state that is reached from the empty file system by opening, deleting, closing,
-- truncating and writing files, each file's buffer is valid, and no write to an open file fails.
pub reachable_write :
    (fs : Files) (h : File) (a : List ℕ) (b : ℕ)
    → Reach [] fs
    → IsSound fs × ((fs' : Files) × (write fs h a b ≡ some fs'))
reachable_write fs h a b r =
    let v = Reach-IsSound empty-IsSound r in
    let (fs', done, _, _) = write_refines fs h a b v in (v, (fs', done))
