-- ===== src/MemoryFs/Laws.antt =====
-- The in-memory file system as flat files: each operation of `A.he` and `A.is`
-- (mobile/web/drift_worker.dart.js) on the contents of the files.
use Prim.Native.String.{String}
use text.Mathlib.TextEquality.{eq_iff}
use bojairu.Prelude.{
  ℕ, zero, ◌+◌, ◌-◌, ◌<◌, ◌≡◌, ap, ◌∙◌, min, ◌&&◌, Option, none, some, List, [], arith, ltb,
  if◌then◌else◌, length, take, drop, replicate, Option-cases, inl, inr, length-take, length-drop,
  length-replicate, ext_of_get_or,
}
use bojairu.Prelude.Dict.{lookup, insert, lookup-insert, string_Eq}
use bojairu.Bytes.{fill_range}
use bojairu.Bytes.Flat.{
  byte, length-overwrite, byte-overwrite, byte-take, byte-drop, byte-beyond, byte-replicate_zero,
  write_at, resize, length-write_at, byte-write_at,
}
use bojairu.Bytes.Buffer.{Buffer, empty_buffer, contents, set_length, IsValid}
use bojairu.Bytes.Buffer.Laws.{
  length-contents, empty_buffer-IsValid, set_length-IsValid, contents-set_length, write_buffer_lem,
}
use bojairu.MemoryFs.{Files, File, read_into, read, truncate, write}

-- Every buffer of the file system is valid.
pub record IsSound (fs : Files) : Type 0 where
  pub valid : (k : String) (r : Buffer) → lookup k fs ≡ some r → IsValid r

-- What a file holds, if it exists.
unfoldable pub file : Files → String → Option (List ℕ)
file fs k = elim (lookup k fs) [ none ↦ none | some r ↦ some (contents r) ]

-- The contents of an existing file, and those of a new one.
unfoldable pub file_or_empty : Files → String → List ℕ
file_or_empty fs k = elim (file fs k) [ none ↦ [] | some f ↦ f ]

pub insert-IsSound :
    (fs : Files) (k : String) (r : Buffer) → IsSound fs → IsValid r → IsSound (insert k r fs)
insert-IsSound fs k r v w = record {
  valid = λ j q e. ground (arith, lookup-insert k j r fs, v.valid j q);
}

pub file-insert :
    (fs : Files) (k j : String) (r : Buffer)
    → file (insert k r fs) j ≡ (if string_Eq.beq k j then some (contents r) else file fs j)
unfolding file
file-insert fs k j r = ground (arith, lookup-insert k j r fs)

-- The buffer that an operation finds, or the new one, is valid and holds the file's contents.
found : Files → File → Buffer
found fs h = elim (lookup h.path fs) [ none ↦ empty_buffer | some r ↦ r ]

found-IsValid : (fs : Files) (h : File) → IsSound fs → IsValid (found fs h)
unfolding found
found-IsValid fs h v = elim (Option-cases (lookup h.path fs)) [
  | inl e ↦ rw (e, found) empty_buffer-IsValid
  | inr (r, e) ↦ rw (e, found) (v.valid h.path r e)
]

contents-found : (fs : Files) (h : File) → contents (found fs h) ≡ file_or_empty fs h.path
unfolding found file_or_empty file
contents-found fs h = ground arith

-- A write to an open file of a sound file system always succeeds. It leaves a sound file system in
-- which that file holds the old contents with the bytes written over them (a gap filled by zeros),
-- a deleted file is created anew, and every other file is as it was.
pub write_refines :
    (fs : Files) (h : File) (a : List ℕ) (b : ℕ)
    → IsSound fs
    → (fs' : Files) × (write fs h a b ≡ some fs')
      × IsSound fs'
      × ((k : String)
          → file fs' k ≡ (
              if string_Eq.beq h.path k
              then some (write_at (file_or_empty fs h.path) b a)
              else file fs k))
unfolding write found
write_refines fs h a b v =
    let (q, done, valid, same) = write_buffer_lem (found fs h) b a (found-IsValid fs h v) in
    (
      insert h.path q fs,
      rw (done, write),
      insert-IsSound fs h.path q v valid,
      λ k. file-insert fs h.path k q ∙ rw (same, contents-found fs h),
    )

truncate-found :
    (fs : Files) (h : File) (n : ℕ) → truncate fs h n ≡ insert h.path (set_length (found fs h) n) fs
unfolding truncate found
truncate-found fs h n = ground arith

-- In a sound file system, setting the length of an open file cuts it off or extends it by zeros,
-- leaves a sound file system, and touches no other file.
pub truncate_refines :
    (fs : Files) (h : File) (n : ℕ)
    → IsSound fs
    → IsSound (truncate fs h n)
      × ((k : String)
          → file (truncate fs h n) k ≡ (
              if string_Eq.beq h.path k
              then some (resize (file_or_empty fs h.path) n)
              else file fs k))
truncate_refines fs h n v =
    let w = found-IsValid fs h v in
    rw truncate-found (
      insert-IsSound fs h.path (set_length (found fs h) n) v (set_length-IsValid (found fs h) n w),
      λ k.
          file-insert fs h.path k (set_length (found fs h) n)
          ∙ rw (contents-set_length (found fs h) n w, contents-found fs h),
    )

-- What `eG` puts into the array, and the number that it returns.
read_into_lem :
    (fs : Files) (h : File) (a : List ℕ) (b i : ℕ)
    → IsSound fs
    → (length (read_into fs h a b).0 ≡ length a)
      × ((read_into fs h a b).1 ≡ min (length a) (length (file_or_empty fs h.path) - b))
      × (byte (read_into fs h a b).0 i ≡ (
          if ltb i (read_into fs h a b).1
          then byte (file_or_empty fs h.path) (b + i)
          else byte a i))
unfolding read_into file_or_empty file
read_into_lem fs h a b i v = elim (Option-cases (lookup h.path fs)) [
  | inl e ↦ ground arith
  | inr (r, e) ↦
      let s = min (length a) (r.len - b) in
      let d = take s (drop b (contents r)) in
      ground (
        arith,
        length-contents r (v.valid h.path r e),
        length-overwrite a 0 d,
        byte-overwrite a 0 d i,
        length-take s (drop b (contents r)),
        length-drop b (contents r),
        byte-take s (drop b (contents r)) i,
        byte-drop b (contents r) i,
      )
]

-- In a sound file system a read fills the whole array with the bytes of the file from the offset
-- on, zeros behind its end, and reports 522 exactly if the array is not empty and reaches behind
-- the end of the file.
pub read_lem :
    (fs : Files) (h : File) (a : List ℕ) (b : ℕ)
    → IsSound fs
    → (length (read fs h a b).0 ≡ length a)
      × ((i : ℕ) → i < length a → byte (read fs h a b).0 i ≡ byte (file_or_empty fs h.path) (b + i))
      × ((read fs h a b).1 ≡ (
          if ltb 0 (length a) && ltb (length (file_or_empty fs h.path)) (b + length a)
          then some 522
          else none))
unfolding read fill_range
read_lem fs h a b v =
    let f = file_or_empty fs h.path in
    let (a', s) = read_into fs h a b in
    let facts = read_into_lem fs h a b 0 v in
    let zeros : List ℕ = replicate (length a - s) 0 in
    (
      ground (arith, facts, length-replicate (length a - s) (zero), length-overwrite a' s zeros),
      λ i k. ground (
        arith,
        read_into_lem fs h a b i v,
        length-replicate (length a - s) (zero),
        byte-overwrite a' s zeros i,
        byte-replicate_zero (length a - s) (i - s),
        byte-beyond f (b + i),
      ),
      ground (arith, facts),
    )

-- The contents of the written file.
file_or_empty-write :
    (fs fs' : Files) (p k : String) (f : List ℕ)
    → k ≡ p
    → ((j : String) → file fs' j ≡ (if string_Eq.beq p j then some f else file fs j))
    → file_or_empty fs' k ≡ f
unfolding file_or_empty
file_or_empty-write fs fs' p k f e h = ground (arith, h k, eq_iff p k)

-- In a sound file system a write is never refused, and what was written is read back whole, with no
-- short read, by every open file of that path.
pub read-write :
    (fs : Files) (h g : File) (a old : List ℕ) (b : ℕ)
    → IsSound fs
    → g.path ≡ h.path
    → length old ≡ length a
    → (fs' : Files) × (write fs h a b ≡ some fs') × (read fs' g old b ≡ (a, none))
read-write fs h g a old b v p e =
    let (fs', done, sound, files) = write_refines fs h a b v in
    let f = write_at (file_or_empty fs h.path) b a in
    let same : file_or_empty fs' g.path ≡ f = file_or_empty-write fs fs' h.path g.path f p files in
    let (len, bytes, status) = read_lem fs' g old b sound in
    let back : (read fs' g old b).0 ≡ a = ext_of_get_or _ _ 0 (len ∙ e) (λ i k. ground (
      arith,
      bytes i,
      ap (λ (c : List ℕ). byte c (b + i)) same,
      byte-write_at (file_or_empty fs h.path) b a (b + i),
      ap (byte a) (cancel b i),
    )) in
    let full : (read fs' g old b).1 ≡ none = ground (
      arith,
      status,
      ap (λ (c : List ℕ). length c) same,
      length-write_at (file_or_empty fs h.path) b a,
    ) in
    (fs', done, λ i. (back i, full i))
  where
    cancel : (m n : ℕ) → m + n - m ≡ n
    cancel m n = omega arith
