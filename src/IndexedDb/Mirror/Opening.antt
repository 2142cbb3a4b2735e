-- ===== src/IndexedDb/Mirror/Opening.antt =====
-- Opening a file that the database worker (mobile/web/drift_worker.dart.js, `A.d5.aX`) keeps in
-- memory, and the stored file behind it.
use Prim.Native.Nat.{bit_and}
use Prim.Native.String.{String}
use text.Mathlib.Text.{◌==◌ as str_eq}
use text.Mathlib.TextEquality.{eq_iff}
use bojairu.Prelude.{
  ℕ, ◌≡◌, ◌≢◌, refl, sym, ap, ◌∙◌, true, false, not, Option, none, some, [], ◌==◌, if◌then◌else◌,
  arith, Bool-cases, inl, inr, ◌⊎◌,
}
use bojairu.Prelude.Dict.{insert, lookup-insert, string_Eq}
use bojairu.Bytes.Buffer.{empty_buffer}
use bojairu.MemoryFs.{ok, err, Files, File, exists, opened_path, open_file}
use bojairu.MemoryFs.Laws.{IsSound, file, file_or_empty, insert-IsSound}
use bojairu.Bytes.Buffer.Laws.{empty_buffer-IsValid}
use bojairu.IndexedDb.Queue.{create_file}
use bojairu.IndexedDb.Queue.Order.{Store, Same, Change, Creates}
use bojairu.IndexedDb.Queue.Dropping.{Runs-Same}
use bojairu.IndexedDb.Queue.Turns.{work}
use bojairu.IndexedDb.Mirror.{Task, IndexedFs, is_temporary, note_opened, open_indexed}
use bojairu.IndexedDb.Mirror.Follows.{persisted, Follows, submit_to-Follows}

file-insert_empty :
    (fs : Files) (a k : String)
    → file (insert a empty_buffer fs) k ≡ (if str_eq a k then some [] else file fs k)
unfolding file
file-insert_empty fs a k = ground (arith, lookup-insert a k empty_buffer fs)

-- The memory after a new file has been made there.
abbrev made : IndexedFs → String → IndexedFs
made fs o = record fs { files = insert o empty_buffer fs.files }

made_there :
    (fs : IndexedFs) (o : String)
    → file fs.files o ≡ none
    → is_temporary fs o ≡ false
    → Change o Creates (persisted fs) (persisted (made fs o))
unfolding persisted
made_there fs o new t =
    let self : str_eq o o ≡ true = (eq_iff o o).1 refl in
    (
      (ground arith, ground (arith, file-insert_empty fs.files o o)),
      λ k n. ground (arith, file-insert_empty fs.files o k, (eq_iff o k).0),
    )

noted_unchanged :
    (fs : IndexedFs) (o : String)
    → file fs.files o ≡ none
    → Same (persisted fs) (persisted (record (made fs o) { temporary = insert o tt fs.temporary }))
unfolding persisted
noted_unchanged fs o new k = ground (
  arith,
  lookup-insert o k tt fs.temporary,
  file-insert_empty fs.files o k,
  (eq_iff o k).0,
  ap (file fs.files),
)

exists_file : (fs : Files) (o : String) → exists fs o ≡ false → file fs o ≡ none
unfolding file
exists_file fs o e = ground arith

existing_file :
    (fs : Files) (o : String) → exists fs o ≡ true → file fs o ≡ some (file_or_empty fs o)
unfolding file file_or_empty
existing_file fs o e = ground arith

file_or_empty_new : (fs : Files) (o : String) → file fs o ≡ none → file_or_empty fs o ≡ []
unfolding file_or_empty
file_or_empty_new fs o e = rw (e, file_or_empty) refl

not_there :
    (fs : IndexedFs) (o : String)
    → ((k : String) → is_temporary fs k ≡ true → file fs.files k ≢ none)
    → file fs.files o ≡ none
    → is_temporary fs o ≡ false
not_there fs o kept new = elim (Bool-cases (is_temporary fs o)) [
  | inl t ↦ absurd (kept o t new)
  | inr t ↦ t
]

made_kept :
    (fs : IndexedFs) (o k : String)
    → (is_temporary fs k ≡ true → file fs.files k ≢ none)
    → is_temporary fs k ≡ true
    → file (made fs o).files k ≢ none
made_kept fs o k kept t gone = elim (Bool-cases (str_eq o k)) [
  | inl e ↦
      let now : file (made fs o).files k ≡ some [] = file-insert_empty fs.files o k ∙ rw e refl in
      cc (now, gone)
  | inr e ↦
      let now : file (made fs o).files k ≡ file fs.files k =
        file-insert_empty fs.files o k ∙ rw e refl in
      kept t (sym now ∙ gone)
]

noted_kept :
    (fs : IndexedFs) (o k : String)
    → (is_temporary fs k ≡ true → file fs.files k ≢ none)
    → is_temporary (record (made fs o) { temporary = insert o tt fs.temporary }) k ≡ true
    → file (made fs o).files k ≢ none
noted_kept fs o k kept t gone = elim (Bool-cases (str_eq o k)) [
  | inl e ↦
      let now : file (made fs o).files k ≡ some [] = file-insert_empty fs.files o k ∙ rw e refl in
      cc (now, gone)
  | inr e ↦
      let old : is_temporary fs k ≡ true =
        ground (arith, lookup-insert o k tt fs.temporary, t, e) in
      made_kept fs o k kept old gone
]

-- The handle that `A.he.aX` gives for a file.
handle : String → ℕ → File
handle o flags = record { path = o; delete_on_close = not (bit_and flags 8 == 0); lock_level = 0 }

open_missing :
    (fs : Files) (o random_path : String) (flags : ℕ)
    → exists fs o ≡ false
    → bit_and flags 4 ≡ 0
    → open_file fs (some o) random_path flags ≡ err 14
unfolding open_file opened_path
open_missing fs o random_path flags e z = ground arith

open_existing :
    (fs : Files) (o random_path : String) (flags : ℕ)
    → exists fs o ≡ true
    → open_file fs (some o) random_path flags ≡ ok (fs, handle o flags, 0)
unfolding open_file opened_path handle
open_existing fs o random_path flags e = ground arith

open_new :
    (fs : Files) (o random_path : String) (flags : ℕ)
    → exists fs o ≡ false
    → bit_and flags 4 ≢ 0
    → open_file fs (some o) random_path flags ≡ ok (insert o empty_buffer fs, handle o flags, 0)
unfolding open_file opened_path handle
open_new fs o random_path flags e n = ground arith

module _ (effect : Task → Store → Store → Type 0) where
  -- The new file is noted or its creation is queued.
  note_opened-Follows :
      (stored : Store) (fs : IndexedFs) (o : String) (flags : ℕ)
      → Follows effect stored fs
      → fs.worker.closed ≡ false
      → file fs.files o ≡ none
      → (fs' : IndexedFs) × (note_opened (made fs o) o false flags ≡ some fs')
        × Follows effect stored fs'
        × (fs'.files ≡ insert o empty_buffer fs.files)
  unfolding note_opened
  note_opened-Follows stored fs o flags f open_ new =
      let sound : IsSound (insert o empty_buffer fs.files) =
        insert-IsSound fs.files o empty_buffer f.sound empty_buffer-IsValid in
      elim (Bool-cases (bit_and flags 8 == 0)) [
        | inl e ↦
            let (fs', done, follows, kept) =
              submit_to-Follows effect stored (made fs o) (create_file o) (persisted fs) open_ sound
                f.busy (λ k t. made_kept fs o k (f.kept k) t) f.queued
                (made_there fs o new (not_there fs o f.kept new)) in
            (fs', ground (arith, done), follows, kept)
        | inr e ↦ (
          record (made fs o) { temporary = insert o tt fs.temporary },
          ground arith,
          record {
            sound = sound;
            busy = f.busy;
            kept = λ k t. noted_kept fs o k (f.kept k) t;
            queued =
                Runs-Same effect (work fs.worker) stored (persisted fs)
                  (persisted (record (made fs o) { temporary = insert o tt fs.temporary })) f.queued
                  (noted_unchanged fs o new);
          },
          refl,
        )
      ]

  -- In a file system that is not closed and whose queue leads from the stored files to those in
  -- memory: opening a missing file without the flag that creates it throws 14; otherwise the file
  -- opens under its path, an existing one with its contents and a new one empty, and again what
  -- runs and waits leads from the stored files to those in memory.
  pub open_indexed-Follows :
      (stored : Store) (fs : IndexedFs) (name : Option String) (random_path : String) (flags : ℕ)
      → Follows effect stored fs
      → fs.worker.closed ≡ false
      → (exists fs.files (opened_path name random_path) ≡ false
          → bit_and flags 4 ≡ 0
          → open_indexed fs name random_path flags ≡ err 14)
        × ((exists fs.files (opened_path name random_path) ≡ true) ⊎ (bit_and flags 4 ≢ 0)
            → (fs' : IndexedFs) × (h : File) × (open_indexed fs name random_path flags
                ≡ ok (fs', h))
              × Follows effect stored fs'
              × (h.path ≡ opened_path name random_path)
              × (file fs'.files (opened_path name random_path)
                  ≡ some (file_or_empty fs.files (opened_path name random_path))))
  unfolding open_indexed note_opened handle
  open_indexed-Follows stored fs name random_path flags f open_ =
      let o : String = opened_path name random_path in
      (
        λ e z. let r = open_missing fs.files o random_path flags e z in rw (r, open_indexed) refl,
        λ c. elim (Bool-cases (exists fs.files o)) [
          | inl e ↦
              let r = open_existing fs.files o random_path flags e in
              (fs, handle o flags, ground (arith, r), f, refl, existing_file fs.files o e)
          | inr e ↦
              let new : file fs.files o ≡ none = exists_file fs.files o e in
              let (fs', done, follows, kept) = note_opened-Follows stored fs o flags f open_ new in
              let r =
                open_new fs.files o random_path flags e
                  (elim c [ inl t ↦ absurd (ground (arith, t, e)) | inr n ↦ n ]) in
              let empty : file_or_empty fs.files o ≡ [] = file_or_empty_new fs.files o new in
              (
                fs',
                handle o flags,
                ground (arith, r, done),
                follows,
                refl,
                rw (kept, empty) (file-insert_empty fs.files o o ∙ rw ((eq_iff o o).1 refl) refl),
              )
        ],
      )
