-- ===== src/IndexedDb/Mirror/Examples.antt =====
-- Runs of the IndexedDB file system of mobile/web/drift_worker.dart.js.
use Prim.Native.Nat.{bit_and}
use Prim.Native.String.{String}
use text.Mathlib.Text.{◌==◌ as str_eq}
use text.Mathlib.TextEquality.{eq_iff}
use bojairu.Prelude.{
  ◌≡◌, ◌≢◌, ◌⊎◌, inl, inr, refl, sym, true, false, none, some, [], ◌∷◌, arith, Bool-cases,
}
use bojairu.Prelude.Dict.{lookup, insert}
use bojairu.Bytes.Buffer.{empty_buffer}
use bojairu.Bytes.Buffer.Laws.{empty_buffer-IsValid}
use bojairu.Bytes.Flat.{write_at}
use bojairu.MemoryFs.{ok, err, File, exists, opened_path}
use bojairu.MemoryFs.Laws.{IsSound, file, file_or_empty, insert-IsSound}
use bojairu.IndexedDb.Queue.{create_file}
use bojairu.IndexedDb.Queue.Order.{Store, Same}
use bojairu.IndexedDb.Mirror.{Task, IndexedFs, write_indexed, delete_indexed, open_indexed}
use bojairu.IndexedDb.Mirror.Follows.{persisted, Follows}
use bojairu.IndexedDb.Mirror.Writing.{write_indexed-Follows}
use bojairu.IndexedDb.Mirror.Deleting.{delete_indexed-Follows}
use bojairu.IndexedDb.Mirror.Opening.{open_indexed-Follows}

-- No task does anything.
abbrev Idle : Task → Store → Store → Type 0
Idle x s t = Same s t

abbrev no_files : Store
no_files k = none

-- "/a" was opened as a new file, and its creation runs.
abbrev one_file : IndexedFs
one_file = record {
  files = ("/a", empty_buffer) ∷ [];
  temporary = [];
  worker = record { closed = false; running = some (create_file "/a"); pending = [] };
}

empty-IsSound : IsSound []
unfolding lookup
empty-IsSound = record { valid = λ k r e. cc }

one_file-IsSound : IsSound one_file.files
unfolding insert
one_file-IsSound = insert-IsSound [] "/a" empty_buffer empty-IsSound empty_buffer-IsValid

only_there : (k : String) → k ≢ "/a" → persisted one_file k ≡ none
unfolding persisted file lookup
only_there k n = elim (Bool-cases (str_eq "/a" k)) [
  | inl e ↦ absurd (n (sym ((eq_iff "/a" k).0 e)))
  | inr e ↦ ground (arith, e)
]

one_file-Follows : Follows Idle no_files one_file
unfolding persisted file lookup
one_file-Follows = record {
  sound = one_file-IsSound;
  busy = λ e. cc e;
  kept = λ k e. cc e;
  queued = (no_files, λ k. refl, ((refl, refl), λ k n. only_there k n));
}

there : file one_file.files "/a" ≢ none
unfolding file lookup
there e = cc e

abbrev handle : File
handle = record { path = "/a"; delete_on_close = false; lock_level = 0 }

write_indexed-Follows_example :
    (fs : IndexedFs) × (write_indexed one_file handle (7 ∷ []) 2 (9 ∷ []) ≡ some fs)
    × Follows Idle no_files fs
    × (file fs.files "/a" ≡ some (write_at (file_or_empty one_file.files "/a") 2 (7 ∷ [])))
unfolding file_or_empty lookup
write_indexed-Follows_example =
    write_indexed-Follows Idle no_files one_file handle (7 ∷ []) 2 (9 ∷ []) one_file-Follows refl
      there (inl (empty_buffer, refl, omega arith))

delete_indexed-Follows_example :
    (fs : IndexedFs) × (delete_indexed one_file "/a" ≡ some fs)
    × Follows Idle no_files fs
    × (file fs.files "/a" ≡ none)
delete_indexed-Follows_example =
    delete_indexed-Follows Idle no_files one_file "/a" one_file-Follows refl there

open_indexed-Follows_example :
    (exists one_file.files (opened_path (some "/b") "") ≡ false
      → bit_and 6 4 ≡ 0
      → open_indexed one_file (some "/b") "" 6 ≡ err 14)
    × ((exists one_file.files (opened_path (some "/b") "") ≡ true) ⊎ (bit_and 6 4 ≢ 0)
        → (fs : IndexedFs) × (h : File) × (open_indexed one_file (some "/b") "" 6 ≡ ok (fs, h))
          × Follows Idle no_files fs
          × (h.path ≡ opened_path (some "/b") "")
          × (file fs.files (opened_path (some "/b") "")
              ≡ some (file_or_empty one_file.files (opened_path (some "/b") ""))))
open_indexed-Follows_example =
    open_indexed-Follows Idle no_files one_file (some "/b") "" 6 one_file-Follows refl
