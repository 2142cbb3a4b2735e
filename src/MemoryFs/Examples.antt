-- ===== src/MemoryFs/Examples.antt =====
-- Runs of the in-memory file system of mobile/web/drift_worker.dart.js.
use Prim.Native.String.{String}
use bojairu.Prelude.{ℕ, ◌≡◌, refl, false, none, some, List, [], ◌∷◌, if◌then◌else◌}
use bojairu.Prelude.Dict.{lookup, insert, string_Eq}
use bojairu.Bytes.Buffer.{empty_buffer}
use bojairu.Bytes.Buffer.Laws.{empty_buffer-IsValid}
use bojairu.Bytes.Flat.{write_at}
use bojairu.MemoryFs.{ok, Files, File, open_file, opened_path, read, write}
use bojairu.MemoryFs.Laws.{IsSound, file, file_or_empty, insert-IsSound, write_refines, read-write}
use bojairu.MemoryFs.Reach.{Reach, opened, here, next, reachable_write}

abbrev database_file : File
database_file = record { path = "/database"; delete_on_close = false; lock_level = 0 }

-- The files after "/database" has been opened with the flag that creates it.
abbrev one_file : Files
one_file = ("/database", empty_buffer) ∷ []

empty-IsSound : IsSound []
unfolding lookup
empty-IsSound = record { valid = λ k r e. cc }

one_file-IsSound : IsSound one_file
unfolding insert
one_file-IsSound = insert-IsSound [] "/database" empty_buffer empty-IsSound empty_buffer-IsValid

abbrev some_bytes : List ℕ
some_bytes = 7 ∷ (8 ∷ (9 ∷ []))

opening : open_file [] (some "/database") "" 6 ≡ ok (one_file, database_file, 0)
unfolding open_file opened_path lookup insert
opening = refl

reached : Reach [] one_file
reached = next here (opened (some "/database") "" 6 database_file 0 opening)

reachable_write_example :
    IsSound one_file × ((fs : Files) × (write one_file database_file some_bytes 5 ≡ some fs))
reachable_write_example = reachable_write one_file database_file some_bytes 5 reached

read-write_example :
    (fs : Files) × (write one_file database_file some_bytes 5 ≡ some fs)
    × (read fs database_file (0 ∷ (0 ∷ (0 ∷ []))) 5 ≡ (some_bytes, none))
read-write_example =
    read-write one_file database_file database_file some_bytes (0 ∷ (0 ∷ (0 ∷ []))) 5
      one_file-IsSound refl refl

write_refines_example :
    (fs : Files) × (write one_file database_file some_bytes 5 ≡ some fs)
    × IsSound fs
    × ((k : String)
        → file fs k ≡ (
            if string_Eq.beq "/database" k
            then some (write_at (file_or_empty one_file "/database") 5 some_bytes)
            else file one_file k))
write_refines_example = write_refines one_file database_file some_bytes 5 one_file-IsSound
