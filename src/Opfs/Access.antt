-- ===== src/Opfs/Access.antt =====
-- What SQLite sees of the OPFS file system of mobile/web/drift_worker.dart.js: whole reads and writes.
use bojairu.Prelude.{ℕ, ◌+◌, ◌^◌, ◌<◌, ◌≡◌, ap, ◌∙◌, List, ◌∷◌, length, take, drop, arith}
use bojairu.Prelude.Int.{pos}
use bojairu.Bytes.{overwrite}
use bojairu.Bytes.Flat.{write_at}
use bojairu.Bytes.Pieces.{take_written, overwrite_whole}
use bojairu.Opfs.{Opfs, OpfsLaws, OpenFile, Worker, answer}
use bojairu.Opfs.Client.{read_remote, write_remote}
use bojairu.Opfs.Transfers.{IsReady}
use bojairu.Opfs.Transfers.Writing.{HasRoom, Written, write_chunks_lem}
use bojairu.Opfs.Transfers.Reading.{bytes_there, read_chunks_lem}

module _ {o : Opfs} (laws : OpfsLaws o) where
  -- A write of the OPFS client to a file that the worker holds open, of any length and below 2 GiB,
  -- succeeds if the disk takes all bytes: the chunks that go through the shared memory leave the
  -- file with the whole array written at its offset (an empty array changes nothing), and the
  -- worker as ready as before.
  pub write_remote_lem :
      (w : Worker o) (fd : ℕ) (f : OpenFile o) (at : ℕ) (bs : List ℕ)
      → at + length bs < 2 ^ 31
      → IsReady fd f w
      → HasRoom laws f
      → Written laws fd f at bs w (write_remote (pos fd) bs at w)
  unfolding write_remote
  write_remote_lem w fd f at bs h v r =
      write_chunks_lem laws (length bs) w fd f at bs (omega arith) h v r

  -- A read of the OPFS client from a file that the worker holds open, of any length and below 2
  -- GiB, gives the bytes that the file has from the offset on, as many as fit into the array, at
  -- the array's start, leaves the rest of the array and the disk as they were, and the worker as
  -- ready as before.
  pub read_remote_lem :
      (w : Worker o) (fd : ℕ) (f : OpenFile o) (at : ℕ) (array : List ℕ)
      → at + length array < 2 ^ 31
      → IsReady fd f w
      → ((read_remote (pos fd) array at w).1
          ≡ answer (
            length (bytes_there laws f at (length array) w),
            overwrite array 0 (bytes_there laws f at (length array) w),
          ))
        × ((read_remote (pos fd) array at w).0.disk ≡ w.disk)
        × IsReady fd f (read_remote (pos fd) array at w).0
  unfolding read_remote
  read_remote_lem w fd f at array h v =
      let r =
        read_chunks_lem laws (length array) w fd f at (length array) 0 array (omega arith)
          (omega arith) (omega arith) v in
      let e : at + 0 ≡ at = omega arith in
      let there : ℕ → List ℕ = λ k. bytes_there laws f k (length array) w in
      (
        r.0
            ∙ ap (λ k. answer (0 + length (there k), overwrite array 0 (there k))) e
            ∙ ap (λ m. answer (m, overwrite array 0 (there at))) (omega arith),
        r.1,
        r.2,
      )

  -- What the OPFS client has written to a file that the worker holds open, below 2 GiB and if the
  -- disk takes all bytes, a read of the same length at the same offset gives back.
  pub read_remote-write_remote :
      (w : Worker o) (fd : ℕ) (f : OpenFile o) (at b : ℕ) (bs array : List ℕ)
      → length array ≡ length (b ∷ bs)
      → at + length (b ∷ bs) < 2 ^ 31
      → IsReady fd f w
      → HasRoom laws f
      → (read_remote (pos fd) array at (write_remote (pos fd) (b ∷ bs) at w).0).1
        ≡ answer (length (b ∷ bs), b ∷ bs)
  read_remote-write_remote w fd f at b bs array e h v r =
      let written = write_remote_lem w fd f at (b ∷ bs) h v r in
      let w' = (write_remote (pos fd) (b ∷ bs) at w).0 in
      let there : bytes_there laws f at (length array) w' ≡ b ∷ bs =
        ap (λ c. take (length array) (drop at c)) written.1
        ∙ ap (λ n. take n (drop at (write_at (laws.contents w.disk f.file) at (b ∷ bs)))) e
        ∙ take_written (laws.contents w.disk f.file) at (b ∷ bs) in
      (read_remote_lem w' fd f at array (omega arith) written.2).0
      ∙ ap (λ z. answer (length z, overwrite array 0 z)) there
      ∙ ap (λ z. answer (length (b ∷ bs), z)) (overwrite_whole array (b ∷ bs) e)
