-- ===== src/Opfs/Transfers/Writing.antt =====
-- The loop `be` of `A.i4` in mobile/web/drift_worker.dart.js, which writes chunks of 65536 bytes.
use mathlib.Core.Path.{subst}
use bojairu.Prelude.{
  ℕ, zero, suc, ◌+◌, ◌-◌, ◌^◌, ◌≤◌, ◌<◌, ◌≡◌, refl, sym, ap, ◌∙◌, List, [], ◌∷◌, length, take, drop,
  min, arith, length-take, length-drop,
}
use bojairu.Prelude.Int.{pos}
use bojairu.Bytes.{overwrite}
use bojairu.Bytes.Flat.{write_at, length-overwrite}
use bojairu.Bytes.Pieces.{put, put-write_at, take-drop, take-overwrite}
use bojairu.Opfs.{Opfs, OpfsLaws, OpenFile, Worker, Reply, answer, continue, numbers}
use bojairu.Opfs.Client.{write_chunk, write_chunks}
use bojairu.Opfs.Transfers.{IsReady, call_write}

module _ {o : Opfs} (laws : OpfsLaws o) where
  -- The disk has room: each write takes all its bytes.
  abbrev pub HasRoom : OpenFile o → Type 0
  HasRoom f = (d : o.Disk) (at : ℕ) (bs : List ℕ) → (o.write_bytes d f.file at bs).1 ≡ length bs

  -- The state after a chunk was written.
  abbrev chunk_written : OpenFile o → ℕ → ℕ → List ℕ → Worker o → Worker o
  chunk_written f fd at chunk w = record w {
    disk = (o.write_bytes w.disk f.file at chunk).0;
    memory = overwrite w.memory 0 chunk;
    message = numbers (pos fd) (pos at) (pos (length chunk));
  }

  write_chunk_lem :
      (w : Worker o) (fd : ℕ) (f : OpenFile o) (at : ℕ) (chunk : List ℕ)
      → IsReady fd f w
      → HasRoom f
      → at < 2 ^ 31
      → length chunk < 2 ^ 31
      → write_chunk (pos fd) at chunk w
        ≡ (chunk_written f fd at chunk w, answer (numbers (pos fd) (pos at) (pos (length chunk))))
  unfolding write_chunk
  write_chunk_lem w fd f at chunk v r h k =
      let e : take (length chunk) (overwrite w.memory 0 chunk) ≡ chunk =
        take-overwrite w.memory chunk in
      call_write (record w { memory = overwrite w.memory 0 chunk }) fd f at (length chunk) v.0 v.1 h
        k (rw e (r w.disk at chunk))
      ∙ rw e refl

  chunk_written-IsReady :
      (w : Worker o) (fd : ℕ) (f : OpenFile o) (at : ℕ) (chunk : List ℕ)
      → IsReady fd f w
      → length chunk ≤ 65536
      → IsReady fd f (chunk_written f fd at chunk w)
  chunk_written-IsReady w fd f at chunk v h =
      (v.0, v.1, omega (arith, length-overwrite w.memory 0 chunk (omega (arith, v.2)), v.2))

  -- What a run of `be` leaves behind.
  abbrev pub Written : ℕ → OpenFile o → ℕ → List ℕ → Worker o → Worker o × Reply Unit → Type 0
  Written fd f at bs w r =
      (r.1 ≡ answer tt)
      × (laws.contents (r.0).disk f.file ≡ put (laws.contents w.disk f.file) at bs)
      × IsReady fd f r.0

  Written-chunk_written :
      (w : Worker o) (fd : ℕ) (f : OpenFile o) (at b : ℕ) (bs : List ℕ) (x : Worker o × Reply Unit)
      → HasRoom f
      → Written fd f
          (at + min 65536 (length (b ∷ bs)))
          (drop 65536 (b ∷ bs))
          (chunk_written f fd at (take 65536 (b ∷ bs)) w)
          x
      → Written fd f at (b ∷ bs) w x
  Written-chunk_written w fd f at b bs x r v =
      let chunk = take 65536 (b ∷ bs) in
      let rest = drop 65536 (b ∷ bs) in
      let C = laws.contents w.disk f.file in
      let l : length chunk ≡ min 65536 (length (b ∷ bs)) = length-take 65536 (b ∷ bs) in
      (
        v.0,
        v.1
            ∙ ap (λ c. put c (at + min 65536 (length (b ∷ bs))) rest)
                (laws.write_bytes_lem w.disk f.file at chunk (r w.disk at chunk))
            ∙ ap (λ n. put (write_at C at chunk) (at + n) rest) (sym l)
            ∙ put-write_at C at chunk rest
            ∙ ap (λ z. write_at C at z) (take-drop 65536 (b ∷ bs)),
        v.2,
      )

  pub write_chunks_lem :
      (fuel : ℕ) (w : Worker o) (fd : ℕ) (f : OpenFile o) (at : ℕ) (bs : List ℕ)
      → length bs ≤ fuel
      → at + length bs < 2 ^ 31
      → IsReady fd f w
      → HasRoom f
      → Written fd f at bs w (write_chunks fuel (pos fd) at bs w)
  unfolding write_chunks
  write_chunks_lem zero w fd f at [] k h v r = (refl, refl, v)
  write_chunks_lem zero w fd f at (b ∷ bs) k h v r = absurd (omega arith)
  write_chunks_lem (suc fuel) w fd f at [] k h v r = (refl, refl, v)
  write_chunks_lem (suc fuel) w fd f at (b ∷ bs) k h v r =
      let chunk = take 65536 (b ∷ bs) in
      let rest = drop 65536 (b ∷ bs) in
      let w' = chunk_written f fd at chunk w in
      let l : length chunk ≡ min 65536 (length (b ∷ bs)) = length-take 65536 (b ∷ bs) in
      let m : length rest ≡ length (b ∷ bs) - 65536 = length-drop 65536 (b ∷ bs) in
      let sent = write_chunk_lem w fd f at chunk v r (omega arith) (omega (arith, l)) in
      let IH =
        write_chunks_lem fuel w' fd f (at + min 65536 (length (b ∷ bs))) rest (omega (arith, m, k))
          (omega (arith, m, h)) (chunk_written-IsReady w fd f at chunk v (omega (arith, l))) r in
      subst
        (λ x.
          Written fd f at (b ∷ bs) w
            (continue x (λ m. write_chunks fuel (pos fd) (at + min 65536 (length (b ∷ bs))) rest)))
        (sym sent)
        (Written-chunk_written w fd f at b bs
          (write_chunks fuel (pos fd) (at + min 65536 (length (b ∷ bs))) rest w') r IH)
