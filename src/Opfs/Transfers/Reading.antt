-- ===== src/Opfs/Transfers/Reading.antt =====
-- The loop `eG` of `A.i4` in mobile/web/drift_worker.dart.js, which reads chunks of 65536 bytes.
use mathlib.Core.Path.{subst}
use bojairu.Prelude.{
  ℕ, zero, suc, ◌+◌, ◌-◌, ◌^◌, ◌≤◌, ◌<◌, ◌≡◌, refl, sym, ap, ◌∙◌, List, ◌++◌, if◌then◌else◌, length,
  take, drop, ltb, min, arith, length-append, length-take, Bool-cases, inl, inr,
}
use bojairu.Prelude.Int.{pos}
use bojairu.Bytes.{overwrite}
use bojairu.Bytes.Flat.{length-overwrite}
use bojairu.Bytes.Pieces.{
  take-overwrite, overwrite-overwrite, overwrite_nothing, drop-drop, take_pieces, take_all,
}
use bojairu.Opfs.{Opfs, OpfsLaws, OpenFile, Worker, Reply, answer, continue, pure, numbers}
use bojairu.Opfs.Client.{read_chunk, read_chunks}
use bojairu.Opfs.Transfers.{IsReady, call_read}

module _ {o : Opfs} (laws : OpfsLaws o) where
  -- What a run of `eG` gives: the bytes that the file has there, at the array's place `n`.
  abbrev pub bytes_there : OpenFile o → ℕ → ℕ → Worker o → List ℕ
  bytes_there f at i w = take i (drop at (laws.contents w.disk f.file))

  abbrev pub IsRead :
      ℕ → OpenFile o → ℕ → ℕ → ℕ → List ℕ → Worker o → Worker o × Reply (ℕ × List ℕ) → Type 0
  IsRead fd f at i n array w r =
      (r.1
        ≡ answer (
          n + length (bytes_there f (at + n) i w),
          overwrite array n (bytes_there f (at + n) i w),
        ))
      × ((r.0).disk ≡ w.disk)
      × IsReady fd f r.0

  abbrev chunk_read : OpenFile o → ℕ → ℕ → Worker o → Worker o
  chunk_read f at m w = record w {
    memory = overwrite w.memory 0 (bytes_there f at m w);
    message = numbers (pos (length (bytes_there f at m w))) (pos 0) (pos 0);
  }

  read_chunk_lem :
      (w : Worker o) (fd : ℕ) (f : OpenFile o) (at n m : ℕ) (array : List ℕ)
      → IsReady fd f w
      → at + n < 2 ^ 31
      → m < 2 ^ 31
      → read_chunk (pos fd) at m n array w ≡ (
        chunk_read f (at + n) m w,
        answer
            (length (bytes_there f (at + n) m w), overwrite array n (bytes_there f (at + n) m w)),
      )
  unfolding read_chunk
  read_chunk_lem w fd f at n m array v h k =
      let bs = bytes_there f (at + n) m w in
      let e : o.read_bytes w.disk f.file (at + n) m ≡ bs =
        laws.read_bytes_lem w.disk f.file (at + n) m in
      let l : length bs ≤ m =
        omega (arith, length-take m (drop (at + n) (laws.contents w.disk f.file))) in
      rw (call_read w fd f (at + n) m v.0 v.1 h k (rw e l), e, take-overwrite w.memory bs) refl

  chunk_read-IsReady :
      (w : Worker o) (fd : ℕ) (f : OpenFile o) (at m : ℕ)
      → IsReady fd f w
      → m ≤ 65536
      → IsReady fd f (chunk_read f at m w)
  chunk_read-IsReady w fd f at m v h =
      let l = length-take m (drop at (laws.contents w.disk f.file)) in
      (
        v.0,
        v.1,
        omega (
          arith,
          length-overwrite w.memory 0 (bytes_there f at m w) (omega (arith, v.2, l)),
          v.2,
        ),
      )

  nothing-IsRead :
      (w : Worker o) (fd : ℕ) (f : OpenFile o) (at n : ℕ) (array : List ℕ)
      → IsReady fd f w
      → IsRead fd f at 0 n array w (w, answer (n, array))
  nothing-IsRead w fd f at n array v =
      let e : n ≡ n + 0 = omega arith in
      (rw (overwrite_nothing array n) (ap (λ k. answer (k, array)) e), refl, v)

  -- A chunk that the file ends in is the last one.
  short-IsRead :
      (w : Worker o) (fd : ℕ) (f : OpenFile o) (at i n : ℕ) (array : List ℕ)
      → IsReady fd f w
      → length (bytes_there f (at + n) (min 65536 (suc i)) w) < min 65536 (suc i)
      → IsRead fd f at (suc i) n array w (
        chunk_read f (at + n) (min 65536 (suc i)) w,
        answer (
          n + length (bytes_there f (at + n) (min 65536 (suc i)) w),
          overwrite array n (bytes_there f (at + n) (min 65536 (suc i)) w),
        ),
      )
  short-IsRead w fd f at i n array v h =
      let m = min 65536 (suc i) in
      let D = drop (at + n) (laws.contents w.disk f.file) in
      let l : length (take m D) ≡ min m (length D) = length-take m D in
      let e : take m D ≡ take (suc i) D =
        take_all m D (omega arith) ∙ sym (take_all (suc i) D (omega arith)) in
      (
        ap (λ z. answer (n + length z, overwrite array n z)) e,
        refl,
        chunk_read-IsReady w fd f (at + n) m v (omega arith),
      )

  full-IsRead :
      (w : Worker o) (fd : ℕ) (f : OpenFile o) (at i n : ℕ) (array : List ℕ)
      → n + suc i ≡ length array
      → length (bytes_there f (at + n) (min 65536 (suc i)) w) ≡ min 65536 (suc i)
      → (x : Worker o × Reply (ℕ × List ℕ))
      → IsRead fd f at
          (suc i - min 65536 (suc i))
          (n + length (bytes_there f (at + n) (min 65536 (suc i)) w))
          (overwrite array n (bytes_there f (at + n) (min 65536 (suc i)) w))
          (chunk_read f (at + n) (min 65536 (suc i)) w)
          x
      → IsRead fd f at (suc i) n array w x
  full-IsRead w fd f at i n array e h x v =
      let m = min 65536 (suc i) in
      let C = laws.contents w.disk f.file in
      let D = drop (at + n) C in
      let bs = take m D in
      let bs2 = take (suc i - m) (drop (at + (n + length bs)) C) in
      let d : drop (at + (n + length bs)) C ≡ drop m D =
        ap (λ k. drop k C) (omega arith) ∙ sym (drop-drop m (at + n) C) in
      let both : bs ++ bs2 ≡ take (suc i) D =
        ap (λ z. bs ++ take (suc i - m) z) d ∙ take_pieces m (suc i) D (omega arith) in
      let l : length (bs ++ bs2) ≡ length bs + length bs2 = length-append bs bs2 in
      let k = length-take (suc i - m) (drop (at + (n + length bs)) C) in
      (
        v.0
            ∙ ap (λ z. answer (z, overwrite (overwrite array n bs) (n + length bs) bs2))
                (omega arith)
            ∙ ap (λ z. answer (n + length (bs ++ bs2), z))
                (overwrite-overwrite array n bs bs2 (omega (arith, h, k, e)))
            ∙ ap (λ z. answer (n + length z, overwrite array n z)) both,
        v.1,
        v.2,
      )

  pub read_chunks_lem :
      (fuel : ℕ) (w : Worker o) (fd : ℕ) (f : OpenFile o) (at i n : ℕ) (array : List ℕ)
      → i ≤ fuel
      → n + i ≡ length array
      → at + n + i < 2 ^ 31
      → IsReady fd f w
      → IsRead fd f at i n array w (read_chunks fuel (pos fd) at i n array w)
  unfolding read_chunks
  read_chunks_lem zero w fd f at zero n array k e h v = nothing-IsRead w fd f at n array v
  read_chunks_lem zero w fd f at (suc i) n array k e h v = absurd (omega arith)
  read_chunks_lem (suc fuel) w fd f at zero n array k e h v = nothing-IsRead w fd f at n array v
  read_chunks_lem (suc fuel) w fd f at (suc i) n array k e h v =
      let m = min 65536 (suc i) in
      let w' = chunk_read f (at + n) m w in
      let bs = bytes_there f (at + n) m w in
      let sent = read_chunk_lem w fd f at n m array v (omega arith) (omega arith) in
      subst
        (λ x. IsRead fd f at (suc i) n array w (
          continue x (λ r.
            if ltb r.0 m
            then pure (n + r.0, r.1)
            else read_chunks fuel (pos fd) at (suc i - m) (n + r.0) r.1)))
        (sym sent)
        (elim (Bool-cases (ltb (length bs) m)) [
          | inl b ↦ rw b (short-IsRead w fd f at i n array v (ground (arith, b)))
          | inr b ↦
              let lb : length bs ≡ m =
                ground (arith, b, length-take m (drop (at + n) (laws.contents w.disk f.file))) in
              let la = length-overwrite array n bs (omega (arith, lb, e)) in
              let IH =
                read_chunks_lem fuel w' fd f at (suc i - m) (n + length bs) (overwrite array n bs)
                  (omega arith) (omega (arith, la, lb, e)) (omega (arith, lb))
                  (chunk_read-IsReady w fd f (at + n) m v (omega arith)) in
              rw b (
                full-IsRead w fd f at i n array e lb
                  (read_chunks fuel (pos fd) at (suc i - m) (n + length bs) (overwrite array n bs)
                    w')
                  IH)
        ])
