-- ===== src/Opfs/Transfers.antt =====
-- Reads and writes of the OPFS file system of mobile/web/drift_worker.dart.js that are longer than the
-- shared memory.
pub mod Writing
pub mod Reading
use bojairu.Prelude.{
  ℕ, zero, suc, ◌+◌, ◌-◌, ◌%◌, ◌^◌, ◌≤◌, ◌<◌, ◌≡◌, refl, sym, ap, ◌∙◌, Bool, true, false, not, ◌&&◌,
  Option, none, some, List, [], ◌∷◌, ◌++◌, if◌then◌else◌, length, take, drop, ltb, ◌==◌, min, arith,
  length-append, length-take, length-drop,
}
use bojairu.Prelude.Dict.{lookup, nat_Eq}
use bojairu.Prelude.Int.{ℤ, pos, negsuc}
use bojairu.Bytes.{overwrite}
use bojairu.Bytes.Flat.{write_at}
use bojairu.Opfs.{
  Opfs, OpfsLaws, OpenFile, Message, Worker, Reply, answer, failure, Action, ◌>>=◌, pure, int32,
  int32_message, numbers,
}
use bojairu.Opfs.Serving.{file_of, Operation, x_read, x_write, ensure_handle}
use bojairu.Opfs.Rounds.{
  natural, round, put_reply, serve, serve_read, serve_write, read_into_memory, write_from_memory,
}
use bojairu.Opfs.Client.{
  call, take_reply, read_chunk, write_chunk, read_chunks, write_chunks, read_remote, write_remote,
}

int32_small : (n : ℕ) → n < 2 ^ 31 → int32 (pos n) ≡ pos n
unfolding int32
int32_small n h =
    let e : n % 2 ^ 32 ≡ n = omega arith in
    let l : ltb n (2 ^ 31) ≡ true = ground arith in rw (e, l) refl

pub sent_numbers :
    (a b c : ℕ)
    → a < 2 ^ 31
    → b < 2 ^ 31
    → c < 2 ^ 31
    → int32_message (numbers (pos a) (pos b) (pos c)) ≡ numbers (pos a) (pos b) (pos c)
unfolding int32_message
sent_numbers a b c h k l = rw (int32_small a h, int32_small b k, int32_small c l) refl

module _ {o : Opfs} where
  -- The file has the number `fd`, and its synchronous handle.
  abbrev pub IsHeld : ℕ → OpenFile o → Worker o → Type 0
  IsHeld fd f w = (lookup fd w.open_files ≡ some f) × (f.handle ≡ true)

  -- The file is held, its number is a small one, and the shared memory has its 65536 bytes.
  abbrev pub IsReady : ℕ → OpenFile o → Worker o → Type 0
  IsReady fd f w = IsHeld fd f w × (fd < 2 ^ 31) × (65536 ≤ length w.memory)

  pub file_of_held :
      (w : Worker o) (fd : ℕ) (f : OpenFile o)
      → lookup fd w.open_files ≡ some f
      → file_of (pos fd) w ≡ (w, answer (fd, f))
  file_of_held w fd f h = rw h refl

  serve_read_held :
      (w : Worker o) (fd : ℕ) (f : OpenFile o) (at n : ℕ)
      → IsHeld fd f w
      → serve_read (numbers (pos fd) (pos at) (pos n)) w ≡ read_into_memory f.file at n w
  unfolding serve_read ensure_handle
  serve_read_held w fd f at n h = rw (file_of_held w fd f h.0, h.1) refl

  serve_write_held :
      (w : Worker o) (fd : ℕ) (f : OpenFile o) (at n : ℕ)
      → IsHeld fd f w
      → serve_write (numbers (pos fd) (pos at) (pos n)) w ≡ write_from_memory f.file at n w
  unfolding serve_write ensure_handle
  serve_write_held w fd f at n h = rw (file_of_held w fd f h.0, h.1) refl

  -- A read that stays below 2 GiB.
  pub call_read :
      (w : Worker o) (fd : ℕ) (f : OpenFile o) (at n : ℕ)
      → IsHeld fd f w
      → fd < 2 ^ 31
      → at < 2 ^ 31
      → n < 2 ^ 31
      → length (o.read_bytes w.disk f.file at n) ≤ n
      → call x_read (numbers (pos fd) (pos at) (pos n)) w ≡ (
        record w {
          memory = overwrite w.memory 0 (o.read_bytes w.disk f.file at n);
          message = numbers (pos (length (o.read_bytes w.disk f.file at n))) (pos 0) (pos 0);
        },
        answer (numbers (pos (length (o.read_bytes w.disk f.file at n))) (pos 0) (pos 0)),
      )
  unfolding call round serve put_reply read_into_memory
  call_read w fd f at n h a b c k =
      let m = numbers (pos fd) (pos at) (pos n) in
      let l = length (o.read_bytes w.disk f.file at n) in
      let s = sent_numbers l 0 0 (omega arith) (omega arith) (omega arith) in
      ap (λ x. take_reply (put_reply (serve_read x (record w { message = x }))))
        (sent_numbers fd at n a b c)
      ∙ ap (λ r. take_reply (put_reply r)) (serve_read_held (record w { message = m }) fd f at n h)
      ∙ rw s refl

  pub call_write :
      (w : Worker o) (fd : ℕ) (f : OpenFile o) (at n : ℕ)
      → IsHeld fd f w
      → fd < 2 ^ 31
      → at < 2 ^ 31
      → n < 2 ^ 31
      → (o.write_bytes w.disk f.file at (take n w.memory)).1 ≡ n
      → call x_write (numbers (pos fd) (pos at) (pos n)) w ≡ (
        record w {
          disk = (o.write_bytes w.disk f.file at (take n w.memory)).0;
          message = numbers (pos fd) (pos at) (pos n);
        },
        answer (numbers (pos fd) (pos at) (pos n)),
      )
  unfolding call round serve put_reply write_from_memory
  call_write w fd f at n h a b c k =
      let m = numbers (pos fd) (pos at) (pos n) in
      let e : (n == n) ≡ true = ground arith in
      ap (λ x. take_reply (put_reply (serve_write x (record w { message = x }))))
        (sent_numbers fd at n a b c)
      ∙ ap (λ r. take_reply (put_reply r)) (serve_write_held (record w { message = m }) fd f at n h)
      ∙ rw (k, e) refl
