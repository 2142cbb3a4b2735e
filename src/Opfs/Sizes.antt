-- ===== src/Opfs/Sizes.antt =====
-- `ck` of `A.i4` in mobile/web/drift_worker.dart.js: a size that goes through a 32-bit number.
use bojairu.Prelude.{ℕ, ◌-◌, ◌%◌, ◌^◌, ◌<◌, ◌≡◌, refl, ap, ◌∙◌, some, if◌then◌else◌, ltb, arith}
use bojairu.Prelude.Int.{pos, negsuc}
use bojairu.Opfs.{
  Opfs, OpenFile, Worker, Reply, answer, failure, continue, pure, numbers, Message, int32,
  int32_message,
}
use bojairu.Opfs.Serving.{x_file_size, ensure_handle, give_up_implicit}
use bojairu.Opfs.Rounds.{round, serve, serve_file_size, put_reply}
use bojairu.Opfs.Client.{call, take_reply, size_remote}
use bojairu.Opfs.Transfers.{IsHeld, file_of_held, sent_numbers}

int32_below :
    (n : ℕ)
    → n < 2 ^ 32
    → int32 (pos n) ≡ (if ltb n (2 ^ 31) then pos n else negsuc (2 ^ 32 - 1 - n))
unfolding int32
int32_below n h = let e : n % 2 ^ 32 ≡ n = omega arith in rw e refl

module _ {o : Opfs} where
  serve_file_size_held :
      (w : Worker o) (fd : ℕ) (f : OpenFile o)
      → IsHeld fd f w
      → serve_file_size (pos fd) w ≡ (
        give_up_implicit fd w,
        answer (some (numbers (pos (o.size w.disk f.file)) (pos 0) (pos 0))),
      )
  unfolding serve_file_size ensure_handle
  serve_file_size_held w fd f h = rw (file_of_held w fd f h.0, h.1) refl

  call_size :
      (w : Worker o) (fd : ℕ) (f : OpenFile o)
      → IsHeld fd f w
      → fd < 2 ^ 31
      → (call x_file_size (numbers (pos fd) (pos 0) (pos 0)) w).1
        ≡ answer (int32_message (numbers (pos (o.size w.disk f.file)) (pos 0) (pos 0)))
  unfolding call round serve put_reply
  call_size w fd f h k =
      let m = numbers (pos fd) (pos 0) (pos 0) in
      ap (λ x. (take_reply (put_reply (serve_file_size x.first (record w { message = x })))).1)
        (sent_numbers fd 0 0 k (omega arith) (omega arith))
      ∙ ap (λ r. (take_reply (put_reply r)).1)
          (serve_file_size_held (record w { message = m }) fd f h)

  first_of :
      (x : Worker o × Reply Message) (m : Message)
      → x.1 ≡ answer m
      → (continue x (λ r. pure r.first)).1 ≡ answer m.first
  first_of (w, answer r) m h = let e : r ≡ m = cc h in rw e refl
  first_of (w, failure c) m h = absurd (cc h)

  -- The size of a file that the worker holds open comes back right below 2 GiB; from there to 4 GiB
  -- it comes back less 4 GiB, which is negative.
  pub size_remote_lem :
      (w : Worker o) (fd : ℕ) (f : OpenFile o)
      → IsHeld fd f w
      → fd < 2 ^ 31
      → o.size w.disk f.file < 2 ^ 32
      → (size_remote (pos fd) w).1
        ≡ answer (
            if ltb (o.size w.disk f.file) (2 ^ 31)
            then pos (o.size w.disk f.file)
            else negsuc (2 ^ 32 - 1 - o.size w.disk f.file))
  unfolding size_remote int32_message
  size_remote_lem w fd f h k l =
      first_of (call x_file_size (numbers (pos fd) (pos 0) (pos 0)) w)
        (int32_message (numbers (pos (o.size w.disk f.file)) (pos 0) (pos 0)))
        (call_size w fd f h k)
      ∙ ap answer (int32_below (o.size w.disk f.file) l)
