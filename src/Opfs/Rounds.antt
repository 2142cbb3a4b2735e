-- ===== src/Opfs/Rounds.antt =====
-- The operations on open files of `A.eT` in mobile/web/drift_worker.dart.js, and a round of its loop `T`.
use Prim.Native.String.{String}
use bojairu.Prelude.{
  ℕ, Bool, true, false, not, ◌&&◌, Option, none, some, if◌then◌else◌, length, take, drop, ◌==◌,
}
use bojairu.Prelude.Dict.{lookup, insert, remove, nat_Eq}
use bojairu.Prelude.Int.{ℤ, pos, negsuc}
use bojairu.Bytes.{overwrite}
use bojairu.Opfs.{
  Opfs, OpenFile, Message, Worker, Reply, answer, failure, Action, ◌>>=◌, pure, fail, recover,
  after, int32_message, numbers, without,
}
use bojairu.Opfs.Serving.{
  Operation, x_access, x_delete, x_open, x_read, x_write, x_sleep, x_close, x_file_size, x_sync,
  x_truncate, x_lock, x_unlock, stop_server, file_of, give_up, give_up_implicit, idle,
  ensure_handle, remove_from_disk, serve_access, serve_delete, serve_open,
}

module _ {o : Opfs} where
  -- A view of the first `n` bytes of the shared memory, and an offset of a file: numbers that are not
  -- negative.
  abbrev pub natural : ℤ → Action o ℕ
  natural (pos n) w = (w, answer n)
  natural (negsuc n) w = (w, failure 1)

  -- The bytes that a read gives stand at the start of the shared memory.
  unfoldable pub read_into_memory : o.File → ℕ → ℕ → Action o (Option Message)
  read_into_memory h at n w =
      let bs = o.read_bytes w.disk h at n in
      (
        record w { memory = overwrite w.memory 0 bs },
        answer (some (numbers (pos (length bs)) (pos 0) (pos 0))),
      )

  -- `cI`
  unfoldable pub serve_read : Message → Action o (Option Message)
  unfolding ensure_handle read_into_memory
  serve_read m = file_of m.first >>= (λ r. ensure_handle r.0 r.1 >>= (λ u.
      natural m.third >>= (λ n. natural m.second >>= (λ at. read_into_memory (r.1).file at n))))

  unfoldable pub write_from_memory : o.File → ℕ → ℕ → Action o (Option Message)
  write_from_memory h at n w =
      let r = o.write_bytes w.disk h at (take n w.memory) in
      (record w { disk = r.0 }, if r.1 == n then answer none else failure 778)

  -- `cK`
  unfoldable pub serve_write : Message → Action o (Option Message)
  unfolding ensure_handle write_from_memory
  serve_write m = file_of m.first >>= (λ r. ensure_handle r.0 r.1 >>= (λ u.
      natural m.third >>= (λ n. natural m.second >>= (λ at. write_from_memory (r.1).file at n))))

  -- What `cF` does to the file that it takes out: `dz`, and the deletion.
  unfoldable pub end_file : OpenFile o → Action o (Option Message)
  end_file f w =
      let released = if f.handle then record w { disk = o.release w.disk f.file } else w in
      if f.delete_on_close
      then (remove_from_disk 1 f.directory f.name >>= (λ u. pure none)) released
      else (released, answer none)

  abbrev pub close_if_open : ℕ → Option (OpenFile o) → Action o (Option Message)
  close_if_open fd none = fail 12
  close_if_open fd (some f) = λ w.
      end_file f
        (record w { open_files = remove fd w.open_files; implicit = without fd w.implicit })

  -- `cF`
  unfoldable pub serve_close : ℤ → Action o (Option Message)
  unfolding end_file
  serve_close (negsuc n) w = (w, failure 12)
  serve_close (pos fd) w = close_if_open fd (lookup fd w.open_files) w

  -- `cG`
  unfoldable pub serve_file_size : ℤ → Action o (Option Message)
  unfolding ensure_handle give_up_implicit
  serve_file_size z = file_of z >>= (λ r.
      after
        (ensure_handle r.0 r.1 >>= (λ u.
          λ w. (w, answer (some (numbers (pos (o.size w.disk (r.1).file)) (pos 0) (pos 0))))))
        (give_up_implicit r.0))

  abbrev pub set_size_on_disk : o.File → ℕ → Action o (Option Message)
  set_size_on_disk h n w = resized (o.set_size w.disk h n)
    where
      resized : Option o.Disk → Worker o × Reply (Option Message)
      resized none = (w, failure 1)
      resized (some e) = (record w { disk = e }, answer none)

  -- `cJ`
  unfoldable pub serve_truncate : ℤ → ℤ → Action o (Option Message)
  unfolding ensure_handle give_up_implicit
  serve_truncate z n = file_of z >>= (λ r.
      if (r.1).read_only
      then fail 8
      else after
          (ensure_handle r.0 r.1 >>= (λ u. natural n >>= (λ k. set_size_on_disk (r.1).file k)))
          (give_up_implicit r.0))

  -- `e8`
  unfoldable pub serve_sync : ℤ → Action o (Option Message)
  serve_sync z = file_of z >>= (λ r. λ w. (
    if not (r.1).read_only && (r.1).handle
        then record w { disk = o.flush w.disk (r.1).file }
        else w,
    answer none,
  ))

  abbrev pub set_explicit : ℕ → Option (OpenFile o) → Worker o → Worker o
  set_explicit fd none w = w
  set_explicit fd (some f) w = record w {
    open_files = insert fd (record f { explicit = true }) w.open_files;
  }

  -- `m.w = true`
  unfoldable pub mark_explicit : ℕ → Action o (Option Message)
  mark_explicit fd w = (set_explicit fd (lookup fd w.open_files) w, answer none)

  -- `cH`
  unfoldable pub serve_lock : ℤ → Action o (Option Message)
  unfolding ensure_handle mark_explicit
  serve_lock z = file_of z >>= (λ r.
      if (r.1).handle
      then mark_explicit r.0
      else recover (ensure_handle r.0 r.1) (fail 3850) >>= (λ u. mark_explicit r.0))

  -- `e9`
  unfoldable pub serve_unlock : ℤ → ℤ → Action o (Option Message)
  unfolding give_up
  serve_unlock z mode =
      file_of z
      >>= (λ r. λ w. (if (r.1).handle && is_zero mode then give_up r.0 r.1 w else w, answer none))
    where
      is_zero : ℤ → Bool
      is_zero (pos n) = n == 0
      is_zero (negsuc n) = false

  -- The name that `A.p3` reads.
  abbrev pub with_name : (String → Action o (Option Message)) → Action o (Option Message)
  with_name f w = (natural w.name_length >>= (λ n. f (o.of_bytes (take n (drop 16 w.memory))))) w

  -- The switch of `T`.
  unfoldable pub serve : Operation → Message → Action o (Option Message)
  unfolding idle serve_access serve_delete serve_open serve_read serve_write serve_close
      serve_file_size serve_truncate serve_sync serve_lock serve_unlock
  serve x_access m = with_name serve_access
  serve x_delete m = with_name serve_delete
  serve x_open m = with_name (λ s. serve_open s m.first)
  serve x_read m = serve_read m
  serve x_write m = serve_write m
  serve x_sleep m = λ w. (idle w, answer none)
  serve x_close m = serve_close m.first
  serve x_file_size m = serve_file_size m.first
  serve x_sync m = serve_sync m.first
  serve x_truncate m = serve_truncate m.first m.second
  serve x_lock m = serve_lock m.first
  serve x_unlock m = serve_unlock m.first m.second
  serve stop_server m = λ w. (idle (record w { stopped = true }), answer none)

  -- `f.ht(k)`, and the code that is stored.
  unfoldable pub put_reply : Worker o × Reply (Option Message) → Worker o × ℕ
  unfolding int32_message
  put_reply (w, answer none) = (w, 0)
  put_reply (w, answer (some m)) = (record w { message = int32_message m }, 0)
  put_reply (w, failure c) = (w, c)

  -- A round of `T` with a request.
  unfoldable pub round : Operation → Worker o → Worker o × ℕ
  unfolding serve put_reply
  round a w = put_reply (serve a w.message w)
