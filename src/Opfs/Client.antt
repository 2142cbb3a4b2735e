-- ===== src/Opfs/Client.antt =====
-- The client of the OPFS worker, `A.du` of mobile/web/drift_worker.dart.js, and its open files `A.i4`. A
-- call writes a message into the shared memory, waits for a round of the worker and reads the reply.
use Prim.Native.String.{String}
use bojairu.Prelude.{
  ℕ, zero, suc, ◌+◌, ◌-◌, ◌/◌, Option, none, some, List, [], ◌∷◌, if◌then◌else◌, length, take, drop,
  ltb, ◌==◌, min,
}
use bojairu.Prelude.Int.{ℤ, pos}
use bojairu.Bytes.{overwrite}
use bojairu.Opfs.{
  Opfs, Message, Worker, Reply, answer, failure, Action, ◌>>=◌, pure, int32, int32_message, numbers,
}
use bojairu.Opfs.Serving.{
  Operation, x_access, x_delete, x_open, x_read, x_write, x_sleep, x_close, x_file_size, x_sync,
  x_truncate, x_lock, x_unlock, stop_server,
}
use bojairu.Opfs.Rounds.{natural, round}

abbrev pub name_or : String → Option String → String
name_or s none = s
name_or s (some t) = t

-- `da`; the mode is the field `c`.
unfoldable pub check_reserved_lock_remote : ℕ → ℕ
check_reserved_lock_remote mode = if mode == 0 then 0 else 1

module _ {o : Opfs} where
  -- The end of `ja`.
  abbrev pub take_reply : Worker o × ℕ → Worker o × Reply Message
  take_reply (w, zero) = (w, answer w.message)
  take_reply (w, suc c) = (w, failure (suc c))

  -- `a2` with an `A.P`
  unfoldable pub call : Operation → Message → Action o Message
  unfolding round int32_message
  call a m w = take_reply (round a (record w { message = int32_message m }))

  -- `a2` with an `A.aV`: the name stands from the byte 16 on.
  unfoldable pub call_named : Operation → String → ℤ → Action o Message
  unfolding round int32_message int32
  call_named a name flags w = take_reply (
      round a (record w {
        message = int32_message (numbers flags (pos 0) (pos 0));
        name_length = int32 (pos (length (o.to_bytes name)));
        memory = overwrite w.memory 16 (o.to_bytes name);
      }))

  -- `cg`, `dc`, `aX` (with the random name of a file without one), `df` and `n`
  unfoldable pub access_remote : String → ℤ → Action o ℤ
  unfolding call_named
  access_remote name flags = call_named x_access name flags >>= (λ m. pure m.first)

  unfoldable pub delete_remote : String → ℤ → Action o Unit
  unfolding call_named
  delete_remote name flags = call_named x_delete name flags >>= (λ m. pure tt)

  -- The file's number and the flags of SQLite.
  unfoldable pub open_remote : String → Option String → ℤ → Action o (ℤ × ℤ)
  unfolding call_named
  open_remote random name flags =
      call_named x_open (name_or random name) flags >>= (λ m. pure (m.second, m.first))

  unfoldable pub sleep_remote : ℕ → Action o Unit
  unfolding call
  sleep_remote microseconds =
      call x_sleep (numbers (pos (microseconds / 1000)) (pos 0) (pos 0)) >>= (λ m. pure tt)

  unfoldable pub stop_remote : Action o Unit
  unfolding round
  stop_remote = (λ w. take_reply (round stop_server w)) >>= (λ m. pure tt)

  -- A chunk of `eG`: `m` bytes are asked for, and what came is copied to the array's place `n`.
  unfoldable pub read_chunk : ℤ → ℕ → ℕ → ℕ → List ℕ → Action o (ℕ × List ℕ)
  read_chunk fd at m n array = call x_read (numbers fd (pos (at + n)) (pos m)) >>= (λ r.
      natural r.first >>= (λ l. λ w. (w, answer (l, overwrite array n (take l w.memory)))))

  -- The loop of `eG`, with `i` bytes to go.
  unfoldable pub read_chunks : ℕ → ℤ → ℕ → ℕ → ℕ → List ℕ → Action o (ℕ × List ℕ)
  read_chunks zero fd at i n array = pure (n, array)
  read_chunks (suc fuel) fd at zero n array = pure (n, array)
  read_chunks (suc fuel) fd at (suc i) n array =
      read_chunk fd at (min 65536 (suc i)) n array
      >>= (λ r. read_on r (read_chunks fuel fd at (suc i - min 65536 (suc i)) (n + r.0) r.1))
    where
      read_on : ℕ × List ℕ → Action o (ℕ × List ℕ) → Action o (ℕ × List ℕ)
      read_on r rest = if ltb r.0 (min 65536 (suc i)) then pure (n + r.0, r.1) else rest

  -- `eG`: how many bytes were read, and the array with them.
  unfoldable pub read_remote : ℤ → List ℕ → ℕ → Action o (ℕ × List ℕ)
  read_remote fd array at = read_chunks (length array) fd at (length array) 0 array

  unfoldable pub write_chunk : ℤ → ℕ → List ℕ → Action o Message
  write_chunk fd at chunk w =
      call x_write (numbers fd (pos at) (pos (length chunk)))
        (record w { memory = overwrite w.memory 0 chunk })

  -- The loop of `be`, with the bytes that are still to be written.
  unfoldable pub write_chunks : ℕ → ℤ → ℕ → List ℕ → Action o Unit
  write_chunks zero fd at bs = pure tt
  write_chunks (suc fuel) fd at [] = pure tt
  write_chunks (suc fuel) fd at (b ∷ bs) =
      write_chunk fd at (take 65536 (b ∷ bs))
      >>= (λ m. write_chunks fuel fd (at + min 65536 (length (b ∷ bs))) (drop 65536 (b ∷ bs)))

  -- `be`
  unfoldable pub write_remote : ℤ → List ℕ → ℕ → Action o Unit
  write_remote fd bs at = write_chunks (length bs) fd at bs

  -- `ci`, `ck`, `dg` and `cl`
  unfoldable pub close_remote : ℤ → Action o Unit
  unfolding call
  close_remote fd = call x_close (numbers fd (pos 0) (pos 0)) >>= (λ m. pure tt)

  unfoldable pub size_remote : ℤ → Action o ℤ
  size_remote fd = call x_file_size (numbers fd (pos 0) (pos 0)) >>= (λ m. pure m.first)

  unfoldable pub sync_remote : ℤ → Action o Unit
  unfolding call
  sync_remote fd = call x_sync (numbers fd (pos 0) (pos 0)) >>= (λ m. pure tt)

  unfoldable pub truncate_remote : ℤ → ℕ → Action o Unit
  unfolding call
  truncate_remote fd n = call x_truncate (numbers fd (pos n) (pos 0)) >>= (λ m. pure tt)

  -- `de` and `dh`; the mode is the field `c`.
  unfoldable pub lock_remote : ℤ → ℕ → ℕ → Action o ℕ
  lock_remote fd zero level = call x_lock (numbers fd (pos level) (pos 0)) >>= (λ m. pure level)
  lock_remote fd (suc mode) level = pure level

  unfoldable pub unlock_remote : ℤ → ℕ → ℕ → Action o ℕ
  unlock_remote fd zero level = pure 0
  unlock_remote fd (suc mode) zero =
      call x_unlock (numbers fd (pos 0) (pos 0)) >>= (λ m. pure (suc mode))
  unlock_remote fd (suc mode) (suc level) = pure (suc mode)
