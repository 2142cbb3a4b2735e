-- ===== src/Opfs/Relocking.antt =====
-- `de` and `dh` of `A.i4` in mobile/web/drift_worker.dart.js, and the handles of the worker that they
-- are to keep.
use bojairu.Prelude.{
  ℕ, suc, ◌^◌, ◌<◌, ◌≡◌, refl, sym, ap, ◌∙◌, Bool, true, false, none, some, arith, inl, inr,
}
use bojairu.Prelude.Dict.{lookup, insert, nat_Eq}
use bojairu.Prelude.Int.{pos}
use bojairu.Opfs.{Opfs, OpenFile, Worker, answer, among, without, with_member, numbers}
use bojairu.Opfs.Serving.{idle, x_lock, x_unlock, tries, opened, ensure_handle, give_up}
use bojairu.Opfs.Rounds.{round, serve, serve_lock, serve_unlock, mark_explicit, put_reply}
use bojairu.Opfs.Client.{call, take_reply, lock_remote, unlock_remote}
use bojairu.Opfs.Transfers.{file_of_held, sent_numbers}
use bojairu.Opfs.Locks.{among-with_member, IsFree, idle_lem, inserted}

module _ {o : Opfs} where
  -- A file without a handle.
  abbrev pub shut : OpenFile o → OpenFile o
  shut f = record f { handle = false; explicit = false }

  abbrev locked : ℕ → OpenFile o → Worker o → Worker o
  locked fd f w = record w {
    disk = (o.acquire w.disk f.file).0;
    open_files =
        insert fd (record f { handle = true; explicit = true })
          (insert fd (record f { handle = true; explicit = false }) w.open_files);
    implicit = with_member fd w.implicit;
  }

  serve_lock-shut :
      (w : Worker o) (fd : ℕ) (f : OpenFile o)
      → lookup fd w.open_files ≡ some (shut f)
      → (o.acquire w.disk f.file).1 ≡ true
      → serve_lock (pos fd) w ≡ (locked fd f w, answer none)
  unfolding serve_lock ensure_handle tries opened mark_explicit
  serve_lock-shut w fd f e a =
      rw
        (
          file_of_held w fd (shut f) e,
          a,
          inserted fd (record f { handle = true; explicit = false }) w.open_files,
        )
        refl

  abbrev unlocked : ℕ → OpenFile o → Worker o → Worker o
  unlocked fd f w = record w {
    disk = o.release w.disk f.file;
    open_files = insert fd (shut f) w.open_files;
    implicit = without fd w.implicit;
  }

  serve_unlock_held :
      (w : Worker o) (fd : ℕ) (f : OpenFile o) (b : Bool)
      → lookup fd w.open_files ≡ some (record f { handle = true; explicit = b })
      → serve_unlock (pos fd) (pos 0) w ≡ (unlocked fd f w, answer none)
  unfolding serve_unlock give_up
  serve_unlock_held w fd f b e =
      rw (file_of_held w fd (record f { handle = true; explicit = b }) e) refl

  call_lock :
      (w : Worker o) (fd : ℕ) (f : OpenFile o) (level : ℕ)
      → lookup fd w.open_files ≡ some (shut f)
      → (o.acquire w.disk f.file).1 ≡ true
      → fd < 2 ^ 31
      → level < 2 ^ 31
      → call x_lock (numbers (pos fd) (pos level) (pos 0)) w ≡ (
        locked fd f (record w { message = numbers (pos fd) (pos level) (pos 0) }),
        answer (numbers (pos fd) (pos level) (pos 0)),
      )
  unfolding call round serve put_reply
  call_lock w fd f level e a h k =
      let m = numbers (pos fd) (pos level) (pos 0) in
      ap (λ x. take_reply (put_reply (serve_lock x.first (record w { message = x }))))
        (sent_numbers fd level 0 h k (omega arith))
      ∙ ap (λ r. take_reply (put_reply r)) (serve_lock-shut (record w { message = m }) fd f e a)

  call_unlock :
      (w : Worker o) (fd : ℕ) (f : OpenFile o) (b : Bool)
      → lookup fd w.open_files ≡ some (record f { handle = true; explicit = b })
      → fd < 2 ^ 31
      → call x_unlock (numbers (pos fd) (pos 0) (pos 0)) w ≡ (
        unlocked fd f (record w { message = numbers (pos fd) (pos 0) (pos 0) }),
        answer (numbers (pos fd) (pos 0) (pos 0)),
      )
  unfolding call round serve put_reply
  call_unlock w fd f b e h =
      let m = numbers (pos fd) (pos 0) (pos 0) in
      ap (λ x. take_reply (put_reply (serve_unlock x.first x.second (record w { message = x }))))
        (sent_numbers fd 0 0 h (omega arith) (omega arith))
      ∙ ap (λ r. take_reply (put_reply r)) (serve_unlock_held (record w { message = m }) fd f b e)

  -- Where a file has no handle and the browser gives one, SQLite's lock succeeds, but the worker's
  -- next 150 ms without a request close the handle again.
  pub idle-lock_remote :
      (w : Worker o) (fd : ℕ) (f : OpenFile o) (level : ℕ)
      → lookup fd w.open_files ≡ some (shut f)
      → (o.acquire w.disk f.file).1 ≡ true
      → fd < 2 ^ 31
      → level < 2 ^ 31
      → ((lock_remote (pos fd) 0 level w).1 ≡ answer level)
        × IsFree fd (idle (lock_remote (pos fd) 0 level w).0)
  unfolding lock_remote
  idle-lock_remote w fd f level e a h k = rw (call_lock w fd f level e a h k) (
    refl,
    free (locked fd f (record w { message = numbers (pos fd) (pos level) (pos 0) }))
        (among-with_member fd w.implicit),
  )
    where
      free : (x : Worker o) → among fd x.implicit ≡ true → IsFree fd (idle x)
      free x c = elim (idle_lem x fd).1 [ inl b ↦ absurd (cc (b, c)) | inr i ↦ i ]

  -- Once a client's file was locked, unlocking it closes the worker's handle but keeps the client's
  -- lock mode, so that the next lock succeeds without a request to the worker, which has no handle
  -- then.
  pub lock_remote-unlock_remote :
      (w : Worker o) (fd : ℕ) (f : OpenFile o) (b : Bool) (mode level : ℕ)
      → lookup fd w.open_files ≡ some (record f { handle = true; explicit = b })
      → fd < 2 ^ 31
      → ((unlock_remote (pos fd) (suc mode) 0 w).1 ≡ answer (suc mode))
        × IsFree fd (unlock_remote (pos fd) (suc mode) 0 w).0
        × (lock_remote (pos fd) (suc mode) level (unlock_remote (pos fd) (suc mode) 0 w).0
            ≡ ((unlock_remote (pos fd) (suc mode) 0 w).0, answer level))
  unfolding lock_remote unlock_remote
  lock_remote-unlock_remote w fd f b mode level e h =
      rw (call_unlock w fd f b e h)
        (refl, (λ g i. cc (sym (inserted fd (shut f) w.open_files) ∙ i)), refl)
