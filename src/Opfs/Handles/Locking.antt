-- ===== src/Opfs/Handles/Locking.antt =====
-- The locks of the OPFS worker of mobile/web/drift_worker.dart.js, the end of a file, and a round of
-- its loop, against the worker's invariant.
use Prim.Native.String.{String}
use bojairu.Prelude.{
  ℕ, zero, suc, ◌<◌, ◌≡◌, ◌≢◌, refl, sym, ◌∙◌, Bool, true, false, Option, none, some, if◌then◌else◌,
  ◌==◌, arith, Bool-cases, inl, inr,
}
use bojairu.Prelude.Dict.{lookup, remove, lookup-remove, nat_Eq}
use bojairu.Prelude.Int.{ℤ, pos, negsuc}
use bojairu.Opfs.{
  Opfs, OpenFile, Worker, Message, Reply, answer, failure, Action, ◌>>=◌, pure, fail, recover,
  without,
}
use bojairu.Opfs.Serving.{
  Operation, x_access, x_delete, x_open, x_read, x_write, x_sleep, x_close, x_file_size, x_sync,
  x_truncate, x_lock, x_unlock, stop_server, give_up, opened, tries, ensure_handle,
  remove_from_disk, serve_access, serve_delete, serve_open,
}
use bojairu.Opfs.Rounds.{
  natural, end_file, close_if_open, serve_close, mark_explicit, serve_lock, serve_unlock, with_name,
  serve, put_reply, round,
}
use bojairu.Opfs.Invariant.{
  IsValid, among-without_other, insert-IsNumbered, insert-IsTracked, opened-IsValid,
  give_up-IsValid, idle-IsValid,
}
use bojairu.Opfs.Locks.{inserted}
use bojairu.Opfs.Steps.{
  Valid, KeepsValid, continue-Keeps, bind-Keeps, remove_from_disk-Keeps, serve_access-Keeps,
  serve_delete-Keeps, serve_open-Keeps,
}
use bojairu.Opfs.Handles.{
  closed-IsImplicit, file_of-Keeps, natural-Keeps, serve_file_size-Keeps, serve_read-Keeps,
  serve_sync-Keeps, serve_truncate-Keeps, serve_write-Keeps,
}

module _ {o : Opfs} where
  mark_explicit-IsValid :
      (fd : ℕ) (f : OpenFile o) (w : Worker o)
      → IsValid w
      → lookup fd w.open_files ≡ some f
      → f.handle ≡ true
      → IsValid (mark_explicit fd w).0
  unfolding mark_explicit
  mark_explicit-IsValid fd f w v e h =
      let g : OpenFile o = record f { explicit = true } in
      rw e (
        insert-IsNumbered w.next fd g w.open_files (v.0 fd f e) v.0,
        insert-IsTracked w.implicit w.implicit fd g w.open_files ((λ x. h), (v.1 fd f e).1)
            (λ m n a. a) (λ k f n. v.1 k f),
      )

  lookup-opened :
      (k : ℕ) (f : OpenFile o) (w : Worker o)
      → lookup k (opened k f w).open_files ≡ some (record f { handle = true })
  unfolding opened
  lookup-opened k f w = inserted k (record f { handle = true }) w.open_files

  -- The lock of a file that has no handle.
  tries_to_lock-IsValid :
      (n k : ℕ) (f : OpenFile o) (w : Worker o)
      → k < w.next
      → f.explicit ≡ false
      → IsValid w
      → IsValid ((recover (tries n k f) (fail 3850) >>= (λ u. mark_explicit k)) w).0
  unfolding tries
  tries_to_lock-IsValid zero k f w h x v = v
  tries_to_lock-IsValid (suc n) k f w h x v = elim (Bool-cases (o.acquire w.disk f.file).1) [
    | inl b ↦
        let there : Worker o = record w { disk = (o.acquire w.disk f.file).0 } in
        rw b (
          mark_explicit-IsValid k (record f { handle = true }) (opened k f there)
            (opened-IsValid k f there h x v) (lookup-opened k f there) refl)
    | inr b ↦
        rw b (tries_to_lock-IsValid n k f (record w { disk = (o.acquire w.disk f.file).0 }) h x v)
  ]

  serve_lock-Keeps : (z : ℤ) → KeepsValid (serve_lock {o = o} z)
  unfolding serve_lock ensure_handle
  serve_lock-Keeps z = file_of-Keeps z _ (λ fd f w v e. elim (Bool-cases f.handle) [
    | inl b ↦ rw b (mark_explicit-IsValid fd f w v e b)
    | inr b ↦ rw b (tries_to_lock-IsValid 6 fd f w (v.0 fd f e) (closed-IsImplicit fd f w v e b) v)
  ])

  chosen-IsValid :
      (c : Bool) (a b : Worker o) → IsValid a → IsValid b → IsValid (if c then a else b)
  chosen-IsValid true a b u v = u
  chosen-IsValid false a b u v = v

  serve_unlock-Keeps : (z mode : ℤ) → KeepsValid (serve_unlock {o = o} z mode)
  unfolding serve_unlock
  serve_unlock-Keeps z mode = file_of-Keeps z _ (λ fd f w v e.
      chosen-IsValid _ (give_up fd f w) w
        (give_up-IsValid fd f w e v.0 (λ k g d. v.1 k g) (λ b. v.1)) v)

  removed-IsValid :
      (fd : ℕ) (w : Worker o)
      → IsValid w
      → IsValid (record w { open_files = remove fd w.open_files; implicit = without fd w.implicit })
  removed-IsValid fd w v = (
    (λ k f e. v.0 k f (kept k f e).1),
    (λ k f e. (
      (v.1 k f (kept k f e).1).0,
      (λ h. among-without_other fd w.implicit k (kept k f e).0 ((v.1 k f (kept k f e).1).1 h)),
    )),
  )
    where
      kept :
          (k : ℕ) (f : OpenFile o)
          → lookup k (remove fd w.open_files) ≡ some f
          → (fd ≢ k) × (lookup k w.open_files ≡ some f)
      kept k f e =
          let q : (if fd == k then none else lookup k w.open_files) ≡ some f =
            sym (lookup-remove fd k w.open_files) ∙ e in
          elim (Bool-cases (fd == k)) [
            | inl b ↦ let r = rw b at q in absurd (cc r)
            | inr b ↦ let r = rw b at q in ((λ d. ground (arith, b, d)), r)
          ]

  end_file-Keeps : (f : OpenFile o) → KeepsValid (end_file {o = o} f)
  unfolding end_file
  end_file-Keeps f w v =
      let released = if f.handle then record w { disk = o.release w.disk f.file } else w in
      let u : IsValid released =
        chosen-IsValid f.handle (record w { disk = o.release w.disk f.file }) w v v in
      elim (Bool-cases f.delete_on_close) [
        | inl b ↦ rw b (
            bind-Keeps {o = o} Valid (remove_from_disk 1 f.directory f.name) (λ u. pure none)
              (remove_from_disk-Keeps 1 f.directory f.name) (λ u w v. v) released u)
        | inr b ↦ rw b u
      ]

  close_if_open-Keeps : (fd : ℕ) (x : Option (OpenFile o)) → KeepsValid (close_if_open {o = o} fd x)
  close_if_open-Keeps fd none = λ w v. v
  close_if_open-Keeps fd (some f) = λ w v. end_file-Keeps f _ (removed-IsValid fd w v)

  serve_close-Keeps : (z : ℤ) → KeepsValid (serve_close {o = o} z)
  unfolding serve_close
  serve_close-Keeps (negsuc n) = λ w v. v
  serve_close-Keeps (pos fd) = λ w v. close_if_open-Keeps fd (lookup fd w.open_files) w v

  with_name-Keeps :
      (g : String → Action o (Option Message))
      → ((s : String) → KeepsValid (g s))
      → KeepsValid (with_name g)
  with_name-Keeps g k w v =
      continue-Keeps {o = o} Valid (natural w.name_length w) _ (natural-Keeps w.name_length w v)
        (λ n. k _)

  serve-Keeps : (a : Operation) (m : Message) → KeepsValid (serve {o = o} a m)
  unfolding serve
  serve-Keeps x_access m = with_name-Keeps serve_access serve_access-Keeps
  serve-Keeps x_delete m = with_name-Keeps serve_delete serve_delete-Keeps
  serve-Keeps x_open m =
      with_name-Keeps (λ s. serve_open s m.first) (λ s. serve_open-Keeps s m.first)
  serve-Keeps x_read m = serve_read-Keeps m
  serve-Keeps x_write m = serve_write-Keeps m
  serve-Keeps x_sleep m = λ w v. idle-IsValid w v
  serve-Keeps x_close m = serve_close-Keeps m.first
  serve-Keeps x_file_size m = serve_file_size-Keeps m.first
  serve-Keeps x_sync m = serve_sync-Keeps m.first
  serve-Keeps x_truncate m = serve_truncate-Keeps m.first m.second
  serve-Keeps x_lock m = serve_lock-Keeps m.first
  serve-Keeps x_unlock m = serve_unlock-Keeps m.first m.second
  serve-Keeps stop_server m = λ w v. idle-IsValid (record w { stopped = true }) v

  put_reply-Keeps : (r : Worker o × Reply (Option Message)) → IsValid r.0 → IsValid (put_reply r).0
  unfolding put_reply
  put_reply-Keeps (w, answer none) v = v
  put_reply-Keeps (w, answer (some m)) v = v
  put_reply-Keeps (w, failure c) v = v

  pub round-IsValid : (a : Operation) (w : Worker o) → IsValid w → IsValid (round a w).0
  unfolding round
  round-IsValid a w v = put_reply-Keeps (serve a w.message w) (serve-Keeps a w.message w v)
