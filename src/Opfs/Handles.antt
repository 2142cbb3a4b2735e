-- ===== src/Opfs/Handles.antt =====
-- The requests on the contents of open files of the OPFS worker of mobile/web/drift_worker.dart.js
-- against its invariant.
pub mod Locking
use Prim.Native.String.{String}
use bojairu.Prelude.{
  ℕ, zero, suc, ◌<◌, ◌≡◌, ◌≢◌, refl, sym, ◌∙◌, Bool, true, false, ◌&&◌, not, Option, none, some,
  if◌then◌else◌, ◌==◌, arith, Bool-cases, Option-cases, inl, inr,
}
use bojairu.Prelude.Dict.{lookup, remove, lookup-remove, nat_Eq}
use bojairu.Prelude.Int.{ℤ, pos, negsuc}
use bojairu.Opfs.{
  Opfs, OpenFile, Worker, Message, Reply, answer, failure, Action, ◌>>=◌, pure, fail, recover,
  after, numbers, without,
}
use bojairu.Opfs.Serving.{
  Operation, x_access, x_delete, x_open, x_read, x_write, x_sleep, x_close, x_file_size, x_sync,
  x_truncate, x_lock, x_unlock, stop_server, give_up, give_up_implicit, opened, tries,
  ensure_handle, file_of, remove_from_disk, serve_access, serve_delete, serve_open,
}
use bojairu.Opfs.Rounds.{
  natural, read_into_memory, serve_read, write_from_memory, serve_write, end_file, close_if_open,
  serve_close, serve_file_size, set_size_on_disk, serve_truncate, serve_sync, mark_explicit,
  serve_lock, serve_unlock, with_name, serve, put_reply, round,
}
use bojairu.Opfs.Invariant.{
  IsValid, among-without_other, insert-IsNumbered, insert-IsTracked, opened-IsValid,
  give_up-IsValid, give_up_implicit-IsValid, idle-IsValid,
}
use bojairu.Opfs.Locks.{inserted}
use bojairu.Opfs.Steps.{
  Valid, KeepsValid, continue-Keeps, bind-Keeps, choice-Keeps, remove_from_disk-Keeps,
  serve_access-Keeps, serve_delete-Keeps, serve_open-Keeps,
}

module _ {o : Opfs} where
  -- What a request does with the file that it names.
  abbrev KeepsFile : {A : Type 0} → (ℕ × OpenFile o → Action o A) → Type 0
  KeepsFile g =
      (fd : ℕ) (f : OpenFile o) (w : Worker o)
      → IsValid w
      → lookup fd w.open_files ≡ some f
      → IsValid (g (fd, f) w).0

  pub file_of-Keeps :
      {A : Type 0} (z : ℤ) (g : ℕ × OpenFile o → Action o A)
      → KeepsFile g
      → KeepsValid (file_of z >>= g)
  file_of-Keeps (negsuc n) g k = λ w v. v
  file_of-Keeps (pos fd) g k = λ w v. elim (Option-cases (lookup fd w.open_files)) [
    | inl e ↦ rw e v
    | inr e ↦ rw e.1 (k fd e.0 w v e.1)
  ]

  tries-IsValid :
      (n k : ℕ) (f : OpenFile o) (w : Worker o)
      → k < w.next
      → f.explicit ≡ false
      → IsValid w
      → IsValid (tries n k f w).0
  unfolding tries
  tries-IsValid zero k f w h x v = v
  tries-IsValid (suc n) k f w h x v = elim (Bool-cases (o.acquire w.disk f.file).1) [
    | inl b ↦ rw b (opened-IsValid k f (record w { disk = (o.acquire w.disk f.file).0 }) h x v)
    | inr b ↦ rw b (tries-IsValid n k f (record w { disk = (o.acquire w.disk f.file).0 }) h x v)
  ]

  -- Without its handle a file is not locked explicitly.
  pub closed-IsImplicit :
      (k : ℕ) (f : OpenFile o) (w : Worker o)
      → IsValid w
      → lookup k w.open_files ≡ some f
      → f.handle ≡ false
      → f.explicit ≡ false
  closed-IsImplicit k f w v e h = elim (Bool-cases f.explicit) [
    | inl x ↦ let q = (v.1 k f e).0 x in absurd (cc (q, h))
    | inr x ↦ x
  ]

  ensure_handle-IsValid :
      (k : ℕ) (f : OpenFile o) (w : Worker o)
      → IsValid w
      → lookup k w.open_files ≡ some f
      → IsValid (ensure_handle k f w).0
  unfolding ensure_handle
  ensure_handle-IsValid k f w v e = elim (Bool-cases f.handle) [
    | inl b ↦ rw b v
    | inr b ↦ rw b (tries-IsValid 6 k f w (v.0 k f e) (closed-IsImplicit k f w v e b) v)
  ]

  -- A request that needs the handle of its file.
  with_handle-Keeps :
      {A : Type 0} (g : ℕ × OpenFile o → Unit → Action o A)
      → ((r : ℕ × OpenFile o) → KeepsValid (g r tt))
      → KeepsFile (λ r. ensure_handle r.0 r.1 >>= g r)
  with_handle-Keeps g k fd f w v e =
      continue-Keeps {o = o} Valid (ensure_handle fd f w) (g (fd, f))
        (ensure_handle-IsValid fd f w v e) (λ u. k (fd, f))

  pub natural-Keeps : (z : ℤ) → KeepsValid (natural {o = o} z)
  natural-Keeps (pos n) = λ w v. v
  natural-Keeps (negsuc n) = λ w v. v

  -- A transfer between the shared memory and a file.
  transfer-Keeps :
      (m : Message) (g : o.File → ℕ → ℕ → Action o (Option Message))
      → ((h : o.File) (at n : ℕ) → KeepsValid (g h at n))
      → KeepsValid (
          file_of m.first >>= (λ r.
            ensure_handle r.0 r.1
            >>= (λ u. natural m.third >>= (λ n. natural m.second >>= (λ at. g (r.1).file at n)))))
  transfer-Keeps m g k =
      let inner : o.File → ℕ → Action o (Option Message) =
        λ h n. natural m.second >>= (λ at. g h at n) in
      let outer : ℕ × OpenFile o → Unit → Action o (Option Message) =
        λ r u. natural m.third >>= inner (r.1).file in
      file_of-Keeps m.first (λ r. ensure_handle r.0 r.1 >>= outer r)
        (with_handle-Keeps outer (λ r.
          bind-Keeps {o = o} Valid (natural m.third) (inner (r.1).file) (natural-Keeps m.third)
            (λ n.
              bind-Keeps {o = o} Valid (natural m.second) (λ at. g (r.1).file at n)
                (natural-Keeps m.second) (λ at. k (r.1).file at n))))

  pub serve_read-Keeps : (m : Message) → KeepsValid (serve_read {o = o} m)
  unfolding serve_read read_into_memory
  serve_read-Keeps m = transfer-Keeps m read_into_memory (λ h at n w v. v)

  pub serve_write-Keeps : (m : Message) → KeepsValid (serve_write {o = o} m)
  unfolding serve_write write_from_memory
  serve_write-Keeps m = transfer-Keeps m write_from_memory (λ h at n w v. v)

  set_size_on_disk-Keeps : (h : o.File) (n : ℕ) → KeepsValid (set_size_on_disk {o = o} h n)
  set_size_on_disk-Keeps h n w v = elim (Option-cases (o.set_size w.disk h n)) [
    | inl e ↦ rw e v
    | inr e ↦ rw e.1 v
  ]

  -- A request that gives up the handle of its file afterwards.
  released-Keeps :
      (g : OpenFile o → Action o (Option Message))
      → ((f : OpenFile o) → KeepsValid (g f))
      → KeepsFile (λ r. after (ensure_handle r.0 r.1 >>= (λ u. g r.1)) (give_up_implicit r.0))
  released-Keeps g k fd f w v e =
      give_up_implicit-IsValid fd (((ensure_handle fd f >>= (λ u. g f)) w).0)
        (with_handle-Keeps (λ r u. g r.1) (λ r. k r.1) fd f w v e)

  abbrev report_size : OpenFile o → Action o (Option Message)
  report_size f w = (w, answer (some (numbers (pos (o.size w.disk f.file)) (pos 0) (pos 0))))

  pub serve_file_size-Keeps : (z : ℤ) → KeepsValid (serve_file_size {o = o} z)
  unfolding serve_file_size
  serve_file_size-Keeps z =
      file_of-Keeps z
        (λ r. after (ensure_handle r.0 r.1 >>= (λ u. report_size r.1)) (give_up_implicit r.0))
        (released-Keeps report_size (λ f w v. v))

  abbrev resize_file : ℤ → OpenFile o → Action o (Option Message)
  resize_file n f = natural n >>= (λ k. set_size_on_disk f.file k)

  abbrev truncate_file : ℤ → ℕ × OpenFile o → Action o (Option Message)
  truncate_file n r =
      after (ensure_handle r.0 r.1 >>= (λ u. resize_file n r.1)) (give_up_implicit r.0)

  pub serve_truncate-Keeps : (z n : ℤ) → KeepsValid (serve_truncate {o = o} z n)
  unfolding serve_truncate
  serve_truncate-Keeps z n =
      file_of-Keeps z (λ r. if (r.1).read_only then fail 8 else truncate_file n r)
        (λ fd f w v e.
          choice-Keeps {o = o} Valid f.read_only (fail 8) (truncate_file n (fd, f)) w (λ b. v)
            (λ b.
              released-Keeps (resize_file n)
                (λ g.
                  bind-Keeps {o = o} Valid (natural n) (λ k. set_size_on_disk g.file k)
                    (natural-Keeps n) (λ k. set_size_on_disk-Keeps g.file k))
                fd f w v e))

  pub serve_sync-Keeps : (z : ℤ) → KeepsValid (serve_sync {o = o} z)
  unfolding serve_sync
  serve_sync-Keeps z = file_of-Keeps z _ (λ fd f w v e.
      elim (Bool-cases (not f.read_only && f.handle)) [ inl b ↦ rw b v | inr b ↦ rw b v ])
