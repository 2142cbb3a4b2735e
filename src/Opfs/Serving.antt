-- ===== src/Opfs/Serving.antt =====
-- The operations of `A.eT` in mobile/web/drift_worker.dart.js, one by one, and a round of its loop `T`.
use Prim.Native.String.{String}
use bojairu.Prelude.{
  ℕ, zero, suc, ◌%◌, ◌/◌, Bool, true, false, not, ◌&&◌, Option, none, some, List, [], ◌∷◌,
  if◌then◌else◌, ◌==◌,
}
use bojairu.Prelude.Dict.{lookup, insert, nat_Eq}
use bojairu.Prelude.Int.{ℤ, pos, negsuc}
use bojairu.Opfs.{
  Opfs, OpenFile, Message, Worker, Reply, answer, failure, Action, ◌>>=◌, pure, fail, recover,
  or_fail, on_disk, numbers, without, among, with_member,
}

-- `B.aL`
pub data Operation : Type 0 where
  x_access x_delete x_open x_read x_write x_sleep x_close x_file_size x_sync x_truncate x_lock
        x_unlock stop_server :
      Operation

-- A bit of a number's flags.
abbrev pub has_bit : ℕ → ℤ → Bool
has_bit b (pos n) = not (n / b % 2 == 0)
has_bit b (negsuc n) = n / b % 2 == 0

abbrev pub all_but_last : List String → List String
all_but_last [] = []
all_but_last (s ∷ []) = []
all_but_last (s ∷ (r ∷ ss)) = s ∷ all_but_last (r ∷ ss)

abbrev pub last_part : List String → Option String
last_part [] = none
last_part (s ∷ []) = some s
last_part (s ∷ (r ∷ ss)) = last_part (r ∷ ss)

module _ {o : Opfs} where
  -- `this.f.j(0, fd)` and the exception where there is no such file
  abbrev pub file_of : ℤ → Action o (ℕ × OpenFile o)
  file_of (negsuc n) w = fail 1 w
  file_of (pos fd) w = or_fail 1 (pair (lookup fd w.open_files)) w
    where
      pair : Option (OpenFile o) → Option (ℕ × OpenFile o)
      pair none = none
      pair (some f) = some (fd, f)

  -- `dz`
  unfoldable pub give_up : ℕ → OpenFile o → Worker o → Worker o
  give_up fd f w =
      if f.handle
      then record w {
        disk = o.release w.disk f.file;
        open_files = insert fd (record f { handle = false; explicit = false }) w.open_files;
        implicit = without fd w.implicit;
      }
      else w

  abbrev pub give_up_if_open : ℕ → Option (OpenFile o) → Worker o → Worker o
  give_up_if_open fd none w = w
  give_up_if_open fd (some f) w = give_up fd f w

  -- `j2`
  unfoldable pub give_up_implicit : ℕ → Worker o → Worker o
  unfolding give_up
  give_up_implicit fd w =
      if among fd w.implicit
      then give_up_if_open fd (lookup fd w.open_files)
          (record w { implicit = without fd w.implicit })
      else w

  abbrev pub give_up_each : List ℕ → Worker o → Worker o
  give_up_each [] w = w
  give_up_each (fd ∷ fds) w = give_up_each fds (give_up_implicit fd w)

  -- `B.c.ap(A.aw(d, c), e)`, which a wait of 150 ms without a request ends in.
  unfoldable pub idle : Worker o → Worker o
  unfolding give_up_implicit
  idle w = give_up_each w.implicit w

  -- What is kept of a handle that was created.
  unfoldable pub opened : ℕ → OpenFile o → Worker o → Worker o
  opened fd f w = record w {
    open_files = insert fd (record f { handle = true }) w.open_files;
    implicit = if f.explicit then w.implicit else with_member fd w.implicit;
  }

  unfoldable pub tries : ℕ → ℕ → OpenFile o → Action o Unit
  unfolding opened
  tries zero fd f w = fail 10 w
  tries (suc n) fd f w =
      let r = o.acquire w.disk f.file in
      let rest = tries n fd f (record w { disk = r.0 }) in
      if r.1 then (opened fd f (record w { disk = r.0 }), answer tt) else rest

  -- `aP`, which tries six times.
  unfoldable pub ensure_handle : ℕ → OpenFile o → Action o Unit
  unfolding tries
  ensure_handle fd f = if f.handle then pure tt else tries 6 fd f

  -- The directories of a path, from the root on.
  unfoldable pub walk : List String → Bool → o.Directory → Action o o.Directory
  walk [] create d = pure d
  walk (s ∷ ss) create d =
      (λ w. on_disk (o.get_directory w.disk d s create) w) >>= (λ e. walk ss create e)

  -- `bQ`: the directory of a path and the name in it.
  unfoldable pub resolve : String → Bool → Action o (o.Directory × String)
  unfolding walk
  resolve path create =
      let parts = o.split (o.relative path) in
      or_fail 1 (last_part parts)
      >>= (λ name. (λ w. walk (all_but_last parts) create w.root w) >>= (λ d. pure (d, name)))

  abbrev pub file_handle : o.Directory → String → Bool → Action o o.File
  file_handle d name create w = on_disk (o.get_file w.disk d name create) w

  -- `bW`
  unfoldable pub serve_access : String → Action o (Option Message)
  unfolding resolve
  serve_access path =
      recover
        (resolve path false >>= (λ r.
          file_handle r.0 r.1 false >>= (λ f. pure (some (numbers (pos 1) (pos 0) (pos 0))))))
        (pure (some (numbers (pos 0) (pos 0) (pos 0))))

  abbrev pub remove_from_disk : ℕ → o.Directory → String → Action o Unit
  remove_from_disk c d name w = removed (o.remove_entry w.disk d name)
    where
      removed : Option o.Disk → Worker o × Reply Unit
      removed none = (w, failure c)
      removed (some e) = (record w { disk = e }, answer tt)

  -- `bX`
  unfoldable pub serve_delete : String → Action o (Option Message)
  unfolding resolve
  serve_delete path =
      resolve path false >>= (λ r. remove_from_disk 2570 r.0 r.1 >>= (λ u. pure none))

  -- The entry of a new open file, and the reply.
  unfoldable pub enter : ℤ → o.Directory → String → o.File → Action o (Option Message)
  enter flags d name h w =
      let read_only = not (has_bit 4 flags) && has_bit 1 flags in
      let f : OpenFile o = record {
        read_only = read_only;
        delete_on_close = has_bit 8 flags;
        directory = d;
        name = name;
        file = h;
        explicit = false;
        handle = false;
      } in
      (
        record w { next = suc w.next; open_files = insert w.next f w.open_files },
        answer (some (numbers (if read_only then pos 1 else pos 0) (pos w.next) (pos 0))),
      )

  -- `bY`
  unfoldable pub serve_open : String → ℤ → Action o (Option Message)
  unfolding resolve enter
  serve_open path flags =
      recover (resolve path (has_bit 4 flags)) (fail 12)
      >>= (λ r. file_handle r.0 r.1 (has_bit 4 flags) >>= (λ h. enter flags r.0 r.1 h))
