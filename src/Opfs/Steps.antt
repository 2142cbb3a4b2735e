-- ===== src/Opfs/Steps.antt =====
-- The requests of the OPFS worker of mobile/web/drift_worker.dart.js, step by step, against its
-- invariant.
use Prim.Native.String.{String}
use bojairu.Prelude.{
  ℕ, suc, ◌≡◌, refl, Bool, true, false, Option, none, some, List, [], ◌∷◌, if◌then◌else◌, arith,
  Option-cases, inl, inr,
}
use bojairu.Prelude.Dict.{nat_Eq}
use bojairu.Prelude.Int.{ℤ}
use bojairu.Opfs.{
  Opfs, Worker, Reply, answer, failure, Action, ◌>>=◌, continue, pure, fail, caught, recover,
  or_fail, on_disk,
}
use bojairu.Opfs.Serving.{
  walk, resolve, file_handle, remove_from_disk, serve_access, serve_delete, enter, serve_open,
  last_part, all_but_last, has_bit,
}
use bojairu.Opfs.Invariant.{IsValid, insert-IsNumbered, insert-IsTracked}

-- Actions that keep a property of the worker.
module _ {o : Opfs} (P : Worker o → Type 0) where
  abbrev pub Keeps : {A : Type 0} → Action o A → Type 0
  Keeps m = (w : Worker o) → P w → P (m w).0

  pub continue-Keeps :
      {A B : Type 0} (r : Worker o × Reply A) (f : A → Action o B)
      → P r.0
      → ((a : A) → Keeps (f a))
      → P (continue r f).0
  continue-Keeps (w, answer a) f v h = h a w v
  continue-Keeps (w, failure c) f v h = v

  pub bind-Keeps :
      {A B : Type 0} (m : Action o A) (f : A → Action o B)
      → Keeps m
      → ((a : A) → Keeps (f a))
      → Keeps (m >>= f)
  bind-Keeps m f h g w v = continue-Keeps (m w) f (h w v) g

  pub caught-Keeps :
      {A : Type 0} (r : Worker o × Reply A) (h : Action o A) → P r.0 → Keeps h → P (caught r h).0
  caught-Keeps (w, answer a) h v k = v
  caught-Keeps (w, failure c) h v k = k w v

  pub recover-Keeps : {A : Type 0} (m h : Action o A) → Keeps m → Keeps h → Keeps (recover m h)
  recover-Keeps m h a b w v = caught-Keeps (m w) h (a w v) b

  pub choice-Keeps :
      {A : Type 0} (c : Bool) (m n : Action o A) (w : Worker o)
      → (c ≡ true → P (m w).0)
      → (c ≡ false → P (n w).0)
      → P ((if c then m else n) w).0
  choice-Keeps true m n w h k = h refl
  choice-Keeps false m n w h k = k refl

  pub or_fail-Keeps : {A : Type 0} (c : ℕ) (x : Option A) → Keeps (or_fail c x)
  or_fail-Keeps c none w v = v
  or_fail-Keeps c (some a) w v = v

module _ {o : Opfs} where
  abbrev pub Valid : Worker o → Type 0
  Valid w = IsValid w

  abbrev pub KeepsValid : {A : Type 0} → Action o A → Type 0
  KeepsValid m = Keeps {o = o} Valid m

  pub on_disk-Keeps : {A : Type 0} (x : Option (o.Disk × A)) → KeepsValid (on_disk {o = o} x)
  on_disk-Keeps none w v = v
  on_disk-Keeps (some p) w v = v

  pub walk-Keeps :
      (ss : List String) (create : Bool) (d : o.Directory) → KeepsValid (walk {o = o} ss create d)
  unfolding walk
  walk-Keeps [] create d = λ w v. v
  walk-Keeps (s ∷ ss) create d =
      bind-Keeps {o = o} Valid (λ w. on_disk {o = o} (o.get_directory w.disk d s create) w)
        (λ e. walk {o = o} ss create e)
        (λ w v. on_disk-Keeps (o.get_directory w.disk d s create) w v) (λ e. walk-Keeps ss create e)

  resolve-Keeps : (path : String) (create : Bool) → KeepsValid (resolve {o = o} path create)
  unfolding resolve
  resolve-Keeps path create =
      let parts = o.split (o.relative path) in
      bind-Keeps {o = o} Valid (or_fail {o = o} 1 (last_part parts)) _
        (or_fail-Keeps {o = o} Valid 1 (last_part parts))
        (λ name.
          bind-Keeps {o = o} Valid (λ w. walk {o = o} (all_but_last parts) create w.root w)
            (λ d. pure {o = o} (d, name)) (λ w v. walk-Keeps (all_but_last parts) create w.root w v)
            (λ d w v. v))

  file_handle-Keeps :
      (d : o.Directory) (name : String) (create : Bool)
      → KeepsValid (file_handle {o = o} d name create)
  file_handle-Keeps d name create w v = on_disk-Keeps (o.get_file w.disk d name create) w v

  pub serve_access-Keeps : (path : String) → KeepsValid (serve_access {o = o} path)
  unfolding serve_access
  serve_access-Keeps path =
      recover-Keeps {o = o} Valid _ _
        (bind-Keeps {o = o} Valid (resolve {o = o} path false) _ (resolve-Keeps path false) (λ r.
          bind-Keeps {o = o} Valid (file_handle {o = o} r.0 r.1 false) _
            (file_handle-Keeps r.0 r.1 false) (λ f w v. v)))
        (λ w v. v)

  pub remove_from_disk-Keeps :
      (c : ℕ) (d : o.Directory) (name : String) → KeepsValid (remove_from_disk {o = o} c d name)
  remove_from_disk-Keeps c d name w v = elim (Option-cases (o.remove_entry w.disk d name)) [
    | inl e ↦ rw e v
    | inr e ↦ rw e.1 v
  ]

  pub serve_delete-Keeps : (path : String) → KeepsValid (serve_delete {o = o} path)
  unfolding serve_delete
  serve_delete-Keeps path =
      bind-Keeps {o = o} Valid (resolve {o = o} path false) _ (resolve-Keeps path false) (λ r.
        bind-Keeps {o = o} Valid (remove_from_disk {o = o} 2570 r.0 r.1) _
          (remove_from_disk-Keeps 2570 r.0 r.1) (λ u w v. v))

  enter-Keeps :
      (flags : ℤ) (d : o.Directory) (name : String) (h : o.File)
      → KeepsValid (enter {o = o} flags d name h)
  unfolding enter
  enter-Keeps flags d name h w v = (
    insert-IsNumbered (suc w.next) w.next _ w.open_files (omega arith)
        (λ fd f e. let q = v.0 fd f e in omega (arith, q)),
    insert-IsTracked w.implicit w.implicit w.next _ w.open_files
        ((λ x. absurd (cc x)), (λ x. absurd (cc x))) (λ m n a. a) (λ fd f n. v.1 fd f),
  )

  pub serve_open-Keeps : (path : String) (flags : ℤ) → KeepsValid (serve_open {o = o} path flags)
  unfolding serve_open
  serve_open-Keeps path flags =
      bind-Keeps {o = o} Valid (recover (resolve {o = o} path (has_bit 4 flags)) (fail 12)) _
        (recover-Keeps {o = o} Valid _ _ (resolve-Keeps path (has_bit 4 flags)) (λ w v. v))
        (λ r.
          bind-Keeps {o = o} Valid (file_handle {o = o} r.0 r.1 (has_bit 4 flags)) _
            (file_handle-Keeps r.0 r.1 (has_bit 4 flags)) (λ h. enter-Keeps flags r.0 r.1 h))
