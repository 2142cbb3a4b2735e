-- ===== src/Opfs/Locks.antt =====
-- The locks of the OPFS worker of mobile/web/drift_worker.dart.js: the handles that it holds between
-- requests, and those that SQLite asks for.
use bojairu.Prelude.{
  ℕ, ◌≡◌, refl, sym, ◌∙◌, true, false, Option, none, some, List, [], ◌∷◌, ◌++◌, if◌then◌else◌, ◌==◌,
  arith, Bool-cases, ◌⊎◌, inl, inr,
}
use bojairu.Prelude.Dict.{lookup, insert, nat_Eq, lookup-insert}
use bojairu.Opfs.{with_member, Opfs, OpenFile, Worker, without, among}
use bojairu.Opfs.Serving.{give_up_if_open, give_up, give_up_implicit, give_up_each, idle}

pub among-without :
    (n m : ℕ) (xs : List ℕ) → among m (without n xs) ≡ (if n == m then false else among m xs)
among-without n m [] = ground arith
among-without n m (x ∷ xs) = ground (arith, among-without n m xs)

among-append : (n : ℕ) (xs : List ℕ) → among n (xs ++ (n ∷ [])) ≡ true
among-append n [] = ground arith
among-append n (x ∷ xs) = ground (arith, among-append n xs)

pub among-with_member : (n : ℕ) (xs : List ℕ) → among n (with_member n xs) ≡ true
among-with_member n xs = elim (Bool-cases (among n xs)) [
  | inl b ↦ rw b b
  | inr b ↦ rw b (among-append n xs)
]

module _ {o : Opfs} where
  -- No file with this number has a handle.
  abbrev pub IsFree : ℕ → Worker o → Type 0
  IsFree fd w = (f : OpenFile o) → lookup fd w.open_files ≡ some f → f.handle ≡ false

  -- Closing handles opens none.
  insert-IsFree :
      (fd k : ℕ) (f : OpenFile o) (fs : List (ℕ × OpenFile o))
      → f.handle ≡ false
      → ((g : OpenFile o) → lookup fd fs ≡ some g → g.handle ≡ false)
      → (g : OpenFile o) → lookup fd (insert k f fs) ≡ some g
      → g.handle ≡ false
  insert-IsFree fd k f fs c h g e =
      let q : (if k == fd then some f else lookup fd fs) ≡ some g =
        sym (lookup-insert k fd f fs) ∙ e in
      elim (Bool-cases (k == fd)) [
        | inl b ↦ let r = rw b at q in cc (r, c)
        | inr b ↦ let r = rw b at q in h g r
      ]

  pub inserted :
      (fd : ℕ) (f : OpenFile o) (fs : List (ℕ × OpenFile o)) → lookup fd (insert fd f fs) ≡ some f
  inserted fd f fs =
      let b : (fd == fd) ≡ true = ground arith in lookup-insert fd fd f fs ∙ rw b refl

  give_up-IsFree :
      (fd k : ℕ) (f : OpenFile o) (w : Worker o) → IsFree fd w → IsFree fd (give_up k f w)
  unfolding give_up
  give_up-IsFree fd k f w h = elim (Bool-cases f.handle) [
    | inl b ↦
        rw b
          (insert-IsFree fd k (record f { handle = false; explicit = false }) w.open_files refl h)
    | inr b ↦ rw b h
  ]

  pub given_up-IsFree :
      (fd : ℕ) (f : OpenFile o) (w : Worker o)
      → lookup fd w.open_files ≡ some f
      → IsFree fd (give_up fd f w)
  unfolding give_up
  given_up-IsFree fd f w e = elim (Bool-cases f.handle) [
    | inl b ↦ rw b (λ g h.
        cc (sym (inserted fd (record f { handle = false; explicit = false }) w.open_files) ∙ h))
    | inr b ↦ rw b (λ g h. cc (sym e ∙ h, b))
  ]

  give_up_implicit-IsFree :
      (fd k : ℕ) (w : Worker o) → IsFree fd w → IsFree fd (give_up_implicit k w)
  unfolding give_up_implicit
  give_up_implicit-IsFree fd k w h = elim (Bool-cases (among k w.implicit)) [
    | inl b ↦ rw b (closed (lookup k w.open_files))
    | inr b ↦ rw b h
  ]
    where
      closed :
          (x : Option (OpenFile o))
          → IsFree fd (give_up_if_open k x (record w { implicit = without k w.implicit }))
      closed none = h
      closed (some f) = give_up-IsFree fd k f (record w { implicit = without k w.implicit }) h

  given_up_implicit-IsFree :
      (fd : ℕ) (w : Worker o) → among fd w.implicit ≡ true → IsFree fd (give_up_implicit fd w)
  unfolding give_up_implicit
  given_up_implicit-IsFree fd w b = rw b (closed (lookup fd w.open_files) refl)
    where
      closed :
          (x : Option (OpenFile o))
          → lookup fd w.open_files ≡ x
          → IsFree fd (give_up_if_open fd x (record w { implicit = without fd w.implicit }))
      closed none e = λ g h. cc (sym e ∙ h)
      closed (some f) e = given_up-IsFree fd f (record w { implicit = without fd w.implicit }) e

  -- A file that is given up is no implicit lock any more, and no other lock comes or goes.
  among-give_up_implicit :
      (m k : ℕ) (w : Worker o)
      → among m (give_up_implicit k w).implicit ≡ (if k == m then false else among m w.implicit)
  unfolding give_up_implicit give_up
  among-give_up_implicit m k w = elim (Bool-cases (among k w.implicit)) [
    | inl b ↦ rw b (closed (lookup k w.open_files))
    | inr b ↦ rw b (ground (arith, b))
  ]
    where
      closed :
          (x : Option (OpenFile o))
          → among m (give_up_if_open k x (record w { implicit = without k w.implicit })).implicit
            ≡ (if k == m then false else among m w.implicit)
      closed none = among-without k m w.implicit
      closed (some f) = elim (Bool-cases f.handle) [
        | inl b ↦
            rw b (
              ground
                (arith, among-without k m (without k w.implicit), among-without k m w.implicit))
        | inr b ↦ rw b (among-without k m w.implicit)
      ]

  give_up_each-IsFree :
      (fd : ℕ) (fds : List ℕ) (w : Worker o)
      → (IsFree fd w) ⊎ ((among fd w.implicit ≡ true) × (among fd fds ≡ true))
      → IsFree fd (give_up_each fds w)
  give_up_each-IsFree fd [] w (inl h) = h
  give_up_each-IsFree fd [] w (inr h) = absurd (cc h.1)
  give_up_each-IsFree fd (k ∷ fds) w (inl h) =
      give_up_each-IsFree fd fds (give_up_implicit k w) (inl (give_up_implicit-IsFree fd k w h))
  give_up_each-IsFree fd (k ∷ fds) w (inr h) = elim (Bool-cases (k == fd)) [
    | inl b ↦
        let e : k ≡ fd = ground (arith, b) in
        give_up_each-IsFree fd fds (give_up_implicit k w)
          (inl (rw e (given_up_implicit-IsFree fd w h.0)))
    | inr b ↦
        give_up_each-IsFree fd fds (give_up_implicit k w)
          (inr ((ground (arith, among-give_up_implicit fd k w, h.0, b)), ground (arith, h.1, b)))
  ]

  among-give_up_each :
      (fd : ℕ) (fds : List ℕ) (w : Worker o)
      → among fd (give_up_each fds w).implicit
        ≡ (if among fd fds then false else among fd w.implicit)
  among-give_up_each fd [] w = refl
  among-give_up_each fd (k ∷ fds) w =
      ground
        (arith, among-give_up_each fd fds (give_up_implicit k w), among-give_up_implicit fd k w)

  -- When the worker has waited for 150 ms without a request it has no implicit lock left, and no
  -- file that was one has a handle.
  pub idle_lem :
      (w : Worker o) (fd : ℕ)
      → (among fd (idle w).implicit ≡ false)
        × ((among fd w.implicit ≡ false) ⊎ (IsFree fd (idle w)))
  unfolding idle
  idle_lem w fd = (
    ground (arith, among-give_up_each fd w.implicit w),
    elim (Bool-cases (among fd w.implicit)) [
      | inl b ↦ inr (give_up_each-IsFree fd w.implicit w (inr (b, b)))
      | inr b ↦ inl b
    ],
  )
