-- ===== src/Opfs/Invariant.antt =====
-- What stays true of the OPFS worker of mobile/web/drift_worker.dart.js through all its requests: the
-- numbers of its files and its handles.
use mathlib.Core.Path.{subst}
use bojairu.Prelude.{
  ℕ, ◌<◌, ◌≡◌, ◌≢◌, refl, sym, ap, ◌∙◌, true, false, Option, none, some, List, [], ◌∷◌, ◌++◌,
  if◌then◌else◌, ◌==◌, arith, Bool-cases, ◌⊎◌, inl, inr,
}
use bojairu.Prelude.Dict.{lookup, insert, lookup-insert, nat_Eq}
use bojairu.Opfs.{Opfs, OpenFile, Worker, among, without, with_member}
use bojairu.Opfs.Serving.{give_up, give_up_if_open, give_up_implicit, give_up_each, idle, opened}
use bojairu.Opfs.Locks.{among-without, among-with_member}

pub among-without_other :
    (k : ℕ) (ns : List ℕ) (m : ℕ) → k ≢ m → among m ns ≡ true → among m (without k ns) ≡ true
among-without_other k ns m d h = ground (arith, among-without k m ns)

among-append_left : (ns : List ℕ) (k m : ℕ) → among m ns ≡ true → among m (ns ++ (k ∷ [])) ≡ true
among-append_left [] k m h = absurd (cc h)
among-append_left (n ∷ ns) k m h = ground (arith, among-append_left ns k m, h)

among-with_member_other :
    (k : ℕ) (ns : List ℕ) (m : ℕ) → among m ns ≡ true → among m (with_member k ns) ≡ true
among-with_member_other k ns m h = elim (Bool-cases (among k ns)) [
  | inl b ↦ rw b h
  | inr b ↦ rw b (among-append_left ns k m h)
]

module _ {o : Opfs} where
  -- The numbers of the open files have been given out.
  abbrev pub IsNumbered : ℕ → List (ℕ × OpenFile o) → Type 0
  IsNumbered n fs = (fd : ℕ) (f : OpenFile o) → lookup fd fs ≡ some f → fd < n

  -- A file that is locked explicitly has its handle, and each handle is an implicit lock.
  abbrev pub Tracks : List ℕ → ℕ → OpenFile o → Type 0
  Tracks ns fd f = (f.explicit ≡ true → f.handle ≡ true) × (f.handle ≡ true → among fd ns ≡ true)

  abbrev pub IsTracked : List ℕ → List (ℕ × OpenFile o) → Type 0
  IsTracked ns fs = (fd : ℕ) (f : OpenFile o) → lookup fd fs ≡ some f → Tracks ns fd f

  abbrev pub IsValid : Worker o → Type 0
  IsValid w = IsNumbered w.next w.open_files × IsTracked w.implicit w.open_files

  pub lookup-insert_cases :
      (k fd : ℕ) (f g : OpenFile o) (fs : List (ℕ × OpenFile o))
      → lookup fd (insert k f fs) ≡ some g
      → ((k ≡ fd) × (f ≡ g)) ⊎ ((k ≢ fd) × (lookup fd fs ≡ some g))
  lookup-insert_cases k fd f g fs h =
      let q : (if k == fd then some f else lookup fd fs) ≡ some g =
        sym (lookup-insert k fd f fs) ∙ h in
      elim (Bool-cases (k == fd)) [
        | inl b ↦ let r = rw b at q in inl (ground (arith, b), cc r)
        | inr b ↦ let r = rw b at q in inr ((λ e. ground (arith, b, e)), r)
      ]

  pub insert-IsNumbered :
      (n k : ℕ) (f : OpenFile o) (fs : List (ℕ × OpenFile o))
      → k < n
      → IsNumbered n fs
      → IsNumbered n (insert k f fs)
  insert-IsNumbered n k f fs h v fd g e = elim (lookup-insert_cases k fd f g fs e) [
    | inl p ↦ omega (arith, p.0)
    | inr p ↦ v fd g p.1
  ]

  -- The handles of all files but one are tracked.
  abbrev pub TrackedBut : ℕ → List ℕ → List (ℕ × OpenFile o) → Type 0
  TrackedBut k ns fs = (fd : ℕ) (f : OpenFile o) → k ≢ fd → lookup fd fs ≡ some f → Tracks ns fd f

  TrackedBut-IsTracked :
      (k : ℕ) (ns : List ℕ) (fs : List (ℕ × OpenFile o))
      → TrackedBut k ns fs
      → ((f : OpenFile o) → lookup k fs ≡ some f → Tracks ns k f)
      → IsTracked ns fs
  TrackedBut-IsTracked k ns fs t own fd f e = elim (Bool-cases (k == fd)) [
    | inl b ↦
        let q : k ≡ fd = ground (arith, b) in
        subst (λ m. Tracks ns m f) q (own f (subst (λ m. lookup m fs ≡ some f) (sym q) e))
    | inr b ↦ t fd f (λ q. ground (arith, b, q)) e
  ]

  -- A file may change if it is an explicit or an implicit lock afterwards, or without a handle.
  pub insert-IsTracked :
      (ns ms : List ℕ) (k : ℕ) (f : OpenFile o) (fs : List (ℕ × OpenFile o))
      → Tracks ms k f
      → ((m : ℕ) → k ≢ m → among m ns ≡ true → among m ms ≡ true)
      → TrackedBut k ns fs
      → IsTracked ms (insert k f fs)
  insert-IsTracked ns ms k f fs new old v fd g e = elim (lookup-insert_cases k fd f g fs e) [
    | inl p ↦
        subst (λ m. Tracks ms m g) p.0
          (
            (λ x. sym (ap (λ z. z.handle) p.1) ∙ new.0 (ap (λ z. z.explicit) p.1 ∙ x)),
            (λ h. new.1 (ap (λ z. z.handle) p.1 ∙ h)),
          )
    | inr p ↦ ((v fd g p.0 p.1).0, (λ h. old fd p.0 ((v fd g p.0 p.1).1 h)))
  ]

  -- Giving up the handle of the file `k`.
  pub give_up-IsValid :
      (k : ℕ) (f : OpenFile o) (w : Worker o)
      → lookup k w.open_files ≡ some f
      → IsNumbered w.next w.open_files
      → TrackedBut k w.implicit w.open_files
      → (f.handle ≡ false → IsTracked w.implicit w.open_files)
      → IsValid (give_up k f w)
  unfolding give_up
  give_up-IsValid k f w e n t shut = elim (Bool-cases f.handle) [
    | inl b ↦
        let g : OpenFile o = record f { handle = false; explicit = false } in
        rw b (
          insert-IsNumbered w.next k g w.open_files (n k f e) n,
          insert-IsTracked w.implicit (without k w.implicit) k g w.open_files
              ((λ x. absurd (cc x)), (λ h. absurd (cc h))) (among-without_other k w.implicit) t,
        )
    | inr b ↦ rw b (n, shut b)
  ]

  pub give_up_implicit-IsValid : (k : ℕ) (w : Worker o) → IsValid w → IsValid (give_up_implicit k w)
  unfolding give_up_implicit
  give_up_implicit-IsValid k w v = elim (Bool-cases (among k w.implicit)) [
    | inl b ↦ rw b (closed (lookup k w.open_files) refl)
    | inr b ↦ rw b v
  ]
    where
      others : TrackedBut k (without k w.implicit) w.open_files
      others fd f d e =
          ((v.1 fd f e).0, (λ h. among-without_other k w.implicit fd d ((v.1 fd f e).1 h)))

      closed :
          (x : Option (OpenFile o))
          → lookup k w.open_files ≡ x
          → IsValid (give_up_if_open k x (record w { implicit = without k w.implicit }))
      closed none e = (
        v.0,
        TrackedBut-IsTracked k (without k w.implicit) w.open_files others
            (λ f h. absurd (cc (sym e ∙ h))),
      )
      closed (some f) e =
          give_up-IsValid k f (record w { implicit = without k w.implicit }) e v.0 others
            (λ h. TrackedBut-IsTracked k (without k w.implicit) w.open_files others (λ g q.
              let c : g.handle ≡ false = cc (sym e ∙ q, h) in
              ((v.1 k g q).0, (λ y. absurd (cc (c, y))))))

  give_up_each-IsValid : (ks : List ℕ) (w : Worker o) → IsValid w → IsValid (give_up_each ks w)
  give_up_each-IsValid [] w v = v
  give_up_each-IsValid (k ∷ ks) w v =
      give_up_each-IsValid ks (give_up_implicit k w) (give_up_implicit-IsValid k w v)

  pub idle-IsValid : (w : Worker o) → IsValid w → IsValid (idle w)
  unfolding idle
  idle-IsValid w v = give_up_each-IsValid w.implicit w v

  pub opened-IsValid :
      (k : ℕ) (f : OpenFile o) (w : Worker o)
      → k < w.next
      → f.explicit ≡ false
      → IsValid w
      → IsValid (opened k f w)
  unfolding opened
  opened-IsValid k f w h x v =
      let g : OpenFile o = record f { handle = true } in
      (
        insert-IsNumbered w.next k g w.open_files h v.0,
        subst
            (λ c.
              IsTracked (if c then w.implicit else with_member k w.implicit)
                (insert k g w.open_files))
            (sym x)
            (insert-IsTracked w.implicit (with_member k w.implicit) k g w.open_files
              ((λ a. refl), (λ a. among-with_member k w.implicit))
              (λ m d a. among-with_member_other k w.implicit m a) (λ fd f d. v.1 fd f)),
      )
