-- ===== src/IndexedDb/Disk/Loaded.antt =====
-- The start of a worker of mobile/web/drift_worker.dart.js: the stored files are loaded into memory.
use Prim.Native.String.{String}
use mathlib.Core.Path.{subst}
use text.Mathlib.Text.{◌==◌ as str_eq}
use text.Mathlib.TextEquality.{eq_iff}
use bojairu.Prelude.{
  ℕ, ◌≡◌, ◌≤◌, refl, sym, ap, ◌∙◌, Option, none, some, List, [], ◌∷◌, arith, length, Option-cases,
  inl, inr, if◌then◌else◌, ◌+◌, ext_of_get_or, Bool-cases,
}
use bojairu.Prelude.Dict.{lookup, insert, lookup-insert, string_Eq}
use bojairu.Bytes.Flat.{write_at, length-write_at, byte-write_at}
use bojairu.Bytes.Buffer.{
  Buffer, empty_buffer, set_length, set_range_in, contents, IsValid, roomy, write_buffer,
}
use bojairu.Bytes.Buffer.Laws.{empty_buffer-IsValid, write_buffer_lem}
use bojairu.MemoryFs.{Files}
use bojairu.MemoryFs.Laws.{IsSound, file, insert-IsSound, file-insert}
use bojairu.IndexedDb.Storage.{Database, Distinct, max_offset}
use bojairu.IndexedDb.Loading.{read_file_lem, Holds}
use bojairu.IndexedDb.Queue.Order.{Store}
use bojairu.IndexedDb.Disk.{Names, Disk, put_all, loaded_buffer, load_each, load_all}
use bojairu.IndexedDb.Disk.Keeping.{Keeps}

roomy_empty : (m : ℕ) → roomy empty_buffer m ≡ set_length empty_buffer m
unfolding roomy set_length
roomy_empty m = ground arith

write_at_empty : (j : List ℕ) → write_at [] 0 j ≡ j
write_at_empty j =
    ext_of_get_or _ _ 0 (omega (arith, length-write_at [] 0 j))
      (λ i h. byte-write_at [] 0 j i ∙ ground (arith, length-write_at [] 0 j))

loaded_buffer-write_buffer : (j : List ℕ) → loaded_buffer j ≡ write_buffer empty_buffer 0 j
unfolding loaded_buffer write_buffer
loaded_buffer-write_buffer j =
    let e : length j ≡ 0 + length j = omega arith in
    ap (λ m. set_range_in (set_length empty_buffer m) 0 m j 0) e
    ∙ ap (λ r. set_range_in r 0 (0 + length j) j 0) (sym (roomy_empty (0 + length j)))

-- The buffer of a loaded file holds the bytes that were read.
loaded_buffer_lem :
    (j : List ℕ) → (k : Buffer) × (loaded_buffer j ≡ some k) × IsValid k × (contents k ≡ j)
loaded_buffer_lem j =
    let (k, done, valid, same) = write_buffer_lem empty_buffer 0 j empty_buffer-IsValid in
    (k, loaded_buffer-write_buffer j ∙ done, valid, same ∙ write_at_empty j)

-- Each name stands with its id.
abbrev Right : (String → Option ℕ) → List (String × ℕ) → Type 0
Right key [] = Unit
Right key ((p, i) ∷ g) = (key p ≡ some i) × Right key g

Right-insert :
    (key : String → Option ℕ) (p : String) (i : ℕ) (g : List (String × ℕ))
    → key p ≡ some i
    → Right key g
    → Right key (insert p i g)
unfolding insert
Right-insert key p i [] h v = (h, tt)
Right-insert key p i ((q, j) ∷ g) h v = elim (Bool-cases (str_eq q p)) [
  | inl e ↦ rw (e, insert) (h, v.1)
  | inr e ↦ rw (e, insert) (v.0, Right-insert key p i g h (v.1))
]

Right-put_all :
    (key : String → Option ℕ) (m g : List (String × ℕ))
    → Right key m
    → Right key g
    → Right key (put_all m g)
unfolding put_all
Right-put_all key m [] v w = v
Right-put_all key m ((p, i) ∷ g) v w =
    Right-put_all key (insert p i m) g (Right-insert key p i m (w.0) v) (w.1)

known-put_all :
    (key : String → Option ℕ) (m g : List (String × ℕ))
    → ((p : String) (i : ℕ) → lookup p m ≡ some i → key p ≡ some i)
    → Right key g
    → (p : String) (i : ℕ) → lookup p (put_all m g) ≡ some i
    → key p ≡ some i
unfolding put_all
known-put_all key m [] v w p i e = v p i e
known-put_all key m ((q, j) ∷ g) v w p i e =
    known-put_all key (insert q j m) g
      (λ p' i' e'. known_one p' i' (v p' i') (lookup-insert q p' j m) (w.0) e') (w.1) p i e
  where
    known_one :
        (p' : String) (i' : ℕ) {a b : Option ℕ}
        → (a ≡ some i' → key p' ≡ some i')
        → b ≡ (if str_eq q p' then some j else a)
        → key q ≡ some j
        → b ≡ some i'
        → key p' ≡ some i'
    known_one p' i' x y z h = elim (Bool-cases (str_eq q p')) [
      | inl e' ↦
          let same : q ≡ p' = (eq_iff q p').0 e' in ap key (sym same) ∙ z ∙ ground (arith, h, y, e')
      | inr e' ↦ x (ground (arith, h, y, e'))
    ]

file_none : (p : String) → file [] p ≡ none
unfolding file lookup
file_none p = refl

empty-IsSound : IsSound []
unfolding lookup
empty-IsSound = record { valid = λ k r e. cc }

-- A list without repetitions that has these ids.
Distinct-Right :
    (key : String → Option ℕ) (g : List (String × ℕ))
    → Distinct g
    → ((p : String) (i : ℕ) → lookup p g ≡ some i → key p ≡ some i)
    → Right key g
unfolding lookup
Distinct-Right key [] v h = tt
Distinct-Right key ((q, j) ∷ g) v h = (
  h q j (ground (arith, eq_iff q q)),
  Distinct-Right key g (v.1) (λ p i e. h p i (ground (arith, e, eq_iff q p, v.0))),
)

-- A name that was put is found.
lookup-put_all :
    (m g : List (String × ℕ)) (p : String)
    → lookup p (put_all m g) ≡ none
    → (lookup p m ≡ none) × (lookup p g ≡ none)
unfolding put_all lookup
lookup-put_all m [] p h = (h, refl)
lookup-put_all m ((q, i) ∷ g) p h =
    let r = lookup-put_all (insert q i m) g p h in ground (arith, r, lookup-insert q p i m)

-- No file is longer than the largest offset of the key ranges.
abbrev pub IsSmall : Store → Type 0
IsSmall s = (p : String) (f : List ℕ) → s p ≡ some f → length f ≤ max_offset

module _ (d : Database) (n : Names d) where
  held_file :
      (t : Disk d n) (s : Store) (p : String) (i : ℕ)
      → Keeps d n t s
      → n.key_of t.db p ≡ some i
      → (f : List ℕ) × (s p ≡ some f) × Holds d t.db i f
  held_file t s p i v h = elim (Option-cases (s p)) [
    | inl e ↦ absurd (ground (arith, h, v.absent p e))
    | inr (f, e) ↦
        let (j, key, held) = v.present p f e in
        (f, e, subst (λ (x : ℕ). Holds d t.db x f) (ground (arith, key, h)) held)
  ]

  load_each_lem :
      (t : Disk d n) (s : Store) (g : List (String × ℕ)) (o : Files)
      → Keeps d n t s
      → IsSmall s
      → Right (n.key_of t.db) g
      → IsSound o
      → (o' : Files) × (load_each d n t.db g o ≡ some o')
        × IsSound o'
        × ((p : String) → file o' p ≡ elim (lookup p g) [ none ↦ file o p | some _ ↦ s p ])
  unfolding load_each lookup
  load_each_lem t s [] o v small w sound = (o, refl, sound, λ p. refl)
  load_each_lem t s ((m, l) ∷ g) o v small w sound =
      let (f, stored, held) = held_file t s m l v (w.0) in
      let read = read_file_lem d t.db l f held (small m f stored) in
      let (k, done, valid, same) = loaded_buffer_lem f in
      let (o', rest, sound', files) =
        load_each_lem t s g (insert m k o) v small (w.1) (insert-IsSound o m k sound valid) in
      (
        o',
        rw (read, load_each) (rw done rest),
        sound',
        λ p. here p (files p) (file-insert o m p k) stored same,
      )
    where
      here :
          (p : String) {f c : List ℕ} {x y : Option (List ℕ)}
          → x ≡ elim (lookup p g) [ none ↦ y | some _ ↦ s p ]
          → y ≡ (if str_eq m p then some c else file o p)
          → s m ≡ some f
          → c ≡ f
          → x ≡ elim (lookup p ((m, l) ∷ g)) [ none ↦ file o p | some _ ↦ s p ]
      here p e h a b = elim (Bool-cases (str_eq m p)) [
        | inl q ↦ let same : m ≡ p = (eq_iff m p).0 q in ground (arith, e, h, q, b, a, ap s same)
        | inr q ↦ ground (arith, e, h, q)
      ]

  -- `bO` on a disk that has certain files loads exactly these, and all of them.
  pub load_all_lem :
      (t : Disk d n) (s : Store)
      → Keeps d n t s
      → IsSmall s
      → (t' : Disk d n) × (o : Files) × (load_all d n t [] ≡ some (t', o))
        × IsSound o
        × ((p : String) → file o p ≡ s p)
        × Keeps d n t' s
  unfolding load_all
  load_all_lem t s v small =
      let names = n.name_keys t.db in
      let key = n.key_of t.db in
      let right = Right-put_all key [] names tt (
        Distinct-Right key names (n.name_keys-Distinct t.db)
          (λ p i e. sym (n.lookup-name_keys t.db p) ∙ e)) in
      let (o, done, sound, files) =
        load_each_lem t s (put_all [] names) [] v small right empty-IsSound in
      (
        record t { ids = put_all t.ids (put_all [] names) },
        o,
        rw (done, load_all) refl,
        sound,
        λ p. loaded p (files p),
        record {
          present = v.present;
          absent = v.absent;
          named = v.named;
          known = known-put_all key t.ids (put_all [] names) v.known right;
          live = v.live;
          live_block = v.live_block;
        },
      )
    where
      not_stored : (p : String) → n.key_of t.db p ≡ none → s p ≡ none
      not_stored p h = elim (Option-cases (s p)) [
        | inl e ↦ e
        | inr (f, e) ↦ absurd (ground (arith, h, (v.present p f e).1))
      ]

      loaded :
          (p : String) {x : Option (List ℕ)}
          → x ≡ elim (lookup p (put_all [] (n.name_keys t.db))) [ none ↦ file [] p | some _ ↦ s p ]
          → x ≡ s p
      loaded p h = elim (Option-cases (lookup p (put_all [] (n.name_keys t.db)))) [
        | inl e ↦
            let gone = (lookup-put_all [] (n.name_keys t.db) p e).1 in
            let other = not_stored p (sym (n.lookup-name_keys t.db p) ∙ gone) in
            ground (arith, h, e, other, file_none p)
        | inr (j, e) ↦ ground (arith, h, e)
      ]
