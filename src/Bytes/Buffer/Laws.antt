-- ===== src/Bytes/Buffer/Laws.antt =====
-- The growable buffer `A.dq` of mobile/web/drift_worker.dart.js beside flat files.
use bojairu.Prelude.{
  ℕ, zero, suc, ◌+◌, ◌-◌, ◌*◌, ◌≤◌, ◌≡◌, refl, ◌∙◌, ap, max, ◌&&◌, some, List, [], ◌∷◌, arith, ltb,
  leb, ◌==◌, if◌then◌else◌, length, take, sym, replicate, length-take, length-replicate,
  ext_of_get_or,
}
use bojairu.Bytes.{overwrite}
use bojairu.Bytes.Flat.{
  byte, length-overwrite, byte-overwrite, byte-take, byte-beyond, byte-replicate_zero, write_at,
  resize, length-write_at, byte-write_at, length-resize, byte-resize,
}
use bojairu.Bytes.Buffer.{
  Buffer, empty_buffer, grown, set_length, set_range_in, contents, IsValid, roomy, write_buffer,
}

byte-contents :
    (o : Buffer) (i : ℕ) → byte (contents o) i ≡ (if ltb i o.len then byte o.store i else 0)
byte-contents o i =
    ground (arith, byte-take o.len o.store i, byte-beyond (contents o) i, length-take o.len o.store)

-- For a valid buffer the spare room need not be told apart.
byte-contents_valid : (o : Buffer) (i : ℕ) → IsValid o → byte (contents o) i ≡ byte o.store i
byte-contents_valid o i v = ground (arith, byte-contents o i, v.blank i)

pub length-contents : (o : Buffer) → IsValid o → length (contents o) ≡ o.len
length-contents o v = omega (arith, length-take o.len o.store, v.within)

pub empty_buffer-IsValid : IsValid empty_buffer
empty_buffer-IsValid = record { within = omega arith; blank = λ i h. refl }

-- The new backing store of `sl` has room for the new length.
new_store : Buffer → ℕ → List ℕ
unfolding grown
new_store o b = if length o.store == 0 then replicate b 0 else grown o b

length-new_store : (o : Buffer) (b : ℕ) → b ≤ length (new_store o b)
unfolding new_store
length-new_store o b = ground (
  arith,
  length-replicate b (zero),
  length-replicate (length o.store * 2) (zero),
  length-replicate 8 (zero),
)

byte-new_store : (o : Buffer) (b i : ℕ) → byte (new_store o b) i ≡ 0
unfolding new_store
byte-new_store o b i = ground (
  arith,
  byte-replicate_zero b i,
  byte-replicate_zero (length o.store * 2) i,
  byte-replicate_zero 8 i,
)

-- The bytes and the size of the backing store after the length was set.
set_length_store :
    (o : Buffer) (b i : ℕ)
    → IsValid o
    → (b ≤ length (set_length o b).store)
      × (byte (set_length o b).store i ≡ (if ltb i b then byte o.store i else 0))
unfolding set_length new_store
set_length_store o b i v = ground (
  arith,
  v.within,
  v.blank i,
  length-replicate (o.len - b) (zero),
  byte-replicate_zero (o.len - b) (i - b),
  length-overwrite o.store b (replicate (o.len - b) 0),
  byte-overwrite o.store b (replicate (o.len - b) 0) i,
  length-take o.len o.store,
  length-new_store o b,
  byte-new_store o b i,
  length-overwrite (new_store o b) 0 (take o.len o.store),
  byte-overwrite (new_store o b) 0 (take o.len o.store) i,
  byte-contents o i,
)

pub len-set_length : (o : Buffer) (b : ℕ) → (set_length o b).len ≡ b
unfolding set_length
len-set_length o b = ground arith

-- Setting the length keeps a buffer valid: shrinking clears what it gives up, and growing copies
-- into a store of zeros.
pub set_length-IsValid : (o : Buffer) (b : ℕ) → IsValid o → IsValid (set_length o b)
set_length-IsValid o b v = record {
  within = omega (arith, len-set_length o b, (set_length_store o b 0 v).0);
  blank = λ i h. ground (arith, len-set_length o b, (set_length_store o b i v).1);
}

-- Setting the length of a valid buffer cuts its contents off, or extends them by zeros.
pub contents-set_length :
    (o : Buffer) (b : ℕ) → IsValid o → contents (set_length o b) ≡ resize (contents o) b
contents-set_length o b v =
    ext_of_get_or _ _ 0
      (length-contents (set_length o b) (set_length-IsValid o b v)
        ∙ len-set_length o b
        ∙ sym (length-resize (contents o) b))
      (λ i h. ground (
        arith,
        byte-contents_valid (set_length o b) i (set_length-IsValid o b v),
        (set_length_store o b i v).1,
        byte-resize (contents o) b i,
        byte-contents_valid o i v,
      ))

-- Room for a write changes no byte.
roomy_lem :
    (p : Buffer) (s i : ℕ)
    → IsValid p
    → (s ≤ length (roomy p s).store)
      × ((roomy p s).len ≡ max p.len s)
      × ((roomy p s).len ≤ length (roomy p s).store)
      × (byte (roomy p s).store i ≡ byte p.store i)
unfolding roomy
roomy_lem p s i v =
    ground (arith, v.within, v.blank i, len-set_length p s, set_length_store p s i v)

take_all : (a : List ℕ) (n : ℕ) → length a ≤ n → take n a ≡ a
take_all [] zero h = refl
take_all [] (suc n) h = refl
take_all (x ∷ a) zero h = absurd (omega arith)
take_all (x ∷ a) (suc n) h = ap (λ r. x ∷ r) (take_all a n (omega arith))

set_range_in_lem :
    (o : Buffer) (b : ℕ) (d : List ℕ)
    → b + length d ≤ o.len
    → o.len ≤ length o.store
    → set_range_in o b (b + length d) d 0
      ≡ some (record { store = overwrite o.store b d; len = o.len })
unfolding set_range_in
set_range_in_lem o b d h k = ground (arith, take_all d (b + length d - b))

written : Buffer → ℕ → List ℕ → Buffer
written p b a = record {
  store = overwrite (roomy p (b + length a)).store b a;
  len = (roomy p (b + length a)).len;
}

-- No check of a write fails.
write_buffer-written :
    (p : Buffer) (b : ℕ) (a : List ℕ) → IsValid p → write_buffer p b a ≡ some (written p b a)
unfolding write_buffer written
write_buffer-written p b a v =
    let facts = roomy_lem p (b + length a) 0 v in
    set_range_in_lem (roomy p (b + length a)) b a (omega (arith, facts)) (facts.2)

written-IsValid : (p : Buffer) (b : ℕ) (a : List ℕ) → IsValid p → IsValid (written p b a)
unfolding written
written-IsValid p b a v =
    let facts = roomy_lem p (b + length a) 0 v in
    record {
      within = omega (
        arith,
        facts,
        length-overwrite (roomy p (b + length a)).store b a (omega (arith, facts)),
      );
      blank = λ i h. ground (
        arith,
        roomy_lem p (b + length a) i v,
        v.blank i,
        byte-overwrite (roomy p (b + length a)).store b a i,
      );
    }

written_lem :
    (p : Buffer) (b : ℕ) (a : List ℕ) (i : ℕ)
    → IsValid p
    → ((written p b a).len ≡ max p.len (b + length a))
      × (byte (written p b a).store i
          ≡ (if leb b i && ltb i (b + length a) then byte a (i - b) else byte p.store i))
unfolding written
written_lem p b a i v =
    ground
      (arith, roomy_lem p (b + length a) i v, byte-overwrite (roomy p (b + length a)).store b a i)

contents-written :
    (p : Buffer) (b : ℕ) (a : List ℕ)
    → IsValid p
    → contents (written p b a) ≡ write_at (contents p) b a
contents-written p b a v =
    ext_of_get_or _ _ 0
      (omega (
        arith,
        length-contents (written p b a) (written-IsValid p b a v),
        written_lem p b a 0 v,
        length-write_at (contents p) b a,
        length-contents p v,
      ))
      (λ i h. ground (
        arith,
        byte-contents_valid (written p b a) i (written-IsValid p b a v),
        written_lem p b a i v,
        byte-write_at (contents p) b a i,
        byte-contents_valid p i v,
      ))

-- A write into a valid buffer is never refused, leaves a valid buffer, and what that holds is the
-- file with the bytes written into it.
pub write_buffer_lem :
    (p : Buffer) (b : ℕ) (a : List ℕ)
    → IsValid p
    → (q : Buffer) × (write_buffer p b a ≡ some q)
      × IsValid q
      × (contents q ≡ write_at (contents p) b a)
write_buffer_lem p b a v =
    (written p b a, write_buffer-written p b a v, written-IsValid p b a v, contents-written p b a v)
