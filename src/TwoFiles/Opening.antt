-- ===== src/TwoFiles/Opening.antt =====
-- Opening the database and the journal in the OPFS file system without a worker
-- (mobile/web/drift_worker.dart.js, `A.dm`): which of them exist, and what they hold.
use Prim.Native.Nat.{bit_and}
use Prim.Native.String.{String}
use bojairu.Prelude.{
  ℕ, ◌≡◌, ◌≢◌, refl, sym, ap, ◌∙◌, true, false, not, Option, none, some, List, [], arith, ◌==◌,
  if◌then◌else◌, ext_of_get_or,
}
use bojairu.Bytes.Flat.{byte, resize, length-resize}
use bojairu.MemoryFs.{Result, ok, err}
use bojairu.TwoFiles.Flags.{
  same_kind, found, IsReady, InSync, TakesAll, read_flags-InSync, set_flag_lem, held-read_flags,
  found-read_flags, found-set_flag,
}
use bojairu.TwoFiles.{
  Handles, HandleLaws, FileKind, database, journal, file_index, file_kind, TwoFiles, Opened,
  on_disk, held, with_held, set_flag, read_flags, open_on_disk, open_named,
}

resize_empty : (f : List ℕ) → resize f 0 ≡ []
resize_empty f =
    ext_of_get_or _ _ 0 (length-resize f 0) (λ i w. absurd (omega (arith, w, length-resize f 0)))

module _ (h : Handles) (l : HandleLaws h) where
  -- What opening one of the two files leads to.
  abbrev pub Opens :
      Result (TwoFiles h × Opened h) → FileKind → ℕ → (FileKind → Option (List ℕ)) → Type 0
  Opens r k flags files =
      (s : TwoFiles h) × (r ≡ ok (s, on_disk k (not (bit_and flags 8 == 0)) 0))
      × InSync h l s
      × ((j : FileKind) → found h l s j ≡ files j)

  flag_found :
      (s : TwoFiles h) (k : FileKind)
      → InSync h l s
      → (byte s.flags (file_index k) ≡ 0 → found h l s k ≡ none)
        × (found h l s k ≡ none → byte s.flags (file_index k) ≡ 0)
  unfolding found
  flag_found s k v =
      let e : byte s.flags (file_index k) ≡ byte (l.contents s.meta) (file_index k) =
        ap (λ (f : List ℕ). byte f (file_index k)) v.synced in
      (λ z. ground (arith, e, z), λ z. ground (arith, e, z))

  pub found-with_held :
      (s : TwoFiles h) (k j : FileKind) (f : h.Held)
      → same_kind j k ≡ false
      → found h l (with_held h s k f) j ≡ found h l s j
  unfolding found
  found-with_held s database database f e = absurd (cc e)
  found-with_held s database journal f e = refl
  found-with_held s journal database f e = refl
  found-with_held s journal journal f e = absurd (cc e)

  with_held-InSync :
      (s : TwoFiles h) (k : FileKind) (f : h.Held) → InSync h l s → InSync h l (with_held h s k f)
  with_held-InSync s database f v = record {
    is_ready = record { flags_size = v.is_ready.flags_size; meta_size = v.is_ready.meta_size };
    synced = v.synced;
  }
  with_held-InSync s journal f v = record {
    is_ready = record { flags_size = v.is_ready.flags_size; meta_size = v.is_ready.meta_size };
    synced = v.synced;
  }

  pub held-with_held :
      (s : TwoFiles h) (k : FileKind) (f : h.Held) → held h (with_held h s k f) k ≡ f
  held-with_held s database f = refl
  held-with_held s journal f = refl

  open_on_disk_lem :
      (s : TwoFiles h) (k : FileKind) (flags : ℕ)
      → TakesAll h l
      → InSync h l s
      → (found h l s k ≢ none → Opens (open_on_disk h s k flags) k flags (found h l s))
        × (found h l s k ≡ none → bit_and flags 4 ≡ 0 → open_on_disk h s k flags ≡ err 14)
        × ((f : h.Held)
            → found h l s k ≡ none
            → bit_and flags 4 ≢ 0
            → h.set_size (held h s k) 0 ≡ some f
            → Opens
                (open_on_disk h s k flags)
                k
                flags
                (λ j. if same_kind j k then some [] else found h l s j))
  unfolding open_on_disk
  open_on_disk_lem s k flags takes v = (
    λ n.
        let there : byte s.flags (file_index k) ≢ 0 = λ z. n ((flag_found s k v).0 z) in
        (s, ground (arith, there), v, λ j. refl),
    λ m b. let z = (flag_found s k v).1 m in ground (arith, z, b),
    λ f m b c.
        let z = (flag_found s k v).1 m in
        let s₁ = with_held h s k f in
        let w = with_held-InSync s k f v in
        let empty : l.contents (held h s₁ k) ≡ [] =
          ap l.contents (held-with_held s k f)
          ∙ l.set_size_lem (held h s k) f 0 c
          ∙ resize_empty (l.contents (held h s k)) in
        (
          set_flag h k true s₁,
          ground (arith, z, b, c),
          (set_flag_lem h l s₁ k true takes w.is_ready).0,
          λ j. found-set_flag h l s₁ k j true takes w ∙ new_file j (found-with_held s k j f) empty,
        ),
  )
    where
      new_file :
          (j : FileKind) {x y : Option (List ℕ)} {c : List ℕ}
          → (same_kind j k ≡ false → x ≡ y)
          → c ≡ []
          → (if same_kind j k then (if true then some c else none) else x)
            ≡ (if same_kind j k then some [] else y)
      new_file j e z = ground (arith, e, z)

  -- In the OPFS file system without a worker, where "meta" has a byte for each of the two files and
  -- the disk takes all the bytes of each write: opening one of the two that exists succeeds and
  -- leaves both files as they are. Opening one that does not exist throws 14 without the flag that
  -- creates it; with that flag, if the disk lets it be emptied, the file exists and is empty, and
  -- the other file is as it was. After each success the bytes in memory are those of "meta".
  pub open_named_lem :
      (s : TwoFiles h) (a random_path : String) (k : FileKind) (flags : ℕ)
      → TakesAll h l
      → file_kind a ≡ some k
      → IsReady h l s
      → (found h l s k ≢ none
          → Opens (open_named h s (some a) random_path flags) k flags (found h l s))
        × (found h l s k ≡ none
            → bit_and flags 4 ≡ 0
            → open_named h s (some a) random_path flags ≡ err 14)
        × ((f : h.Held)
            → found h l s k ≡ none
            → bit_and flags 4 ≢ 0
            → h.set_size (held h s k) 0 ≡ some f
            → Opens
                (open_named h s (some a) random_path flags)
                k
                flags
                (λ j. if same_kind j k then some [] else found h l s j))
  unfolding open_named
  open_named_lem s a random_path k flags takes e v =
      let s₁ = read_flags h s in
      let same = found-read_flags h l s in
      let (there, missing, new) = open_on_disk_lem s₁ k flags takes (read_flags-InSync h l s v) in
      rw (e, open_named)
        (
          λ n.
              let (s', done, w, files) = there (λ z. n (sym (same k) ∙ z)) in
              (s', done, w, λ j. files j ∙ same j),
          λ m b. missing (same k ∙ m) b,
          λ f m b c.
              let (s', done, w, files) =
                new f (same k ∙ m) b (ap (λ x. h.set_size x 0) (held-read_flags h l s k) ∙ c) in
              (s', done, w, λ j. files j ∙ ap (λ x. if same_kind j k then some [] else x) (same j)),
        )
