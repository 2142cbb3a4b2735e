-- ===== src/InvitePage/Target.antt =====
-- The links that relay/deploy/landing/contact/invite/invite.js puts into the page.
use Prim.Native.Char.{Char, code}
use Prim.Native.String.{String, ◌++◌, []}
use text.Mathlib.TextEquality.{eq_iff}
use text.Mathlib.TextLemmas.{nil-append, cons-append, append_cancel_left}
use bojairu.Prelude.{
  ◌≡◌, ◌≢◌, refl, sym, ap, ◌∙◌, Bool, true, false, Option, none, some, List, ◌∷◌, map, arith,
  if◌then◌else◌, All, ◌↔◌, length, length-map,
}
use bojairu.InvitePage.Link.{
  LinkPage, truthy, text_of, bare_link, has_invite, deep_search, deep_link, set_deep_link_targets,
  wire_short_code_row, load_links,
}

All-map : {A B : Type 0} (b : B) (P : B → Type 0) (xs : List A) → P b → All P (map (λ x. b) xs)
All-map b P List.[] h = tt
All-map b P (x ∷ xs) h = (h, All-map b P xs h)

truthy-some : (o : Option String) → truthy o ≡ true → (s : String) × (o ≡ some s) × (s ≢ "")
truthy-some none h = cc
truthy-some (some s) h = (s, refl, λ e. ground (arith, eq_iff s ""))

module _ (encode : String → String) (params : String → Option String) where
  -- The link of the page: with the invitation, or the bare one.
  unfoldable pub target : String
  target = if has_invite encode params then deep_link encode params else bare_link

  -- Once the page has loaded, where it has the row, the copy button and the text of the short code:
  -- every button that opens the app and every link box has the page's one link, and none was added
  -- or lost; the row and the copy button of the short code are without the attribute `hidden`
  -- exactly if there are an invitation and a short code, and then the code is the row's text.
  pub load_links_lem :
      (p : LinkPage) (row wrap : Bool) (old : String)
      → p.row_hidden ≡ some row
      → p.wrap_hidden ≡ some wrap
      → p.short_code ≡ some old
      → All (λ h. h ≡ some target) (load_links encode params p).open_hrefs
        × (length (load_links encode params p).open_hrefs ≡ length p.open_hrefs)
        × All (λ t. t ≡ target) (load_links encode params p).link_boxes
        × (length (load_links encode params p).link_boxes ≡ length p.link_boxes)
        × (((load_links encode params p).row_hidden ≡ some false)
            ↔ ((s : String) × (params "s" ≡ some s) × (s ≢ "") × (has_invite encode params ≡ true)))
        × ((load_links encode params p).wrap_hidden ≡ (load_links encode params p).row_hidden)
        × ((s : String)
            → params "s" ≡ some s
            → s ≢ ""
            → has_invite encode params ≡ true
            → (load_links encode params p).short_code ≡ some s)
  unfolding load_links set_deep_link_targets wire_short_code_row target
  load_links_lem p row wrap old hr hw hs = (
    All-map _ _ p.open_hrefs (ground arith),
    length-map p.open_hrefs _,
    All-map _ _ p.link_boxes (ground arith),
    length-map p.link_boxes _,
    (
      λ e.
          let (s, there, nonempty) = truthy-some (params "s") (ground arith) in
          (s, there, nonempty, ground arith),
      λ w. ground (arith, eq_iff (w.0) ""),
    ),
    ground arith,
    λ s e n i. ground (arith, eq_iff s ""),
  )

-- The encoded text has no "&".
abbrev pub HasNoAmpersand : String → Type 0
HasNoAmpersand [] = Unit
HasNoAmpersand (String.◌∷◌ c s) = (code c ≢ b'&') × HasNoAmpersand s

-- A text is cut at its first "&" in one way.
cut_at_ampersand :
    (amp : Char) (a b x y : String)
    → code amp ≡ b'&'
    → HasNoAmpersand a
    → HasNoAmpersand b
    → a ++ String.◌∷◌ amp x ≡ b ++ String.◌∷◌ amp y
    → (a ≡ b) × (x ≡ y)
cut_at_ampersand amp [] [] x y q h k e = let e' = rw (nil-append, nil-append) at e in (refl, cc e')
cut_at_ampersand amp [] (String.◌∷◌ c b) x y q h k e =
    let e' = rw (nil-append, cons-append) at e in
    let same : amp ≡ c = cc e' in absurd (k.0 (rw (← same) q))
cut_at_ampersand amp (String.◌∷◌ c a) [] x y q h k e =
    let e' = rw (cons-append, nil-append) at e in
    let same : amp ≡ c = cc e' in absurd (h.0 (rw (← same) q))
cut_at_ampersand amp (String.◌∷◌ c a) (String.◌∷◌ d b) x y q h k e =
    let e' = rw (cons-append, cons-append) at e in
    let head : c ≡ d = cc e' in
    let tail : a ++ String.◌∷◌ amp x ≡ b ++ String.◌∷◌ amp y = cc e' in
    let (p, r) = cut_at_ampersand amp a b x y q (h.1) (k.1) tail in (cc (head, p), r)

module _ (encode : String → String) where
  -- The text that follows the bare link, cut up.
  deep_link_cut :
      (v c v' c' : String)
      → HasNoAmpersand v
      → HasNoAmpersand v'
      → bare_link ++ ("?v=" ++ (v ++ ("&c=" ++ c))) ≡ bare_link ++ ("?v=" ++ (v' ++ ("&c=" ++ c')))
      → (v ≡ v') × (c ≡ c')
  deep_link_cut v c v' c' h k e =
      let e₁ = append_cancel_left bare_link _ _ e in
      let e₂ = append_cancel_left "?v=" _ _ e₁ in
      let amp : Char = "&" in
      let split : v ++ String.◌∷◌ amp ("c=" ++ c) ≡ v' ++ String.◌∷◌ amp ("c=" ++ c') =
        ap (λ t. v ++ t) (sym (cons-append amp "c=" c))
        ∙ e₂
        ∙ ap (λ t. v' ++ t) (cons-append amp "c=" c') in
      let (p, r) = cut_at_ampersand amp v v' ("c=" ++ c) ("c=" ++ c') refl h k split in
      (p, append_cancel_left "c=" _ _ r)

  deep_link-invited :
      (params : String → Option String)
      → has_invite encode params ≡ true
      → deep_link encode params
        ≡ bare_link
          ++ ("?v=" ++ (encode (text_of (params "v")) ++ ("&c=" ++ encode (text_of (params "c")))))
  unfolding deep_link deep_search
  deep_link-invited params i = rw (i, deep_link, deep_search)

  invited_params :
      (params other : String → Option String)
      → has_invite encode params ≡ true
      → has_invite encode other ≡ true
      → text_of (params "v") ≡ text_of (other "v")
      → text_of (params "c") ≡ text_of (other "c")
      → (params "v" ≡ other "v") × (params "c" ≡ other "c")
  unfolding has_invite
  invited_params params other i j v c = (ground arith, ground arith)

  -- Two invitations with the same deep link are the same invitation: the version and the payload
  -- can be read off the link. This holds for an encoding that tells texts apart and leaves no "&"
  -- in the two versions.
  pub deep_link_injective :
      (params other : String → Option String)
      → ((s t : String) → encode s ≡ encode t → s ≡ t)
      → HasNoAmpersand (encode (text_of (params "v")))
      → HasNoAmpersand (encode (text_of (other "v")))
      → has_invite encode params ≡ true
      → has_invite encode other ≡ true
      → deep_link encode params ≡ deep_link encode other
      → (params "v" ≡ other "v") × (params "c" ≡ other "c")
  deep_link_injective params other inj h k i j e =
      let cut =
        deep_link_cut _ _ _ _ h k
          (sym (deep_link-invited params i) ∙ e ∙ deep_link-invited other j) in
      invited_params params other i j (inj _ _ (cut.0)) (inj _ _ (cut.1))
