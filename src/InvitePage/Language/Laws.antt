-- ===== src/InvitePage/Language/Laws.antt =====
-- The language that a visitor of relay/deploy/landing/contact/invite/invite.js sees.
use Prim.Native.String.{String}
use text.Mathlib.Text.{◌==◌ as str_eq}
use text.Mathlib.TextEquality.{eq_iff}
use bojairu.Prelude.{
  ◌≡◌, inl, inr, refl, sym, ap, ◌∙◌, Bool, true, false, ◌&&◌, Option, none, some, List, [], ◌∷◌,
  arith, Bool-cases, map, ◌↔◌, All,
}
use bojairu.InvitePage.Language.{
  Node, Switch, LanguagePage, Settings, is_site_language, before_dash, first_site_language,
  site_language_or, detect_browser_lang, persist_lang, is_allowed, used_lang, show_node,
  press_switch, pressed_value, apply_lang, on_switch, initial_lang, load_lang,
}

abbrev pub IsShown : String → Node → Type 0
IsShown lang n = (n.hidden ≡ false) ↔ (n.loc ≡ lang)

abbrev pub IsMarked : String → Switch → Type 0
IsMarked lang s = (s.pressed ≡ "true") ↔ (s.goal ≡ some lang)

-- The page is in one of its three languages, and shows exactly the texts of that language and exactly
-- the switches to it as pressed.
pub record IsConsistent (p : LanguagePage) : Type 0 where
  pub known : is_site_language p.lang ≡ true
  pub texts : All (IsShown p.lang) p.nodes
  pub marks : All (IsMarked p.lang) p.switches

All-map :
    {A B : Type 0} (f : A → B) (P : B → Type 0) (xs : List A)
    → ((x : A) → P (f x))
    → All P (map f xs)
All-map f P [] h = tt
All-map f P (x ∷ xs) h = (h x, All-map f P xs h)

show_node-IsShown : (lang : String) (n : Node) → IsShown lang (show_node lang n)
unfolding show_node
show_node-IsShown lang n = ground (arith, eq_iff n.loc lang)

pressed_value_lem :
    (lang : String) (t : Option String) → (pressed_value lang t ≡ "true") ↔ (t ≡ some lang)
unfolding pressed_value
pressed_value_lem lang none = ground (arith, eq_iff "false" "true")
pressed_value_lem lang (some t) = elim (Bool-cases (str_eq t lang)) [
  | inl e ↦ rw (e, pressed_value) (ground (arith, eq_iff t lang))
  | inr e ↦ rw (e, pressed_value) (ground (arith, eq_iff t lang, eq_iff "false" "true"))
]

press_switch-IsMarked : (lang : String) (s : Switch) → IsMarked lang (press_switch lang s)
unfolding press_switch
press_switch-IsMarked lang s = pressed_value_lem lang s.goal

module _ (inherited : String → Bool) where
  used_lang_site :
      (wanted : String) → is_site_language wanted ≡ true → used_lang inherited wanted ≡ wanted
  unfolding used_lang is_allowed
  used_lang_site wanted h = rw h refl

  used_lang-known :
      (wanted : String)
      → (inherited wanted ≡ true → is_site_language wanted ≡ true)
      → is_site_language (used_lang inherited wanted) ≡ true
  unfolding used_lang is_allowed is_site_language
  used_lang-known wanted h = elim (Bool-cases (is_site_language wanted)) [
    | inl e ↦ rw (e, used_lang) e
    | inr e ↦ elim (Bool-cases (inherited wanted)) [
      | inl i ↦ absurd (ground (arith, h i, e))
      | inr i ↦
          let fallback : is_site_language "en" ≡ true = refl in rw (e, used_lang) (rw i fallback)
    ]
  ]

  apply_lang-IsConsistent :
      (wanted : String) (p : LanguagePage)
      → (inherited wanted ≡ true → is_site_language wanted ≡ true)
      → IsConsistent (apply_lang inherited wanted p)
  unfolding apply_lang
  apply_lang-IsConsistent wanted p h = record {
    known = used_lang-known wanted h;
    texts = All-map (show_node _) (IsShown _) p.nodes (show_node-IsShown _);
    marks = All-map (press_switch _) (IsMarked _) p.switches (press_switch-IsMarked _);
  }

  -- A click on a switch keeps a consistent page consistent, if the switch's value is one of the
  -- three languages or no name that every object inherits.
  pub on_switch-IsConsistent :
      (w : Settings) (goal : Option (Option String)) (p : LanguagePage)
      → IsConsistent p
      → ((g : String) → goal ≡ some (some g) → inherited g ≡ true → is_site_language g ≡ true)
      → IsConsistent (on_switch inherited w goal p)
  unfolding on_switch
  on_switch-IsConsistent w none p ok h = ok
  on_switch-IsConsistent w (some none) p ok h = ok
  on_switch-IsConsistent w (some (some g)) p ok h = elim (Bool-cases (str_eq g "")) [
    | inl e ↦ rw (e, on_switch) ok
    | inr e ↦ rw (e, on_switch) (apply_lang-IsConsistent g (persist_lang w g p) (h g refl))
  ]

  site_language_full : (g : String) → is_site_language g ≡ true → str_eq g "" ≡ false
  unfolding is_site_language
  site_language_full g h = elim (Bool-cases (str_eq g "")) [
    | inl e ↦
        let bad : true ≡ false = sym h ∙ ap is_site_language ((eq_iff g "").0 e) in
        absurd (ground (arith, bad))
    | inr e ↦ e
  ]

  stored-on_switch :
      (w : Settings) (g : String) (p : LanguagePage)
      → w.storage_works ≡ true
      → is_site_language g ≡ true
      → (on_switch inherited w (some (some g)) p).stored ≡ some g
  unfolding on_switch apply_lang persist_lang
  stored-on_switch w g p works site =
      rw (site_language_full g site, on_switch) (rw (works, persist_lang) refl)

site_language_or-known :
    (raw rest : String)
    → is_site_language rest ≡ true
    → is_site_language (site_language_or raw rest) ≡ true
unfolding site_language_or
site_language_or-known raw rest h = elim (Bool-cases (str_eq raw "")) [
  | inl e ↦ rw (e, site_language_or) h
  | inr e ↦ elim (Bool-cases (is_site_language (before_dash raw))) [
    | inl f ↦ rw (e, site_language_or) (rw f f)
    | inr f ↦ rw (e, site_language_or) (rw f h)
  ]
]

module _ (trim to_lower_case : String → String) where
  first_site_language-known :
      (cs : List String) → is_site_language (first_site_language trim to_lower_case cs) ≡ true
  unfolding first_site_language is_site_language
  first_site_language-known [] = let fallback : is_site_language "en" ≡ true = refl in fallback
  first_site_language-known (c ∷ cs) = site_language_or-known _ _ (first_site_language-known cs)

module _ (trim to_lower_case : String → String) (inherited : String → Bool) where
  initial_lang-known :
      (w : Settings) (stored : Option String)
      → is_site_language (initial_lang trim to_lower_case w stored) ≡ true
  unfolding initial_lang detect_browser_lang
  initial_lang-known w none = first_site_language-known trim to_lower_case _
  initial_lang-known w (some s) = elim (Bool-cases (w.storage_works && is_site_language s)) [
    | inl e ↦ rw (e, initial_lang) (ground (arith, e))
    | inr e ↦ rw (e, initial_lang) (first_site_language-known trim to_lower_case _)
  ]

  -- When the page has loaded it is in one of its three languages, and shows exactly the texts of
  -- that language and exactly the switches to it as pressed, whatever the browser says of its
  -- languages and whatever the local storage holds.
  pub load_lang-IsConsistent :
      (w : Settings) (p : LanguagePage) → IsConsistent (load_lang trim to_lower_case inherited w p)
  unfolding load_lang
  load_lang-IsConsistent w p =
      apply_lang-IsConsistent inherited _ p (λ _. initial_lang-known w p.stored)

  -- A visitor's choice of one of the three languages is kept: where the local storage works, the
  -- page that is loaded again has that language, whatever languages the browser then names.
  pub load_lang-on_switch :
      (w w' : Settings) (g : String) (p : LanguagePage)
      → w.storage_works ≡ true
      → w'.storage_works ≡ true
      → is_site_language g ≡ true
      → (load_lang trim to_lower_case inherited w' (on_switch inherited w (some (some g)) p)).lang
        ≡ g
  unfolding load_lang apply_lang initial_lang
  load_lang-on_switch w w' g p works works' site =
      rw (stored-on_switch inherited w g p works site, load_lang)
        (rw (works', initial_lang) (rw site (used_lang_site inherited g site)))
