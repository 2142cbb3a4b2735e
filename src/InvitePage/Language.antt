-- ===== src/InvitePage/Language.antt =====
-- relay/deploy/landing/contact/invite/invite.js: the language of the page. `trim`, `toLowerCase` and
-- the names that every object inherits are parameters.
pub mod Laws
use Prim.Native.Char.{Char, code}
use Prim.Native.String.{String}
use text.Mathlib.Text.{◌==◌ as str_eq}
use bojairu.Prelude.{
  Bool, true, false, not, ◌&&◌, ◌||◌, Option, none, some, List, [], ◌∷◌, ◌++◌, if◌then◌else◌, map,
  ◌==◌,
}
use bojairu.InvitePage.Link.{truthy, text_of}

-- An element with `data-i18n`, and a switch with `data-lang-switch` and `aria-pressed`.
pub record Node : Type 0 where
  pub loc : String
  pub hidden : Bool

pub record Switch : Type 0 where
  pub goal : Option String
  pub pressed : String

-- `document.documentElement.lang`, the elements, and the entry of the local storage.
pub record LanguagePage : Type 0 where
  pub lang : String
  pub nodes : List Node
  pub switches : List Switch
  pub stored : Option String

-- The browser: what the storage does (`none`: it throws), and what it says of its languages.
pub record Settings : Type 0 where
  pub storage_works : Bool
  pub languages : List String
  pub language : Option String

unfoldable pub is_site_language : String → Bool
is_site_language s = str_eq s "en" || (str_eq s "fr" || str_eq s "es")

-- `raw.split('-')[0]`
unfoldable pub before_dash : String → String
before_dash String.[] = ""
before_dash (String.◌∷◌ c s) = if code c == b'-' then "" else String.◌∷◌ c (before_dash s)

-- The body of the loop of `detectBrowserLang`: `primary` of the candidate, or what the rest gives.
unfoldable pub site_language_or : String → String → String
site_language_or raw rest =
    if str_eq raw ""
    then rest
    else (if is_site_language (before_dash raw) then before_dash raw else rest)

module _ (trim to_lower_case : String → String) where
  -- The loop of `detectBrowserLang` over the candidates.
  unfoldable pub first_site_language : List String → String
  first_site_language [] = "en"
  first_site_language (c ∷ cs) = site_language_or (to_lower_case (trim c)) (first_site_language cs)

  unfoldable pub candidates : Settings → List String
  candidates w = w.languages ++ (if truthy w.language then text_of w.language ∷ [] else [])

  -- `detectBrowserLang`
  unfoldable pub detect_browser_lang : Settings → String
  unfolding first_site_language candidates
  detect_browser_lang w = first_site_language (candidates w)

-- `persistLang`
unfoldable pub persist_lang : Settings → String → LanguagePage → LanguagePage
persist_lang w lang p = if w.storage_works then record p { stored = some lang } else p

-- The bodies of the two loops of `applyLang`.
unfoldable pub show_node : String → Node → Node
show_node lang n = record n { hidden = not (str_eq n.loc lang) }

unfoldable pub pressed_value : String → Option String → String
pressed_value lang none = "false"
pressed_value lang (some t) = if str_eq t lang then "true" else "false"

unfoldable pub press_switch : String → Switch → Switch
press_switch lang s = record s { pressed = pressed_value lang s.goal }

module _ (inherited : String → Bool) where
  -- `allowed[lang]`: the object's own three names, and those that it inherits.
  unfoldable pub is_allowed : String → Bool
  is_allowed s = is_site_language s || inherited s

  -- `applyLang`: the language that it uses for a wanted one.
  unfoldable pub used_lang : String → String
  unfolding is_allowed
  used_lang wanted = if not (is_allowed wanted) then "en" else wanted

  -- `applyLang`
  unfoldable pub apply_lang : String → LanguagePage → LanguagePage
  unfolding used_lang
  apply_lang wanted p = record p {
    lang = used_lang wanted;
    nodes = map (show_node (used_lang wanted)) p.nodes;
    switches = map (press_switch (used_lang wanted)) p.switches;
  }

  -- The click handler of `wireLangSwitch`; `none` where the click is on no switch.
  unfoldable pub on_switch : Settings → Option (Option String) → LanguagePage → LanguagePage
  unfolding apply_lang persist_lang
  on_switch w none p = p
  on_switch w (some lang) p =
      if truthy lang then apply_lang (text_of lang) (persist_lang w (text_of lang) p) else p

module _ (trim to_lower_case : String → String) where
  -- The language that the page starts with.
  unfoldable pub initial_lang : Settings → Option String → String
  unfolding detect_browser_lang
  initial_lang w none = detect_browser_lang trim to_lower_case w
  initial_lang w (some s) =
      if w.storage_works && is_site_language s then s else detect_browser_lang trim to_lower_case w

module _ (trim to_lower_case : String → String) (inherited : String → Bool) where
  -- The rest of `wireLangSwitch`, which runs when the page loads.
  unfoldable pub load_lang : Settings → LanguagePage → LanguagePage
  unfolding initial_lang apply_lang
  load_lang w p = apply_lang inherited (initial_lang trim to_lower_case w p.stored) p
