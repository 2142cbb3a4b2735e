-- ===== src/InvitePage/Examples.antt =====
-- Runs of the invitation page, relay/deploy/landing/contact/invite/invite.js.
use Prim.Native.String.{String}
use text.Mathlib.Text.{◌==◌ as str_eq}
use bojairu.Prelude.{
  ℕ, ◌≡◌, ◌≢◌, ◌⊎◌, ◌↔◌, refl, Bool, true, false, Option, none, some, [], ◌∷◌, length, All,
  if◌then◌else◌, arith,
}
use bojairu.InvitePage.Link.{LinkPage, deep_search, has_invite, deep_link, load_links}
use bojairu.InvitePage.Target.{target, load_links_lem, deep_link_injective}
use bojairu.InvitePage.Copy.{
  Browser, CopyButton, on_click, copy_or_refuse, text_to_copy, copy_to_clipboard, legacy_copy,
  announce,
}
use bojairu.InvitePage.Copy.Laws.{copied, areas_left, MayCopy, on_click_lem}
use bojairu.InvitePage.Language.{
  LanguagePage, Settings, on_switch, load_lang, initial_lang, is_site_language, site_language_or,
  before_dash,
}
use bojairu.InvitePage.Language.Laws.{IsConsistent, load_lang-IsConsistent, load_lang-on_switch}

-- An encoding for texts without special characters, and the query "?v=1&c=abc&s=42".
abbrev same : String → String
same s = s

abbrev query : String → Option String
query k =
    if str_eq k "v"
    then some "1"
    else (if str_eq k "c" then some "abc" else (if str_eq k "s" then some "42" else none))

invited : has_invite same query ≡ true
unfolding has_invite
invited = refl

abbrev bare_query : String → Option String
bare_query k = if str_eq k "v" then some "1" else (if str_eq k "c" then some "abc" else none)

bare_invited : has_invite same bare_query ≡ true
unfolding has_invite
bare_invited = refl

same_link : deep_link same query ≡ deep_link same bare_query
unfolding deep_link has_invite deep_search
same_link = refl

link : deep_link same query ≡ "bojairu://contact/invite?v=1&c=abc"
unfolding deep_link has_invite deep_search
link = refl

deep_link_injective_example : (query "v" ≡ bare_query "v") × (query "c" ≡ bare_query "c")
deep_link_injective_example =
    deep_link_injective same query bare_query (λ s t e. e) (ground arith, tt) (ground arith, tt)
      invited bare_invited same_link

abbrev page : LinkPage
page = record {
  open_hrefs = none ∷ (some "#" ∷ []);
  link_boxes = "" ∷ [];
  row_hidden = some true;
  wrap_hidden = some true;
  short_code = some "";
}

load_links_lem_example :
    All (λ h. h ≡ some (target same query)) (load_links same query page).open_hrefs
    × (length (load_links same query page).open_hrefs ≡ 2)
    × All (λ t. t ≡ target same query) (load_links same query page).link_boxes
    × (length (load_links same query page).link_boxes ≡ 1)
    × (((load_links same query page).row_hidden ≡ some false)
        ↔ ((s : String) × (query "s" ≡ some s) × (s ≢ "") × (has_invite same query ≡ true)))
    × ((load_links same query page).wrap_hidden ≡ (load_links same query page).row_hidden)
    × ((s : String)
        → query "s" ≡ some s
        → s ≢ ""
        → has_invite same query ≡ true
        → (load_links same query page).short_code ≡ some s)
load_links_lem_example = load_links_lem same query page true true "" refl refl refl

abbrev browser : Browser
browser = record { has_live = true; clipboard = some false; exec_returns = true }

abbrev copy_button : CopyButton
copy_button = record { kind = "deep"; requires_invite = true }

abbrev address : String
address = "https://sync.example.tld/contact/invite?v=1&c=abc&s=42"

on_click_lem_example :
    ((copied "" "elsewhere" (on_click same query address browser (some copy_button)) ≡ [])
      ⊎ ((text : String) × (copied "" "elsewhere"
              (on_click same query address browser (some copy_button))
            ≡ text ∷ [])
          × (text ≢ "")
          × MayCopy same query address "deep" text))
    × ((n : ℕ) → areas_left (on_click same query address browser (some copy_button)) n ≡ n)
on_click_lem_example = on_click_lem same query address browser copy_button "elsewhere"

copied_link :
    copied "" "elsewhere" (on_click same query address browser (some copy_button))
    ≡ "bojairu://contact/invite?v=1&c=abc" ∷ []
unfolding copied on_click has_invite copy_or_refuse text_to_copy deep_link deep_search
    copy_to_clipboard legacy_copy announce
copied_link = refl

abbrev settings : Settings
settings = record { storage_works = true; languages = "de" ∷ ("fr-CA" ∷ []); language = some "de" }

abbrev language_page : LanguagePage
language_page = record {
  lang = "en";
  nodes = record { loc = "en"; hidden = false } ∷ (record { loc = "fr"; hidden = false } ∷ []);
  switches = record { goal = some "es"; pressed = "false" } ∷ [];
  stored = none;
}

abbrev own_names : String → Bool
own_names s = str_eq s "constructor"

detected : initial_lang same same settings none ≡ "fr"
unfolding initial_lang site_language_or is_site_language before_dash
detected = refl

load_lang-IsConsistent_example : IsConsistent (load_lang same same own_names settings language_page)
load_lang-IsConsistent_example = load_lang-IsConsistent same same own_names settings language_page

load_lang-on_switch_example :
    (load_lang same same own_names settings
      (on_switch own_names settings (some (some "es")) language_page)).lang
    ≡ "es"
unfolding is_site_language
load_lang-on_switch_example =
    load_lang-on_switch same same own_names settings settings "es" language_page refl refl refl
