-- ===== src/InvitePage/Link.antt =====
-- relay/deploy/landing/contact/invite/invite.js: the invitation in the query string and the links
-- that the page shows. `URLSearchParams.get` and `encodeURIComponent` are parameters.
use Prim.Native.String.{String, ◌++◌}
use text.Mathlib.Text.{◌==◌ as str_eq}
use bojairu.Prelude.{Bool, false, not, ◌&&◌, Option, none, some, List, map, if◌then◌else◌}

-- JavaScript's test of a string or `null`.
abbrev pub truthy : Option String → Bool
truthy none = false
truthy (some s) = not (str_eq s "")

abbrev pub text_of : Option String → String
text_of none = "null"
text_of (some s) = s

abbrev pub bare_link : String
bare_link = "bojairu://contact/invite"

-- The elements whose content follows from the query string. A missing element is `none`.
pub record LinkPage : Type 0 where
  -- the `href` attributes of the elements with `data-open-app`
  pub open_hrefs : List (Option String)
  -- the texts of the elements with `data-invite-link-box`
  pub link_boxes : List String
  -- the attribute `hidden` of the row and of the copy button of the short code, and its text
  pub row_hidden : Option Bool
  pub wrap_hidden : Option Bool
  pub short_code : Option String

abbrev pub set_if_there {ℓ} : {A : Type ℓ} → Option A → A → Option A
set_if_there none a = none
set_if_there (some _) a = some a

module _ (encode : String → String) (params : String → Option String) where
  -- `hasInvite`
  unfoldable pub has_invite : Bool
  has_invite = truthy (params "v") && truthy (params "c")

  -- `deepSearch`
  unfoldable pub deep_search : String
  deep_search =
      if has_invite
      then "?v=" ++ (encode (text_of (params "v")) ++ ("&c=" ++ encode (text_of (params "c"))))
      else ""

  -- `deepLink`
  unfoldable pub deep_link : String
  deep_link = if has_invite then bare_link ++ deep_search else ""

  -- `setDeepLinkTargets`
  unfoldable pub set_deep_link_targets : LinkPage → LinkPage
  set_deep_link_targets p = record p {
    open_hrefs = map (λ b. if has_invite then some deep_link else some bare_link) p.open_hrefs;
    link_boxes = map (λ b. if has_invite then deep_link else bare_link) p.link_boxes;
  }

  -- `wireShortCodeRow`
  unfoldable pub wire_short_code_row : LinkPage → LinkPage
  wire_short_code_row p =
      let show = has_invite && truthy (params "s") in
      record p {
        row_hidden = set_if_there p.row_hidden (not show);
        wrap_hidden = set_if_there p.wrap_hidden (not show);
        short_code =
            if show then set_if_there p.short_code (text_of (params "s")) else p.short_code;
      }

  -- What the page shows once both have run.
  unfoldable pub load_links : LinkPage → LinkPage
  load_links p = wire_short_code_row (set_deep_link_targets p)
