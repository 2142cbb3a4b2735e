-- ===== src/InvitePage/Copy.antt =====
-- relay/deploy/landing/contact/invite/invite.js: the copy buttons. A handler gives the list of what
-- it does to the page and to the clipboard, in order.
pub mod Laws
use Prim.Native.String.{String}
use text.Mathlib.Text.{◌==◌ as str_eq}
use bojairu.Prelude.{
  Bool, true, false, not, ◌&&◌, ◌||◌, Option, none, some, List, [], ◌∷◌, ◌++◌, if◌then◌else◌,
}
use bojairu.InvitePage.Link.{truthy, text_of, has_invite, deep_link}

pub data Effect : Type 0 where
  -- `navigator.clipboard.writeText(text)`
  write_text : String → Effect
  -- a hidden text area with this value is put into the body, not selected yet
  append_area : String → Effect
  -- `select()` of the text area
  select_area : Effect
  -- `document.execCommand('copy')`, which copies the selected text
  exec_copy : Effect
  remove_area : Effect
  -- the button gets the attribute `data-copied`, to be removed after 2200 ms
  mark_copied : Effect
  -- the texts that the live region gets, if there is one
  live_text : String → Effect

-- The browser: whether there is a live region, what the asynchronous clipboard does (`none`: it is
-- missing; `some b`: its promise is fulfilled exactly if `b`), and whether `execCommand` returns.
pub record Browser : Type 0 where
  pub has_live : Bool
  pub clipboard : Option Bool
  pub exec_returns : Bool

-- The button that `closest('[data-copy-kind]')` finds: the value of that attribute, and whether it
-- has `data-requires-invite`.
pub record CopyButton : Type 0 where
  pub kind : String
  pub requires_invite : Bool

-- `announce`
unfoldable pub announce : Browser → String → List Effect
announce w msg = if w.has_live then live_text "" ∷ (live_text msg ∷ []) else []

-- `legacyCopy`, with what `onDone` does.
unfoldable pub legacy_copy : Browser → String → List Effect → List Effect
legacy_copy w text on_done =
    append_area text
    ∷ (select_area
        ∷ ((if w.exec_returns
              then exec_copy ∷ on_done
              else announce w "Could not copy — select the link and copy manually.")
            ++ (remove_area ∷ [])))

-- `copyToClipboard`
unfoldable pub copy_to_clipboard : Browser → String → List Effect → List Effect
copy_to_clipboard w text on_done = elim w.clipboard [
  | none ↦ legacy_copy w text on_done
  | some written ↦ if written then write_text text ∷ on_done else legacy_copy w text on_done
]

-- The end of the click handler: a refusal is announced, an empty text is left alone.
unfoldable pub copy_or_refuse : Browser → String × Option String → List Effect
copy_or_refuse w (text, some msg) = announce w msg
copy_or_refuse w (text, none) =
    if str_eq text ""
    then []
    else copy_to_clipboard w text (mark_copied ∷ announce w "Copied to clipboard.")

module _ (encode : String → String) (params : String → Option String) (href : String) where
  -- The text of a kind of button, or the announcement that there is none.
  unfoldable pub text_to_copy : String → (String × Option String)
  text_to_copy kind =
      if str_eq kind "deep"
      then (if not (has_invite encode params)
          then ("", some "This page has no invitation to copy.")
          else (deep_link encode params, none))
      else (if str_eq kind "https"
          then (href, none)
          else (if str_eq kind "short"
              then (if not (has_invite encode params) || not (truthy (params "s"))
                  then ("", some "No short code on this link.")
                  else (text_of (params "s"), none))
              else ("", none)))

  -- The click handler of `wireCopyButtons`; `none` where the click is on no copy button.
  unfoldable pub on_click : Browser → Option CopyButton → List Effect
  on_click w none = []
  on_click w (some b) =
      if str_eq b.kind ""
      then []
      else (if b.requires_invite && not (has_invite encode params)
          then announce w "This page has no invitation to copy."
          else copy_or_refuse w (text_to_copy b.kind))
