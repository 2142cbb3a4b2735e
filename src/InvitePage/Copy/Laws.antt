-- ===== src/InvitePage/Copy/Laws.antt =====
-- What a click on a copy button of relay/deploy/landing/contact/invite/invite.js can copy.
use Prim.Native.String.{String}
use text.Mathlib.Text.{◌==◌ as str_eq}
use text.Mathlib.TextEquality.{eq_iff}
use bojairu.Prelude.{
  ℕ, suc, ◌-◌, ◌≡◌, ◌≢◌, ◌⊎◌, inl, inr, refl, true, false, not, ◌&&◌, Option, none, some, List, [],
  ◌∷◌, arith, Bool-cases, Option-cases,
}
use bojairu.InvitePage.Link.{has_invite, deep_link}
use bojairu.InvitePage.Copy.{
  Effect, write_text, append_area, select_area, exec_copy, remove_area, mark_copied, Browser,
  CopyButton, announce, legacy_copy, copy_to_clipboard, copy_or_refuse, text_to_copy, on_click,
}

-- The texts that reach the clipboard, in order, given the value of the text area and the text under
-- the selection: a new text area is not selected, and `execCommand` copies the selection.
unfoldable pub copied : String → String → List Effect → List String
copied area selected [] = []
copied area selected (write_text t ∷ es) = t ∷ copied area selected es
copied area selected (append_area t ∷ es) = copied t selected es
copied area selected (select_area ∷ es) = copied area area es
copied area selected (exec_copy ∷ es) = selected ∷ copied area selected es
copied area selected (remove_area ∷ es) = copied "" "" es
copied area selected (_ ∷ es) = copied area selected es

-- The text areas that are put into the page less those that are taken out.
unfoldable pub areas_left : List Effect → ℕ → ℕ
areas_left [] n = n
areas_left (append_area t ∷ es) n = areas_left es (suc n)
areas_left (remove_area ∷ es) n = areas_left es (n - 1)
areas_left (_ ∷ es) n = areas_left es n

announce-copied :
    (w : Browser) (msg area selected : String) → copied area selected (announce w msg) ≡ []
unfolding announce copied
announce-copied w msg area selected = ground arith

announce-areas_left : (w : Browser) (msg : String) (n : ℕ) → areas_left (announce w msg) n ≡ n
unfolding announce areas_left
announce-areas_left w msg n = ground arith

-- Copying a text copies that text once or nothing, and takes out the text area that it put in.
copy_to_clipboard_lem :
    (w : Browser) (text msg selected : String) (n : ℕ)
    → ((copied "" selected (copy_to_clipboard w text (mark_copied ∷ announce w msg)) ≡ [])
        ⊎ (copied "" selected (copy_to_clipboard w text (mark_copied ∷ announce w msg))
            ≡ text ∷ []))
      × (areas_left (copy_to_clipboard w text (mark_copied ∷ announce w msg)) n ≡ n)
unfolding copy_to_clipboard legacy_copy announce copied areas_left
copy_to_clipboard_lem w text msg selected n = elim (Option-cases w.clipboard) [
  | inl e ↦ elim (Bool-cases w.exec_returns) [
    | inl x ↦ (inr (ground arith), ground arith)
    | inr x ↦ (inl (ground arith), ground arith)
  ]
  | inr (true, e) ↦ (inr (ground arith), ground arith)
  | inr (false, e) ↦ elim (Bool-cases w.exec_returns) [
    | inl x ↦ (inr (ground arith), ground arith)
    | inr x ↦ (inl (ground arith), ground arith)
  ]
]

module _ (encode : String → String) (params : String → Option String) (href : String) where
  -- What a button of this kind may copy on this page.
  abbrev pub MayCopy : String → String → Type 0
  MayCopy kind text =
      ((kind ≡ "deep") × (has_invite encode params ≡ true) × (text ≡ deep_link encode params))
      ⊎ (((kind ≡ "https") × (text ≡ href))
          ⊎ ((kind ≡ "short") × (has_invite encode params ≡ true) × (params "s" ≡ some text)))

  text_to_copy_lem :
      (kind text : String)
      → text_to_copy encode params href kind ≡ (text, none)
      → text ≢ ""
      → MayCopy kind text
  unfolding text_to_copy
  text_to_copy_lem kind text e n = elim (Bool-cases (str_eq kind "deep")) [
    | inl p ↦ inl ((eq_iff kind "deep").0 p, ground arith, ground arith)
    | inr p ↦ elim (Bool-cases (str_eq kind "https")) [
      | inl q ↦ inr (inl ((eq_iff kind "https").0 q, ground arith))
      | inr q ↦ elim (Bool-cases (str_eq kind "short")) [
        | inl r ↦ inr (inr ((eq_iff kind "short").0 r, ground arith, ground arith))
        | inr r ↦ absurd (n (ground arith))
      ]
    ]
  ]

  -- What the theorem below says of the effects of a click.
  abbrev Safe : String → String → List Effect → Type 0
  Safe selected kind es =
      ((copied "" selected es ≡ [])
        ⊎ ((text : String) × (copied "" selected es ≡ text ∷ []) × (text ≢ "") × MayCopy kind text))
      × ((n : ℕ) → areas_left es n ≡ n)

  announce-Safe : (w : Browser) (selected kind msg : String) → Safe selected kind (announce w msg)
  announce-Safe w selected kind msg =
      (inl (announce-copied w msg "" selected), announce-areas_left w msg)

  nothing-Safe : (selected kind : String) → Safe selected kind []
  unfolding copied areas_left
  nothing-Safe selected kind = (inl refl, λ n. refl)

  copy_or_refuse-Safe :
      (w : Browser) (selected kind : String) (p : String × Option String)
      → text_to_copy encode params href kind ≡ p
      → Safe selected kind (copy_or_refuse w p)
  unfolding copy_or_refuse
  copy_or_refuse-Safe w selected kind (text, some msg) e = announce-Safe w selected kind msg
  copy_or_refuse-Safe w selected kind (text, none) e = elim (Bool-cases (str_eq text "")) [
    | inl p ↦ rw p (nothing-Safe selected kind)
    | inr p ↦
        let full : text ≢ "" = λ q. ground (arith, eq_iff text "") in
        let msg : String = "Copied to clipboard." in
        rw p (
          elim ((copy_to_clipboard_lem w text msg selected 0).0) [
            | inl c ↦ inl c
            | inr c ↦ inr (text, c, full, text_to_copy_lem kind text e full)
          ],
          λ n. (copy_to_clipboard_lem w text msg selected n).1,
        )
  ]

  -- Whatever is selected in the page, a click on a copy button puts at most one text on the
  -- clipboard. That text is not empty and is the one for the button's kind: the deep link and the
  -- short code only on a page with an invitation (the short code as the query has it), the page's
  -- own address otherwise. Whatever the browser's clipboard does, no text area stays in the page.
  pub on_click_lem :
      (w : Browser) (b : CopyButton) (selected : String)
      → ((copied "" selected (on_click encode params href w (some b)) ≡ [])
          ⊎ ((text : String) × (copied "" selected (on_click encode params href w (some b))
                ≡ text ∷ [])
              × (text ≢ "")
              × MayCopy b.kind text))
        × ((n : ℕ) → areas_left (on_click encode params href w (some b)) n ≡ n)
  unfolding on_click
  on_click_lem w b selected = elim (Bool-cases (str_eq b.kind "")) [
    | inl p ↦ rw (p, on_click) (nothing-Safe selected b.kind)
    | inr p ↦ elim (Bool-cases (b.requires_invite && not (has_invite encode params))) [
      | inl q ↦
          rw (p, on_click)
            (rw q (announce-Safe w selected b.kind "This page has no invitation to copy."))
      | inr q ↦ rw (p, on_click) (rw q (copy_or_refuse-Safe w selected b.kind _ refl))
    ]
  ]
