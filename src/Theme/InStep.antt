-- ===== src/Theme/InStep.antt =====
-- frontend/src/components/theme-provider.tsx: the theme, the storage and the root element.
use webmeow.Prelude.{
  String, ◌≡◌, refl, ap, sym, ◌∙◌, true, false, not, ◌==◌, Option, none, some, List, [], ◌∷◌, ◌++◌,
  if_cases, Dict, put, or_default, keep, eq_iff, eq_refl, arith,
}
use webmeow.Theme.{
  ResolvedTheme, dark, light, Theme, resolved, system, resolved_name, theme_name, is_theme, Page,
  KeyDown, get_next_shortcut_theme, resolve, is_color, apply_theme, set_theme_state, is_ignored,
  mount, set_theme, handle_key_down, when_system, handle_change, write, handle_storage_change,
  Event, picks, presses, prefers_now, writes, writes_session, happen, happen_all,
}

-- The root element shows the theme: of the two classes it has the one, once.
abbrev pub IsShown : Page → Type 0
IsShown p = keep is_color p.classes ≡ resolved_name (resolve p.prefers p.theme) ∷ []

colors_kept :
    (r : ResolvedTheme) (names : List String)
    → keep is_color (keep (λ name. not (is_color name)) names ++ (resolved_name r ∷ []))
      ≡ resolved_name r ∷ []
colors_kept dark [] = refl
colors_kept light [] = refl
colors_kept r (name ∷ rest) = ground (arith, colors_kept r rest)

is_theme-theme_name : (t : Theme) → is_theme (some (theme_name t)) ≡ some t
unfolding is_theme
is_theme-theme_name (resolved dark) = refl
is_theme-theme_name (resolved light) = refl
is_theme-theme_name system = refl

theme_name_inj : (t u : Theme) → (theme_name t == theme_name u) ≡ true → t ≡ u
theme_name_inj t u h =
    ap (λ o. or_default o t)
      (sym (is_theme-theme_name t)
        ∙ ap (λ name. is_theme (some name)) ((eq_iff (theme_name t) (theme_name u)).0 h)
        ∙ is_theme-theme_name u)

apply-IsShown : (t : Theme) (p : Page) → p.theme ≡ t → IsShown (apply_theme t p)
unfolding apply_theme
apply-IsShown t p h =
    colors_kept (resolve p.prefers t) p.classes
    ∙ ap (λ u. resolved_name (resolve p.prefers u) ∷ []) (sym h)

set_state-IsShown : (t : Theme) (p : Page) → IsShown p → IsShown (set_theme_state t p)
unfolding set_theme_state
set_state-IsShown t p h =
    if_cases IsShown (theme_name p.theme == theme_name t) _ _ (λ e. h)
      (λ e. apply-IsShown t (record p { theme = t }) refl)

set_state-theme : (t : Theme) (p : Page) → (set_theme_state t p).theme ≡ t
unfolding set_theme_state apply_theme
set_state-theme t p =
    if_cases (λ (q : Page). q.theme ≡ t) (theme_name p.theme == theme_name t) _ _
      (λ e. theme_name_inj p.theme t e) (λ e. refl)

set_state-storage : (t : Theme) (p : Page) → (set_theme_state t p).storage ≡ p.storage
unfolding set_theme_state apply_theme
set_state-storage t p =
    if_cases (λ (q : Page). q.storage ≡ p.storage) (theme_name p.theme == theme_name t) _ _
      (λ e. refl) (λ e. refl)

module _ (storage_key : String) (default_theme : Theme) where
  -- The theme that a page would have that is opened now.
  abbrev pub stored : Dict String → Theme
  stored storage = or_default (is_theme (storage storage_key)) default_theme

  abbrev pub IsInStep : Page → Type 0
  IsInStep p = (p.theme ≡ stored p.storage) × IsShown p

  changed :
      (t : Theme) (p : Page) → t ≡ stored p.storage → IsShown p → IsInStep (set_theme_state t p)
  changed t p h k =
      (set_state-theme t p ∙ h ∙ ap stored (sym (set_state-storage t p)), set_state-IsShown t p k)

  set-IsInStep :
      (t : Theme) (p : Page) → IsShown p → IsInStep (set_theme storage_key default_theme t p)
  unfolding set_theme
  set-IsInStep t p k =
      let p' : Page = record p { storage = put p.storage storage_key (theme_name t) } in
      changed t p' (ground (arith, eq_refl storage_key, is_theme-theme_name t)) k

  press-IsInStep :
      (e : KeyDown) (p : Page)
      → IsInStep p
      → IsInStep (handle_key_down storage_key default_theme e p)
  unfolding handle_key_down
  press-IsInStep e p h =
      if_cases IsInStep (is_ignored e) _ _ (λ i. h)
        (λ i. set-IsInStep (resolved (get_next_shortcut_theme p.prefers p.theme)) p h.1)

  when_system-IsInStep :
      (prefers : ResolvedTheme) (t : Theme) (p : Page)
      → p.theme ≡ t
      → IsInStep p
      → IsInStep (when_system storage_key default_theme t (record p { prefers = prefers }))
  unfolding apply_theme
  when_system-IsInStep prefers (resolved r) p e h = (h.0, ground (arith, e, h.1))
  when_system-IsInStep prefers system p e h =
      (h.0, apply-IsShown system (record p { prefers = prefers }) e)

  change-IsInStep :
      (prefers : ResolvedTheme) (p : Page)
      → IsInStep p
      → IsInStep (handle_change storage_key default_theme prefers p)
  unfolding handle_change
  change-IsInStep prefers p h = when_system-IsInStep prefers p.theme p refl h

  write_own :
      (value : Option String) (storage : Dict String)
      → write storage_key default_theme storage_key value storage storage_key ≡ value
  write_own none storage = ground (arith, eq_refl storage_key)
  write_own (some value) storage = ground (arith, eq_refl storage_key)

  write_other :
      (key : String) (value : Option String) (storage : Dict String)
      → (key == storage_key) ≡ false
      → write storage_key default_theme key value storage storage_key ≡ storage storage_key
  write_other key none storage h = ground arith
  write_other key (some value) storage h = ground arith

  written-IsInStep :
      (key : String) (value : Option String) (p : Page)
      → IsInStep p
      → IsInStep (happen storage_key default_theme (writes key value) p)
  unfolding happen handle_storage_change
  written-IsInStep key value p h =
      let p' : Page = record p { storage = write storage_key default_theme key value p.storage } in
      if_cases IsInStep (key == storage_key) _ _
        (λ own.
          changed (or_default (is_theme value) default_theme) p'
            (ap (λ v. or_default (is_theme v) default_theme)
              (sym (write_own value p.storage)
                ∙ ap (λ k. write storage_key default_theme k value p.storage storage_key)
                    (sym ((eq_iff key storage_key).0 own))))
            h.1)
        (λ other. (
          h.0
              ∙ ap (λ v. or_default (is_theme v) default_theme)
                  (sym (write_other key value p.storage other)),
          h.1,
        ))

  happen-IsInStep :
      (e : Event storage_key default_theme) (p : Page)
      → IsInStep p
      → IsInStep (happen storage_key default_theme e p)
  unfolding happen handle_storage_change
  happen-IsInStep (picks t) p h = set-IsInStep t p h.1
  happen-IsInStep (presses e) p h = press-IsInStep e p h
  happen-IsInStep (prefers_now prefers) p h = change-IsInStep prefers p h
  happen-IsInStep (writes key value) p h = written-IsInStep key value p h
  happen-IsInStep (writes_session key value) p h = h

  all-IsInStep :
      (es : List (Event storage_key default_theme)) (p : Page)
      → IsInStep p
      → IsInStep (happen_all storage_key default_theme es p)
  unfolding happen_all
  all-IsInStep [] p h = h
  all-IsInStep (e ∷ rest) p h =
      all-IsInStep rest (happen storage_key default_theme e p) (happen-IsInStep e p h)

  -- Whatever theme is picked or toggled to by the key, whatever another page writes or removes, and
  -- however the system's preference changes after the provider was mounted, the theme is the one that a
  -- page opened now would read from the storage, and of the two theme classes the root element has the
  -- one of the theme, or of the preference where the theme is the system's, and has it once.
  pub happen_all-IsInStep :
      (es : List (Event storage_key default_theme)) (classes : List String) (storage : Dict String)
      (prefers : ResolvedTheme)
      → IsInStep (
          happen_all storage_key default_theme es
            (mount storage_key default_theme classes storage prefers))
  unfolding mount
  happen_all-IsInStep es classes storage prefers =
      let theme = stored storage in
      all-IsInStep es (mount storage_key default_theme classes storage prefers) (
        unfold apply_theme in refl,
        apply-IsShown theme
            (record { theme = theme; classes = classes; storage = storage; prefers = prefers })
            refl,
      )
