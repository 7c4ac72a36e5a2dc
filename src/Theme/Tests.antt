-- ===== src/Theme/Tests.antt =====
-- The theme of a page (frontend/src/components/theme-provider.tsx) at concrete inputs.
use webmeow.Prelude.{String, ◌≡◌, refl, true, false, none, some, List, [], ◌∷◌, Dict, empty, put}
use webmeow.Theme.{
  dark, light, resolved, system, KeyDown, Page, mount, Event, picks, presses, prefers_now, writes,
  writes_session, happen_all, handle_storage_change,
}
use webmeow.Theme.InStep.{IsInStep, happen_all-IsInStep}

abbrev shortcut : KeyDown
shortcut = record {
  repeats = false;
  meta_key = false;
  ctrl_key = false;
  alt_key = false;
  in_editable = false;
  key = "D";
}

abbrev day : List (Event "theme" system)
day =
    presses shortcut
    ∷ prefers_now light
    ∷ writes "theme" (some "blue")
    ∷ prefers_now dark
    ∷ picks (resolved light)
    ∷ writes_session "theme" (some "light")
    ∷ writes "theme" none
    ∷ []

abbrev at_first : Dict String
at_first = put empty "theme" "dark"

happen_all-IsInStep_example :
    IsInStep "theme" system
      (happen_all "theme" system day (mount "theme" system ("light" ∷ "app" ∷ []) at_first light))
happen_all-IsInStep_example =
    happen_all-IsInStep "theme" system day ("light" ∷ "app" ∷ []) at_first light

ends_with_the_preference :
    (happen_all "theme" system day
      (mount "theme" system ("light" ∷ "app" ∷ []) at_first light)).classes
    ≡ "app" ∷ "dark" ∷ []
unfolding happen_all mount
ends_with_the_preference = refl

-- The event of a cleared storage has no key: the theme stays what it is.
abbrev page : Page
unfolding mount
page = mount "theme" system ("app" ∷ []) at_first light

clearing_is_not_followed :
    handle_storage_change "theme" system
      (record { in_local_storage = true; key = none; new_value = none })
      page
    ≡ page
unfolding handle_storage_change
clearing_is_not_followed = refl
