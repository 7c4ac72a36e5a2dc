-- ===== src/Beach/Listing/Presses.antt =====
-- frontend/src/features/beach/components/activities-list.tsx: the buttons against the wallet and the
-- beach service.
use webmeow.Prelude.{
  String, ◌≡◌, refl, sym, ◌∙◌, Bool, true, false, some, ◌∷◌, List, [], All, subst, if_cases,
}
use webmeow.Prelude.Int.{ℤ, pos, ltb_ℤ}
use webmeow.Tokens.Wallet.{can_afford_activity, refund_activity_tokens}
use webmeow.Tokens.Wallet.Exchange.{worth}
use webmeow.Beach.Booking.{
  BeachService, Page, Toast, tokens_returned, wallet_not_updated, not_enough_tokens, book_from_page,
  cancel_from_page,
}
use webmeow.Beach.Booking.Agreement.{IsAgreed, Action, act, act-IsAgreed}
use webmeow.Beach.Listing.Enabled.{
  books, cancels, Press, shown, press_shown, affordable_shown, held_shown, book_toasts,
}
use webmeow.Beach.Listing.{ActionButton, ActivityCard, book_button, cancel_button, card_of, press}

abbrev is_expected : Toast → Bool
is_expected wallet_not_updated = false
is_expected not_enough_tokens = false
is_expected _ = true

abbrev pub IsExpected : Toast → Type 0
IsExpected t = is_expected t ≡ true

module _ (B : BeachService) where
  open B use {book, cancel, activity_by_guest}

  cancel_toasts :
      (guest activity : String) (cost : ℤ) (p : Page B)
      → All IsExpected p.toasts
      → All IsExpected (cancel_from_page B (some guest) activity cost p).toasts
  unfolding cancel_from_page
  cancel_toasts guest activity cost p h =
      let refunded = (refund_activity_tokens p.wallet guest activity cost).0 in
      if_cases (λ (q : Page B). All IsExpected q.toasts) (cancel activity guest p.store).0 _ _
        (λ done.
          if_cases (All IsExpected) (ltb_ℤ (pos 0) refunded) (tokens_returned refunded ∷ p.toasts)
            p.toasts (λ e. (refl, h)) (λ e. h))
        (λ refused. (refl, h))

  -- The wallet and the service stay in step, and nothing unexpected is said.
  abbrev pub IsSound : String → Page B → Page B → Type 0
  IsSound guest p q =
      IsAgreed B guest q × (worth q.wallet guest ≡ worth p.wallet guest) × All IsExpected q.toasts

  book-IsSound :
      (guest activity : String) (cost : ℤ) (p : Page B)
      → can_afford_activity p.wallet guest cost (activity_by_guest guest p.store) ≡ true
      → IsAgreed B guest p
      → All IsExpected p.toasts
      → IsSound guest p
          (book_from_page B (some guest) activity cost (activity_by_guest guest p.store) p)
  unfolding act
  book-IsSound guest activity cost p enough agreed h =
      let same =
        act-IsAgreed B (Action.books guest activity cost (activity_by_guest guest p.store)) guest p
          (λ e. refl) agreed in
      let (said, asked) =
        book_toasts B guest activity cost (activity_by_guest guest p.store) p enough in
      (
        same.0,
        same.1,
        subst (All IsExpected) (sym said)
            (if_cases IsExpected (book activity guest p.store).0 _ _ (λ e. refl) (λ e. refl), h),
      )

  press-IsSound :
      (guest : String) (c : ActivityCard) (a : ActionButton) (p : Page B)
      → c.action ≡ a
      → (books a ≡ true
          → can_afford_activity p.wallet guest (pos c.token_cost) (activity_by_guest guest p.store)
            ≡ true)
      → (cancels a ≡ true → activity_by_guest guest p.store ≡ some c.activity.activity_id)
      → IsAgreed B guest p
      → All IsExpected p.toasts
      → IsSound guest p (press B (some guest) (activity_by_guest guest p.store) c p)
  unfolding press act
  press-IsSound guest c (book_button true face) p e k held agreed h =
      rw e (book-IsSound guest c.activity.activity_id (pos c.token_cost) p (k refl) agreed h)
  press-IsSound guest c (cancel_button true face) p e k held agreed h =
      let id = c.activity.activity_id in
      let same =
        act-IsAgreed B (Action.cancels guest id (pos c.token_cost)) guest p (λ q. held refl)
          agreed in
      rw e (same.0, same.1, cancel_toasts guest id (pos c.token_cost) p h)
  press-IsSound guest c (book_button false face) p e k held agreed h = rw e (agreed, refl, h)
  press-IsSound guest c (cancel_button false face) p e k held agreed h = rw e (agreed, refl, h)

  unfoldable pub press_all : String → List Press → Page B → Page B
  press_all guest [] p = p
  press_all guest (x ∷ rest) p = press_all guest rest (press_shown B guest x p)

  -- Whatever buttons of the list a guest presses, where the list shows the activity that the service
  -- has for the guest and what the wallet tracks is that activity: the wallet keeps in step with the
  -- service, the guest's worth stays what it was, and the guest is never told that the tokens are not
  -- enough or that the wallet could not be updated, if that was not told before.
  pub press_all-IsSound :
      (guest : String) (presses : List Press) (p : Page B)
      → IsAgreed B guest p
      → All IsExpected p.toasts
      → IsSound guest p (press_all guest presses p)
  unfolding press_all press_shown
  press_all-IsSound guest [] p agreed h = (agreed, refl, h)
  press_all-IsSound guest (x ∷ rest) p agreed h =
      let card = card_of (shown B guest x p) x.pressed in
      let first =
        press-IsSound guest card card.action p refl (affordable_shown B guest x p)
          (held_shown B guest x p) agreed h in
      let then_all = press_all-IsSound guest rest (press_shown B guest x p) first.0 first.2 in
      (then_all.0, then_all.1 ∙ first.1, then_all.2)
