-- ===== src/Beach/Listing/Enabled.antt =====
-- frontend/src/features/beach/components/activities-list.tsx: when the button of an
-- activity books.
use webmeow.Prelude.{
  String, ◌≡◌, refl, ap, sym, ◌∙◌, Bool, true, false, arith, Option, none, some, not, ◌||◌, ◌∷◌,
  List, subst, eqb, if◌then◌else◌, Bool-cases, inl, inr, ◌&&◌, eq_iff,
}
use webmeow.Prelude.Int.{ℤ, pos, ◌+ℤ◌, leb_ℤ}
use webmeow.Tokens.Wallet.{
  Booking, Wallet, get_refundable_cost, balance, tracked, cost_if, is_for, can_afford_activity,
  spend_activity_tokens,
}
use webmeow.Tokens.Wallet.Exchange.{spend-can_afford}
use webmeow.Tokens.Rules.{get_activity_token_cost}
use webmeow.Beach.Activities.{Activity}
use webmeow.Beach.Booking.{BeachService, Page, tokens_spent, request_failed, book_from_page}
use webmeow.Beach.Listing.{
  ActionButton, ActivityCard, ListState, book_button, cancel_button, activity_action, card_of,
  press, is_booked_id, replaces,
}

cost_if-none : (o : Option Booking) → cost_if o none ≡ pos 0
cost_if-none none = refl
cost_if-none (some b) = refl

-- What the list takes for affordable, for an activity that is not booked, is what the wallet does.
affordable_agrees :
    (w : Wallet) (guest : String) (cost : ℤ) (current : Option String)
    → leb_ℤ cost (
        balance w guest
        +ℤ (if replaces current false then cost_if (tracked w guest) current else pos 0))
      ≡ can_afford_activity w guest cost current
unfolding can_afford_activity get_refundable_cost
affordable_agrees w guest cost (some b) = refl
affordable_agrees w guest cost none = rw (cost_if-none (tracked w guest)) refl

spent_if_affordable :
    (w : Wallet) (guest activity : String) (cost : ℤ) (current : Option String)
    → can_afford_activity w guest cost current ≡ true
    → (spend_activity_tokens w guest activity cost current).0 ≡ true
unfolding spend_activity_tokens
spent_if_affordable w guest activity cost current h =
    elim (Bool-cases (is_for (tracked w guest) activity)) [
      | inl now ↦ ground (arith, now)
      | inr new ↦ spend-can_afford w guest activity cost current new ∙ h
    ]

abbrev pub books : ActionButton → Bool
books (book_button enabled face) = enabled
books (cancel_button enabled face) = false

abbrev pub cancels : ActionButton → Bool
cancels (cancel_button enabled face) = true
cancels (book_button enabled face) = false

-- A button to book that can be pressed is on an activity that is not booked and can be afforded.
books_iff :
    (booked replacing is_full affordable booking cancelling : Bool)
    → books (activity_action booked replacing is_full (booked || affordable) booking cancelling)
      ≡ true
    → (booked ≡ false) × (affordable ≡ true)
unfolding activity_action
books_iff true replacing is_full affordable booking cancelling h = absurd (ground arith)
books_iff false replacing is_full affordable booking cancelling h = ground arith

books_where :
    (booked replacing is_full affordable booking cancelling : Bool)
    → books (activity_action booked replacing is_full (booked || affordable) booking cancelling)
      ≡ (not booked && not is_full && not booking && not cancelling && affordable)
unfolding activity_action
books_where booked replacing is_full affordable booking cancelling = ground arith

afford_where :
    (booked full busy paying : Bool) (w : Wallet) (guest : String) (cost : ℤ)
    (current : Option String)
    → (not booked
        && not full
        && not busy
        && not paying
        && leb_ℤ cost (
            balance w guest
            +ℤ (if replaces current booked then cost_if (tracked w guest) current else pos 0)))
      ≡ (not booked
          && not full
          && not busy
          && not paying
          && can_afford_activity w guest cost current)
afford_where true full busy paying w guest cost current = refl
afford_where false full busy paying w guest cost current =
    ap (λ b. not full && not busy && not paying && b) (affordable_agrees w guest cost current)

booked_id : (o : Option String) (id : String) → is_booked_id o id ≡ true → o ≡ some id
booked_id none id h = absurd (ground arith)
booked_id (some b) id h = ap some ((eq_iff b id).0 h)

-- What the list renders on, and the activity whose button is pressed.
pub record Press : Type 0 where
  pub activities : List Activity
  pub pressed : Activity
  pub is_booking : Bool
  pub is_cancelling : Bool

module _ (B : BeachService) where
  open B use {book, cancel, activity_by_guest}

  -- The list of a guest who is on the page, with the activity that the service has for the guest.
  abbrev pub shown : String → Press → Page B → ListState
  shown guest x p = record {
    guest = some guest;
    wallet = p.wallet;
    activities = x.activities;
    is_loading = false;
    booked_activity_id = activity_by_guest guest p.store;
    is_loading_booked = false;
    is_booking = x.is_booking;
    is_cancelling = x.is_cancelling;
  }

  unfoldable pub press_shown : String → Press → Page B → Page B
  unfolding press card_of
  press_shown guest x p =
      press B (some guest) (activity_by_guest guest p.store) (card_of (shown guest x p) x.pressed) p

  pub affordable_shown :
      (guest : String) (x : Press) (p : Page B)
      → books (card_of (shown guest x p) x.pressed).action ≡ true
      → can_afford_activity p.wallet guest
          (pos (card_of (shown guest x p) x.pressed).token_cost)
          (activity_by_guest guest p.store)
        ≡ true
  unfolding card_of
  affordable_shown guest x p h =
      let current = activity_by_guest guest p.store in
      let booked = is_booked_id current x.pressed.activity_id in
      let cost = get_activity_token_cost x.pressed.activity_id x.pressed.activity_name in
      let (off, enough) =
        books_iff booked (replaces current booked) (eqb x.pressed.remaining 0) _ x.is_booking
          x.is_cancelling h in
      sym (affordable_agrees p.wallet guest (pos cost) current)
      ∙ subst
          (λ b.
            leb_ℤ (pos cost) (
              balance p.wallet guest
              +ℤ (if replaces current b then cost_if (tracked p.wallet guest) current else pos 0))
            ≡ true)
          off enough

  -- The button to cancel stands on the activity that the service has for the guest.
  pub held_shown :
      (guest : String) (x : Press) (p : Page B)
      → cancels (card_of (shown guest x p) x.pressed).action ≡ true
      → activity_by_guest guest p.store
        ≡ some (card_of (shown guest x p) x.pressed).activity.activity_id
  unfolding card_of activity_action
  held_shown guest x p h =
      booked_id (activity_by_guest guest p.store) x.pressed.activity_id (ground (arith, h))

  -- A button that can be pressed to book asks the service, and the page then says what was spent, or
  -- that the request has failed.
  pub book_toasts :
      (guest activity : String) (cost : ℤ) (current : Option String) (p : Page B)
      → can_afford_activity p.wallet guest cost current ≡ true
      → ((book_from_page B (some guest) activity cost current p).toasts
          ≡ (if (book activity guest p.store).0 then tokens_spent cost else request_failed)
            ∷ p.toasts)
        × ((book_from_page B (some guest) activity cost current p).store
            ≡ (book activity guest p.store).1)
  unfolding book_from_page
  book_toasts guest activity cost current p h = elim (Bool-cases (book activity guest p.store).0) [
    | inl done ↦
        rw (h, done, spent_if_affordable p.wallet guest activity cost current h) (refl, refl)
    | inr refused ↦ rw (h, refused) (refl, refl)
  ]

  press-books :
      (guest : String) (c : ActivityCard) (a : ActionButton) (p : Page B)
      → c.action ≡ a
      → books a ≡ true
      → can_afford_activity p.wallet guest (pos c.token_cost) (activity_by_guest guest p.store)
        ≡ true
      → (let q = press B (some guest) (activity_by_guest guest p.store) c p in
          (q.store ≡ (book c.activity.activity_id guest p.store).1)
          × (q.toasts
              ≡ (if (book c.activity.activity_id guest p.store).0
                  then tokens_spent (pos c.token_cost)
                  else request_failed)
                ∷ p.toasts))
  unfolding press
  press-books guest c (book_button true face) p e h enough =
      let (said, asked) =
        book_toasts guest c.activity.activity_id (pos c.token_cost)
          (activity_by_guest guest p.store) p enough in
      rw e (asked, said)
  press-books guest c (book_button false face) p e h enough = absurd (ground arith)
  press-books guest c (cancel_button enabled face) p e h enough = absurd (ground arith)

  books-shown :
      (guest : String) (x : Press) (p : Page B)
      → books (card_of (shown guest x p) x.pressed).action ≡ (
          not (is_booked_id (activity_by_guest guest p.store) x.pressed.activity_id)
          && not (eqb x.pressed.remaining 0)
          && not x.is_booking
          && not x.is_cancelling
          && can_afford_activity p.wallet guest
              (pos (card_of (shown guest x p) x.pressed).token_cost)
              (activity_by_guest guest p.store))
  unfolding card_of
  books-shown guest x p =
      let current = activity_by_guest guest p.store in
      let booked = is_booked_id current x.pressed.activity_id in
      let cost = get_activity_token_cost x.pressed.activity_id x.pressed.activity_name in
      let full = eqb x.pressed.remaining 0 in
      books_where booked (replaces current booked) full _ x.is_booking x.is_cancelling
      ∙ afford_where booked full x.is_booking x.is_cancelling p.wallet guest (pos cost) current

  press_idle :
      (guest : String) (c : ActivityCard) (a : ActionButton) (p : Page B)
      → c.action ≡ a
      → books a ≡ false
      → cancels a ≡ false
      → press B (some guest) (activity_by_guest guest p.store) c p ≡ p
  unfolding press
  press_idle guest c (book_button true face) p e h k = absurd (ground arith)
  press_idle guest c (book_button false face) p e h k = rw e refl
  press_idle guest c (cancel_button enabled face) p e h k = absurd (ground arith)

  -- A place is left, no request is under way, and the wallet says that the guest can afford the
  -- activity.
  abbrev pub is_offered : String → Press → Page B → Bool
  is_offered guest x p =
      not (eqb x.pressed.remaining 0)
      && not x.is_booking
      && not x.is_cancelling
      && can_afford_activity p.wallet guest
          (pos (get_activity_token_cost x.pressed.activity_id x.pressed.activity_name))
          (activity_by_guest guest p.store)

  not_cancels :
      (guest : String) (x : Press) (p : Page B)
      → is_booked_id (activity_by_guest guest p.store) x.pressed.activity_id ≡ false
      → cancels (card_of (shown guest x p) x.pressed).action ≡ false
  unfolding card_of activity_action
  not_cancels guest x p h = rw h refl

  -- The button of an activity that the guest has not booked, where the list shows the activity that
  -- the service has for the guest: if a place is left, no request is under way, and the wallet says
  -- that the guest can afford it, pressing the button asks the service to book, and tells what was
  -- spent if the service agrees, and that the request has failed if not. Else it does nothing.
  pub press_shown-is_offered :
      (guest : String) (x : Press) (p : Page B)
      → is_booked_id (activity_by_guest guest p.store) x.pressed.activity_id ≡ false
      → ((press_shown guest x p).store ≡ (
          if is_offered guest x p then (book x.pressed.activity_id guest p.store).1 else p.store))
        × ((press_shown guest x p).toasts ≡ (
            if is_offered guest x p
            then (if (book x.pressed.activity_id guest p.store).0
                then tokens_spent
                    (pos (get_activity_token_cost x.pressed.activity_id x.pressed.activity_name))
                else request_failed)
              ∷ p.toasts
            else p.toasts))
  unfolding press_shown card_of
  press_shown-is_offered guest x p h =
      let card = card_of (shown guest x p) x.pressed in
      let same : books card.action ≡ is_offered guest x p = books-shown guest x p ∙ rw h refl in
      elim (Bool-cases (books card.action)) [
        | inl on ↦
            rw (sym same ∙ on)
              (press-books guest card card.action p refl on (affordable_shown guest x p on))
        | inr off ↦
            let idle = press_idle guest card card.action p refl off (not_cancels guest x p h) in
            rw (sym same ∙ off)
              (ap (λ (q : Page B). q.store) idle, ap (λ (q : Page B). q.toasts) idle)
      ]
