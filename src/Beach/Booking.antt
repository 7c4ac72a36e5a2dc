-- ===== src/Beach/Booking.antt =====
-- frontend/src/features/beach/hooks/use-book-activity.ts: the page books an activity at the beach
-- service and pays for it from the wallet. The service is an interface; a guest's activity is read
-- from it again after each booking, as the page does by invalidating its query.
pub mod Agreement
pub mod Mock
use webmeow.Prelude.{
  String, ◌≡◌, ◌≢◌, Bool, true, false, not, Option, none, some, List, [], ◌∷◌, if◌then◌else◌,
}
use webmeow.Prelude.Int.{ℤ, pos, ltb_ℤ}
use webmeow.Tokens.Wallet.{
  Wallet, can_afford_activity, spend_activity_tokens, refund_activity_tokens,
}

-- What the page relies on of the beach service: a request succeeds or not; `activity` and `guest` are
-- identifiers. Cancelling what the guest has not booked may succeed and change nothing.
pub record BeachService : Type 1 where
  pub Store : Type 0
  pub book : String → String → Store → Bool × Store
  pub cancel : String → String → Store → Bool × Store
  pub activity_by_guest : String → Store → Option String
  pub book_done :
      (activity guest : String) (s : Store)
      → (book activity guest s).0 ≡ true
      → activity_by_guest guest (book activity guest s).1 ≡ some activity
  pub book_refused :
      (activity guest other : String) (s : Store)
      → (book activity guest s).0 ≡ false
      → activity_by_guest other (book activity guest s).1 ≡ activity_by_guest other s
  pub book_other :
      (activity guest other : String) (s : Store)
      → guest ≢ other
      → activity_by_guest other (book activity guest s).1 ≡ activity_by_guest other s
  pub cancel_done :
      (activity guest : String) (s : Store)
      → activity_by_guest guest s ≡ some activity
      → (cancel activity guest s).0 ≡ true
      → activity_by_guest guest (cancel activity guest s).1 ≡ none
  pub cancel_refused :
      (activity guest other : String) (s : Store)
      → (cancel activity guest s).0 ≡ false
      → activity_by_guest other (cancel activity guest s).1 ≡ activity_by_guest other s
  pub cancel_other :
      (activity guest other : String) (s : Store)
      → guest ≢ other
      → activity_by_guest other (cancel activity guest s).1 ≡ activity_by_guest other s

-- What the page tells its user.
pub data Toast : Type 0 where
  tokens_spent tokens_returned : ℤ → Toast
  wallet_not_updated not_enough_tokens request_failed : Toast

module _ (B : BeachService) where
  open B use {Store, book, cancel, activity_by_guest}

  pub record Page : Type 0 where
    pub store : Store
    pub wallet : Wallet
    pub toasts : List Toast

  -- `onSuccess` of the booking.
  abbrev pub pay : String → String → ℤ → Option String → Page → Page
  pay activity guest cost current p =
      let (spent, w) = spend_activity_tokens p.wallet guest activity cost current in
      record p {
        wallet = w;
        toasts = (if spent then tokens_spent cost else wallet_not_updated) ∷ p.toasts;
      }

  -- `book`, with the guest's activity as the page shows it.
  unfoldable pub book_from_page : Option String → String → ℤ → Option String → Page → Page
  book_from_page none activity cost current p = p
  book_from_page (some guest) activity cost current p =
      if not (can_afford_activity p.wallet guest cost current)
      then record p { toasts = not_enough_tokens ∷ p.toasts }
      else let (done, s) = book activity guest p.store in
        let p' : Page = record p { store = s } in
        if done
        then pay activity guest cost current p'
        else record p' { toasts = request_failed ∷ p.toasts }

  -- `onSuccess` of the cancellation; the cost is the fallback.
  abbrev pub get_back : String → String → ℤ → Page → Page
  get_back activity guest cost p =
      let (refunded, w) = refund_activity_tokens p.wallet guest activity cost in
      record p {
        wallet = w;
        toasts = if ltb_ℤ (pos 0) refunded then tokens_returned refunded ∷ p.toasts else p.toasts;
      }

  -- `cancel`: without a guest the request is not made, and fails.
  unfoldable pub cancel_from_page : Option String → String → ℤ → Page → Page
  cancel_from_page none activity cost p = record p { toasts = request_failed ∷ p.toasts }
  cancel_from_page (some guest) activity cost p =
      let (done, s) = cancel activity guest p.store in
      let p' : Page = record p { store = s } in
      if done
      then get_back activity guest cost p'
      else record p' { toasts = request_failed ∷ p.toasts }
