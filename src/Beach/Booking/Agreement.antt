-- ===== src/Beach/Booking/Agreement.antt =====
-- frontend/src/features/beach/hooks/use-book-activity.ts: the wallet against the beach service.
use webmeow.Prelude.{
  String, ◌≡◌, ◌≢◌, inl, inr, refl, ap, sym, ◌∙◌, subst, true, false, not, ◌==◌, Option, none, some,
  List, [], ◌∷◌, if_cases, Bool-cases, eq_iff, eq_refl, arith,
}
use webmeow.Prelude.Int.{ℤ}
use webmeow.Tokens.Wallet.{
  Booking, Wallet, balance, tracked, is_for, can_afford_activity, spend_activity_tokens,
}
use webmeow.Tokens.Wallet.Solvency.{apply, spends, refunds, apply-other}
use webmeow.Tokens.Wallet.Exchange.{worth, IsCurrent, spend-can_afford, spend-worth, refund-worth}
use webmeow.Beach.Booking.{BeachService, Page, book_from_page, cancel_from_page}

abbrev pub tracked_activity : Option Booking → Option String
tracked_activity none = none
tracked_activity (some b) = some b.activity_id

tracked-IsCurrent :
    (o : Option Booking) (current : Option String)
    → tracked_activity o ≡ current
    → IsCurrent o current
tracked-IsCurrent none current h = tt
tracked-IsCurrent (some b) current h = sym h

is_for_activity :
    (o : Option Booking) (activity : String)
    → is_for o activity ≡ true
    → tracked_activity o ≡ some activity
is_for_activity none activity h = absurd (ground arith)
is_for_activity (some b) activity h = ap some ((eq_iff b.activity_id activity).0 h)

tracked_some :
    (o : Option Booking) (activity : String)
    → tracked_activity o ≡ some activity
    → (b : Booking) × (o ≡ some b) × (b.activity_id ≡ activity)
tracked_some none activity h = absurd (ground arith)
tracked_some (some b) activity h = (b, refl, ground arith)

spend_tracked :
    (w : Wallet) (guest activity : String) (cost : ℤ) (current : Option String)
    → is_for (tracked w guest) activity ≡ true
    → (spend_activity_tokens w guest activity cost current).1 ≡ w
unfolding spend_activity_tokens
spend_tracked w guest activity cost current h = ground arith

spend_new :
    (w : Wallet) (guest activity : String) (cost : ℤ) (current : Option String)
    → is_for (tracked w guest) activity ≡ false
    → (spend_activity_tokens w guest activity cost current).0 ≡ true
    → tracked_activity (tracked (spend_activity_tokens w guest activity cost current).1 guest)
      ≡ some activity
unfolding spend_activity_tokens
spend_new w guest activity cost current h e = ground (arith, eq_refl guest)

spent_activity :
    (w : Wallet) (guest activity : String) (cost : ℤ) (current : Option String)
    → can_afford_activity w guest cost current ≡ true
    → tracked_activity (tracked (spend_activity_tokens w guest activity cost current).1 guest)
      ≡ some activity
spent_activity w guest activity cost current h =
    elim (Bool-cases (is_for (tracked w guest) activity)) [
      | inl now ↦
          ap (λ v. tracked_activity (tracked v guest))
            (spend_tracked w guest activity cost current now)
          ∙ is_for_activity (tracked w guest) activity now
      | inr new ↦
          spend_new w guest activity cost current new
            (spend-can_afford w guest activity cost current new ∙ h)
    ]

module _ (B : BeachService) where
  open B use {Store, book, cancel, activity_by_guest}

  -- The wallet tracks the activity that the service has for the guest.
  abbrev pub IsAgreed : String → Page B → Type 0
  IsAgreed guest p = tracked_activity (tracked p.wallet guest) ≡ activity_by_guest guest p.store

  book_own :
      (guest activity : String) (cost : ℤ) (p : Page B)
      → IsAgreed guest p
      → IsAgreed guest
          (book_from_page B (some guest) activity cost (activity_by_guest guest p.store) p)
        × (worth
              (book_from_page B
                (some guest)
                activity
                cost
                (activity_by_guest guest p.store)
                p).wallet
              guest
            ≡ worth p.wallet guest)
  unfolding book_from_page
  book_own guest activity cost p h =
      let current = activity_by_guest guest p.store in
      if_cases (λ (q : Page B). IsAgreed guest q × (worth q.wallet guest ≡ worth p.wallet guest))
        (not (can_afford_activity p.wallet guest cost current)) _ _ (λ e. (h, refl))
        (λ e.
          if_cases
            (λ (q : Page B). IsAgreed guest q × (worth q.wallet guest ≡ worth p.wallet guest))
            (book activity guest p.store).0 _ _
            (λ done. (
              spent_activity p.wallet guest activity cost current (ground arith)
                  ∙ sym (B.book_done activity guest p.store done),
              spend-worth p.wallet guest activity cost current
                  (tracked-IsCurrent (tracked p.wallet guest) current h),
            ))
            (λ refused. (h ∙ sym (B.book_refused activity guest guest p.store refused), refl)))

  cancel_own :
      (guest activity : String) (cost : ℤ) (p : Page B)
      → activity_by_guest guest p.store ≡ some activity
      → IsAgreed guest p
      → IsAgreed guest (cancel_from_page B (some guest) activity cost p)
        × (worth (cancel_from_page B (some guest) activity cost p).wallet guest
            ≡ worth p.wallet guest)
  unfolding cancel_from_page
  cancel_own guest activity cost p held h =
      if_cases (λ (q : Page B). IsAgreed guest q × (worth q.wallet guest ≡ worth p.wallet guest))
        (cancel activity guest p.store).0 _ _
        (λ done.
          let gone = B.cancel_done activity guest p.store held done in
          let (b, same, named) = tracked_some (tracked p.wallet guest) activity (h ∙ held) in
          let (paid, more, free, kept) = refund-worth p.wallet guest activity cost b same named in
          (ap tracked_activity free ∙ sym gone, kept))
        (λ refused. (h ∙ sym (B.cancel_refused activity guest guest p.store refused), refl))

  -- What the page does: a guest books at a cost, with the activity that the page has for the guest at
  -- that moment, or cancels an activity.
  pub data Action : Type 0 where
    books : String → String → ℤ → Option String → Action
    cancels : String → String → ℤ → Action

  unfoldable pub act : Action → Page B → Page B
  act (books guest activity cost current) p = book_from_page B (some guest) activity cost current p
  act (cancels guest activity cost) p = cancel_from_page B (some guest) activity cost p

  -- Where it is the guest who acts, the page has the activity that the service has for the guest, and
  -- it is that one that is cancelled.
  abbrev pub IsShown : String → Action → Page B → Type 0
  IsShown guest (books by activity cost current) p =
      by ≡ guest → current ≡ activity_by_guest by p.store
  IsShown guest (cancels by activity cost) p =
      by ≡ guest → activity_by_guest by p.store ≡ some activity

  unfoldable pub act_all : List Action → Page B → Page B
  unfolding act
  act_all [] p = p
  act_all (a ∷ rest) p = act_all rest (act a p)

  -- Nothing changes for a guest.
  abbrev IsUntouched : String → Page B → Page B → Type 0
  IsUntouched other p q =
      (balance q.wallet other ≡ balance p.wallet other)
      × (tracked q.wallet other ≡ tracked p.wallet other)
      × (activity_by_guest other q.store ≡ activity_by_guest other p.store)

  book_other :
      (guest other activity : String) (cost : ℤ) (current : Option String) (p : Page B)
      → guest ≢ other
      → IsUntouched other p (book_from_page B (some guest) activity cost current p)
  unfolding book_from_page apply
  book_other guest other activity cost current p n =
      let kept = B.book_other activity guest other p.store n in
      let same = apply-other p.wallet (spends guest activity cost current) other n in
      if_cases (IsUntouched other p) (not (can_afford_activity p.wallet guest cost current)) _ _
        (λ e. (refl, refl, refl))
        (λ e.
          if_cases (IsUntouched other p) (book activity guest p.store).0 _ _
            (λ done. (same.0, same.1, kept)) (λ refused. (refl, refl, kept)))

  cancel_other :
      (guest other activity : String) (cost : ℤ) (p : Page B)
      → guest ≢ other
      → IsUntouched other p (cancel_from_page B (some guest) activity cost p)
  unfolding cancel_from_page apply
  cancel_other guest other activity cost p n =
      let kept = B.cancel_other activity guest other p.store n in
      let same = apply-other p.wallet (refunds guest activity cost) other n in
      if_cases (IsUntouched other p) (cancel activity guest p.store).0 _ _
        (λ done. (same.0, same.1, kept)) (λ refused. (refl, refl, kept))

  untouched :
      (other : String) (p q : Page B)
      → IsUntouched other p q
      → IsAgreed other p
      → IsAgreed other q × (worth q.wallet other ≡ worth p.wallet other)
  unfolding worth
  untouched other p q (funds, booking, held) h =
      (ap tracked_activity booking ∙ h ∙ sym held, ground (arith, funds, booking))

  abbrev caller : Action → String
  caller (books guest activity cost current) = guest
  caller (cancels guest activity cost) = guest

  act_own :
      (a : Action) (p : Page B)
      → IsShown (caller a) a p
      → IsAgreed (caller a) p
      → IsAgreed (caller a) (act a p)
        × (worth (act a p).wallet (caller a) ≡ worth p.wallet (caller a))
  unfolding act
  act_own (books guest activity cost current) p fresh h =
      rw (fresh refl) (book_own guest activity cost p h)
  act_own (cancels guest activity cost) p fresh h = cancel_own guest activity cost p (fresh refl) h

  act_other :
      (a : Action) (other : String) (p : Page B) → caller a ≢ other → IsUntouched other p (act a p)
  unfolding act
  act_other (books guest activity cost current) other p n =
      book_other guest other activity cost current p n
  act_other (cancels guest activity cost) other p n = cancel_other guest other activity cost p n

  pub act-IsAgreed :
      (a : Action) (guest : String) (p : Page B)
      → IsShown guest a p
      → IsAgreed guest p
      → IsAgreed guest (act a p) × (worth (act a p).wallet guest ≡ worth p.wallet guest)
  act-IsAgreed a guest p fresh h = elim (Bool-cases (caller a == guest)) [
    | inl same ↦
        let path = (eq_iff (caller a) guest).0 same in
        subst (λ x. IsAgreed x (act a p) × (worth (act a p).wallet x ≡ worth p.wallet x)) path
          (act_own a p (subst (λ x. IsShown x a p) (sym path) fresh)
            (subst (λ x. IsAgreed x p) (sym path) h))
    | inr other ↦
        untouched guest p (act a p)
          (act_other a guest p (λ e. ground (arith, (eq_iff (caller a) guest).1 e))) h
  ]

  -- So it is for each action of the guest, at its moment.
  unfoldable pub IsShownAll : String → List Action → Page B → Type 0
  unfolding act
  IsShownAll guest [] p = Unit
  IsShownAll guest (a ∷ rest) p = IsShown guest a p × IsShownAll guest rest (act a p)

  -- The guests book and cancel on the page, and the service refuses what it likes. Where the page has,
  -- whenever the guest acts, the activity that the service has for the guest, and the guest cancels
  -- no other activity, the wallet keeps tracking that activity, if it did so at first, and the guest's
  -- worth, the balance with the cost of the tracked activity, stays what it was. What the others do
  -- needs no such condition.
  pub act_all-IsAgreed :
      (actions : List Action) (guest : String) (p : Page B)
      → IsShownAll guest actions p
      → IsAgreed guest p
      → IsAgreed guest (act_all actions p)
        × (worth (act_all actions p).wallet guest ≡ worth p.wallet guest)
  unfolding act_all IsShownAll
  act_all-IsAgreed [] guest p fresh h = (h, refl)
  act_all-IsAgreed (a ∷ rest) guest p fresh h =
      let first = act-IsAgreed a guest p fresh.0 h in
      let then_all = act_all-IsAgreed rest guest (act a p) fresh.1 first.0 in
      (then_all.0, then_all.1 ∙ first.1)
