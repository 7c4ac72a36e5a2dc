-- ===== src/Stay/Form/Nights.antt =====
-- frontend/src/features/hotel/components/reservation-form.tsx and schemas/reservation-form-schema.ts:
-- the nights that the form shows against those that it asks for.
use webmeow.Prelude.{
  ℕ, ◌+◌, ◌≤◌, String, ◌≡◌, refl, ap, ◌∙◌, Bool, true, none, some, leb, ltb, leb→le, if◌then◌else◌,
  Bool-cases, inl, inr, arith,
}
use webmeow.Prelude.Int.{ℤ, pos, pos_part, ◌+ℤ◌, ◌-ℤ◌, int_laws}
use webmeow.Island.Days.{anchor}
use webmeow.Tokens.Rules.{
  get_package_price, get_package_token_allowance, get_reservation_token_allowance,
}
use webmeow.Stay.Form.{
  DateFns, FormValues, validate, date_to_simulation_day, form_to_request, nights_of,
  reservation_form,
}

validate-ordered :
    (v : FormValues) → validate v ≡ none → ltb v.check_in_date v.check_out_date ≡ true
unfolding validate
validate-ordered v h = ground arith

add_zero : (n : ℕ) → n + 0 ≡ n
add_zero n = omega arith

apart : (a b c : ℤ) → (a -ℤ c) -ℤ (b -ℤ c) ≡ a -ℤ b
apart a b c = omega int_laws

late_day : (a b l : ℕ) → pos a -ℤ pos b ≡ (pos a -ℤ pos (b + l)) +ℤ pos l
late_day a b l = omega int_laws

module _ (D : DateFns) where
  -- Two starts of days are as many days apart as their days.
  later_starts :
      (a b : ℕ)
      → D.local_time a ≡ 0
      → D.local_time b ≡ 0
      → b ≤ a
      → D.difference_in_days a b ≡ pos (D.local_day a) -ℤ pos (D.local_day b)
  later_starts a b h k le =
      D.later a b le ∙ rw (h, k) (ap (λ n. pos (D.local_day a) -ℤ pos n) (add_zero (D.local_day b)))

  starts_apart :
      (a b : ℕ)
      → D.local_time a ≡ 0
      → D.local_time b ≡ 0
      → D.difference_in_days a b ≡ pos (D.local_day a) -ℤ pos (D.local_day b)
  starts_apart a b h k = elim (Bool-cases (leb b a)) [
    | inl e ↦ later_starts a b h k (leb→le b a e)
    | inr e ↦
        D.earlier a b (ground (arith, e))
        ∙ rw (later_starts b a k h (ground (arith, e))) (omega int_laws)
  ]

  date_to_simulation_day-local_day :
      (t : ℕ)
      → date_to_simulation_day D t ≡ pos (D.local_day t) -ℤ pos (D.local_day (pos_part anchor))
  unfolding date_to_simulation_day
  date_to_simulation_day-local_day t =
      starts_apart (D.start_of_day t) (D.start_of_day (pos_part anchor)) (D.start_time t)
        (D.start_time (pos_part anchor))
      ∙ rw (D.start_day t, D.start_day (pos_part anchor)) refl

  -- One night more, where the guest leaves at an earlier time of the day than the one of arriving.
  abbrev pub late : FormValues → ℕ
  late v = if leb (D.local_time v.check_in_date) (D.local_time v.check_out_date) then 0 else 1

  request_nights :
      (v : FormValues) (guest_id : String)
      → ltb v.check_in_date v.check_out_date ≡ true
      → (form_to_request D v guest_id).check_out_day -ℤ (form_to_request D v guest_id).check_in_day
        ≡ D.difference_in_days v.check_out_date v.check_in_date +ℤ pos (late v)
  unfolding form_to_request
  request_nights v guest_id h =
      rw
        (
          date_to_simulation_day-local_day v.check_out_date,
          date_to_simulation_day-local_day v.check_in_date,
          D.later v.check_out_date v.check_in_date (ground (arith, h)),
        )
        (apart (pos (D.local_day v.check_out_date)) (pos (D.local_day v.check_in_date))
            (pos (D.local_day (pos_part anchor)))
          ∙ late_day (D.local_day v.check_out_date) (D.local_day v.check_in_date) (late v))

  -- What the form shows of its values against what is asked for and later credited: `late` nights
  -- more.
  abbrev pub IsShown : FormValues → String → Bool → Type 0
  IsShown v guest_id is_submitting =
      let shown = reservation_form D v is_submitting in
      let request = form_to_request D v guest_id in
      (nights : ℤ) × (shown.nights ≡ some nights)
      × (request.check_out_day -ℤ request.check_in_day ≡ nights +ℤ pos (late v))
      × (shown.package_price ≡ get_package_price v.room_type nights)
      × (shown.package_tokens ≡ get_package_token_allowance v.room_type nights)
      × (get_reservation_token_allowance request.room_type request.check_in_day
            request.check_out_day
          ≡ get_package_token_allowance v.room_type (nights +ℤ pos (late v)))

  -- For values that the form accepts, in a time zone that does not change its clocks: the form shows
  -- the full days from the check-in to the check-out, and their price and tokens. It asks for as many
  -- nights, with as many tokens, if the check-out is not earlier in its day than the check-in is, but
  -- for one night more if it is.
  pub form_to_request-IsShown :
      (v : FormValues) (guest_id : String) (is_submitting : Bool)
      → validate v ≡ none
      → IsShown v guest_id is_submitting
  unfolding reservation_form nights_of get_reservation_token_allowance form_to_request
  form_to_request-IsShown v guest_id is_submitting h =
      let valid = validate-ordered v h in
      let n = D.difference_in_days v.check_out_date v.check_in_date in
      let same = request_nights v guest_id valid in
      rw valid (n, refl, same, refl, refl, ap (get_package_token_allowance v.room_type) same)
