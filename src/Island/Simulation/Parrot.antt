-- ===== src/Island/Simulation/Parrot.antt =====
-- frontend/src/features/simulation/actions.ts: askParrot and its cool-down, which all the simulated
-- guests share. Instants are milliseconds; the cool-down is positive, as config/env.ts has it, so that
-- a clock that was set back asks nothing either way. Whether the request fails does not matter.
use webmeow.Prelude.{
  ℕ, suc, ◌+◌, ◌-◌, ◌*◌, ◌≤◌, ◌<◌, ◌≡◌, ◌⊎◌, refl, Bool, true, false, not, List, [], ◌∷◌, ltb,
  if◌then◌else◌, length, All, Bool-cases, inl, inr, arith,
}

-- `askParrot` at an instant: whether it posts, and `lastParrotChatAt`.
unfoldable pub ask_parrot : Bool → ℕ → ℕ → ℕ → Bool × ℕ
ask_parrot enabled cooldown now last =
    if not enabled
    then (false, last)
    else if ltb (now - last) cooldown
    then (false, last)
    else (true, now)

-- The instants at which calls at these instants post.
unfoldable pub posts : Bool → ℕ → List ℕ → ℕ → List ℕ
unfolding ask_parrot
posts enabled cooldown [] last = []
posts enabled cooldown (now ∷ rest) last =
    let (posted, last') = ask_parrot enabled cooldown now last in
    let later = posts enabled cooldown rest last' in if posted then now ∷ later else later

posted_at :
    (enabled : Bool) (cooldown now last : ℕ)
    → (ask_parrot enabled cooldown now last ≡ (false, last))
      ⊎ ((ask_parrot enabled cooldown now last ≡ (true, now)) × (cooldown ≤ now - last))
unfolding ask_parrot
posted_at false cooldown now last = inl refl
posted_at true cooldown now last = elim (Bool-cases (ltb (now - last) cooldown)) [
  | inl e ↦ inl (rw e refl)
  | inr e ↦ inr (rw e refl, ground arith)
]

suc_times : (n cooldown : ℕ) → suc n * cooldown ≡ n * cooldown + cooldown
suc_times n cooldown = grind arith

-- With a positive cool-down, calls at instants up to an end, in whatever order, post no more often than
-- whole cool-downs fit between the last post before them and that end.
pub posts-cooldown :
    (enabled : Bool) (cooldown end last : ℕ) (instants : List ℕ)
    → 0 < cooldown
    → last ≤ end
    → All (λ now. now ≤ end) instants
    → length (posts enabled cooldown instants last) * cooldown + last ≤ end
unfolding posts
posts-cooldown enabled cooldown end last [] c h k = omega arith
posts-cooldown enabled cooldown end last (now ∷ rest) c h k =
    elim (posted_at enabled cooldown now last) [
      | inl e ↦ rw e (posts-cooldown enabled cooldown end last rest c h k.1)
      | inr (e, enough) ↦
          let later = posts-cooldown enabled cooldown end now rest c k.0 k.1 in
          rw e (omega (arith, later, suc_times (length (posts enabled cooldown rest now)) cooldown))
    ]
