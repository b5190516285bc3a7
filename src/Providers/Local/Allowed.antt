-- ===== src/Providers/Local/Allowed.antt =====
-- The tiers of the local GPU, and what a launched one answers.
use gpu_relay.Common.{
  ℕ, ◌≤◌, String, ◌≡◌, ap, subst, inl, inr, true, contains, lookup, or_default, prepend, ok,
  >>=-eq-ok, ok-injective, Bool-cases, Option-cases, arith,
}
use gpu_relay.Instance.Spin.{PodInfo}
use gpu_relay.Providers.Runpod.{tier_model, model_of}
use gpu_relay.Providers.Local.{tiers_allowed, local_pod, launch, get_status}

-- A larger GPU serves every tier that a smaller one does, up to the last level of the table.
pub tiers_allowed_mono :
    (a b : ℕ) (tier : String)
    → a ≤ b
    → b ≤ 5
    → contains tier (tiers_allowed a) ≡ true
    → contains tier (tiers_allowed b) ≡ true
unfolding tiers_allowed
tiers_allowed_mono a b tier h top c = ground arith

known_model : (tier m : String) → model_of tier ≡ ok m → or_default (lookup tier tier_model) "" ≡ m
known_model tier m e = elim (Option-cases (lookup tier tier_model)) [
  | inl missing ↦ cc (rw (missing, model_of) at e)
  | inr (n, found) ↦ rw (found) (ok-injective (rw (found, model_of) at e))
]

-- A local launch that succeeds is for a tier of the GPU's level, and the provider's answer for the
-- id that it gave is the launch's own.
pub launch-tiers_allowed :
    (level : ℕ) (url tier : String) (info : PodInfo)
    → launch level url tier ≡ ok info
    → (contains tier (tiers_allowed level) ≡ true) × (get_status url info.external_id ≡ info)
unfolding launch get_status
launch-tiers_allowed level url tier info e =
    elim (Bool-cases (contains tier (tiers_allowed level))) [
      | inr barred ↦ cc (rw (barred, launch) at e)
      | inl allowed ↦
          let (m, known, e') = >>=-eq-ok (model_of tier) _ (rw (allowed, launch) at e) in
          (
            allowed,
            subst (λ (x : PodInfo). get_status url x.external_id ≡ x) (ok-injective e')
                (ap (local_pod url (prepend "local-" tier)) (known_model tier m known)),
          )
    ]
