-- ===== src/Providers/ApiCompat/Kept.antt =====
-- An API provider's id keeps the tier.
use Prim.Native.Char.{code}
use mathlib.Core.Option
use gpu_relay.Common.{
  String, ◌≡◌, refl, ap, Bool, false, ◌==◌, some, any, codes, prepend, split_once, Bool-cases, inl,
  inr,
}
use gpu_relay.Providers.ApiCompat.{ApiProvider, api_pod, launch, tier_of, get_status}

abbrev pub has_dash : String → Bool
has_dash s = any (λ c. c == b'-') (codes s)

split_once-prepend :
    (name tier : String)
    → has_dash name ≡ false
    → split_once b'-' (prepend name (prepend "-" tier)) ≡ some (name, tier)
unfolding split_once
split_once-prepend String.[] tier h = refl
split_once-prepend (String.◌∷◌ c s) tier h = elim (Bool-cases (code c == b'-')) [
  | inl dash ↦ cc (rw (dash) at h)
  | inr other ↦ rw (other) (
      ap (Option.map (λ (p : String × String). (String.◌∷◌ c p.0, p.1)))
        (split_once-prepend s tier (rw (other) at h)))
]

-- A provider whose name has no dash answers for a launched pod what the launch answered: the id that
-- the launch gives is the provider's name and the tier, and the tier is read back from it, also
-- where the tier has a dash.
pub get_status-launch :
    (p : ApiProvider) (tier : String)
    → has_dash p.name ≡ false
    → get_status p (launch p tier).external_id ≡ launch p tier
unfolding launch get_status
get_status-launch p tier h =
    ap (λ o. api_pod p (prepend p.name (prepend "-" tier)) (tier_of o))
      (split_once-prepend p.name tier h)
