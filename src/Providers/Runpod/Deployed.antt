-- ===== src/Providers/Runpod/Deployed.antt =====
-- Which offer a launch ends on, and which volume it mounts.
use gpu_relay.Common.{
  ℕ, String, str_eq, ◌≡◌, refl, ◌⊎◌, inl, inr, true, false, ◌||◌, Option, none, some, List, [], ◌∷◌,
  ◌++◌, All, ap, sym, subst, ◌∙◌, Bool-cases, lookup, or_default, Error, ok, err, key_error,
  provider_error, >>=-eq-ok, ok-injective, Result-cases, if◌then◌else◌,
}
use gpu_relay.Models.{User, NoVolumePolicy}
use gpu_relay.Gpu.{GpuOffer, rank_gpu_offers}
use gpu_relay.Instance.State.{Settings}
use gpu_relay.Instance.Spin.{PodInfo, Volume, volume, Owner, resolve_user_volume}
use gpu_relay.Providers.Runpod.{
  CloudType, Answer, launched, empty, refused, is_no_capacity, Search, found, raised, exhausted,
  after_answer, try_offers, or_else, try_clouds, Api, DeployInput, or_setting, is_set, checked,
  pod_info, launch, launch_on, model_of,
}

-- RunPod has no instance of the offer.
abbrev pub NoCapacity : Answer → Type 0
NoCapacity a = (message : String) × (a ≡ refused message) × (is_no_capacity message ≡ true)

-- The offer is the first of the list that has capacity, and the pod is launched on it.
abbrev pub Taken : (GpuOffer → Answer) → List GpuOffer → GpuOffer → String → Option ℕ → Type 0
Taken deploy offers offer id cost =
    (before after : List GpuOffer) × (offers ≡ before ++ offer ∷ after)
    × All (λ o. NoCapacity (deploy o)) before
    × (deploy offer ≡ launched id cost)

-- How a search over one cloud ends.
abbrev Ends : (CloudType → GpuOffer → Answer) → CloudType → List GpuOffer → Search → Type 0
Ends deploy cloud offers (found c offer id cost) =
    (c ≡ cloud) × Taken (deploy cloud) offers offer id cost
Ends deploy cloud offers exhausted = All (λ o. NoCapacity (deploy cloud o)) offers
Ends deploy cloud offers raised = Unit

later :
    (deploy : CloudType → GpuOffer → Answer) (cloud : CloudType) (o : GpuOffer) (os : List GpuOffer)
    (r : Search)
    → NoCapacity (deploy cloud o)
    → Ends deploy cloud os r
    → Ends deploy cloud (o ∷ os) r
later deploy cloud o os (found c offer id cost) none_left (same, (before, after, e, all, taken)) =
    (same, (o ∷ before, after, ap (◌∷◌ o) e, (none_left, all), taken))
later deploy cloud o os exhausted none_left all = (none_left, all)
later deploy cloud o os raised none_left h = tt

answer-Ends :
    (deploy : CloudType → GpuOffer → Answer) (cloud : CloudType) (o : GpuOffer) (os : List GpuOffer)
    (a : Answer) (rest : Search)
    → deploy cloud o ≡ a
    → Ends deploy cloud os rest
    → Ends deploy cloud (o ∷ os) (after_answer cloud o a rest)
answer-Ends deploy cloud o os (launched id cost) rest e h = (refl, ([], os, refl, tt, e))
answer-Ends deploy cloud o os empty rest e h = tt
answer-Ends deploy cloud o os (refused message) rest e h =
    elim (Bool-cases (is_no_capacity message)) [
      | inl full ↦
          subst (λ b. Ends deploy cloud (o ∷ os) (if b then rest else raised)) (sym full)
            (later deploy cloud o os rest (message, e, full) h)
      | inr other ↦
          subst (λ b. Ends deploy cloud (o ∷ os) (if b then rest else raised)) (sym other) tt
    ]

try_offers-Ends :
    (deploy : CloudType → GpuOffer → Answer) (cloud : CloudType) (os : List GpuOffer)
    → Ends deploy cloud os (try_offers deploy cloud os)
unfolding try_offers
try_offers-Ends deploy cloud [] = tt
try_offers-Ends deploy cloud (o ∷ os) =
    answer-Ends deploy cloud o os (deploy cloud o) _ refl (try_offers-Ends deploy cloud os)

-- The secure cloud, or the other one after the secure cloud has refused every offer.
abbrev pub Chosen : (CloudType → GpuOffer → Answer) → List GpuOffer → Search → Type 0
Chosen deploy offers (found c offer id cost) =
    ((c ≡ CloudType.secure) ⊎ All (λ o. NoCapacity (deploy CloudType.secure o)) offers)
    × Taken (deploy c) offers offer id cost
Chosen deploy offers _ = Unit

second-Chosen :
    (deploy : CloudType → GpuOffer → Answer) (os : List GpuOffer) (r : Search)
    → All (λ o. NoCapacity (deploy CloudType.secure o)) os
    → Ends deploy CloudType.community os r
    → Chosen deploy os (or_else r exhausted)
second-Chosen deploy os (found c offer id cost) all (same, taken) =
    (inr all, subst (λ x. Taken (deploy x) os offer id cost) (sym same) taken)
second-Chosen deploy os exhausted all h = tt
second-Chosen deploy os raised all h = tt

first-Chosen :
    (deploy : CloudType → GpuOffer → Answer) (os : List GpuOffer) (r second : Search)
    → Ends deploy CloudType.secure os r
    → Ends deploy CloudType.community os second
    → Chosen deploy os (or_else r (or_else second exhausted))
first-Chosen deploy os (found c offer id cost) second (same, taken) h =
    (inl same, subst (λ x. Taken (deploy x) os offer id cost) (sym same) taken)
first-Chosen deploy os exhausted second all h = second-Chosen deploy os second all h
first-Chosen deploy os raised second all h = tt

try_clouds-Chosen :
    (deploy : CloudType → GpuOffer → Answer) (os : List GpuOffer)
    → Chosen deploy os (try_clouds deploy (CloudType.secure ∷ CloudType.community ∷ []) os)
unfolding try_clouds
try_clouds-Chosen deploy os =
    first-Chosen deploy os _ _ (try_offers-Ends deploy CloudType.secure os)
      (try_offers-Ends deploy CloudType.community os)

search-Chosen :
    (api : Api) (model : String) (deploy : CloudType → GpuOffer → Answer) (os : List GpuOffer)
    (r : Search) (info : PodInfo)
    → Chosen deploy os r
    → pod_info api model r ≡ ok info
    → (cloud : CloudType) × (offer : GpuOffer) × (cost : Option ℕ) × ((cloud ≡ CloudType.secure)
        ⊎ All (λ o. NoCapacity (deploy CloudType.secure o)) os)
      × Taken (deploy cloud) os offer info.external_id cost
      × (info.cost_per_hour_usd ≡ or_default cost offer.cost_per_hour_usd)
search-Chosen api model deploy os (found c offer id cost) info (cloud, taken) e =
    let same = ok-injective e in
    (
      c,
      offer,
      cost,
      cloud,
      subst (λ x. Taken (deploy c) os offer x cost) (ap (λ (i : PodInfo). i.external_id) same)
          taken,
      sym (ap (λ (i : PodInfo). i.cost_per_hour_usd) same),
    )
search-Chosen api model deploy os exhausted info h e = cc
search-Chosen api model deploy os raised info h e = cc

-- A launch that succeeds is on the first offer of the ranking that has capacity, on the secure cloud,
-- or on the other cloud after the secure cloud has refused every offer; and the pod is the one that
-- the mutation gave for it, with its price or else the offer's.
pub launch-Chosen :
    (api : Api) (env_volume_id : Option String) (tier : String) (user_label : Option String)
    (v : Volume) (info : PodInfo)
    → launch api env_volume_id tier user_label v ≡ ok info
    → (offers candidates : List GpuOffer) × (input : DeployInput) × (api.list_gpus ≡ ok offers)
      × (rank_gpu_offers tier offers ≡ ok candidates)
      × ((cloud : CloudType) × (offer : GpuOffer) × (cost : Option ℕ) × ((cloud ≡ CloudType.secure)
            ⊎ All (λ o. NoCapacity (api.deploy input v.api_key CloudType.secure o)) candidates)
          × Taken (api.deploy input v.api_key cloud) candidates offer info.external_id cost
          × (info.cost_per_hour_usd ≡ or_default cost offer.cost_per_hour_usd))
unfolding launch launch_on
launch-Chosen api env_volume_id tier user_label v info e =
    elim (Bool-cases (api.configured || is_set v.api_key)) [
      | inr no_key ↦ cc (rw (no_key, launch_on) at e)
      | inl key ↦
          let (offers, h1, e1) = >>=-eq-ok api.list_gpus _ (rw (key, launch_on) at e) in
          let (candidates, h2, e2) = >>=-eq-ok (rank_gpu_offers tier offers) _ e1 in
          let (model, h3, e3) = >>=-eq-ok (model_of tier) _ e2 in
          let (valid, h4, e4) =
            >>=-eq-ok (checked api v.api_key v.datacenter (or_setting v.volume_id env_volume_id)) _
              e3 in
          (
            offers,
            candidates,
            _,
            h1,
            h2,
            search-Chosen api model _ candidates _ info (try_clouds-Chosen _ candidates) e4,
          )
    ]

without_volume :
    (s : Settings) (o : Owner) (u : User) (v : Volume)
    → o.volume_key ≡ none
    → o.user ≡ some u
    → u.no_volume_policy ≡ some NoVolumePolicy.stateless
    → resolve_user_volume s "runpod" (some o) ≡ ok v
    → (key : Option String) × (v ≡ volume none key none)
unfolding resolve_user_volume
without_volume s o u v no_key known policy e =
    (_, sym (ok-injective (rw (no_key, known, policy, resolve_user_volume) at e)))

-- A user who wants no volume, by the policy "stateless", gets the environment's: the manager hands
-- no volume to the launch, and the launch then takes the one of the settings.
pub stateless_mounts_env :
    (s : Settings) (o : Owner) (u : User) (api : Api) (tier : String) (user_label : Option String)
    (v : Volume) (env : String)
    → o.volume_key ≡ none
    → o.user ≡ some u
    → u.no_volume_policy ≡ some NoVolumePolicy.stateless
    → s.runpod_network_volume_id ≡ some env
    → str_eq env "" ≡ false
    → resolve_user_volume s "runpod" (some o) ≡ ok v
    → (v.volume_id ≡ none)
      × (launch api s.runpod_network_volume_id tier user_label v
          ≡ launch api none tier user_label (volume (some env) v.api_key v.datacenter))
unfolding launch
stateless_mounts_env s o u api tier user_label v env no_key known policy setting named e =
    let (key, same) = without_volume s o u v no_key known policy e in
    let unset : v.volume_id ≡ none = ap (λ (x : Volume). x.volume_id) same in
    (
      unset,
      ap (launch_on api tier user_label v.api_key v.datacenter)
          (ap (λ x. or_setting x s.runpod_network_volume_id) unset ∙ setting ∙ rw (named) refl),
    )

-- No pod is ever launched for the tier "mid", which the router does choose: it has no model.
pub mid_never_launched :
    (api : Api) (env_volume_id : Option String) (user_label : Option String) (v : Volume)
    → (e : Error) × (launch api env_volume_id "mid" user_label v ≡ err e)
unfolding launch launch_on lookup
mid_never_launched api env_volume_id user_label v =
    elim (Bool-cases (api.configured || is_set v.api_key)) [
      | inr no_key ↦ rw (no_key) (provider_error, refl)
      | inl key ↦ elim (Result-cases api.list_gpus) [
        | inl (e, h) ↦ rw (key, h) (e, refl)
        | inr (offers, h) ↦ elim (Result-cases (rank_gpu_offers "mid" offers)) [
          | inl (e, g) ↦ rw (key, h, g) (e, refl)
          | inr (candidates, g) ↦ rw (key, h, g) (key_error, refl)
        ]
      ]
    ]
