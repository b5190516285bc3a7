-- ===== src/Instance/Whole.antt =====
-- bridge/instance_manager.py, `acquire` as a whole. What the other coroutines do while this one waits
-- is an argument: a change of the world before the claim, and one for each five seconds of the wait.
pub mod Served
use gpu_relay.Common.{ℕ, String, List, [], ◌∷◌, Result, Error, ok, err, runtime_error}
use gpu_relay.Schemas.{PodHandle}
use gpu_relay.Instance.State.{World, Settings, Picker, Provider}
use gpu_relay.Instance.Acquire.{Wish, Found, found, wait, spin, poll, claim, spin_tier}

-- What follows the fast path, and a round of the wait.
abbrev pub after_poll :
    (World → Result PodHandle × World) → Found × World → Result PodHandle × World
after_poll next (found h, w) = (ok h, w)
after_poll next (wait, w) = next w
after_poll next (spin, w) = next w

-- The wait for another coroutine's launch, until the deadline.
unfoldable pub wait_for_pod :
    Picker → Wish → List (World → World) → World → Result PodHandle × World
wait_for_pod k q [] w = (err runtime_error, w)
wait_for_pod k q (others ∷ rounds) w =
    after_poll (λ w'. wait_for_pod k q rounds w') (poll k q (others w))

-- What follows the section under the lock.
abbrev pub after_claim :
    Picker
    → Settings
    → (String → Provider → World → Result PodHandle × World)
    → List String
    → List (World → World)
    → Wish
    → Found × World
    → Result PodHandle × World
after_claim k s launch overrides rounds q (found h, w) = (ok h, w)
after_claim k s launch overrides rounds q (wait, w) = wait_for_pod k q rounds w
after_claim k s launch overrides rounds q (spin, w) = spin_tier launch s overrides q w

unfoldable pub acquire :
    Picker
    → Settings
    → ℕ
    → (String → Provider → World → Result PodHandle × World)
    → List String
    → (World → World)
    → List (World → World)
    → Wish
    → World
    → Result PodHandle × World
acquire k s now launch overrides others rounds q w =
    after_poll (λ w'. after_claim k s launch overrides rounds q (claim k s now q (others w')))
      (poll k q w)
