-- ===== src/Lib.antt =====
-- gpu-relay: verification library. The bridge is a service between chat clients and GPU pods: it
-- authenticates a request, checks quotas, chooses a tier of GPU, acquires a pod of that tier,
-- forwards the request, and books its cost.
--
-- The parts and their models:
--   * database/models.py is Models, bridge/schemas.py is Schemas: the rows and messages, with the
--     fields that the modelled code reads or writes.
--   * bridge/router.py is Router: the tier table (Router.Tiers), the signals of a request
--     (Router.Signals), the hint in a prompt (Router.Hint), the stages of `select_tier`
--     (Router.Select), the image helpers (Router.Vision) and the refresh of the tiers' prices
--     (Router.Prices).
--   * bridge/quota.py is Quota: `check_rpm` (Quota.Rate), `check_daily_tokens` (Quota.Daily),
--     `check_monthly_budget` and the alerts (Quota.Monthly). Redis is an interface: the commands
--     that the code uses, with what Redis documents of them, and what other requests do to the
--     store meanwhile (Redis).
--   * bridge/pricing.py is Pricing, bridge/cost_tracker.py is Cost.
--   * bridge/auth.py and the key routes of bridge/main.py are Auth. Hashing, the password check
--     and the JWT library are parameters.
--   * bridge/instance_manager.py is Instance: its fields and the table of pods (Instance.State), the
--     sections of `acquire` (Instance.Acquire), `_spin_pod` (Instance.Spin), the background loops,
--     start and stop (Instance.Loops). A coroutine is interrupted only where it awaits; a section
--     between two such places that share state is one function on `World`, and
--     Instance.Exclusion is the step relation of their interleavings. What a provider, a pod's
--     server or the decryption answers is an argument (`Outside`, `Owner`).
--     Instance.Whole is `acquire` as a whole, with what other coroutines do meanwhile as arguments.
--   * bridge/multi_model.py is Pipeline (the stages around the inference) and Workflow: the registry
--     and the smart workflow (Workflow), the local model's answers (Workflow.Local), the prompts
--     (Workflow.Prompts), the review, refactoring and design (Workflow.Coding), and the page for an
--     image (Workflow.Visual). What a model answers is an argument.
--   * providers/base.py is Gpu: the ranking of GPU offers. providers/runpod.py is Providers.Runpod
--     (`launch`) and Providers.Runpod.Pods (the GraphQL errors, termination, status and offers),
--     providers/vast.py and providers/lambda_labs.py are Providers.Clouds, providers/local.py is
--     Providers.Local, providers/together_dedicated.py is Providers.Together, and
--     providers/api_compat.py is Providers.ApiCompat.
--   * bridge/main.py, `chat_completions`, is Bridge: the gates (`admit`), what is asked of `acquire`
--     and the messages (Bridge.Chat, Bridge.Messages), the payload (Bridge.Payload, over the JSON
--     values of Json), the attempts and the booking (Bridge.Inference), a stream (Bridge.Stream),
--     and the route as a whole (Bridge.Whole). The pods' and the other services'
--     answers are arguments (`Services`).
--   * The other routes of bridge/main.py are Routes: the tables of a user's settings and their
--     queries (Routes.Tables), the tier overrides and volume keys on them (Routes.Overrides,
--     Routes.VolumeKeys), the pods for administrators (Routes.Admin), and the keys, new users and
--     the usage statistics (Routes.Accounts).
--   * The services around the bridge are Clients: pipelines/gpu_relay_router.py (Clients.Pipeline),
--     bridge/openwebui_sync.py, which writes its key map (Clients.Sync), and gateway/main.py
--     (Clients.Gateway). workspace_tools/main.py, as far as it works on files, is Tools.Workspace.
--
-- Conventions: money is counted in 0.000001 USD, and floating-point amounts are exact fractions of
-- natural numbers, compared by cross multiplication; what is read back as a rounded decimal is
-- rounded as the source rounds it. An exception is a value of `Error`. Times are natural numbers.
-- Of the database's constraints the model has the unique ones and the checks that the theorems are
-- about; the widths of text columns are not modelled. A client reads a stream to its end.
-- There is no fuel: a loop runs over a list, or over a number of rounds that the source fixes
-- (three attempts of an inference; one poll of the database for each five seconds until the
-- deadline). Texts are compared and lowered on ASCII.
--
-- Not modelled: the transport of HTTP calls and streams, the awaits within a round of the
-- health loop, which is one section, the timers, the lists of users and models,
-- embeddings, the dashboard, the command line, the workspace tools that run other programs, the
-- migrations. They are input and output, or show what other parts compute.
--
-- Common holds the shared types and lemmas, Examples the definitions at concrete inputs.
pub mod Common
pub mod Models
pub mod Schemas
pub mod Json
pub mod Router
pub mod Routes
pub mod Clients
pub mod Tools
pub mod Redis
pub mod Quota
pub mod Pricing
pub mod Cost
pub mod Auth
pub mod Instance
pub mod Gpu
pub mod Pipeline
pub mod Workflow
pub mod Bridge
pub mod Providers
pub mod Examples
