-- ===== src/Providers/ApiCompat.antt =====
-- providers/api_compat.py: the providers of commercial APIs, which launch nothing.
pub mod Kept
use gpu_relay.Common.{
  String, Option, none, some, List, [], ◌∷◌, Dict, lookup, or_default, prepend, split_once,
}
use gpu_relay.Instance.Spin.{PodInfo}

pub record ApiProvider : Type 0 where
  pub name : String
  pub base_url : String
  pub default_models : Dict String

-- `_model_for`
unfoldable pub model_for : ApiProvider → String → String
model_for p tier =
    or_default (lookup tier p.default_models) (or_default (lookup "simple" p.default_models) "")

abbrev pub api_pod : ApiProvider → String → String → PodInfo
api_pod p external_id tier = record {
  external_id = external_id;
  model = model_for p tier;
  cost_per_hour_usd = 0;
  endpoint_url = p.base_url;
}

-- `launch`, with the id `f"{self.name}-{tier}"`
unfoldable pub launch : ApiProvider → String → PodInfo
launch p tier = api_pod p (prepend p.name (prepend "-" tier)) tier

-- `external_id.split("-", 1)[-1] if "-" in external_id else "simple"`
abbrev pub tier_of : Option (String × String) → String
tier_of none = "simple"
tier_of (some (name, tier)) = tier

unfoldable pub get_status : ApiProvider → String → PodInfo
get_status p external_id = api_pod p external_id (tier_of (split_once b'-' external_id))

abbrev pub openai : ApiProvider
openai = record {
  name = "openai";
  base_url = "https://api.openai.com";
  default_models =
      ("simple", "gpt-4o-mini")
      ∷ ("architecture", "gpt-4o")
      ∷ ("maximum", "gpt-4o")
      ∷ ("ultra", "gpt-4o")
      ∷ [];
}

abbrev pub groq : ApiProvider
groq = record {
  name = "groq";
  base_url = "https://api.groq.com/openai";
  default_models =
      ("vision", "meta-llama/llama-4-scout-17b-16e-instruct")
      ∷ ("simple", "llama-3.1-8b-instant")
      ∷ ("architecture", "llama-3.3-70b-versatile")
      ∷ ("maximum", "llama-3.3-70b-versatile")
      ∷ ("ultra", "llama-3.3-70b-versatile")
      ∷ [];
}

abbrev pub together : ApiProvider
together = record {
  name = "together";
  base_url = "https://api.together.xyz";
  default_models =
      ("vision", "meta-llama/Llama-Vision-Free")
      ∷ ("simple", "meta-llama/Llama-3.1-8B-Instruct-Turbo")
      ∷ ("architecture", "meta-llama/Meta-Llama-3.1-70B-Instruct-Turbo")
      ∷ ("maximum", "meta-llama/Meta-Llama-3.1-405B-Instruct-Turbo")
      ∷ ("ultra", "meta-llama/Meta-Llama-3.1-405B-Instruct-Turbo")
      ∷ [];
}

abbrev pub mistral : ApiProvider
mistral = record {
  name = "mistral";
  base_url = "https://api.mistral.ai";
  default_models =
      ("simple", "mistral-small-latest")
      ∷ ("architecture", "mistral-medium-latest")
      ∷ ("maximum", "mistral-large-latest")
      ∷ ("ultra", "mistral-large-latest")
      ∷ [];
}

abbrev pub deepseek : ApiProvider
deepseek = record {
  name = "deepseek";
  base_url = "https://api.deepseek.com";
  default_models =
      ("simple", "deepseek-chat")
      ∷ ("architecture", "deepseek-chat")
      ∷ ("maximum", "deepseek-reasoner")
      ∷ ("ultra", "deepseek-reasoner")
      ∷ [];
}

abbrev pub cerebras : ApiProvider
cerebras = record {
  name = "cerebras";
  base_url = "https://api.cerebras.ai";
  default_models =
      ("simple", "zai-glm-4.7")
      ∷ ("mid", "gpt-oss-120b")
      ∷ ("architecture", "gpt-oss-120b")
      ∷ ("maximum", "gpt-oss-120b")
      ∷ ("ultra", "gpt-oss-120b")
      ∷ [];
}

abbrev pub sambanova : ApiProvider
sambanova = record {
  name = "sambanova";
  base_url = "https://api.sambanova.ai";
  default_models =
      ("simple", "Meta-Llama-3.1-8B-Instruct")
      ∷ ("mid", "Meta-Llama-3.3-70B-Instruct")
      ∷ ("architecture", "Meta-Llama-3.3-70B-Instruct")
      ∷ ("maximum", "Meta-Llama-3.3-70B-Instruct")
      ∷ ("ultra", "Meta-Llama-3.1-405B-Instruct")
      ∷ [];
}

-- The providers of this file, with the models that they have unless a setting names others.
abbrev pub api_providers : List ApiProvider
api_providers = openai ∷ groq ∷ together ∷ mistral ∷ deepseek ∷ cerebras ∷ sambanova ∷ []
