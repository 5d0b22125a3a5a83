-- ===== src/Codec.antt =====
-- The contents of files, and the encoders that turn values into them: encoding/json and
-- gopkg.in/yaml.v3.
use sing_box_helper.Prelude.{ℕ, Option, some, ◌≡◌}
use sing_box_helper.Json.{Json}
use sing_box_helper.State.Types.{State}
use sing_box_helper.Config.Settings.{Settings}
use sing_box_helper.Config.Types.{Config}
use sing_box_helper.Config.Encode.{config_json}

-- `parse_yaml` decodes over given settings; `none` is an error.
pub record Codec : Type 1 where
  pub Content : Type 0
  pub empty : Content
  pub size : Content → ℕ
  pub json : Json → Content
  pub parse_json : Content → Option Json
  pub yaml : Settings → Content
  pub parse_yaml : Settings → Content → Option Settings
  pub json_state : State → Content
  pub parse_state : Content → Option State

-- A document that was marshalled is read back as it was.
pub record IsLawful (k : Codec) : Type 0 where
  pub parse_json-json : (c : Config) → k.parse_json (k.json (config_json c)) ≡ some (config_json c)
  pub parse_yaml-yaml : (s t : Settings) → k.parse_yaml s (k.yaml t) ≡ some t
  pub parse_state-json_state : (s : State) → k.parse_state (k.json_state s) ≡ some s
