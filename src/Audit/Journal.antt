-- ===== src/Audit/Journal.antt =====
-- The records of internal/audit/writer.go as the journal names them, their JSON, and the journal
-- file. The library that prints and reads JSON is a parameter.
use nut_operator.Prelude.{
  ℕ, true, false, List, [], ◌∷◌, Option, none, some, if◌then◌else◌, ◌≡◌, refl, is_empty,
}
use nut_operator.Prelude.Int.{ℤ}
use nut_operator.Text.{Text, codes, text_eq}
use nut_operator.Text.Lines.{is_plain}

-- One for each method of the writer.
pub data Kind : Type 0 where
  power_event ups_telemetry_snapshot capability_profile_match capability_profile_verification
        shutdownflow_compilation shutdownflow_decision shutdownflow_execution
        shutdownflow_execution_wave shutdownflow_execution_group shutdownflow_action_attempt
        node_release_record node_signal_handoff :
      Kind

unfoldable pub kind_name : Kind → Text
kind_name power_event = codes "power_event"
kind_name ups_telemetry_snapshot = codes "ups_telemetry_snapshot"
kind_name capability_profile_match = codes "capability_profile_match"
kind_name capability_profile_verification = codes "capability_profile_verification"
kind_name shutdownflow_compilation = codes "shutdownflow_compilation"
kind_name shutdownflow_decision = codes "shutdownflow_decision"
kind_name shutdownflow_execution = codes "shutdownflow_execution"
kind_name shutdownflow_execution_wave = codes "shutdownflow_execution_wave"
kind_name shutdownflow_execution_group = codes "shutdownflow_execution_group"
kind_name shutdownflow_action_attempt = codes "shutdownflow_action_attempt"
kind_name node_release_record = codes "node_release_record"
kind_name node_signal_handoff = codes "node_signal_handoff"

-- The cases of `replayRecord`, in their order.
abbrev pub kinds : List Kind
kinds =
    power_event ∷ ups_telemetry_snapshot ∷ capability_profile_match
    ∷ capability_profile_verification ∷ shutdownflow_compilation ∷ shutdownflow_decision
    ∷ shutdownflow_execution ∷ shutdownflow_execution_wave ∷ shutdownflow_execution_group
    ∷ shutdownflow_action_attempt ∷ node_release_record ∷ node_signal_handoff ∷ []

unfoldable pub find_kind : Text → List Kind → Option Kind
unfolding kind_name text_eq
find_kind name [] = none
find_kind name (k ∷ ks) =
    let later = find_kind name ks in if text_eq name (kind_name k) then some k else later

unfoldable pub kind_of : Text → Option Kind
unfolding find_kind
kind_of name = find_kind name kinds

pub kind_of-kind_name : (k : Kind) → kind_of (kind_name k) ≡ some k
unfolding kind_of
kind_of-kind_name power_event = refl
kind_of-kind_name ups_telemetry_snapshot = refl
kind_of-kind_name capability_profile_match = refl
kind_of-kind_name capability_profile_verification = refl
kind_of-kind_name shutdownflow_compilation = refl
kind_of-kind_name shutdownflow_decision = refl
kind_of-kind_name shutdownflow_execution = refl
kind_of-kind_name shutdownflow_execution_wave = refl
kind_of-kind_name shutdownflow_execution_group = refl
kind_of-kind_name shutdownflow_action_attempt = refl
kind_of-kind_name node_release_record = refl
kind_of-kind_name node_signal_handoff = refl

-- A record that was handed to the writer: what it is a record of, with its fields.
abbrev pub Entry : (Kind → Type 0) → Type 0
Entry Payload = (k : Kind) × Payload k

-- `spoolRecord` and `spoolReplayRecord`.
pub record SpoolRecord (Payload : Kind → Type 0) : Type 0 where
  pub kind : Text
  pub key : Text
  pub spooled_at : ℤ
  pub primary_error : Text
  pub payload : Entry Payload

pub record ReplayRecord : Type 0 where
  pub kind : Text
  pub key : Text
  pub payload : Text

-- json.Marshal of a record, json.Unmarshal of a line with its payload left as it is, and of a
-- payload of some kind.
pub record Json (Payload : Kind → Type 0) : Type 0 where
  pub marshal : SpoolRecord Payload → Option Text
  pub unmarshal_line : Text → Option ReplayRecord
  pub unmarshal_payload : (k : Kind) → Text → Option (Payload k)

-- What is printed is one line of JSON that reads back as the record.
pub record IsJson {Payload : Kind → Type 0} (json : Json Payload) : Type 0 where
  pub one_line :
      (r : SpoolRecord Payload) (l : Text)
      → json.marshal r ≡ some l
      → (is_plain l ≡ true) × (is_empty l ≡ false)
  pub reads_back :
      (r : SpoolRecord Payload) (l : Text)
      → json.marshal r ≡ some l
      → (raw : Text) × (json.unmarshal_line l
          ≡ some (record { kind = r.kind; key = r.key; payload = raw }))
        × (json.unmarshal_payload r.payload.0 raw ≡ some r.payload.1)

-- The journal on disk: its bytes, which file it is, and when it was last changed.
pub record Journal : Type 0 where
  pub contents : Text
  pub inode : ℕ
  pub modified : ℕ
