-- ===== src/Telemetry/Examples.antt =====
-- Samples, and the theorems at them.
use nut_operator.Prelude.{ℕ, true, false, [], ◌∷◌, none, some, ◌≡◌, refl, ◌⊎◌, ◌↔◌, is_empty, All}
use nut_operator.Prelude.Int.{pos}
use nut_operator.Text.{Text, codes, is_space}
use nut_operator.Text.Maps.{contains, lookup}
use nut_operator.Telemetry.{Numbers, Sample, online, normalize, normalize_status_symbols}
use nut_operator.Telemetry.Aliases.{apply_aliases, alias_applied, shadowed}
use nut_operator.Telemetry.Native.{IsApplied, IsShadowed, apply_aliases_native}
use nut_operator.Telemetry.Symbols.{
  AreDistinct, unknown_symbols, tokens_of, normalize_status_symbols_lem, IsCalm, normalize_online,
}

-- Numbers that never parse.
abbrev no_numbers : Numbers ℕ
no_numbers = record {
  parse_float = λ t. none;
  parse_int = λ t. none;
  is_finite = λ x. true;
  to_int64 = pos;
}

abbrev sample : Sample
sample = record {
  ups_device = codes "ups";
  nut_server = codes "server";
  nut_name = codes "rack";
  observed_at = pos 3;
  variables = (codes "ups.status", codes " ol chrg OL ") ∷ (codes "vendor.charge", codes "90") ∷ [];
  aliases = (codes "vendor.charge", codes "battery.charge") ∷ [];
}

normalize_online_example : ((normalize no_numbers sample).phase ≡ online) ↔ (
    (is_empty (normalize no_numbers sample).ups_status ≡ false)
    × (contains (tokens_of (normalize no_numbers sample).ups_status) (codes "OL") ≡ true)
    × IsCalm (tokens_of (normalize no_numbers sample).ups_status))
normalize_online_example = normalize_online no_numbers sample

is_online : (normalize no_numbers sample).phase ≡ online
unfolding normalize lookup is_space
is_online = refl

normalize_status_symbols_lem_example :
    ((s : Text)
      → contains (normalize_status_symbols (codes "OB weird LB weird")).0 s
        ≡ contains (tokens_of (codes "OB weird LB weird")) s)
    × AreDistinct [] (normalize_status_symbols (codes "OB weird LB weird")).0
    × (is_empty (codes "OB weird LB weird") ≡ false
        → (normalize_status_symbols (codes "OB weird LB weird")).1
          ≡ unknown_symbols (normalize_status_symbols (codes "OB weird LB weird")).0)
normalize_status_symbols_lem_example = normalize_status_symbols_lem (codes "OB weird LB weird")

apply_aliases_native_example :
    ((k v : Text)
      → lookup k sample.variables ≡ some v
      → lookup k (apply_aliases sample.variables sample.aliases).0 ≡ some v)
    × All (λ d. IsApplied d ⊎ IsShadowed d) (apply_aliases sample.variables sample.aliases).1
apply_aliases_native_example = apply_aliases_native sample.variables sample.aliases

-- Two aliases of one name: the second is said to be shadowed by a variable that no server reported.
second_alias :
    (apply_aliases
      ((codes "a", codes "1") ∷ (codes "b", codes "2") ∷ [])
      ((codes "a", codes "c") ∷ (codes "b", codes "c") ∷ [])).1
    ≡ alias_applied (codes "a") (codes "c") ∷ shadowed (codes "b") (codes "c") ∷ []
unfolding apply_aliases
second_alias = refl
