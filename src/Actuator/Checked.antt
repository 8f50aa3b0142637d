-- ===== src/Actuator/Checked.antt =====
-- watchSignals (cmd/node-actuator/main.go) and InspectSignal (internal/nodeagent/signal.go): which
-- signals are acted on.
use nut_operator.Prelude.{
  Bool, true, false, ◌&&◌, List, [], ◌∷◌, Option, some, if◌then◌else◌, is_empty, ◌≡◌, refl, arith,
  ◌⊎◌, inl, inr, All, All-append, All-map, Option-cases, if_both, if_cases,
}
use nut_operator.Prelude.Int.{ℤ, pos, ◌-ℤ◌, ltb_ℤ}
use nut_operator.Text.{Text}
use nut_operator.Text.Laws.{text_eq→eq}
use nut_operator.Text.Maps.{contains, add_key}
use nut_operator.Actuator.Inspect.{
  ShutdownSignal, Reading, no_file, unreadable, not_json, signal, SignalStatus, ignored, active,
  signal_key, lacks_fields, is_wrong_node, check_time, inspect_signal,
  signal_missing_required_fields, signal_wrong_node, signal_stale, signal_from_future,
}
use nut_operator.Actuator.Scan.{
  Config, World, Actuation, Scan, accept, is_from_future, is_other_flow, judge, inspect,
  scan_signal_paths,
}
use nut_operator.Actuator.Watch.{Watch, Turn, pass, restart, turn, watch_signals}

-- The time is no further from now than the limit, where there is one, on either side.
abbrev pub IsTimely : ℤ → ℤ → ℤ → Type 0
IsTimely ttl now t =
    ltb_ℤ (pos 0) ttl ≡ true → (ltb_ℤ ttl (now -ℤ t) ≡ false) × (ltb_ℤ ttl (t -ℤ now) ≡ false)

-- A signal that is complete, bound to the node, and in time.
pub record IsValid (parse_time : Text → Option ℤ) (ttl now : ℤ) (node : Text) (p : ShutdownSignal)
    : Type 0 where
  pub full : lacks_fields p ≡ false
  pub bound : is_empty node ≡ false → p.node_name ≡ node
  pub time : ℤ
  pub parsed : parse_time p.timestamp ≡ some time
  pub timely : IsTimely ttl now time

unlimited : (b c : Bool) → (b && c) ≡ false → b ≡ true → c ≡ false
unlimited b c h k = ground (arith, h, k)

-- A status that is active is that of a valid signal.
IsChecked : (Text → Option ℤ) → ℤ → ℤ → Text → Reading → SignalStatus → Type 0
IsChecked parse_time ttl now node r (ignored reason) = Unit
IsChecked parse_time ttl now node r (active key p) =
    (r ≡ signal p) × (key ≡ signal_key p) × IsValid parse_time ttl now node p

module _ (parse_time : Text → Option ℤ) (ttl now : ℤ) (node : Text) where
  bound_to :
      (p : ShutdownSignal)
      → is_wrong_node node p ≡ false
      → is_empty node ≡ false
      → p.node_name ≡ node
  bound_to p right named = text_eq→eq p.node_name node (ground (arith, right, named))

  check_time-IsChecked :
      (p : ShutdownSignal)
      → lacks_fields p ≡ false
      → is_wrong_node node p ≡ false
      → IsChecked parse_time ttl now node (signal p) (check_time ttl now p (parse_time p.timestamp))
  unfolding check_time IsChecked
  check_time-IsChecked p full right = elim (Option-cases (parse_time p.timestamp)) [
    | inl unparsed ↦ rw unparsed tt
    | inr (t, parsed) ↦
        let stale = ltb_ℤ (pos 0) ttl && ltb_ℤ ttl (now -ℤ t) in
        let early = ltb_ℤ (pos 0) ttl && ltb_ℤ ttl (t -ℤ now) in
        rw parsed (
          if_cases (IsChecked parse_time ttl now node (signal p)) stale (ignored signal_stale)
            (if early then ignored signal_from_future else active (signal_key p) p) (λ late. tt)
            (λ fresh.
              if_cases (IsChecked parse_time ttl now node (signal p)) early
                (ignored signal_from_future) (active (signal_key p) p) (λ ahead. tt)
                (λ near. (
                  refl,
                  refl,
                  record {
                    full = full;
                    bound = bound_to p right;
                    time = t;
                    parsed = parsed;
                    timely = λ limited. (
                      unlimited (ltb_ℤ (pos 0) ttl) (ltb_ℤ ttl (now -ℤ t)) fresh limited,
                      unlimited (ltb_ℤ (pos 0) ttl) (ltb_ℤ ttl (t -ℤ now)) near limited,
                    );
                  },
                ))))
  ]

  inspect_signal-IsChecked :
      (r : Reading) → IsChecked parse_time ttl now node r (inspect_signal parse_time ttl now node r)
  unfolding inspect_signal IsChecked
  inspect_signal-IsChecked no_file = tt
  inspect_signal-IsChecked unreadable = tt
  inspect_signal-IsChecked not_json = tt
  inspect_signal-IsChecked (signal p) =
      if_cases (IsChecked parse_time ttl now node (signal p)) (lacks_fields p)
        (ignored signal_missing_required_fields) _ (λ lacking. tt)
        (λ full.
          if_cases (IsChecked parse_time ttl now node (signal p)) (is_wrong_node node p)
            (ignored signal_wrong_node) _ (λ wrong. tt)
            (λ right. check_time-IsChecked p full right))

-- What a pass acts on was read at its path, is valid, and names the flow where one is declared.
pub record IsSound (config : Config) (world : World) (a : Actuation) : Type 0 where
  pub read : world.read a.path ≡ signal a.payload
  pub keyed : a.key ≡ signal_key a.payload
  pub valid :
      IsValid world.parse_time config.signal_ttl (world.now a.path) config.node_name a.payload
  pub enrolled :
      is_empty config.shutdown_flow ≡ false → a.payload.shutdown_flow ≡ config.shutdown_flow

enrolled_in :
    (config : Config) (p : ShutdownSignal)
    → is_other_flow config p ≡ false
    → is_empty config.shutdown_flow ≡ false
    → p.shutdown_flow ≡ config.shutdown_flow
enrolled_in config p same declared =
    text_eq→eq p.shutdown_flow config.shutdown_flow (ground (arith, same, declared))

module _ (config : Config) (world : World) where
  abbrev IsAllSound : Scan → Type 0
  IsAllSound s = All (IsSound config world) s.acted

  judge-IsAllSound :
      (path : Text) (seen : List Text) (s : SignalStatus) (rest : Scan)
      → IsChecked world.parse_time config.signal_ttl
          (world.now path)
          config.node_name
          (world.read path)
          s
      → IsAllSound rest
      → IsAllSound (judge config path seen s rest)
  unfolding IsChecked
  judge-IsAllSound path seen (ignored reason) rest checked h =
      if_both IsAllSound (is_from_future reason)
        (record rest { clock_skewed = path ∷ rest.clock_skewed }) rest h h
  judge-IsAllSound path seen (active key p) rest (found, keyed, valid) h =
      if_cases IsAllSound (is_other_flow config p) rest (accept path key p seen) (λ other. h)
        (λ same.
          if_both IsAllSound (contains seen key)
            (record { seen = seen; acted = []; clock_skewed = [] })
            (record {
              seen = add_key key seen;
              acted = record { path = path; key = key; payload = p } ∷ [];
              clock_skewed = [];
            })
            tt
            (
              record {
                read = found;
                keyed = keyed;
                valid = valid;
                enrolled = enrolled_in config p same;
              },
              tt,
            ))

  scan_signal_paths-IsAllSound :
      (paths seen : List Text) → IsAllSound (scan_signal_paths config world paths seen)
  unfolding scan_signal_paths
  scan_signal_paths-IsAllSound [] seen = tt
  scan_signal_paths-IsAllSound (path ∷ paths) seen =
      judge-IsAllSound path seen (inspect config world path)
        (scan_signal_paths config world paths seen)
        (inspect_signal-IsChecked world.parse_time config.signal_ttl (world.now path)
          config.node_name (world.read path))
        (scan_signal_paths-IsAllSound paths seen)

-- Acted on in one of the passes, for good reason there.
unfoldable pub IsSoundIn : Config → List Turn → Actuation → Type 0
IsSoundIn config [] a = ⊥
IsSoundIn config (pass world written ∷ ts) a = IsSound config world a ⊎ IsSoundIn config ts a
IsSoundIn config (restart readable ∷ ts) a = IsSoundIn config ts a

-- Every signal that a watch acts on, whatever it had seen and over any passes and restarts, was
-- read at its path in one of the passes, has all required fields and a time that parses and is no
-- further from the clock than the TTL where that is above 0, and names the watch's node and its
-- shutdown flow where these are set.
pub watch_signals-IsSoundIn :
    (config : Config) (ts : List Turn) (w : Watch)
    → All (IsSoundIn config ts) (watch_signals config ts w).1
unfolding watch_signals turn IsSoundIn
watch_signals-IsSoundIn config [] w = tt
watch_signals-IsSoundIn config (pass world written ∷ ts) w =
    let scan = scan_signal_paths config world config.signal_paths w.seen in
    let next = (turn config (pass world written) w).0 in
    All-append (IsSoundIn config (pass world written ∷ ts)) scan.acted _
      (All-map {P = IsSound config world} {Q = IsSoundIn config (pass world written ∷ ts)}
        (λ a h. inl h) scan.acted
        (scan_signal_paths-IsAllSound config world config.signal_paths w.seen))
      (All-map {P = IsSoundIn config ts} {Q = IsSoundIn config (pass world written ∷ ts)}
        (λ a h. inr h) _ (watch_signals-IsSoundIn config ts next))
watch_signals-IsSoundIn config (restart readable ∷ ts) w =
    watch_signals-IsSoundIn config ts (turn config (restart readable) w).0
