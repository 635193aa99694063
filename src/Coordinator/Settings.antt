-- ===== src/Coordinator/Settings.antt =====
-- coordinator.go, New: the settings that a coordinator runs with.
use agent_board.Prelude.{
  ◌≤◌, ◌<◌, ◌≡◌, refl, sym, ap, ◌∙◌, Option, none, some, is_null, ◌||◌, ◌==◌, Bool, true, false,
  not, arith, ltb, leb, if◌then◌else◌,
}
use agent_board.Prelude.Text.{Text, is_blank}
use agent_board.Coordinator.{
  Config, ErrorReporter, with_reporter, Checked, ConfigError, accepted, refused, new_coordinator,
  default_config,
}

-- Settings that a lease survives: a heartbeat comes before the lease ends, and a worker can run.
pub record Sane (config : Config) : Type 0 where
  pub owned : is_blank config.owner_id ≡ false
  pub polls : 0 < config.poll_interval
  pub beats : 0 < config.heartbeat_interval
  pub in_time : config.heartbeat_interval < config.lease_duration
  pub backs_off : 0 < config.capacity_backoff
  pub has_slot : 1 ≤ config.max_in_flight

abbrev without_duration : Config → Bool
without_duration config =
    config.poll_interval == 0
    || config.lease_duration == 0
    || config.heartbeat_interval == 0
    || config.capacity_backoff == 0

passed :
    (b : Bool) (e : ConfigError) (m : Checked) (c : Config)
    → (if b then refused e else m) ≡ accepted c
    → (b ≡ false) × (m ≡ accepted c)
passed true e m c h = absurd (ground arith)
passed false e m c h = (refl, h)

accepted-Sane :
    (parts : Bool) (config c : Config)
    → new_coordinator parts config ≡ accepted c
    → (c ≡ with_reporter config.report_error config) × (parts ≡ true) × Sane config
unfolding new_coordinator
accepted-Sane parts config c h =
    let (a₁, h₁) = passed (not parts) _ _ c h in
    let (a₂, h₂) = passed (is_blank config.owner_id) _ _ c h₁ in
    let (a₃, h₃) = passed (without_duration config) _ _ c h₂ in
    let (a₄, h₄) = passed (leb config.lease_duration config.heartbeat_interval) _ _ c h₃ in
    let (a₅, h₅) = passed (ltb config.max_in_flight 1) _ _ c h₄ in
    (
      ground arith,
      ground arith,
      record {
        owned = a₂;
        polls = ground arith;
        beats = ground arith;
        in_time = ground arith;
        backs_off = ground arith;
        has_slot = ground arith;
      },
    )

with_reporter-given :
    (o : Option ErrorReporter) (config : Config)
    → o ≡ config.report_error
    → is_null (with_reporter o config).report_error ≡ false
with_reporter-given none config e = refl
with_reporter-given (some r) config e = ap is_null (sym e)

-- New accepts the settings that it is given exactly where its parts are there and the settings are
-- sane (an owner, positive durations, a heartbeat shorter than the lease, a slot), and keeps them,
-- but that a ReportError that is nil becomes one that does nothing, and none is nil after that; the
-- defaults of an owner with a name are sane.
pub new_coordinator-Sane :
    (parts : Bool) (config : Config)
    → ((c : Config)
        → new_coordinator parts config ≡ accepted c
        → (c ≡ with_reporter config.report_error config) × (parts ≡ true) × Sane config)
      × (parts ≡ true
          → Sane config
          → new_coordinator parts config ≡ accepted (with_reporter config.report_error config))
      × ((c : Config) → new_coordinator parts config ≡ accepted c → is_null c.report_error ≡ false)
      × ((owner : Text) → is_blank owner ≡ false → Sane (default_config owner))
unfolding new_coordinator
new_coordinator-Sane parts config = (
  λ c h. accepted-Sane parts config c h,
  λ p s. ground (arith, p, s.owned, s.polls, s.beats, s.in_time, s.backs_off, s.has_slot),
  λ c h.
      ap (λ (d : Config). is_null d.report_error) (accepted-Sane parts config c h).0
      ∙ with_reporter-given config.report_error config refl,
  λ owner b. record {
    owned = b;
    polls = omega arith;
    beats = omega arith;
    in_time = omega arith;
    backs_off = omega arith;
    has_slot = omega arith;
  },
)
