-- ===== src/Start.antt =====
-- main.go: the start of the operator. The environment variables, the flags and controller-runtime
-- are parameters, over a world `W` and with a manager `M`.
pub mod Watched
use db_query_operator.Prelude.{
  ℕ, ◌*◌, Bool, true, false, not, ◌||◌, List, [], ◌∷◌, ◌++◌, map, leb, ◌==◌, ◌+◌, ◌&&◌,
  if◌then◌else◌, Option, none, some,
}
use db_query_operator.Prelude.Text.{Text, codes, text_eq, empty_text}
use db_query_operator.Cluster.{Reply, ok, err}
use db_query_operator.Events.{Watch, Library, setup_with_manager_and_gvks}
use db_query_operator.Schedule.{second}
use db_query_operator.Gvk.{GroupVersionKind, parse_gvks}

-- The variables that the flags set.
pub record Flags : Type 0 where
  pub gvk_pattern : Text
  pub metrics_addr : Text
  pub probe_addr : Text
  pub enable_leader_election : Bool
  pub secure_metrics : Bool
  pub enable_http2 : Bool
  pub lease_duration : ℕ
  pub renew_deadline : ℕ
  pub retry_period : ℕ

-- Their defaults; that of the pattern is the environment variable GVK_PATTERN.
unfoldable pub default_flags : Text → Flags
default_flags gvk_pattern = record {
  gvk_pattern = gvk_pattern;
  metrics_addr = codes ":8080";
  probe_addr = codes ":8081";
  enable_leader_election = false;
  secure_metrics = false;
  enable_http2 = false;
  lease_duration = 30 * second;
  renew_deadline = 20 * second;
  retry_period = 5 * second;
}

pub data Level : Type 0 where
  debug info warn error : Level

-- `zap.Options`, where no level is left to the flags of zap.
pub record LogOptions : Type 0 where
  pub development : Bool
  pub level : Option Level

-- `strings.ToLower`, as far as the result is ASCII: two letters outside of ASCII have a lower-case
-- form in it, the I with a dot above and the Kelvin sign. Other letters stay as they are here, and
-- are equal to no letter of the names below.
to_lower : ℕ → ℕ
to_lower c =
    if leb b'A' c && leb c b'Z'
    then c + 32
    else if c == 0x130
    then b'i'
    else if c == 0x212a
    then b'k'
    else c

unfoldable pub level_of : Text → Level
unfolding to_lower text_eq
level_of log_level =
    let name = map to_lower log_level in
    if text_eq name (codes "debug")
    then debug
    else if text_eq name (codes "info")
    then info
    else if text_eq name (codes "warn") || text_eq name (codes "warning")
    then warn
    else if text_eq name (codes "error")
    then error
    else info

-- LOG_LEVEL goes over the level of the flags. The development mode is on from the start.
unfoldable pub log_options : Text → LogOptions → LogOptions
log_options log_level opts = if empty_text log_level then opts else (elim (level_of log_level) [
  | debug ↦ record { development = true; level = some debug }
  | info ↦ record opts { level = some info }
  | warn ↦ record opts { level = some warn }
  | error ↦ record opts { level = some error }
])

-- `tls.Config`, by the one field that the code sets.
pub record TlsConfig : Type 0 where
  pub next_protos : List Text

unfoldable pub disable_http2 : TlsConfig → TlsConfig
disable_http2 c = record c { next_protos = codes "http/1.1" ∷ [] }

unfoldable pub tls_opts : Bool → List (TlsConfig → TlsConfig)
tls_opts enable_http2 = if not enable_http2 then disable_http2 ∷ [] else []

-- `ctrl.Options`. The scheme is not modelled.
pub record ManagerOptions : Type 0 where
  pub metrics_bind_address : Text
  pub secure_serving : Bool
  pub metrics_tls : List (TlsConfig → TlsConfig)
  pub webhook_tls : List (TlsConfig → TlsConfig)
  pub health_probe_bind_address : Text
  pub leader_election : Bool
  pub leader_election_id : Text
  pub lease_duration : ℕ
  pub renew_deadline : ℕ
  pub retry_period : ℕ

unfoldable pub manager_options : Flags → ManagerOptions
manager_options flags = record {
  metrics_bind_address = flags.metrics_addr;
  secure_serving = flags.secure_metrics;
  metrics_tls = tls_opts flags.enable_http2;
  webhook_tls = tls_opts flags.enable_http2;
  health_probe_bind_address = flags.probe_addr;
  leader_election = flags.enable_leader_election;
  leader_election_id = codes "dbqueryoperator.konnektr.io";
  lease_duration = flags.lease_duration;
  renew_deadline = flags.renew_deadline;
  retry_period = flags.retry_period;
}

-- What main.go calls. `start` returns when the manager has stopped.
pub record Runtime (W M : Type 0) : Type 0 where
  pub getenv : Text → Text
  pub parse_flags : Flags → Flags
  pub log_flags : LogOptions
  -- the predicates of controller-runtime, and the kind of the custom resource
  pub predicates : Library
  pub primary : GroupVersionKind
  pub set_logger : W → LogOptions → W
  pub new_manager : W → ManagerOptions → Reply Text M × W
  -- `Complete` of the controller's builder
  pub complete : W → M → List Watch → Reply Text (Unit {0}) × W
  pub setup_webhook : W → M → Reply Text (Unit {0}) × W
  pub add_healthz_check : W → M → Text → Reply Text (Unit {0}) × W
  pub add_readyz_check : W → M → Text → Reply Text (Unit {0}) × W
  pub start : W → M → Reply Text (Unit {0}) × W

-- How the process ends: `os.Exit` with a status, or the return of `main`.
pub data Ending : Type 0 where
  exited : ℕ → Ending
  returned : Ending

module _ {W : Type 0} where
  -- An error of a step is logged, and ends the process.
  unfoldable pub or_exit : {A : Type 0} → Reply Text A × W → (A → W → Ending × W) → Ending × W
  or_exit (ok a, w) next = next a w
  or_exit (err e, w) next = (exited 1, w)

module _ {W M : Type 0} (runtime : Runtime W M) where
  unfoldable pub run_manager : List GroupVersionKind → M → W → Ending × W
  run_manager gvks mgr w =
      or_exit
        (runtime.complete w mgr
          (setup_with_manager_and_gvks runtime.predicates runtime.primary gvks))
        λ _ w. or_exit (runtime.setup_webhook w mgr) λ _ w.
          or_exit (runtime.add_healthz_check w mgr (codes "healthz")) λ _ w.
            or_exit (runtime.add_readyz_check w mgr (codes "readyz"))
              λ _ w. or_exit (runtime.start w mgr) λ _ w. (returned, w)

  unfoldable pub flags : Flags
  flags = runtime.parse_flags (default_flags (runtime.getenv (codes "GVK_PATTERN")))

  unfoldable pub with_logger : W → W
  with_logger w =
      runtime.set_logger w (log_options (runtime.getenv (codes "LOG_LEVEL")) runtime.log_flags)

  unfoldable pub main : W → Ending × W
  main w =
      or_exit (parse_gvks flags.gvk_pattern, with_logger w)
        λ gvks w.
          or_exit (runtime.new_manager w (manager_options flags)) λ mgr w. run_manager gvks mgr w
