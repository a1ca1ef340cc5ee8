-- ===== src/Examples/Settings.antt =====
-- internal/contract/config.go: the settings of an overlay exit with gluetun.
use molebridge.Base.{
  ◌≡◌, refl, none, some, List, [], ◌∷◌, same, Text, bytes, Text-discrete, if◌then◌else◌,
}
use molebridge.Rtnl.Addr.{ip4}
use molebridge.Contract.Config.{Backend, gluetun, Kind, Config}
use molebridge.Contract.Settings.{interval_range, refused, parsed, is_uint, decimal, Net}
use molebridge.Contract.Interval.{reconcile_interval}
use molebridge.Contract.Env.{default_of, kind_of, backend_of, no_config, config_from_env}
use molebridge.Contract.Accepted.{Sound, config_from_env-Sound}

abbrev no_net : Net
no_net = record { parse_addr = λ s. none; parse_prefix = λ s. none; trim_space = λ s. s }

abbrev lookup : List (Text × Text) → Text → Text
lookup [] name = []
lookup ((k, v) ∷ rest) name =
    let later = lookup rest name in if same Text-discrete k name then v else later

abbrev env : Text → Text
env =
    lookup (
      (bytes "TUNNEL_BACKEND", bytes "gluetun")
      ∷ (bytes "OVERLAY_CIDR", bytes "100.64.0.0/10")
      ∷ [])

abbrev accepted : Config
accepted = record no_config {
  backend = gluetun;
  overlay4 = some (record { addr = ip4 1681915904; bits = 10 });
  overlay_if = bytes "wt0";
  exit_if = bytes "wg0";
  table = 51821;
  host_if = bytes "eth0";
  host_table = 51822;
  control_mark = 0x1bd00;
}

config_from_env-Sound_example :
    (k : Kind) × ((b : Backend) × ((kind_of (default_of (env (bytes "EXIT_KIND")) (bytes "overlay"))
          ≡ parsed k)
        × ((backend_of (default_of (env (bytes "TUNNEL_BACKEND")) (bytes "wireguard")) ≡ parsed b)
            × Sound no_net env k b accepted)))
unfolding config_from_env
config_from_env-Sound_example = config_from_env-Sound no_net env accepted refl

interval_two_digits : reconcile_interval (λ name. bytes "45") ≡ parsed 45_000_000_000
unfolding reconcile_interval is_uint decimal
interval_two_digits = refl

interval_too_short : reconcile_interval (λ name. bytes "1") ≡ refused interval_range
unfolding reconcile_interval is_uint decimal
interval_too_short = refl
