-- ===== src/Contract/Env.antt =====
-- internal/contract/config.go: the settings of an exit, read and validated.
use molebridge.Base.{
  ℕ, ◌/◌, ◌^◌, Bool, false, not, ◌&&◌, ◌||◌, Option, none, some, List, [], ◌∷◌, ◌++◌, ◌==◌, leb,
  same, any, length, Text, bytes, Text-discrete, if◌then◌else◌,
}
use molebridge.Rtnl.Addr.{Addr, ip4, ip6, is4, Addr-discrete, Prefix, Prefix-discrete, masked}
use molebridge.Contract.Config.{
  Backend, wireguard, gluetun, Kind, overlay, sidecar, Config, gluetun_table, netbird_table,
}
use molebridge.Contract.Settings.{
  exit_kind, tunnel_backend, gluetun_interface, interface_name, same_interfaces, host_interface,
  host_interface_taken, same_tables, table_taken, mark_is_table, for_overlay_kind, too_many,
  no_prefix, default_route, network_address, duplicated, no_resolver, Parsed, refused, parsed,
  ◌>>=◌, ◌>>◌, check, Net, is_empty, split, valid_interface_name, valid_gluetun_interface,
  parse_table, parse_overlay4, parse_overlay6, control_mark_value, or_refuse,
}

abbrev pub is_text : Text → Text → Bool
is_text a b = same Text-discrete a b

-- `strconv.Itoa` of the defaults is written out.
abbrev pub default_of : Text → Text → Text
default_of [] d = d
default_of (c ∷ cs) d = c ∷ cs

unfoldable pub kind_of : Text → Parsed Kind
unfolding Text-discrete
kind_of v =
    if is_text v (bytes "overlay")
    then parsed overlay
    else if is_text v (bytes "sidecar")
    then parsed sidecar
    else refused exit_kind

-- `native` is another spelling of `wireguard`.
unfoldable pub backend_of : Text → Parsed Backend
unfolding Text-discrete
backend_of v =
    if is_text v (bytes "native") || is_text v (bytes "wireguard")
    then parsed wireguard
    else if is_text v (bytes "gluetun")
    then parsed gluetun
    else refused tunnel_backend

abbrev pub no_config : Config
no_config = record {
  kind = overlay;
  backend = wireguard;
  overlay4 = none;
  overlay6 = none;
  overlay_if = [];
  exit_if = [];
  table = 0;
  host_if = [];
  host_table = 0;
  control_mark = 0;
  lan = [];
  lan6 = [];
  host_resolvers = [];
}

abbrev pub is_taken : ℕ → Bool
is_taken t = t == gluetun_table || t == netbird_table

-- Addresses that a resolver cannot have.
unfoldable pub no_host : Addr → Bool
no_host (ip4 n) = n == 0 || n / 2 ^ 28 == 14
no_host (ip6 n) = n / 2 ^ 32 == 0xffff || (n == 0 || n / 2 ^ 120 == 0xff)

unfoldable pub is_4in6 : Addr → Bool
is_4in6 (ip4 n) = false
is_4in6 (ip6 n) = n / 2 ^ 32 == 0xffff

abbrev pub optional_prefix : Text → (Text → Parsed Prefix) → Parsed (Option Prefix)
optional_prefix [] parse = parsed none
optional_prefix (c ∷ cs) parse = parse (c ∷ cs) >>= λ p. parsed (some p)

module _ (net : Net) where
  unfoldable pub add_resolver : List Addr → Option (Addr × Bool) → Parsed (List Addr)
  unfolding no_host Addr-discrete
  add_resolver out none = refused no_resolver
  add_resolver out (some (a, zone)) = do
    check (not (zone || no_host a)) no_resolver
    check (not (any (λ b. same Addr-discrete b a) out)) duplicated
    parsed (out ++ a ∷ [])

  unfoldable pub add_resolvers : List Addr → List Text → Parsed (List Addr)
  unfolding add_resolver
  add_resolvers out [] = parsed out
  add_resolvers out (e ∷ es) =
      add_resolver out (net.parse_addr (net.trim_space e)) >>= λ out'. add_resolvers out' es

  unfoldable pub parse_host_resolvers : Text → Parsed (List Addr)
  unfolding split add_resolvers
  parse_host_resolvers [] = parsed []
  parse_host_resolvers (c ∷ cs) = do
    check (leb (length (split 44 (c ∷ cs))) 3) too_many
    add_resolvers [] (split 44 (c ∷ cs))

  -- The prefixes found, those of IPv4 first; `seen` is both lists together.
  abbrev pub Lans : Type 0
  Lans = List Prefix × List Prefix

  unfoldable pub add_lan : Lans → Prefix → Parsed Lans
  unfolding is_4in6 masked Prefix-discrete
  add_lan (lan, lan6) p = do
    check (not (is_4in6 p.addr)) no_prefix
    check (not (p.bits == 0)) default_route
    check (same Prefix-discrete p (masked p)) network_address
    check (not (any (λ q. same Prefix-discrete q p) (lan ++ lan6))) duplicated
    parsed (if is4 p.addr then (lan ++ p ∷ [], lan6) else (lan, lan6 ++ p ∷ []))

  unfoldable pub add_lans : Lans → List Text → Parsed Lans
  unfolding add_lan
  add_lans found [] = parsed found
  add_lans found (e ∷ es) = do
    check (not (is_empty (net.trim_space e))) no_prefix
    p ← or_refuse net no_prefix (net.parse_prefix (net.trim_space e))
    found' ← add_lan found p
    add_lans found' es

  unfoldable pub parse_sidecar_lan : Text → Parsed Lans
  unfolding split add_lans
  parse_sidecar_lan [] = parsed ([], [])
  parse_sidecar_lan (c ∷ cs) = do
    check (leb (length (split 44 (c ∷ cs))) 16) too_many
    add_lans ([], []) (split 44 (c ∷ cs))

  module _ (getenv : Text → Text) where
    -- `env.get(name, default)`
    abbrev pub env_get : Text → Text → Text
    env_get name d = default_of (getenv name) d

    unfoldable pub native_sidecar_config : Parsed Config
    unfolding valid_interface_name parse_table control_mark_value parse_sidecar_lan
        parse_host_resolvers Text-discrete
    native_sidecar_config = do
      check
          (is_empty (getenv (bytes "OVERLAY_CIDR"))
            && (is_empty (getenv (bytes "OVERLAY6_CIDR"))
                && is_empty (getenv (bytes "OVERLAY_IF"))))
          for_overlay_kind
      let exit_if = env_get (bytes "EXIT_IF") (bytes "mullvad")
      let host_if = env_get (bytes "HOST_IF") (bytes "eth0")
      check (valid_interface_name exit_if) interface_name
      check (valid_interface_name host_if) host_interface
      check (not (is_text host_if (bytes "lo") || is_text host_if exit_if)) host_interface_taken
      table ← parse_table (env_get (bytes "EXIT_TABLE") (bytes "51821"))
      mark ← control_mark_value (env_get (bytes "CONTROL_MARK") (bytes "0x1bd00"))
      check (not (mark == table)) mark_is_table
      lans ← parse_sidecar_lan (getenv (bytes "SIDECAR_LAN_CIDRS"))
      resolvers ← parse_host_resolvers (getenv (bytes "SIDECAR_HOST_RESOLVERS"))
      parsed (record no_config {
        kind = sidecar;
        exit_if = exit_if;
        host_if = host_if;
        table = table;
        control_mark = mark;
        lan = lans.0;
        lan6 = lans.1;
        host_resolvers = resolvers;
      })

    -- What the gluetun backend adds to the settings of an overlay exit.
    unfoldable pub gluetun_config : Config → Parsed Config
    unfolding valid_interface_name valid_gluetun_interface parse_table control_mark_value
        Text-discrete
    gluetun_config c = do
      check (valid_gluetun_interface c.exit_if) gluetun_interface
      let host_if = env_get (bytes "HOST_IF") (bytes "eth0")
      check (valid_interface_name host_if) host_interface
      check
          (not (
            is_text host_if (bytes "lo")
            || (is_text host_if c.overlay_if || is_text host_if c.exit_if)))
          host_interface_taken
      table ← parse_table (env_get (bytes "HOST_TABLE") (bytes "51822"))
      check (not (table == c.table)) same_tables
      check (not (is_taken c.table || is_taken table)) table_taken
      mark ← control_mark_value (env_get (bytes "CONTROL_MARK") (bytes "0x1bd00"))
      parsed (record c { host_if = host_if; host_table = table; control_mark = mark })

    unfoldable pub finish : Backend → Config → Parsed Config
    unfolding gluetun_config
    finish wireguard c = parsed c
    finish gluetun c = gluetun_config c

    abbrev pub default_exit_if : Backend → Text
    default_exit_if wireguard = bytes "mullvad"
    default_exit_if gluetun = bytes "wg0"

    unfoldable pub overlay_config : Backend → Parsed Config
    unfolding valid_interface_name parse_table parse_overlay4 parse_overlay6 finish Text-discrete
    overlay_config b = do
      let overlay_if = env_get (bytes "OVERLAY_IF") (bytes "wt0")
      let exit_if = env_get (bytes "EXIT_IF") (default_exit_if b)
      check (valid_interface_name overlay_if && valid_interface_name exit_if) interface_name
      check (not (is_text overlay_if exit_if)) same_interfaces
      table ← parse_table (env_get (bytes "EXIT_TABLE") (bytes "51821"))
      range ← parse_overlay4 (getenv (bytes "OVERLAY_CIDR"))
      range6 ← optional_prefix (getenv (bytes "OVERLAY6_CIDR")) (parse_overlay6 net)
      finish b (record no_config {
        backend = b;
        overlay_if = overlay_if;
        exit_if = exit_if;
        table = table;
        overlay4 = some range;
        overlay6 = range6;
      })

    -- Nothing of the contract is configured for a sidecar of gluetun.
    unfoldable pub gluetun_sidecar_config : Parsed Config
    unfolding valid_gluetun_interface
    gluetun_sidecar_config = do
      let exit_if = env_get (bytes "EXIT_IF") (bytes "wg0")
      check (valid_gluetun_interface exit_if) gluetun_interface
      parsed (record no_config { kind = sidecar; backend = gluetun; exit_if = exit_if })

    unfoldable pub config_of : Kind → Backend → Parsed Config
    unfolding gluetun_sidecar_config native_sidecar_config overlay_config
    config_of sidecar gluetun = gluetun_sidecar_config
    config_of sidecar wireguard = native_sidecar_config
    config_of overlay b = overlay_config b

    unfoldable pub config_from_env : Parsed Config
    unfolding kind_of backend_of config_of
    config_from_env = do
      kind ← kind_of (env_get (bytes "EXIT_KIND") (bytes "overlay"))
      backend ← backend_of (env_get (bytes "TUNNEL_BACKEND") (bytes "wireguard"))
      config_of kind backend
