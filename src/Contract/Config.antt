-- ===== src/Contract/Config.antt =====
-- internal/contract/config.go: the routing configuration, its backends and kinds.
use molebridge.Base.{ℕ, Bool, true, false, ◌&&◌, Option, List, Text}
use molebridge.Rtnl.Addr.{Family, v4, v6, Addr, Prefix}

pub data Backend : Type 0 where
  wireguard gluetun : Backend

pub data Kind : Type 0 where
  overlay sidecar : Kind

pub record Config : Type 0 where
  pub kind : Kind
  pub backend : Backend
  pub overlay4 : Option Prefix
  pub overlay6 : Option Prefix
  pub overlay_if : Text
  pub exit_if : Text
  pub table : ℕ
  pub host_if : Text
  pub host_table : ℕ
  pub control_mark : ℕ
  pub lan : List Prefix
  pub lan6 : List Prefix
  pub host_resolvers : List Addr

abbrev gluetun_backend : Backend → Bool
gluetun_backend wireguard = false
gluetun_backend gluetun = true

abbrev native_backend : Backend → Bool
native_backend wireguard = true
native_backend gluetun = false

abbrev sidecar_kind : Kind → Bool
sidecar_kind overlay = false
sidecar_kind sidecar = true

abbrev pub is_gluetun : Config → Bool
is_gluetun c = gluetun_backend c.backend

abbrev pub is_sidecar : Config → Bool
is_sidecar c = sidecar_kind c.kind

abbrev pub is_native_sidecar : Config → Bool
is_native_sidecar c = sidecar_kind c.kind && native_backend c.backend

abbrev pub is_gluetun_sidecar : Config → Bool
is_gluetun_sidecar c = sidecar_kind c.kind && gluetun_backend c.backend

abbrev pub tunnel_mark : Config → ℕ
tunnel_mark c = c.table

abbrev pub lan_for : Config → Family → List Prefix
lan_for c v6 = c.lan6
lan_for c v4 = c.lan

abbrev pub overlay_for : Config → Family → Option Prefix
overlay_for c v6 = c.overlay6
overlay_for c v4 = c.overlay4

abbrev pub gluetun_mark : ℕ
gluetun_mark = 51820

abbrev pub gluetun_table : ℕ
gluetun_table = 51820

abbrev pub netbird_table : ℕ
netbird_table = 7120
