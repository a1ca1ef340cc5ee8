-- ===== src/Contract/Accepted.antt =====
-- internal/contract/config.go: what holds of settings that were accepted.
use molebridge.Base.{
  ℕ, ◌-◌, ◌%◌, ◌^◌, ◌≤◌, Bool, true, false, not, ◌&&◌, ◌||◌, ◌≡◌, refl, ap, subst, [], ◌∷◌, ◌==◌,
  Text, bytes, arith,
}
use molebridge.Rtnl.Addr.{ip4, Prefix}
use molebridge.Contract.Config.{
  Backend, wireguard, gluetun, Kind, overlay, sidecar, Config, is_gluetun, is_gluetun_sidecar,
}
use molebridge.Contract.Settings.{
  Refusal, gluetun_interface, host_interface, host_interface_taken, same_tables, table_taken,
  interface_name, same_interfaces, for_overlay_kind, mark_is_table, Parsed, refused, parsed, ◌>>=◌,
  ◌>>◌, check, Net, is_empty, valid_interface_name, valid_gluetun_interface, parse_table,
  parse_overlay4, parse_overlay6, mark_digits, control_mark_value,
}
use molebridge.Contract.Env.{
  is_text, is_taken, default_exit_if, kind_of, backend_of, optional_prefix, default_of,
  parse_sidecar_lan, parse_host_resolvers, native_sidecar_config, gluetun_config, finish,
  overlay_config, gluetun_sidecar_config, config_of, config_from_env,
}

abbrev pub IsTable : ℕ → Type 0
IsTable t = (256 ≤ t) × (t ≤ 2147483647)

parse_table-IsTable : (v : Text) (t : ℕ) → parse_table v ≡ parsed t → IsTable t
unfolding parse_table
parse_table-IsTable v t h = (ground arith, ground arith)

-- The low byte is zero.
abbrev pub IsMark : ℕ → Type 0
IsMark m = (m % 256 == 0) ≡ true

mark_digits-IsMark : (ds : Text) (m : ℕ) → mark_digits ds ≡ parsed m → IsMark m
unfolding mark_digits
mark_digits-IsMark ds m h = ground arith

control_mark_value-IsMark : (v : Text) (m : ℕ) → control_mark_value v ≡ parsed m → IsMark m
unfolding control_mark_value
control_mark_value-IsMark [] m h = cc
control_mark_value-IsMark (z ∷ []) m h = cc
control_mark_value-IsMark (z ∷ x ∷ ds) m h = mark_digits-IsMark ds m (ground arith)

-- A network address of at most 32 bits.
abbrev pub IsNetwork : Prefix → Type 0
IsNetwork p = (n : ℕ) × (p.addr ≡ ip4 n) × ((n % 2 ^ (32 - p.bits) == 0) ≡ true) × (p.bits ≤ 32)

bind_inv {ℓ κ} :
    {A : Type ℓ} {B : Type κ} (m : Parsed A) (f : A → Parsed B) (b : B)
    → (m >>= f) ≡ parsed b
    → (a : A) × ((m ≡ parsed a) × (f a ≡ parsed b))
bind_inv (refused e) f b h = cc
bind_inv (parsed a) f b h = (a, (refl, h))

check_inv {κ} :
    {B : Type κ} (c : Bool) (e : Refusal) (m : Parsed B) (b : B)
    → (check c e >> m) ≡ parsed b
    → (c ≡ true) × (m ≡ parsed b)
check_inv true e m b h = (refl, h)
check_inv false e m b h = cc

parsed_inj : (a b : Config) → parsed a ≡ parsed b → a ≡ b
parsed_inj a b h = ap (or_config a) h
  where
    or_config : Config → Parsed Config → Config
    or_config d (refused e) = d
    or_config d (parsed c) = c

-- What the gluetun backend settles: the host table is a table, neither it nor the exit table is
-- the other or one that gluetun or NetBird use, the host interface is neither loopback nor one of
-- the others, and the low byte of the control mark is zero.
pub record GluetunSound (c : Config) : Type 0 where
  pub host_table : IsTable c.host_table
  pub tables_apart : (c.host_table == c.table) ≡ false
  pub tables_free : (is_taken c.table || is_taken c.host_table) ≡ false
  pub host_apart :
      (is_text c.host_if (bytes "lo")
        || (is_text c.host_if c.overlay_if || is_text c.host_if c.exit_if))
      ≡ false
  pub mark : IsMark c.control_mark

pub record OverlaySound (c : Config) : Type 0 where
  pub table : IsTable c.table
  pub interfaces_apart : is_text c.overlay_if c.exit_if ≡ false
  pub gluetun_sound : is_gluetun c ≡ true → GluetunSound c

pub record SidecarSound (c : Config) : Type 0 where
  pub table : IsTable c.table
  pub mark : IsMark c.control_mark
  pub mark_apart : (c.control_mark == c.table) ≡ false
  pub host_apart : (is_text c.host_if (bytes "lo") || is_text c.host_if c.exit_if) ≡ false

false_of : (b : Bool) → not b ≡ true → b ≡ false
false_of b h = ground arith

module _ (net : Net) (getenv : Text → Text) where
  gluetun_config-GluetunSound :
      (c d : Config)
      → gluetun_config net getenv c ≡ parsed d
      → GluetunSound d
        × ((d.table ≡ c.table) × ((d.overlay_if ≡ c.overlay_if) × (d.exit_if ≡ c.exit_if)))
  unfolding gluetun_config
  gluetun_config-GluetunSound c d h =
      let host_if = default_of (getenv (bytes "HOST_IF")) (bytes "eth0") in
      let table_text = default_of (getenv (bytes "HOST_TABLE")) (bytes "51822") in
      let mark_text = default_of (getenv (bytes "CONTROL_MARK")) (bytes "0x1bd00") in
      let names =
        is_text host_if (bytes "lo")
        || (is_text host_if c.overlay_if || is_text host_if c.exit_if) in
      let (_, h1) = check_inv (valid_gluetun_interface c.exit_if) gluetun_interface _ d h in
      let (_, h2) = check_inv (valid_interface_name host_if) host_interface _ d h1 in
      let (apart, h3) = check_inv (not names) host_interface_taken _ d h2 in
      let (t, (tq, h4)) = bind_inv (parse_table table_text) _ d h3 in
      let (differ, h5) = check_inv (not (t == c.table)) same_tables _ d h4 in
      let (free, h6) = check_inv (not (is_taken c.table || is_taken t)) table_taken _ d h5 in
      let (m, (mq, h7)) = bind_inv (control_mark_value mark_text) _ d h6 in
      let e = parsed_inj _ d h7 in
      subst
        (λ z.
          GluetunSound z
          × ((z.table ≡ c.table) × ((z.overlay_if ≡ c.overlay_if) × (z.exit_if ≡ c.exit_if))))
        e
        (
          record {
            host_table = parse_table-IsTable table_text t tq;
            tables_apart = false_of (t == c.table) differ;
            tables_free = false_of (is_taken c.table || is_taken t) free;
            host_apart = false_of names apart;
            mark = control_mark_value-IsMark mark_text m mq;
          },
          (refl, (refl, refl)),
        )

  finish-GluetunSound :
      (b : Backend) (c d : Config)
      → c.backend ≡ b
      → finish net getenv b c ≡ parsed d
      → (is_gluetun d ≡ true → GluetunSound d)
        × ((d.table ≡ c.table) × ((d.overlay_if ≡ c.overlay_if) × (d.exit_if ≡ c.exit_if)))
  unfolding finish
  finish-GluetunSound wireguard c d e h =
      let q = parsed_inj c d h in
      subst
        (λ z.
          (is_gluetun z ≡ true → GluetunSound z)
          × ((z.table ≡ c.table) × ((z.overlay_if ≡ c.overlay_if) × (z.exit_if ≡ c.exit_if))))
        q ((λ g. absurd (let k = rw e at g in cc)), (refl, (refl, refl)))
  finish-GluetunSound gluetun c d e h =
      let (s, q) = gluetun_config-GluetunSound c d h in ((λ _. s), q)

  overlay_config-OverlaySound :
      (b : Backend) (d : Config) → overlay_config net getenv b ≡ parsed d → OverlaySound d
  unfolding overlay_config
  overlay_config-OverlaySound b d h =
      let overlay_if = default_of (getenv (bytes "OVERLAY_IF")) (bytes "wt0") in
      let exit_if = default_of (getenv (bytes "EXIT_IF")) (default_exit_if net getenv b) in
      let table_text = default_of (getenv (bytes "EXIT_TABLE")) (bytes "51821") in
      let (_, h1) =
        check_inv (valid_interface_name overlay_if && valid_interface_name exit_if) interface_name _
          d h in
      let (apart, h2) = check_inv (not (is_text overlay_if exit_if)) same_interfaces _ d h1 in
      let (t, (tq, h3)) = bind_inv (parse_table table_text) _ d h2 in
      let (r, (_, h4)) = bind_inv (parse_overlay4 (getenv (bytes "OVERLAY_CIDR"))) _ d h3 in
      let (r6, (_, h5)) =
        bind_inv (optional_prefix (getenv (bytes "OVERLAY6_CIDR")) (parse_overlay6 net)) _ d h4 in
      let (s, (te, (oe, ee))) = finish-GluetunSound b _ d refl h5 in
      record {
        table = rw te (parse_table-IsTable table_text t tq);
        interfaces_apart = rw (oe, ee) (false_of (is_text overlay_if exit_if) apart);
        gluetun_sound = s;
      }

  native_sidecar_config-SidecarSound :
      (d : Config) → native_sidecar_config net getenv ≡ parsed d → SidecarSound d
  unfolding native_sidecar_config
  native_sidecar_config-SidecarSound d h =
      let exit_if = default_of (getenv (bytes "EXIT_IF")) (bytes "mullvad") in
      let host_if = default_of (getenv (bytes "HOST_IF")) (bytes "eth0") in
      let table_text = default_of (getenv (bytes "EXIT_TABLE")) (bytes "51821") in
      let mark_text = default_of (getenv (bytes "CONTROL_MARK")) (bytes "0x1bd00") in
      let names = is_text host_if (bytes "lo") || is_text host_if exit_if in
      let (_, h1) =
        check_inv
          (is_empty (getenv (bytes "OVERLAY_CIDR"))
            && (is_empty (getenv (bytes "OVERLAY6_CIDR"))
                && is_empty (getenv (bytes "OVERLAY_IF"))))
          for_overlay_kind _ d h in
      let (_, h2) = check_inv (valid_interface_name exit_if) interface_name _ d h1 in
      let (_, h3) = check_inv (valid_interface_name host_if) host_interface _ d h2 in
      let (apart, h4) = check_inv (not names) host_interface_taken _ d h3 in
      let (t, (tq, h5)) = bind_inv (parse_table table_text) _ d h4 in
      let (m, (mq, h6)) = bind_inv (control_mark_value mark_text) _ d h5 in
      let (differ, h7) = check_inv (not (m == t)) mark_is_table _ d h6 in
      let (ls, (_, h8)) =
        bind_inv (parse_sidecar_lan net (getenv (bytes "SIDECAR_LAN_CIDRS"))) _ d h7 in
      let (rs, (_, h9)) =
        bind_inv (parse_host_resolvers net (getenv (bytes "SIDECAR_HOST_RESOLVERS"))) _ d h8 in
      subst SidecarSound (parsed_inj _ d h9) (record {
        table = parse_table-IsTable table_text t tq;
        mark = control_mark_value-IsMark mark_text m mq;
        mark_apart = false_of (m == t) differ;
        host_apart = false_of names apart;
      })

  -- The kind and backend that the settings name, and what holds of them.
  abbrev pub Sound : Kind → Backend → Config → Type 0
  Sound sidecar gluetun c = is_gluetun_sidecar c ≡ true
  Sound sidecar wireguard c = SidecarSound c
  Sound overlay b c = OverlaySound c

  config_of-Sound :
      (k : Kind) (b : Backend) (d : Config) → config_of net getenv k b ≡ parsed d → Sound k b d
  unfolding config_of gluetun_sidecar_config
  config_of-Sound sidecar gluetun d h =
      let exit_if = default_of (getenv (bytes "EXIT_IF")) (bytes "wg0") in
      let (_, h1) = check_inv (valid_gluetun_interface exit_if) gluetun_interface _ d h in
      subst (λ z. is_gluetun_sidecar z ≡ true) (parsed_inj _ d h1) refl
  config_of-Sound sidecar wireguard d h = native_sidecar_config-SidecarSound d h
  config_of-Sound overlay b d h = overlay_config-OverlaySound b d h

  -- Accepted settings name a kind and a backend, and give for an overlay exit an exit table from
  -- 256 to 2147483647 and two different interfaces, with the gluetun backend also a host table of
  -- that range, tables that are different and is_taken by neither gluetun nor NetBird, a host
  -- interface that is none of the others, and a control mark with a zero low byte; for a native
  -- sidecar an exit table of that range, such a control mark that is not the table, and a host
  -- interface that is neither loopback nor the exit's.
  pub config_from_env-Sound :
      (d : Config)
      → config_from_env net getenv ≡ parsed d
      → (k : Kind) × ((b : Backend) × ((kind_of
                (default_of (getenv (bytes "EXIT_KIND")) (bytes "overlay"))
              ≡ parsed k)
            × ((backend_of (default_of (getenv (bytes "TUNNEL_BACKEND")) (bytes "wireguard"))
                  ≡ parsed b)
                × Sound k b d)))
  unfolding config_from_env
  config_from_env-Sound d h =
      let kind_text = default_of (getenv (bytes "EXIT_KIND")) (bytes "overlay") in
      let backend_text = default_of (getenv (bytes "TUNNEL_BACKEND")) (bytes "wireguard") in
      let (k, (kq, h1)) = bind_inv (kind_of kind_text) _ d h in
      let (b, (bq, h2)) = bind_inv (backend_of backend_text) _ d h1 in
      (k, (b, (kq, (bq, config_of-Sound k b d h2))))
