-- ===== src/Examples/Passes.antt =====
-- internal/mutator: rebuilds, passes and retirements over the kernel of tables.
use mathlib.Core.List.{Memᴰ}
use molebridge.Base.{
  ℕ, suc, true, false, not, ◌≡◌, refl, inl, none, some, List, [], ◌∷◌, is_some, All,
}
use molebridge.Rtnl.Addr.{v4, ip4, Addr, Family-discrete}
use molebridge.Rtnl.Rule.{Rule}
use molebridge.Rtnl.Route.{Snapshot, IfAddr, Link}
use molebridge.Contract.Spec.{Spec, rules, reject, lookup}
use molebridge.Rtnl.Items.{Items-discrete, items}
use molebridge.Contract.Diff.{diff}
use molebridge.Contract.Routes.{exit_table_actions, sift, fallback_route, is_fallback}
use molebridge.Mutator.Owner.{Owner}
use molebridge.Mutator.Pass.{max_rounds, start_result}
use molebridge.Mutator.Rebuild.{rebuild}
use molebridge.Mutator.Rounds.{rounds, reconcile}
use molebridge.Mutator.Settle.{retire_return_path, settle}
use molebridge.Mutator.Shown.{HasAll}
use molebridge.Mutator.Gapless.{Covered, rebuild-Covered}
use molebridge.Mutator.Recorded.{recorded_options, logged}
use molebridge.Mutator.Restored.{rebuild-HasAll}
use molebridge.Mutator.Rounded.{rounds_enough}
use molebridge.Rtnl.Addr.{Family}
use molebridge.Contract.Plan.InPlace.{InPlace}
use molebridge.Mutator.Pass.{no_input}
use molebridge.Mutator.Verified.{HoldsOn}
use molebridge.Mutator.Passes.{Fresh, reconcile-fault, reconcile-HoldsOn}
use molebridge.Mutator.Install.{install}
use molebridge.Mutator.Installed.{install-HoldsOn}
use molebridge.Mutator.Unstable.{reconcile-phantom}
use molebridge.Mutator.Live.{Refused, retire_return_path-Refused, settle-unsure}
use molebridge.Examples.Rules.{node, node_spec}
use molebridge.Examples.Kernels.{Tables, options, shown, holds, tables-Lawful, shown-All}

-- A node without a tunnel address, and with no temporary guard.
abbrev quiet_spec : Spec
quiet_spec = record node_spec { return_path = λ f. []; temp_guard = λ f. false }

abbrev owner_of : Spec → Tables → Owner Tables
owner_of s k = record {
  kernel = k;
  spec = s;
  model = none;
  retiring = [];
  ready = false;
  stats = record { repairs = 0; last_repair = 0; has_last = false };
  last_pass = start_result;
}

abbrev settled : Tables
settled f = rules quiet_spec f

-- A rule at priority 97 that is not the expected one, and one elsewhere.
abbrev wrong : Rule
wrong = lookup 97 v4 254

abbrev other : Rule
other = reject 50 v4

abbrev drifted : Tables
drifted f = other ∷ wrong ∷ []

abbrev wanted : List Rule
wanted = record (reject 97 v4) { iif_name = node.overlay_if } ∷ []

rebuild-Covered_example :
    All
      (λ k. Covered 97 wanted (holds drifted v4) (holds k v4))
      (rebuild
        (recorded_options (options false))
        v4
        97
        wanted
        (logged (owner_of quiet_spec drifted))).1.kernel.1
rebuild-Covered_example =
    rebuild-Covered (options false) holds (tables-Lawful false) v4 97 wanted
      (owner_of quiet_spec drifted) (refl, tt)

rebuild-HasAll_example :
    HasAll
      (holds (rebuild (options false) v4 97 wanted (owner_of quiet_spec drifted)).1.kernel v4)
      wanted
unfolding rebuild Family-discrete Items-discrete items
rebuild-HasAll_example =
    rebuild-HasAll (options false) holds (tables-Lawful false) v4 97 wanted
      (owner_of quiet_spec drifted) (refl, tt) refl

rounds_enough_example :
    is_some (
      rounds
        (options true)
        (suc max_rounds)
        0
        (shown true drifted)
        start_result
        (owner_of quiet_spec drifted))
    ≡ true
rounds_enough_example =
    rounds_enough (options true) (shown true drifted) start_result (owner_of quiet_spec drifted)

reconcile-fault_example :
    is_some (reconcile (options true) (owner_of quiet_spec drifted)).0.err
    ≡ not (reconcile (options true) (owner_of quiet_spec drifted)).0.contract_holds
reconcile-fault_example = reconcile-fault (options true) (owner_of quiet_spec drifted)

reconcile-HoldsOn_example :
    let r = reconcile (options false) (owner_of quiet_spec settled) in
    (snap : Snapshot) × HoldsOn (options false) (Fresh (options false) holds) r.1.ready r.1 snap
unfolding reconcile diff Family-discrete Items-discrete items exit_table_actions sift fallback_route
    is_fallback
reconcile-HoldsOn_example =
    reconcile-HoldsOn (options false) holds (tables-Lawful false) (owner_of quiet_spec settled) refl
      refl

install-HoldsOn_example :
    let t = (install (options false) (owner_of quiet_spec settled)).1 in
    (snap : Snapshot) × HoldsOn (options false) (Fresh (options false) holds) t.ready t snap
    × ((f : Family) → InPlace (options false).text t.spec snap f no_input)
unfolding install reconcile diff Family-discrete Items-discrete items exit_table_actions sift
    fallback_route is_fallback
install-HoldsOn_example =
    install-HoldsOn (options false) holds (tables-Lawful false) (owner_of quiet_spec settled) refl
      refl refl

reconcile-phantom_example :
    Memᴰ wrong (holds (reconcile (options true) (owner_of quiet_spec drifted)).1.kernel v4)
reconcile-phantom_example =
    reconcile-phantom (options true) holds (tables-Lawful true)
      (shown-All true (λ s. s.unstable ≡ true) (λ k. refl)) (owner_of quiet_spec drifted) v4 wrong
      (Memᴰ.tail (Memᴰ.head refl))

-- The spec of a node whose tunnel address is protected, and that address.
abbrev tunnel_ip : Addr
tunnel_ip = ip4 171902209

retire_return_path-Refused_example :
    Refused
      (options true)
      holds
      (tables-Lawful true)
      v4
      wrong
      (owner_of node_spec drifted)
      (retire_return_path (options true) v4 (some tunnel_ip) (owner_of node_spec drifted))
retire_return_path-Refused_example =
    retire_return_path-Refused (options true) holds (tables-Lawful true) v4 tunnel_ip
      (owner_of node_spec drifted) v4 wrong refl (shown-All true _ (λ k. inl refl))
      (Memᴰ.tail (Memᴰ.head refl))

settle-unsure_example :
    let r =
      settle
        (options true)
        quiet_spec
        node_spec
        v4
        none
        tunnel_ip
        true
        (owner_of node_spec drifted) in
    Refused (options true) holds (tables-Lawful true) v4 wrong (owner_of node_spec drifted) r
    × (r.1.ready ≡ false)
settle-unsure_example =
    settle-unsure (options true) holds (tables-Lawful true) quiet_spec node_spec v4 none tunnel_ip
      true (owner_of node_spec drifted) v4 wrong
      (shown-All true (λ s. s.unstable ≡ true) (λ k. refl)) (Memᴰ.tail (Memᴰ.head refl))

-- The tunnel interface with the protected address twice, and another interface.
abbrev exit_link : Link
exit_link = record { index = 7; name = node.exit_if; flags = 1; mtu = 1420; kind = [] }

abbrev on_link : ℕ → Addr → IfAddr
on_link i a = record {
  family = v4;
  index = i;
  local = record { addr = a; bits = 32 };
  scope = 0;
  flags = 0;
}

abbrev addrs_found : List IfAddr
addrs_found = on_link 7 tunnel_ip ∷ on_link 2 (ip4 1) ∷ on_link 7 tunnel_ip ∷ []
