-- ===== src/Examples/Rules.antt =====
-- internal/contract: an overlay node with a return path and a temporary guard.
use mathlib.Core.List.{Memᴰ}
use molebridge.Base.{true, false, ◌≡◌, refl, none, some, List, [], ◌∷◌, ◌++◌, bytes}
use molebridge.Rtnl.Addr.{v4, ip4}
use molebridge.Rtnl.Rule.{Rule}
use molebridge.Rtnl.Items.{Items-discrete, items}
use molebridge.Contract.Config.{wireguard, overlay, Config}
use molebridge.Contract.Spec.{Spec, rules, reject, lookup}
use molebridge.Contract.Diff.{Action, del, DiffOptions, diff, left_return_path}
use molebridge.Contract.Diff.Settled.{diff_nil-tally, tally, judged}
use molebridge.Contract.Diff.Exact.{diff-rules}
use molebridge.Contract.Diff.Spares.{Spares}
use molebridge.Contract.Diff.Safe.{diff-Spares}

abbrev pub node : Config
node = record {
  kind = overlay;
  backend = wireguard;
  overlay4 = some (record { addr = ip4 1681915904; bits = 16 });
  overlay6 = none;
  overlay_if = bytes "wt0";
  exit_if = bytes "mullvad";
  table = 51821;
  host_if = bytes "eth0";
  host_table = 51822;
  control_mark = 117;
  lan = [];
  lan6 = [];
  host_resolvers = [];
}

abbrev pub node_spec : Spec
node_spec = record {
  config = node;
  return_path = λ f. ip4 171902209 ∷ [];
  leave_return_path = λ f. false;
  temp_guard = λ f. true;
}

abbrev pub no_hold : DiffOptions
no_hold = record { hold_kill_switch = false }

diff-rules_example : diff node_spec v4 (rules node_spec v4) no_hold ≡ []
diff-rules_example = diff-rules node_spec v4 no_hold

diff_nil-tally_example :
    tally 95 (items (lookup 95 v4 51821)) (judged node_spec v4 (rules node_spec v4))
    ≡ tally 95 (items (lookup 95 v4 51821)) (rules node_spec v4)
diff_nil-tally_example =
    diff_nil-tally node_spec v4 (rules node_spec v4) no_hold refl (diff-rules node_spec v4 no_hold)
      95 (items (lookup 95 v4 51821))

-- A stray unreachable rule at priority 50: the repair removes it with a plain delete.
abbrev stray : Rule
stray = reject 50 v4

abbrev removal : Action
removal = record { kind = del; priority = 50; rule = stray }

abbrev found : List Rule
found = stray ∷ rules node_spec v4

diff-Spares_example : Spares stray (rules node_spec v4 ++ left_return_path node_spec v4 found)
unfolding diff rules Items-discrete items
diff-Spares_example = diff-Spares node_spec v4 found no_hold removal (Memᴰ.head refl) refl
