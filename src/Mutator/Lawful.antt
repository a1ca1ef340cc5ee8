-- ===== src/Mutator/Lawful.antt =====
-- internal/rtnl: what the proofs about the owner rely on of the kernel, and how the owner's looks
-- and requests act on the rules.
use mathlib.Core.List.{Memᴰ}
use molebridge.Base.{ℕ, Bool, true, false, ◌≡◌, Option, some, List, ◌==◌}
use molebridge.Rtnl.Addr.{Family}
use molebridge.Rtnl.Rule.{Rule}
use molebridge.Rtnl.Delete.{delete_matches}
use molebridge.Rtnl.Route.{Route, Snapshot}
use molebridge.Mutator.Kernel.{Kernel}

-- The documented behaviour of the kernel's rules while no one else takes rules out: `holds` are the
-- rules that a state has. An add takes no rule out, a delete takes none that the request does not
-- match, a look takes none, and a look that is stable shows nothing that is not there.
pub record Lawful {K : Type 0} (kernel : Kernel K) (holds : K → Family → List Rule) : Type 0 where
  pub add-Held :
      (r : Rule) (k : K) (f : Family) (x : Rule)
      → Memᴰ x (holds k f)
      → Memᴰ x (holds (kernel.add_rule r k).1 f)
  pub del-Held :
      (r : Rule) (k : K) (f : Family) (x : Rule)
      → delete_matches r x ≡ false
      → Memᴰ x (holds k f)
      → Memᴰ x (holds (kernel.del_rule r k).1 f)
  pub del_priority-Held :
      (g : Family) (p : ℕ) (k : K) (f : Family) (x : Rule)
      → (x.priority == p) ≡ false
      → Memᴰ x (holds k f)
      → Memᴰ x (holds (kernel.del_rule_priority g p k).1 f)
  pub replace_route-Held :
      (r : Route) (k : K) (f : Family) (x : Rule)
      → Memᴰ x (holds k f)
      → Memᴰ x (holds (kernel.replace_route r k).1 f)
  pub del_route-Held :
      (r : Route) (k : K) (f : Family) (x : Rule)
      → Memᴰ x (holds k f)
      → Memᴰ x (holds (kernel.del_route r k).1 f)
  pub take-Held :
      (ts : List ℕ) (k : K) (f : Family) (x : Rule)
      → Memᴰ x (holds k f)
      → Memᴰ x (holds (kernel.take ts k).1 f)
  pub take-Shown :
      (ts : List ℕ) (k : K) (f : Family) (snap : Snapshot)
      → (kernel.take ts k).0 ≡ some snap
      → snap.unstable ≡ false
      → (x : Rule) → Memᴰ x (snap.rules f)
      → Memᴰ x (holds (kernel.take ts k).1 f)
  pub stable-Held :
      (read : Family → K → Option (List Rule × Bool) × K)
      → kernel.rules_stable ≡ some read
      → (g : Family) (k : K) (f : Family) (x : Rule) → Memᴰ x (holds k f)
      → Memᴰ x (holds (read g k).1 f)
  pub stable-Shown :
      (read : Family → K → Option (List Rule × Bool) × K)
      → kernel.rules_stable ≡ some read
      → (g : Family) (k : K) (rs : List Rule) → (read g k).0 ≡ some (rs, true)
      → (x : Rule) → Memᴰ x rs
      → Memᴰ x (holds (read g k).1 g)
  pub foreign-Held :
      (ask : List ℕ → K → Option Bool × K)
      → kernel.foreign_change ≡ some ask
      → (ts : List ℕ) (k : K) (f : Family) (x : Rule) → Memᴰ x (holds k f)
      → Memᴰ x (holds (ask ts k).1 f)
