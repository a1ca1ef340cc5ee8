-- ===== src/Mutator/Kernel.antt =====
-- internal/mutator/mutator.go: what the owner needs of the kernel, and its options.
--
-- A kernel is a type `K` of states with one function for each request, which answers and gives the
-- next state. The context of an operation is part of that state: `expired` says that it is over.
-- `ruleReader` and `foreignDetector` are interfaces that a kernel may have, hence options.
use molebridge.Base.{ℕ, Bool, Option, List, Text}
use molebridge.Rtnl.Addr.{Family, Prefix}
use molebridge.Rtnl.Rule.{Rule}
use molebridge.Rtnl.Route.{Route, Snapshot}
use molebridge.Policy.Lookup.{State}

-- No error; the error that the request was not needed (EEXIST of an add, ENOENT or ESRCH of a
-- delete); any other error.
pub data Reply : Type 0 where
  done known failed : Reply

pub record Kernel (K : Type 0) : Type 0 where
  pub take : List ℕ → K → Option Snapshot × K
  pub add_rule : Rule → K → Reply × K
  pub del_rule : Rule → K → Reply × K
  pub del_rule_priority : Family → ℕ → K → Reply × K
  pub replace_route : Route → K → Reply × K
  pub del_route : Route → K → Reply × K
  pub rules_stable : Option (Family → K → Option (List Rule × Bool) × K)
  pub foreign_change : Option (List ℕ → K → Option Bool × K)
  pub expired : K → Bool
  pub now : K → ℕ

-- `Options`. `leave_return_path` is that of the initial Spec; `worsens` says whether
-- policy.Worsens finds anything, and `text` prints a prefix.
pub record Options (K : Type 0) : Type 0 where
  pub kernel : Kernel K
  pub guard_repairs : Bool
  pub leave_return_path : Family → Bool
  pub worsens : State → State → Bool
  pub text : Option Prefix → Text
