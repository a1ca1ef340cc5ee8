-- ===== src/Lib.antt =====
-- Verification library of molebridge.
--
-- molebridge keeps a VPN exit closed: traffic of a NetBird overlay may leave only through a tunnel.
-- The routing contract (internal/contract) says which FIB rules and routes the kernel must hold; a
-- worker reads snapshots of the kernel (internal/rtnl), compares them with the contract and repairs
-- what differs; the supervisor lets NetBird run while the worker renews a lease and reports the
-- contract as held (internal/exit); internal/policy is an independent model of the kernel's lookup.
--
-- The files:
--   Base       lists, Boolean tests and bit operations that the other files share.
--   Rtnl       internal/rtnl: addresses and prefixes (Addr), rules (Rule), their canonical items
--              (Items, Rule.Items of rule.go), the kernel's match of a delete (Delete, DeleteMatches),
--              routes, interfaces and snapshots (Route).
--   Contract   internal/contract: the configuration (Config), the parsers of its settings (Settings)
--              and ConfigFromEnv over them (Env), ReconcileInterval (Interval), the expected rules
--              (Spec, Spec.Rules),
--              their comparison with the rules found (Diff), the exit table (Routes,
--              ExitTableActions), the host table (Host, HostRoutes), the status of a family (Status,
--              FamilyStatus and GluetunTransitionStatus) and of the namespace (Routing,
--              RoutingStatus), and the plan of a pass (Plan, PlanFamily).
--   Exit       internal/exit: the progress lease (Lease) and the readiness messages (Readiness).
--   Policy     internal/policy: packets and the match of a rule (Packet), the lookup of a table (Lookup,
--              State.lookup), the walk over the rules (Walk, State.walk), and the state of a snapshot
--              with its single changes (Edits, FromSnapshot, WithRule and the others); the classes
--              of traffic and the loops that judge points by them (Classes), the points (Points and
--              Gather, with State.Violations and Worsens), and the values that ranges tell apart
--              (Ranges).
--   Mutator    internal/mutator: the kernel that it asks, as a record of functions over any type of
--              states (Kernel), the owner's state with its requests, each deletion approved first
--              (Owner, tx.go), the rebuild of a priority (Rebuild) and the plan of a family carried
--              out (Apply) of apply.go, the pass of pass.go (Pass, Rounds), and the changes of the
--              return-path addresses of install.go and retire.go (Settle), and the installation
--              (Install). Lawful states what the
--              proofs use of the kernel: what a request may take out, and that a stable look shows
--              what is there. Recorded is a kernel that writes down each of its states.
--   Attempt    internal/attempt: the record and its typed members (State), Load,
--              JSONObject and the steps of the record (Record).
--   Validate   internal/validate: decoded JSON and its equality (Json), the strict reading of the state
--              files' timestamps (Time) and the lenient one (Lenient).
--   Verdict    internal/verdict and internal/state: the panel's request and the configured server
--              (Request), the checks of a record (Checks), Assess with its rules in order (Assess),
--              and the order of members (Order).
--   PortSync   internal/portsync: one pass of the role (Sync), over any application as a state with a
--              function for each request.
--   Examples   runs at concrete configurations, and each theorem applied at one.
-- The files below these hold proofs, and are named for what they prove.
--
-- How the code corresponds: a struct is a record, a named constant is a constant, an `Opt` or a
-- value with a validity test is an Option, a map by family is a function, a set or another map is a
-- list of entries. A loop is a structural recursion over its list, with the variables that it
-- changes as a record (Scan of Diff, Sift of Routes, Census of Status). The rounds of a pass are on
-- fuel, five for a loop that stops in its fifth round at the latest; the clearing of a priority stops
-- after 32 deletions as in the source.
-- A rule's items are a data type in place of strings; items are compared after the same
-- sort and removal of repetitions. Numbers are natural numbers; `Priority + 1` wraps at 2 ^ 32 as
-- in the source. The clock is the time at which a call is made, and one call under a mutex is one
-- step. `Prefix.String` of Go's net/netip, by which host routes are sorted, is a parameter,
-- and so are the parsers of net/netip, the FNV hash of a rule's text, which tells the outcomes of a
-- walk apart, float64 with its operations, Go's decoder of UTF-8
-- and its table of printed runes, strings.TrimSpace, and the decoder of JSON in PortSync. The answers of the kernel are arbitrary functions of its state. An error is told
-- apart by its cause; the texts that wrap it, and what is logged, are left out.
--
-- Not modelled: netlink sockets and codecs, processes, files, HTTP and the web panel, which are
-- input and output; the supervisor's loop; of the mutator, the
-- queue of operations with its goroutines: an operation here has the owner to itself.
-- The approval of a deletion, which is policy.Worsens, is an option of the owner and may be any test.
-- Loop times of the lease are natural numbers. Vendored code is left out.
pub mod Base
pub mod Validate
pub mod Rtnl
pub mod Contract
pub mod Exit
pub mod Policy
pub mod Mutator
pub mod Attempt
pub mod Verdict
pub mod PortSync
pub mod Examples
