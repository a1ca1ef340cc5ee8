-- ===== src/Examples/Kernels.antt =====
-- internal/mutator: a kernel that keeps its rules in one list for each family, which no one else
-- changes, and passes over it.
use mathlib.Core.List.{Memᴰ}
use molebridge.Base.{
  ℕ, Bool, false, ◌≡◌, refl, inl, inr, Option, none, some, List, [], ◌∷◌, ◌==◌, same, ltb, subst,
  sym, ap, same→eq, Bool-cases, arith,
}
use molebridge.Rtnl.Addr.{Family, Family-discrete}
use molebridge.Rtnl.Rule.{Rule}
use molebridge.Rtnl.Delete.{delete_matches}
use molebridge.Rtnl.Route.{Snapshot}
use molebridge.Contract.Spec.{update}
use molebridge.Contract.Routes.{fallback_route}
use molebridge.Policy.Edits.{with_added, and_before, without_first}
use molebridge.Mutator.Kernel.{Reply, done, known, Kernel, Options}
use molebridge.Mutator.Lawful.{Lawful}

abbrev pub Tables : Type 0
Tables = Family → List Rule

abbrev pub after_take : Tables → Family → Option (List Rule) → Reply × Tables
after_take k f none = (known, k)
after_take k f (some rs) = (done, update k f rs)

abbrev pub shown : Bool → Tables → Snapshot
shown u k = record {
  unstable = u;
  rules = k;
  routes = λ f. fallback_route f 51821 ∷ [];
  links = [];
  addrs = λ f. [];
}

-- Whose looks are unstable if `u` holds.
abbrev pub tables_kernel : Bool → Kernel Tables
tables_kernel u = record {
  take = λ ts k. (some (shown u k), k);
  add_rule = λ r k. (done, update k r.family (with_added r (k r.family)));
  del_rule = λ r k. after_take k r.family (without_first (delete_matches r) (k r.family));
  del_rule_priority = λ f p k. after_take k f (without_first (λ x. x.priority == p) (k f));
  replace_route = λ r k. (done, k);
  del_route = λ r k. (known, k);
  rules_stable = none;
  foreign_change = none;
  expired = λ k. false;
  now = λ k. 0;
}

abbrev pub options : Bool → Options Tables
options u = record {
  kernel = tables_kernel u;
  guard_repairs = false;
  leave_return_path = λ f. false;
  worsens = λ a b. false;
  text = λ p. [];
}

abbrev pub holds : Tables → Family → List Rule
holds k f = k f

with_added-Mem : (r x : Rule) (rs : List Rule) → Memᴰ x rs → Memᴰ x (with_added r rs)
unfolding with_added
with_added-Mem r x [] m = elim m [ ]
with_added-Mem r x (y ∷ ys) (Memᴰ.head q) = elim (Bool-cases (ltb r.priority y.priority)) [
  | inl e ↦ rw e (Memᴰ.tail (Memᴰ.head q))
  | inr e ↦ rw e (Memᴰ.head q)
]
with_added-Mem r x (y ∷ ys) (Memᴰ.tail m) = elim (Bool-cases (ltb r.priority y.priority)) [
  | inl e ↦ rw e (Memᴰ.tail (Memᴰ.tail m))
  | inr e ↦ rw e (Memᴰ.tail (with_added-Mem r x ys m))
]

update-Mem :
    (k : Tables) (g f : Family) (v : List Rule) (x : Rule)
    → (Memᴰ x (k g) → Memᴰ x v)
    → Memᴰ x (k f)
    → Memᴰ x (update k g v f)
update-Mem k g f v x sub m = elim (Bool-cases (same Family-discrete f g)) [
  | inl e ↦ rw e (sub (subst (λ z. Memᴰ x (k z)) (same→eq Family-discrete f g e) m))
  | inr e ↦ rw e m
]

-- What is left when an element that passes the test is after_take out.
abbrev left_or : List Rule → Option (List Rule) → List Rule
left_or rs none = rs
left_or rs (some ys) = ys

left_before :
    (y : Rule) (ys : List Rule) (q : Option (List Rule))
    → left_or (y ∷ ys) (and_before y q) ≡ y ∷ left_or ys q
left_before y ys none = refl
left_before y ys (some zs) = refl

abbrev look_or : Snapshot → Option Snapshot → Snapshot
look_or d none = d
look_or d (some s) = s

without_first-Mem :
    (p : Rule → Bool) (x : Rule) (rs : List Rule)
    → p x ≡ false
    → Memᴰ x rs
    → Memᴰ x (left_or rs (without_first p rs))
unfolding without_first
without_first-Mem p x [] h m = elim m [ ]
without_first-Mem p x (y ∷ ys) h (Memᴰ.head q) = elim (Bool-cases (p y)) [
  | inl e ↦ absurd (let k : p x ≡ p y = ap p q in ground (arith, k, h, e))
  | inr e ↦ rw (e, left_before) (Memᴰ.head q)
]
without_first-Mem p x (y ∷ ys) h (Memᴰ.tail m) = elim (Bool-cases (p y)) [
  | inl e ↦ rw e m
  | inr e ↦ rw (e, left_before) (Memᴰ.tail (without_first-Mem p x ys h m))
]

after_take-Mem :
    (k : Tables) (g f : Family) (q : Option (List Rule)) (x : Rule)
    → (Memᴰ x (k g) → Memᴰ x (left_or (k g) q))
    → Memᴰ x (k f)
    → Memᴰ x ((after_take k g q).1 f)
after_take-Mem k g f none x sub m = m
after_take-Mem k g f (some rs) x sub m = update-Mem k g f rs x sub m

pub tables-Lawful : (u : Bool) → Lawful (tables_kernel u) holds
tables-Lawful u = record {
  add-Held = λ r k f x. update-Mem k r.family f _ x (with_added-Mem r x (k r.family));
  del-Held = λ r k f x e.
      after_take-Mem k r.family f _ x (without_first-Mem (delete_matches r) x (k r.family) e);
  del_priority-Held =
      λ g p k f x e. after_take-Mem k g f _ x (without_first-Mem (λ y. y.priority == p) x (k g) e);
  replace_route-Held = λ r k f x m. m;
  del_route-Held = λ r k f x m. m;
  take-Held = λ ts k f x m. m;
  take-Shown = λ ts k f snap e s x m. subst (λ z. Memᴰ x (z.rules f)) (sym (ap (look_or snap) e)) m;
  stable-Held = λ read e. cc;
  stable-Shown = λ read e. cc;
  foreign-Held = λ ask e. cc;
}

pub shown-All {κ} :
    (u : Bool) (P : Snapshot → Type κ)
    → ((k : Tables) → P (shown u k))
    → (ts : List ℕ) (k : Tables) (snap : Snapshot) → ((tables_kernel u).take ts k).0 ≡ some snap
    → P snap
shown-All u P h ts k snap e = subst P (ap (look_or snap) e) (h k)
