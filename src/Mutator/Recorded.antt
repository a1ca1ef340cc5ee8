-- ===== src/Mutator/Recorded.antt =====
-- A kernel that writes down each state that a request leaves, for statements about every moment.
use mathlib.Core.List.{Memᴰ}
use molebridge.Base.{ℕ, Bool, true, ◌≡◌, refl, ap, subst, Option, none, some, List, [], ◌∷◌, All}
use molebridge.Rtnl.Addr.{Family}
use molebridge.Rtnl.Rule.{Rule}
use molebridge.Mutator.Kernel.{Kernel, Options}
use molebridge.Mutator.Owner.{Owner}
use molebridge.Mutator.Lawful.{Lawful}
use molebridge.Mutator.Kept.{Looks}

-- A state and those before it, the latest first.
abbrev pub Log : Type 0 → Type 0
Log K = K × List K

abbrev pub written {ℓ} : {K : Type 0} {R : Type ℓ} → R × K → List K → R × Log K
written (r, k) ks = (r, (k, k ∷ ks))

abbrev pub read_log :
    {K : Type 0}
    → (Family → K → Option (List Rule × Bool) × K)
    → Family
    → Log K
    → Option (List Rule × Bool) × Log K
read_log read f s = written (read f s.0) s.1

abbrev pub ask_log :
    {K : Type 0} → (List ℕ → K → Option Bool × K) → List ℕ → Log K → Option Bool × Log K
ask_log ask ts s = written (ask ts s.0) s.1

abbrev pub if_given {ℓ κ} : {A : Type ℓ} {B : Type κ} → (A → B) → Option A → Option B
if_given g none = none
if_given g (some a) = some (g a)

abbrev pub recorded : {K : Type 0} → Kernel K → Kernel (Log K)
recorded kernel = record {
  take = λ ts s. written (kernel.take ts s.0) s.1;
  add_rule = λ r s. written (kernel.add_rule r s.0) s.1;
  del_rule = λ r s. written (kernel.del_rule r s.0) s.1;
  del_rule_priority = λ f p s. written (kernel.del_rule_priority f p s.0) s.1;
  replace_route = λ r s. written (kernel.replace_route r s.0) s.1;
  del_route = λ r s. written (kernel.del_route r s.0) s.1;
  rules_stable = if_given read_log kernel.rules_stable;
  foreign_change = if_given ask_log kernel.foreign_change;
  expired = λ s. kernel.expired s.0;
  now = λ s. kernel.now s.0;
}

abbrev pub recorded_options : {K : Type 0} → Options K → Options (Log K)
recorded_options o = record {
  kernel = recorded o.kernel;
  guard_repairs = o.guard_repairs;
  leave_return_path = o.leave_return_path;
  worsens = o.worsens;
  text = o.text;
}

-- The owner with a log that has the present state only.
abbrev pub logged : {K : Type 0} → Owner K → Owner (Log K)
logged t = record {
  kernel = (t.kernel, t.kernel ∷ []);
  spec = t.spec;
  model = t.model;
  retiring = t.retiring;
  ready = t.ready;
  stats = t.stats;
  last_pass = t.last_pass;
}

abbrev pub Traced : {K : Type 0} → (K → Type 0) → (K → Type 0) → Log K → Type 0
Traced D X s = X s.0 × All D s.1

abbrev or_else {ℓ} : {A : Type ℓ} → A → Option A → A
or_else d none = d
or_else d (some a) = a

-- An interface that the recording kernel has is one of the kernel.
pub given_back {ℓ κ μ} :
    {A : Type ℓ} {B : Type κ} (P : B → Type μ) (g : A → B) (q : Option A) (b : B)
    → if_given g q ≡ some b
    → ((a : A) → q ≡ some a → P (g a))
    → P b
given_back P g none b h k = cc
given_back P g (some a) b h k = subst P (ap (or_else (g a)) h) (k a refl)

pub recorded-Looks :
    {K : Type 0} (kernel : Kernel K) (D X : K → Type 0)
    → ((k : K) → X k → D k)
    → Looks kernel X
    → Looks (recorded kernel) (Traced D X)
recorded-Looks kernel D X to l = record {
  by_take = λ ts s h. let x = l.by_take ts s.0 h.0 in (x, (to _ x, h.1));
  by_read = λ read e f s h.
      given_back (λ b. Traced D X (b f s).1) read_log kernel.rules_stable read e
        (λ a q. let x = l.by_read a q f s.0 h.0 in (x, (to _ x, h.1)));
  by_ask = λ ask e ts s h.
      given_back (λ b. Traced D X (b ts s).1) ask_log kernel.foreign_change ask e
        (λ a q. let x = l.by_ask a q ts s.0 h.0 in (x, (to _ x, h.1)));
}

pub recorded-Lawful :
    {K : Type 0} (kernel : Kernel K) (holds : K → Family → List Rule)
    → Lawful kernel holds
    → Lawful (recorded kernel) (λ s. holds s.0)
recorded-Lawful kernel holds l = record {
  add-Held = λ r s. l.add-Held r s.0;
  del-Held = λ r s. l.del-Held r s.0;
  del_priority-Held = λ g p s. l.del_priority-Held g p s.0;
  replace_route-Held = λ r s. l.replace_route-Held r s.0;
  del_route-Held = λ r s. l.del_route-Held r s.0;
  take-Held = λ ts s. l.take-Held ts s.0;
  take-Shown = λ ts s. l.take-Shown ts s.0;
  stable-Held = λ read e g s f x m.
      given_back (λ b. Memᴰ x (holds (b g s).1.0 f)) read_log kernel.rules_stable read e
        (λ a q. l.stable-Held a q g s.0 f x m);
  stable-Shown = λ read e g s.
      given_back
        (λ b.
          (rs : List Rule)
          → (b g s).0 ≡ some (rs, true)
          → (x : Rule) → Memᴰ x rs
          → Memᴰ x (holds (b g s).1.0 g))
        read_log kernel.rules_stable read e (λ a q. l.stable-Shown a q g s.0);
  foreign-Held = λ ask e ts s f x m.
      given_back (λ b. Memᴰ x (holds (b ts s).1.0 f)) ask_log kernel.foreign_change ask e
        (λ a q. l.foreign-Held a q ts s.0 f x m);
}
