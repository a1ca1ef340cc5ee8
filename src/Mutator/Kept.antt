-- ===== src/Mutator/Kept.antt =====
-- internal/mutator/tx.go: a predicate of the kernel's state through the owner's looks and requests.
use molebridge.Base.{
  ℕ, Bool, true, false, ◌≡◌, refl, sym, inl, inr, Option, none, some, List, Bool-cases,
}
use molebridge.Rtnl.Addr.{Family}
use molebridge.Rtnl.Rule.{Rule}
use molebridge.Rtnl.Route.{Route, Snapshot}
use molebridge.Contract.Config.{is_gluetun_sidecar}
use molebridge.Contract.Spec.{Spec}
use molebridge.Contract.Plan.{interest}
use molebridge.Policy.Lookup.{State}
use molebridge.Mutator.Kernel.{Reply, done, known, failed, Kernel, Options}
use molebridge.Mutator.Owner.{
  Answer, err, got, Owner, looked, snapshot, fresh_model, foreign_model, known_model, model_or_look,
  current_model, approve, request_deletion, read_back, after_delete, after_add, after_route,
  deleted, add_rule, replace_route, confirmed, judged_spec,
}

pub record Looks {K : Type 0} (kernel : Kernel K) (P : K → Type 0) : Type 0 where
  pub by_take : (ts : List ℕ) (k : K) → P k → P (kernel.take ts k).1
  pub by_read :
      (read : Family → K → Option (List Rule × Bool) × K)
      → kernel.rules_stable ≡ some read
      → (f : Family) (k : K) → P k
      → P (read f k).1
  pub by_ask :
      (ask : List ℕ → K → Option Bool × K)
      → kernel.foreign_change ≡ some ask
      → (ts : List ℕ) (k : K) → P k
      → P (ask ts k).1

module _ {K : Type 0} (o : Options K) where
  pub looked_kernel : (a : Option Snapshot) (t : Owner K) → (looked o a t).1.kernel ≡ t.kernel
  unfolding looked
  looked_kernel none t = refl
  looked_kernel (some snap) t = refl

  after_delete_kernel :
      (a : Option State) (r : Reply) (t : Owner K) → (after_delete o a r t).kernel ≡ t.kernel
  unfolding after_delete
  after_delete_kernel a done t = refl
  after_delete_kernel a known t = refl
  after_delete_kernel a failed t = refl

  after_add_kernel : (r : Rule) (a : Reply) (t : Owner K) → (after_add o r a t).kernel ≡ t.kernel
  unfolding after_add
  after_add_kernel r done t = refl
  after_add_kernel r known t = refl
  after_add_kernel r failed t = refl

  after_route_kernel :
      (r : Route) (a : Reply) (t : Owner K) → (after_route o r a t).kernel ≡ t.kernel
  unfolding after_route
  after_route_kernel r done t = refl
  after_route_kernel r known t = refl
  after_route_kernel r failed t = refl

module _ {K : Type 0} (o : Options K) (P : K → Type 0) (looks : Looks o.kernel P) where
  pub snapshot-keeps : (t : Owner K) → P t.kernel → P (snapshot o t).1.kernel
  unfolding snapshot
  snapshot-keeps t h = elim (Bool-cases (o.kernel.expired t.kernel)) [
    | inl e ↦ rw e h
    | inr e ↦ rw (e, looked_kernel o) (looks.by_take (interest t.spec) t.kernel h)
  ]

  fresh_model-keeps : (t : Owner K) → P t.kernel → P (fresh_model o t).1.kernel
  unfolding fresh_model
  fresh_model-keeps t h =
      let k = snapshot-keeps t h in
      elim (snapshot o t).0
        as (λ a.
          P
            (elim a as (λ _. Answer (Option State) × Owner K) [
              | err e ↦ (err e, (snapshot o t).1)
              | got snap ↦ (got (snapshot o t).1.model, (snapshot o t).1)
            ]).1.kernel) [ err e ↦ k | got snap ↦ k ]

  foreign_model-keeps :
      (m : State) (a : Option Bool) (t : Owner K) → P t.kernel → P (foreign_model o m a t).1.kernel
  unfolding foreign_model
  foreign_model-keeps m none t h = h
  foreign_model-keeps m (some true) t h = fresh_model-keeps (record t { model = none }) h
  foreign_model-keeps m (some false) t h = h

  known_model-keeps :
      (s : Spec) (m : State) (q : Option (List ℕ → K → Option Bool × K))
      → q ≡ o.kernel.foreign_change
      → (t : Owner K) → P t.kernel
      → P (known_model o s m q t).1.kernel
  unfolding known_model
  known_model-keeps s m none e t h = fresh_model-keeps (record t { model = none }) h
  known_model-keeps s m (some ask) e t h =
      foreign_model-keeps m _ _ (looks.by_ask ask (sym e) (interest s) t.kernel h)

  model_or_look-keeps :
      (s : Spec) (m : Option State) (t : Owner K) → P t.kernel → P (model_or_look o s m t).1.kernel
  unfolding model_or_look
  model_or_look-keeps s none t h = fresh_model-keeps t h
  model_or_look-keeps s (some m) t h = known_model-keeps s m o.kernel.foreign_change refl t h

  current_model-keeps : (s : Spec) (t : Owner K) → P t.kernel → P (current_model o s t).1.kernel
  unfolding current_model
  current_model-keeps s t h = model_or_look-keeps s t.model t h

  pub approve-keeps :
      (remove : State → State × Bool) (t : Owner K) → P t.kernel → P (approve o remove t).1.kernel
  unfolding approve
  approve-keeps remove t h = elim (Bool-cases (is_gluetun_sidecar t.spec.config)) [
    | inl e ↦ rw e h
    | inr e ↦ rw e (current_model-keeps (judged_spec t.retiring t.spec) t h)
  ]

  request_deletion-keeps :
      (request : K → Reply × K)
      → ((k : K) → P k → P (request k).1)
      → (a : Answer (Option State)) (t : Owner K) → P t.kernel
      → P (request_deletion o request a t).1.kernel
  unfolding request_deletion
  request_deletion-keeps request kept (err e) t h = h
  request_deletion-keeps request kept (got after) t h = rw (after_delete_kernel o) (kept t.kernel h)

  pub deleted-keeps :
      (remove : State → State × Bool) (request : K → Reply × K)
      → ((k : K) → P k → P (request k).1)
      → (t : Owner K) → P t.kernel
      → P (deleted o remove request t).1.kernel
  unfolding deleted
  deleted-keeps remove request kept t h = elim (Bool-cases (o.kernel.expired t.kernel)) [
    | inl e ↦ rw e h
    | inr e ↦
        rw e
          (request_deletion-keeps request kept (approve o remove t).0 _ (approve-keeps remove t h))
  ]

  pub add_rule-keeps :
      (r : Rule)
      → ((k : K) → P k → P (o.kernel.add_rule r k).1)
      → (t : Owner K) → P t.kernel
      → P (add_rule o r t).1.kernel
  unfolding add_rule
  add_rule-keeps r kept t h = elim (Bool-cases (o.kernel.expired t.kernel)) [
    | inl e ↦ rw e h
    | inr e ↦ rw (e, after_add_kernel o) (kept t.kernel h)
  ]

  pub replace_route-keeps :
      (r : Route)
      → ((k : K) → P k → P (o.kernel.replace_route r k).1)
      → (t : Owner K) → P t.kernel
      → P (replace_route o r t).1.kernel
  unfolding replace_route
  replace_route-keeps r kept t h = elim (Bool-cases (o.kernel.expired t.kernel)) [
    | inl e ↦ rw e h
    | inr e ↦ rw (e, after_route_kernel o) (kept t.kernel h)
  ]

  read_back-keeps :
      (q : Option (Family → K → Option (List Rule × Bool) × K))
      → q ≡ o.kernel.rules_stable
      → (f : Family) (want : List Rule) (t : Owner K) → P t.kernel
      → P (read_back o q f want t).1.kernel
  unfolding read_back
  read_back-keeps none e f want t h = snapshot-keeps t h
  read_back-keeps (some read) e f want t h = elim (Bool-cases (o.kernel.expired t.kernel)) [
    | inl b ↦ rw b h
    | inr b ↦ rw b (looks.by_read read (sym e) f t.kernel h)
  ]

  pub confirmed-keeps :
      (f : Family) (want : List Rule) (t : Owner K) → P t.kernel → P (confirmed o f want t).1.kernel
  unfolding confirmed
  confirmed-keeps f want t h = read_back-keeps o.kernel.rules_stable refl f want t h
