-- ===== src/Node/Merge/Rearranged.antt =====
-- Conditions of node.go up to their times and their order, which the comparison of two statuses
-- leaves out.
use multiprox.Prelude.{◌≡◌, ap, refl, sym, subst, List, [], ◌∷◌, Bool-cases, inl, inr}
use multiprox.Api.Meta.{Condition}
use multiprox.Api.Node.{ProxmoxNodeStatus}
use multiprox.Node.Merge.{
  strip_condition_times, text_lt, insert_condition, sort_conditions, untimed,
}
use multiprox.Node.Merge.Times.{SameButTime}

-- one list has the conditions of the other, in whatever order and with whatever times
pub data SameRearranged : List Condition → List Condition → Type 0 where
  nothing : SameRearranged [] []
  both :
      {c d : Condition} {cs ds : List Condition}
      → SameButTime c d
      → SameRearranged cs ds
      → SameRearranged (c ∷ cs) (d ∷ ds)
  swapped : {c d : Condition} {cs : List Condition} → SameRearranged (c ∷ d ∷ cs) (d ∷ c ∷ cs)
  through :
      {bs cs ds : List Condition}
      → SameRearranged bs cs
      → SameRearranged cs ds
      → SameRearranged bs ds

SameButTime-refl : (c : Condition) → SameButTime c c
SameButTime-refl c = record {
  type = refl;
  status = refl;
  observed_generation = refl;
  reason = refl;
  message = refl;
}

SameButTime-sym : {c d : Condition} → SameButTime c d → SameButTime d c
SameButTime-sym h = record {
  type = sym h.type;
  status = sym h.status;
  observed_generation = sym h.observed_generation;
  reason = sym h.reason;
  message = sym h.message;
}

unchanged : (cs : List Condition) → SameRearranged cs cs
unchanged [] = SameRearranged.nothing
unchanged (c ∷ cs) = SameRearranged.both (SameButTime-refl c) (unchanged cs)

reversed : {cs ds : List Condition} → SameRearranged cs ds → SameRearranged ds cs
reversed SameRearranged.nothing = SameRearranged.nothing
reversed (SameRearranged.both h r) = SameRearranged.both (SameButTime-sym h) (reversed r)
reversed SameRearranged.swapped = SameRearranged.swapped
reversed (SameRearranged.through r q) = SameRearranged.through (reversed q) (reversed r)

insert_condition-SameRearranged :
    (c : Condition) (ds : List Condition) → SameRearranged (insert_condition c ds) (c ∷ ds)
unfolding insert_condition
insert_condition-SameRearranged c [] = unchanged (c ∷ [])
insert_condition-SameRearranged c (d ∷ ds) = elim (Bool-cases (text_lt d.type c.type)) [
  | inl before ↦ rw (before) (
      SameRearranged.through
        (SameRearranged.both (SameButTime-refl d) (insert_condition-SameRearranged c ds))
        SameRearranged.swapped)
  | inr behind ↦ rw (behind) (unchanged (c ∷ d ∷ ds))
]

sort_conditions-SameRearranged : (cs : List Condition) → SameRearranged (sort_conditions cs) cs
unfolding sort_conditions
sort_conditions-SameRearranged [] = SameRearranged.nothing
sort_conditions-SameRearranged (c ∷ cs) =
    SameRearranged.through (insert_condition-SameRearranged c (sort_conditions cs))
      (SameRearranged.both (SameButTime-refl c) (sort_conditions-SameRearranged cs))

strip_condition_times-SameRearranged :
    (cs : List Condition) → SameRearranged (strip_condition_times cs) cs
unfolding strip_condition_times
strip_condition_times-SameRearranged [] = SameRearranged.nothing
strip_condition_times-SameRearranged (c ∷ cs) =
    SameRearranged.both
      (record {
        type = refl;
        status = refl;
        observed_generation = refl;
        reason = refl;
        message = refl;
      })
      (strip_condition_times-SameRearranged cs)

-- the two statuses differ in their times and the order of their conditions at most
pub record SaysTheSame (a b : ProxmoxNodeStatus) : Type 0 where
  pub phase : a.phase ≡ b.phase
  pub conditions : SameRearranged a.conditions b.conditions
  pub in_cluster : a.in_cluster ≡ b.in_cluster
  pub online : a.online ≡ b.online
  pub corosync_node_id : a.corosync_node_id ≡ b.corosync_node_id
  pub pod_name : a.pod_name ≡ b.pod_name
  pub pod_ip : a.pod_ip ≡ b.pod_ip
  pub kubernetes_node : a.kubernetes_node ≡ b.kubernetes_node
  pub ceph : a.ceph ≡ b.ceph

untimed-SameRearranged :
    (s : ProxmoxNodeStatus) → SameRearranged (untimed s).conditions s.conditions
unfolding untimed
untimed-SameRearranged s =
    SameRearranged.through (sort_conditions-SameRearranged (strip_condition_times s.conditions))
      (strip_condition_times-SameRearranged s.conditions)

pub SaysTheSame-of_untimed : (a b : ProxmoxNodeStatus) → untimed a ≡ untimed b → SaysTheSame a b
unfolding untimed
SaysTheSame-of_untimed a b e = record {
  phase = ap (λ s. s.phase) e;
  conditions =
      SameRearranged.through (reversed (untimed-SameRearranged a))
        (subst (λ s. SameRearranged s.conditions b.conditions) (sym e) (untimed-SameRearranged b));
  in_cluster = ap (λ s. s.in_cluster) e;
  online = ap (λ s. s.online) e;
  corosync_node_id = ap (λ s. s.corosync_node_id) e;
  pod_name = ap (λ s. s.pod_name) e;
  pod_ip = ap (λ s. s.pod_ip) e;
  kubernetes_node = ap (λ s. s.kubernetes_node) e;
  ceph = ap (λ s. s.ceph) e;
}
