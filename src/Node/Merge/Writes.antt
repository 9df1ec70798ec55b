-- ===== src/Node/Merge/Writes.antt =====
-- When a merge asks for a write.
use mathlib.Core.Path.{ap₂}
use multiprox.Prelude.{
  ◌≡◌, ◌↔◌, ◌∙◌, refl, sym, Bool, true, false, not, map, arith, Bool-cases, inl, inr,
}
use multiprox.Api.Node.{ProxmoxNodeStatus}
use multiprox.Node.Merge.{carry_time, untimed, merge_node_status}
use multiprox.Node.Merge.Rearranged.{SaysTheSame, SaysTheSame-of_untimed}
use multiprox.Node.Merge.Times.{
  SameButTimes, HasUniqueTypes, All-IsFound, map-carry_time_found, SameButTimes-carry_time,
  strip_of_SameButTimes, SameButTimes-sym_trans, HasUniqueTypes-SameButTimes,
}

-- the two statuses differ in their times at most
pub record SameFacts (a b : ProxmoxNodeStatus) : Type 0 where
  pub phase : a.phase ≡ b.phase
  pub conditions : SameButTimes a.conditions b.conditions
  pub in_cluster : a.in_cluster ≡ b.in_cluster
  pub online : a.online ≡ b.online
  pub corosync_node_id : a.corosync_node_id ≡ b.corosync_node_id
  pub pod_name : a.pod_name ≡ b.pod_name
  pub pod_ip : a.pod_ip ≡ b.pod_ip
  pub kubernetes_node : a.kubernetes_node ≡ b.kubernetes_node
  pub ceph : a.ceph ≡ b.ceph

untimed_of_SameFacts : (a b : ProxmoxNodeStatus) → SameFacts a b → untimed a ≡ untimed b
unfolding untimed
untimed_of_SameFacts a b h = cc (
  h.phase,
  strip_of_SameButTimes a.conditions b.conditions h.conditions,
  h.in_cluster,
  h.online,
  h.corosync_node_id,
  h.pod_name,
  h.pod_ip,
  h.kubernetes_node,
  h.ceph,
)

abbrev carried : ProxmoxNodeStatus → ProxmoxNodeStatus → ProxmoxNodeStatus
carried existing desired = record desired {
  conditions = map (carry_time existing.conditions) desired.conditions;
}

SameFacts-carried :
    (existing desired : ProxmoxNodeStatus) → SameFacts (carried existing desired) desired
SameFacts-carried existing desired = record {
  phase = refl;
  conditions = SameButTimes-carry_time existing.conditions desired.conditions;
  in_cluster = refl;
  online = refl;
  corosync_node_id = refl;
  pod_name = refl;
  pod_ip = refl;
  kubernetes_node = refl;
  ceph = refl;
}

SameFacts-sym_trans : (a b c : ProxmoxNodeStatus) → SameFacts a b → SameFacts c b → SameFacts a c
SameFacts-sym_trans a b c h k = record {
  phase = h.phase ∙ sym k.phase;
  conditions =
      SameButTimes-sym_trans a.conditions b.conditions c.conditions h.conditions k.conditions;
  in_cluster = h.in_cluster ∙ sym k.in_cluster;
  online = h.online ∙ sym k.online;
  corosync_node_id = h.corosync_node_id ∙ sym k.corosync_node_id;
  pod_name = h.pod_name ∙ sym k.pod_name;
  pod_ip = h.pod_ip ∙ sym k.pod_ip;
  kubernetes_node = h.kubernetes_node ∙ sym k.kubernetes_node;
  ceph = h.ceph ∙ sym k.ceph;
}

-- `deep_equal` decides equality. On these types `Semantic.DeepEqual` does: its own rules for
-- quantities, and for a list that is nil or empty, tell no two values of the model apart.
module _ (deep_equal : ProxmoxNodeStatus → ProxmoxNodeStatus → Bool)
    (deep_equal_iff : (a b : ProxmoxNodeStatus) → (deep_equal a b ≡ true) ↔ (a ≡ b)) where
  untimed-carried :
      (existing desired : ProxmoxNodeStatus) → untimed (carried existing desired) ≡ untimed desired
  untimed-carried existing desired =
      untimed_of_SameFacts _ desired (SameFacts-carried existing desired)

  changed_lem :
      (existing desired : ProxmoxNodeStatus)
      → (merge_node_status deep_equal existing desired).1
        ≡ not (deep_equal (untimed existing) (untimed desired))
  unfolding merge_node_status
  changed_lem existing desired = rw (untimed-carried existing desired)

  merge_node_status-unchanged_iff :
      (existing desired : ProxmoxNodeStatus)
      → ((merge_node_status deep_equal existing desired).1 ≡ false)
        ↔ (untimed existing ≡ untimed desired)
  merge_node_status-unchanged_iff existing desired = rw (changed_lem existing desired) (
    (λ h. (deep_equal_iff _ _).0 (ground arith)),
    (λ e. rw ((deep_equal_iff (untimed existing) (untimed desired)).1 e)),
  )

  -- A merge that asks for no write has a new status that says what the stored one says: they differ in
  -- times and the order of conditions at most, so no other change is ever left unwritten. And a new
  -- status with the content of the stored one, the conditions in the same order, asks for no write.
  pub merge_node_status-SaysTheSame :
      (existing desired : ProxmoxNodeStatus)
      → ((merge_node_status deep_equal existing desired).1 ≡ false → SaysTheSame existing desired)
        × (SameFacts existing desired → (merge_node_status deep_equal existing desired).1 ≡ false)
  merge_node_status-SaysTheSame existing desired =
      let (same, quiet) = merge_node_status-unchanged_iff existing desired in
      (
        λ h. SaysTheSame-of_untimed existing desired (same h),
        λ h. quiet (untimed_of_SameFacts existing desired h),
      )

  status_of_merge :
      (existing desired : ProxmoxNodeStatus)
      → (merge_node_status deep_equal existing desired).1 ≡ false
      → (merge_node_status deep_equal existing desired).0
        ≡ record (carried existing desired) { observed_at = existing.observed_at }
  unfolding merge_node_status
  status_of_merge existing desired h = ground arith

  status_of_write :
      (existing desired : ProxmoxNodeStatus)
      → (merge_node_status deep_equal existing desired).1 ≡ true
      → (merge_node_status deep_equal existing desired).0 ≡ carried existing desired
  unfolding merge_node_status
  status_of_write existing desired h = ground arith

  kept_as_stored :
      (existing desired : ProxmoxNodeStatus)
      → HasUniqueTypes existing.conditions
      → SameFacts existing desired
      → record (carried existing desired) { observed_at = existing.observed_at } ≡ existing
  kept_as_stored existing desired unique same =
      let fresh =
        map-carry_time_found existing.conditions existing.conditions desired.conditions
          (All-IsFound existing.conditions unique) same.conditions in
      cc (
        fresh, same.phase, same.in_cluster, same.online, same.corosync_node_id, same.pod_name,
        same.pod_ip, same.kubernetes_node, same.ceph,
      )

  -- Observing what is stored, at whatever time, gives back the stored status and asks for no write.
  merge_of_SameFacts :
      (existing desired : ProxmoxNodeStatus)
      → HasUniqueTypes existing.conditions
      → SameFacts existing desired
      → merge_node_status deep_equal existing desired ≡ (existing, false)
  merge_of_SameFacts existing desired unique same =
      let unchanged =
        (merge_node_status-unchanged_iff existing desired).1
          (untimed_of_SameFacts existing desired same) in
      let stored =
        status_of_merge existing desired unchanged ∙ kept_as_stored existing desired unique same in
      ap₂ (λ (s : ProxmoxNodeStatus) (b : Bool). (s, b)) stored unchanged

  SameFacts-merge :
      (existing desired : ProxmoxNodeStatus)
      → SameFacts (merge_node_status deep_equal existing desired).0 desired
  SameFacts-merge existing desired =
      elim (Bool-cases (merge_node_status deep_equal existing desired).1) [
        | inl changed ↦
            rw (status_of_write existing desired changed) (SameFacts-carried existing desired)
        | inr unchanged ↦ rw (status_of_merge existing desired unchanged) (record {
          phase = refl;
          conditions = SameButTimes-carry_time existing.conditions desired.conditions;
          in_cluster = refl;
          online = refl;
          corosync_node_id = refl;
          pod_name = refl;
          pod_ip = refl;
          kubernetes_node = refl;
          ceph = refl;
        })
      ]

  -- Two observations of the same facts, at whatever times and after whatever was stored: the second
  -- finds what the first has stored, changes none of it, and asks for no write.
  pub merge_node_status-twice :
      (existing first second : ProxmoxNodeStatus)
      → HasUniqueTypes first.conditions
      → SameFacts second first
      → merge_node_status deep_equal (merge_node_status deep_equal existing first).0 second
        ≡ ((merge_node_status deep_equal existing first).0, false)
  merge_node_status-twice existing first second unique same =
      let stored = SameFacts-merge existing first in
      merge_of_SameFacts _ second (HasUniqueTypes-SameButTimes _ _ stored.conditions unique)
        (SameFacts-sym_trans _ first second stored same)
