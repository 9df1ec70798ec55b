-- ===== src/Controller/Examples/Passes.antt =====
-- Three passes over a new cluster, against a server that stores what is written.
use multiprox.Prelude.{◌≡◌, refl, sym, subst, true, none, some, [], inl, inr}
use multiprox.Prelude.Int.{ℤ, pos}
use multiprox.Api.Cluster.{ProxmoxCluster, ProxmoxClusterSpec}
use multiprox.Api.Samples.{cluster_of, sample_pod}
use multiprox.Ceph.Status.{parse_ceph_status, ceph_usable}
use multiprox.Ceph.Counts.{expected_osds}
use multiprox.Ceph.Pools.{effective_pools}
use multiprox.Ceph.Validate.{validate_ceph}
use multiprox.Workload.StatefulSet.{stateful_set}
use multiprox.Errors.{ok}
use multiprox.Controller.Kube.{Key, Kube}
use multiprox.Controller.Pass.{◌>>=◌}
use multiprox.Controller.Samples.{sample_kube, sample-Laws}
use multiprox.Controller.Reconcile.{reconcile}
use multiprox.Controller.Progress.{Reaches}
use multiprox.Controller.Progress.Status.{stored}
use multiprox.Controller.Progress.Stages.{Cooperates}
use multiprox.Controller.Progress.Provision.{Provides}
use multiprox.Controller.Progress.Passes.{Favours, IsReady, reconcile-IsReady}

abbrev new_cluster : ProxmoxCluster
new_cluster = cluster_of (pos 3)

-- a server that held this cluster, whose StatefulSet has so many ready pods, and that stores what is
-- written
unfoldable storing_server : ProxmoxCluster → ℤ → Kube
unfolding sample_kube stored
storing_server cluster ready =
    let k = sample_kube cluster ready in
    record k { server = record k.server { on_get_cluster = λ h key. ok (stored cluster h) } }

storing_server-Cooperates :
    (cluster : ProxmoxCluster) (ready : ℤ) → Cooperates (storing_server cluster ready) cluster
unfolding storing_server
storing_server-Cooperates cluster ready = record {
  laws = record {
    retry = (sample-Laws cluster ready).retry;
    condition = (sample-Laws cluster ready).condition;
  };
  responds = record {
    configured = refl;
    connected = refl;
    pod = λ h key. (sample_pod, refl, refl);
    created = λ h namespace pod options. refl;
    streamed = λ h namespace pod options stdin. refl;
  };
  stores = record {
    fetched = λ h key. refl;
    written = λ h c. (c, refl);
    status_written = λ h c. (c, refl);
  };
}

storing_server-Provides :
    (cluster : ProxmoxCluster) (ready : ℤ) → Provides (storing_server cluster ready)
unfolding storing_server
storing_server-Provides cluster ready = record {
  owner = λ c meta. (meta, refl);
  service = λ h key. inr (_, refl, refl);
  service_written = λ h o. (o, refl);
  files = λ h key. inr (_, refl, refl);
  files_written = λ h o. (o, refl);
  set = λ h key. inl (_, refl);
  set_written = λ h o. (o, refl);
}

abbrev storing_kube : Kube
storing_kube = storing_server new_cluster (pos 3)

usable_with :
    (c : ProxmoxCluster) (spec : ProxmoxClusterSpec)
    → new_cluster.spec ≡ spec
    → ceph_usable (
        some
          (parse_ceph_status (record c { spec = spec }) "health=HEALTH_OK osds_up=6 mons=lab-0\n"))
      ≡ true
unfolding ceph_usable parse_ceph_status expected_osds
usable_with c spec e =
    subst
      (λ sp.
        ceph_usable (
          some
            (parse_ceph_status (record c { spec = sp }) "health=HEALTH_OK osds_up=6 mons=lab-0\n"))
        ≡ true)
      e refl

valid_with :
    (c : ProxmoxCluster) (spec : ProxmoxClusterSpec)
    → new_cluster.spec ≡ spec
    → validate_ceph (record c { spec = spec }) ≡ none
unfolding validate_ceph expected_osds effective_pools
valid_with c spec e = subst (λ sp. validate_ceph (record c { spec = sp }) ≡ none) e refl

storing-Favours : Favours storing_kube new_cluster
unfolding storing_server
storing-Favours = record {
  converges = record {
    cooperates = storing_server-Cooperates new_cluster (pos 3);
    all_ready = λ h key. (record (stateful_set new_cluster) { ready_replicas = pos 3 }, refl, refl);
    usable = λ ceph c c' h asked e e'. usable_with c c.spec (sym e);
  };
  provides = storing_server-Provides new_cluster (pos 3);
  valid = λ c e. valid_with c c.spec (sym e);
  count = 3;
  nodes = refl;
}

-- a cluster that asks for no Ceph, of no nodes at first
abbrev bare_cluster : ProxmoxCluster
bare_cluster = record new_cluster { spec = record new_cluster.spec { nodes = pos 0; ceph = none } }

bare_valid :
    (c : ProxmoxCluster) (spec : ProxmoxClusterSpec)
    → bare_cluster.spec ≡ spec
    → validate_ceph (record c { spec = spec }) ≡ none
unfolding validate_ceph
bare_valid c spec e = subst (λ sp. validate_ceph (record c { spec = sp }) ≡ none) e refl

bare-Favours : Favours (storing_server bare_cluster (pos 0)) bare_cluster
unfolding storing_server
bare-Favours = record {
  converges = record {
    cooperates = storing_server-Cooperates bare_cluster (pos 0);
    all_ready =
        λ h key. (record (stateful_set bare_cluster) { ready_replicas = pos 0 }, refl, refl);
    usable = λ ceph c c' h asked e e'. absurd (cc);
  };
  provides = storing_server-Provides bare_cluster (pos 0);
  valid = λ c e. bare_valid c c.spec (sym e);
  count = 0;
  nodes = refl;
}

abbrev lab : Key
lab = record { namespace = "pve"; name = "lab" }

reconcile-IsReady_example :
    Reaches
      (reconcile storing_kube lab >>= λ _.
        reconcile storing_kube lab >>= λ _. reconcile storing_kube lab)
      (record { history = []; cluster = new_cluster })
      (IsReady storing_kube new_cluster storing-Favours)
reconcile-IsReady_example =
    reconcile-IsReady storing_kube new_cluster storing-Favours lab new_cluster refl
