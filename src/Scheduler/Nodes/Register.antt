-- ===== src/Scheduler/Nodes/Register.antt =====
-- persys-scheduler/internal/scheduler/scheduler.go and dns.go: nodes and the scheduler in etcd and in
-- CoreDNS's zone.
use persys_cloud.Prelude.{
  ℕ, String, ◌||◌, List, [], ◌∷◌, if◌then◌else◌, nat_eq, put, ◌==◌, ◌≡◌, refl,
}
use persys_cloud.Text.{concat, trim_space}
use persys_cloud.Text.Split.{split_char, split_when}
use persys_cloud.Scheduler.Models.{Node, dns_value, node_value, text_value}
use persys_cloud.Scheduler.Services.{
  Floats, Services, Scheduler, Act, fail, call, gets, ignore, wrapped, ◌>>=◌, ◌>>◌,
}
use persys_cloud.Scheduler.Mode.{require_writable, cache_node}
use persys_cloud.Scheduler.Etcd.{retryable_etcd_put, retryable_etcd_delete}
use persys_cloud.Scheduler.Nodes.{at_most_zero}
use persys_cloud.Scheduler.Nodes.Select.{join}
use persys_cloud.Scheduler.Nodes.Control.{node_key, node_status_key}

unfoldable pub turned : List String → List String → List String
turned [] done = done
turned (p ∷ ps) done = turned ps (p ∷ done)

unfoldable pub reverse_domain : String → String
unfolding turned
reverse_domain domain = join "/" (turned (split_char b'.' domain) [])

-- A node's name in the zone of its agents, under a shard.
unfoldable pub agent_dns_key : String → String → String → String
unfolding reverse_domain
agent_dns_key agents_domain shard id =
    concat ("/skydns/" ∷ reverse_domain agents_domain ∷ "/" ∷ shard ∷ "/" ∷ id ∷ [])

unfoldable pub scheduler_dns_key : String → String → String
unfolding reverse_domain
scheduler_dns_key domain service = concat ("/skydns/" ∷ reverse_domain domain ∷ "/" ∷ service ∷ [])

abbrev or_shard : String → String → String
or_shard default shard = let s = trim_space shard in if s == "" then default else s

module _ {W F : Type 0} where
  -- The keys that a registration writes and a deletion removes.
  unfoldable pub registered_key : String → Scheduler W F → String
  registered_key id s = agent_dns_key s.agents_domain (or_shard "genesis" s.scheduler_shard) id

  unfoldable pub removed_key : String → Scheduler W F → String
  removed_key id s = agent_dns_key s.agents_domain (or_shard "default" s.scheduler_shard) id

module _ {F : Type 0} ⦃N : Floats F⦄ where
  -- The node as it is registered under a domain and a shard, at the times of two clock reads.
  unfoldable pub registered_node : String → String → ℕ → ℕ → Node F → Node F
  registered_node domain shard beat now n = record n {
    last_heartbeat = beat;
    domain_name = concat (n.node_id ∷ "." ∷ domain ∷ []);
    status = if n.status == "" then "Ready" else n.status;
    status_reason = "registered";
    status_updated_by = "register";
    status_updated_at = now;
    available_cpu = if N.eq n.available_cpu (N.of_nat 0) then n.total_cpu else n.available_cpu;
    available_memory = if nat_eq n.available_memory 0 then n.total_memory else n.available_memory;
    labels = put "scheduler_shard" shard n.labels;
  }

module _ {W F : Type 0} ⦃V : Services W F⦄ where
  unfoldable pub update_core_dns : Node F → Act W F (Unit {0})
  update_core_dns n =
      if n.node_id == "" || n.ip_address == ""
      then fail "invalid node data: NodeID and IPAddress are required"
      else (gets (registered_key n.node_id) >>= λ key.
          retryable_etcd_put key (dns_value (record { host = n.ip_address; port = 0; ttl = 300 })))

  unfoldable pub delete_node : String → Act W F (Unit {0})
  delete_node id = do
    require_writable
    wrapped (λ e. concat ("failed to delete node " ∷ id ∷ ": " ∷ e ∷ []))
        (retryable_etcd_delete (node_key id))
    ignore (retryable_etcd_delete (node_status_key id))
    key ← gets (removed_key id)
    ignore (retryable_etcd_delete key)

  unfoldable pub register_scheduler_in_core_dns : String → ℕ → Act W F (Unit {0})
  register_scheduler_in_core_dns address number =
      if address == "" || nat_eq number 0
      then fail "invalid scheduler data: IPAddress and Port are required"
      else (gets (λ s. s.domain) >>= λ domain.
          wrapped (λ e. concat ("failed to register SRV record: " ∷ e ∷ []))
            (retryable_etcd_put (scheduler_dns_key domain "_persys-scheduler")
              (dns_value (record { host = address; port = number; ttl = 300 })))
          >> wrapped (λ e. concat ("failed to register A record: " ∷ e ∷ []))
              (retryable_etcd_put (scheduler_dns_key domain "persys-scheduler")
                (dns_value (record { host = address; port = 0; ttl = 300 }))))

module _ {W F : Type 0} ⦃N : Floats F⦄ ⦃V : Services W F⦄ where
  unfoldable pub register_node : Node F → Act W F (Unit {0})
  unfolding update_core_dns
  register_node given =
      require_writable
      >> (if given.node_id == "" || given.ip_address == "" || nat_eq given.agent_port 0
          then fail "nodeID, IPAddress, and AgentPort are required"
          else if at_most_zero given.total_cpu || nat_eq given.total_memory 0
          then fail "totalCPU and totalMemory must be positive"
          else do
            beat ← call V.now
            domain ← gets (λ s. s.domain)
            now ← call V.now
            shard ← gets (λ s. s.scheduler_shard)
            let n = registered_node domain shard beat now given
            wrapped (λ e. concat ("failed to register node " ∷ n.node_id ∷ ": " ∷ e ∷ []))
                (retryable_etcd_put (node_key n.node_id) (node_value n))
            ignore (retryable_etcd_put (node_status_key n.node_id) (text_value n.status))
            ignore (update_core_dns n)
            cache_node n)

reversed : reverse_domain "agents.persys.cloud" ≡ "cloud/persys/agents"
unfolding reverse_domain join concat split_when
reversed = refl
