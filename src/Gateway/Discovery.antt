-- ===== src/Gateway/Discovery.antt =====
-- persys-gateway/services/scheduler_pool.go: finding scheduler instances through DNS and merging
-- them into the pool. Package `net` and the DNS servers are the record `Net`.
pub mod Merge
use Prim.Native.Char.{char}
use persys_cloud.Prelude.{
  ℕ, suc, ◌+◌, String, Bool, true, false, ◌&&◌, ◌||◌, not, List, [], ◌∷◌, ◌++◌, map, Option, none,
  some, Result, ok, err, Assoc, lookup, put, is_some, any, length, is_empty, if◌then◌else◌, nat_eq,
  ◌==◌, str_lt, sort_by,
}
use persys_cloud.Text.{
  trim_space, to_lower, contains, has_prefix, trim_prefix, trim_suffix, replace_char, concat,
}
use persys_cloud.Gateway.Pool.{
  SchedulerInstance, Cluster, ClusterConfig, PoolManager, strategy_leader_only, default_cluster_id,
}

pub record Srv : Type 0 where
  pub target : String
  pub port : ℕ

-- What the code calls of package `net`. A failed lookup has no answer; its error is only logged.
pub record Net : Type 0 where
  pub lookup_srv : String → String → String → Option (List Srv)
  pub lookup_host : String → Option (List String)
  pub join_host_port : String → String → String
  pub split_host_port : String → Option (String × String)
  -- `net.ParseIP` followed by `String`
  pub parse_ip : String → Option String
  pub itoa : ℕ → String

abbrev pub member : String → List String → Bool
member s l = any (λ t. t == s) l

-- The loop of `dedupe`, before its sort: `seen` is what `out` holds.
dedupe_from : List String → List String → List String
dedupe_from out [] = out
dedupe_from out (v ∷ vs) =
    dedupe_from
      (if trim_space v == ""
        then out
        else if member (trim_space v) out
        then out
        else out ++ trim_space v ∷ [])
      vs

unfoldable pub dedupe : List String → List String
unfolding dedupe_from
dedupe l = sort_by str_lt (dedupe_from [] l)

unfoldable pub discovered_id : String → String
discovered_id address =
    concat ("discovered-" ∷ replace_char b'.' "-" (replace_char b':' "-" address) ∷ [])

abbrev or_none : Option (List String) → List String
or_none none = []
or_none (some l) = l

module _ (net : Net) where
  -- A lookup that fails or finds nothing is tried again without a leading underscore.
  resolve_srv_target : String → List String
  resolve_srv_target target =
      let host = trim_suffix (trim_space target) "." in
      let found = or_none (net.lookup_host host) in
      if host == ""
      then []
      else if not (is_empty found)
      then found
      else if has_prefix host "_"
      then or_none (net.lookup_host (trim_prefix host "_"))
      else []

  parsed_keys : String → List String → List String
  parsed_keys port [] = []
  parsed_keys port (ip ∷ ips) =
      let rest = parsed_keys port ips in
      elim (net.parse_ip (trim_space ip)) [
        | none ↦ rest
        | some parsed ↦ net.join_host_port parsed port ∷ rest
      ]

  -- `keys` after the original endpoint: a literal address has one more, a name one for each address.
  endpoint_keys : String → String → List String
  unfolding parsed_keys
  endpoint_keys host port = elim (net.parse_ip host) [
    | some ip ↦ net.join_host_port ip port ∷ []
    | none ↦ parsed_keys port (or_none (net.lookup_host host))
  ]

  keys_of_endpoint : String → String → List String
  unfolding endpoint_keys
  keys_of_endpoint host port =
      if host == "" || port == ""
      then []
      else dedupe (to_lower (net.join_host_port host port) ∷ endpoint_keys host port)

  unfoldable pub canonical_address_keys : String → List String
  unfolding keys_of_endpoint
  canonical_address_keys address = elim (net.split_host_port (trim_space address)) [
    | none ↦ []
    | some (host, port) ↦ keys_of_endpoint (trim_space host) (trim_space port)
  ]

  srv_addresses : List Srv → List String
  unfolding resolve_srv_target
  srv_addresses [] = []
  srv_addresses (srv ∷ srvs) =
      let rest = srv_addresses srvs in
      if nat_eq srv.port 0 then rest else elim (resolve_srv_target srv.target) [
        | [] ↦ rest
        | ip ∷ ips ↦ net.join_host_port ip (net.itoa srv.port) ∷ rest
      ]

  abbrev with_port : String → String
  with_port ip = net.join_host_port ip "8085"

  -- The first host that resolves to any address ends the loop.
  host_addresses : List String → List String
  host_addresses [] = []
  host_addresses (h ∷ hs) =
      let rest = host_addresses hs in
      elim (or_none (net.lookup_host h)) [ [] ↦ rest | ip ∷ ips ↦ map with_port (ip ∷ ips) ]

  -- The three forms of the SRV query, each tried where the one before fails.
  srv_records : String → String → String → List Srv
  srv_records service label domain =
      let full =
        if contains service "._tcp."
        then service
        else concat ("_" ∷ label ∷ "._tcp." ∷ domain ∷ []) in
      elim (net.lookup_srv label "tcp" domain) [
        | some records ↦ records
        | none ↦ elim (net.lookup_srv "" "" full) [
          | some records ↦ records
          | none ↦ elim (net.lookup_srv "" "" domain) [ some records ↦ records | none ↦ [] ]
        ]
      ]

  abbrev fallback_hosts : String → String → List String
  fallback_hosts label domain =
      concat (label ∷ "." ∷ domain ∷ [])
      ∷ concat ("persys-scheduler." ∷ domain ∷ [])
      ∷ label
      ∷ "persys-scheduler"
      ∷ "persys-scheduler.local"
      ∷ []

  or_fallback : List String → List String → List String
  or_fallback [] hosts = hosts
  or_fallback (a ∷ as') hosts = a ∷ as'

  unfoldable pub discover_schedulers : PoolManager → Result (List String)
  unfolding srv_addresses host_addresses srv_records or_fallback
  discover_schedulers m =
      let service = trim_space m.cfg.discovery_svc in
      let domain = trim_space m.cfg.discovery_domain in
      let label = trim_prefix service "_" in
      if service == "" || domain == ""
      then err "discovery service/domain not configured"
      else if label == ""
      then err (concat ("invalid discovery service \"" ∷ service ∷ "\"" ∷ []))
      else ok (
          dedupe (
            or_fallback (srv_addresses (srv_records service label domain))
              (host_addresses (fallback_hosts label domain))))
