-- ===== src/Tests/SchedulerAgent.antt =====
-- What goes to a node's agent, and the wait for it.
use persys_cloud.Prelude.{◌+◌, ◌≡◌, refl, true, [], ◌∷◌, ok, arith}
use persys_cloud.Text.{concat}
use persys_cloud.Scheduler.Agent.{delete_timeout}
use persys_cloud.Scheduler.Agent.Ports.{parse_port_mapping, normalize_project_name}
use persys_cloud.Scheduler.Agent.Ports.Project.{IsProjectName, normalize_project_name-IsProjectName}
use persys_cloud.Text.Split.Decimal.{decimal}
use persys_cloud.Scheduler.Agent.Ports.Mapping.{parse_port_mapping-decimal}
use persys_cloud.Scheduler.Agent.Delete.{delete_rounds, await_deletion}
use persys_cloud.Scheduler.Agent.Delete.Ends.{Passing, await_deletion_terminates}
use persys_cloud.Scheduler.Drift.Orphan.{plan_known}
use persys_cloud.Scheduler.Drift.Orphan.Safe.{Justified, plan_known-Justified}
use persys_cloud.Tests.World.{formats, services, platform, config, agents, scheduler}
use persys_cloud.Tests.SchedulerNodes.{node, three_nodes}
use persys_cloud.Tests.SchedulerWorkloads.{web}

normalize_project_name-IsProjectName_example : IsProjectName (normalize_project_name "My App!")
normalize_project_name-IsProjectName_example = normalize_project_name-IsProjectName "My App!"

-- The container's port is one more than 2 ^ 32.
parse_port_mapping-decimal_example :
    parse_port_mapping (concat (decimal 80 ∷ ":" ∷ decimal 4294967297 ∷ []))
    ≡ ok (record { host_port = 80; container_port = 1; protocol = "tcp" })
parse_port_mapping-decimal_example =
    parse_port_mapping-decimal 80 4294967297 (omega arith) (omega arith)

passing : Passing services agents
unfolding services agents
passing = record {
  time = λ w. w.clock;
  now_reads = λ w. refl;
  now_passes = λ w. omega arith;
  dial_passes = λ a w. omega arith;
  status_passes = λ a id w. omega arith;
  sleep_passes = λ d w. omega arith;
}

await_deletion_terminates_example :
    (await_deletion delete_rounds
      (100 + delete_timeout)
      (node "n1" "Ready" 8)
      "web"
      (scheduler three_nodes)).0
    ≡ ok true
unfolding passing
await_deletion_terminates_example =
    await_deletion_terminates passing (node "n1" "Ready" 8) "web" (scheduler three_nodes)

plan_known-Justified_example :
    Justified
      (node "n2" "Ready" 8)
      "web"
      web
      (scheduler three_nodes)
      (plan_known (node "n2" "Ready" 8) "web" web (scheduler three_nodes)).0
plan_known-Justified_example =
    plan_known-Justified (node "n2" "Ready" 8) "web" web (scheduler three_nodes)
