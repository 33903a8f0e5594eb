-- ===== src/Automation/Suggestions.antt =====
-- persys-automation/internal/engine/engine.go: from an action to a suggestion, to the queue, and back.
use persys_cloud.Prelude.{
  ℕ, String, ◌==◌, [], ◌∷◌, Result, ok, err, if◌then◌else◌, ◌≡◌, refl, arith,
}
use persys_cloud.Text.{trim_space, to_lower, concat}
use persys_cloud.Scheduler.Services.{Formats}
use persys_cloud.Automation.Records.{
  Policy, Action, AutomationSuggestion, AutomationActionType, QueuedSuggestion, unspecified,
  set_desired_state, retry_workload, delete_workload, scale_replicas,
}

unfoldable pub action_type_text : AutomationActionType → String
action_type_text unspecified = "AUTOMATION_ACTION_TYPE_UNSPECIFIED"
action_type_text set_desired_state = "AUTOMATION_ACTION_SET_DESIRED_STATE"
action_type_text retry_workload = "AUTOMATION_ACTION_RETRY_WORKLOAD"
action_type_text delete_workload = "AUTOMATION_ACTION_DELETE_WORKLOAD"
action_type_text scale_replicas = "AUTOMATION_ACTION_SCALE_REPLICAS"

unfoldable pub action_type_from_string : String → AutomationActionType
unfolding action_type_text
action_type_from_string v =
    let t = trim_space v in
    if t == action_type_text set_desired_state
    then set_desired_state
    else if t == action_type_text retry_workload
    then retry_workload
    else if t == action_type_text delete_workload
    then delete_workload
    else if t == action_type_text scale_replicas
    then scale_replicas
    else unspecified

-- The suggestion of a policy before its action is looked at.
unfoldable pub blank_suggestion : Policy → AutomationSuggestion
blank_suggestion p = record {
  suggestion_id = "";
  policy_id = p.id;
  policy_name = p.name;
  target_workload = trim_space p.target_workload;
  action_type = unspecified;
  desired_state = "";
  desired_replicas = 0;
  replica_delta = 0;
  reason = concat ("policy=" ∷ p.name ∷ " condition/action matched" ∷ []);
}

module _ ⦃T : Formats⦄ where
  unfoldable pub build_suggestion_from_action : Policy → Action → Result AutomationSuggestion
  unfolding blank_suggestion
  build_suggestion_from_action p a =
      let s = blank_suggestion p in
      let kind = to_lower (trim_space a.kind) in
      let desired = trim_space a.desired_state in
      if trim_space p.target_workload == ""
      then err "target_workload is empty"
      else if kind == "set_desired_state"
      then (if desired == ""
          then err "desired_state required"
          else ok (record s { action_type = set_desired_state; desired_state = desired }))
      else if kind == "retry_workload"
      then ok (record s { action_type = retry_workload })
      else if kind == "delete_workload"
      then ok (record s { action_type = delete_workload })
      else if kind == "scale_replicas"
      then ok (record s {
        action_type = scale_replicas;
        desired_replicas = a.desired_replicas;
        replica_delta = a.replica_delta;
      })
      else err (concat ("unsupported action type " ∷ T.quote a.kind ∷ []))

-- What is queued of a suggestion, before the store gives it an id and times.
unfoldable pub queued_suggestion : Policy → AutomationSuggestion → QueuedSuggestion
queued_suggestion p s = record {
  id = "";
  policy_id = p.id;
  policy_name = p.name;
  target_workload = trim_space p.target_workload;
  action_type = action_type_text s.action_type;
  desired_state = s.desired_state;
  desired_replicas = s.desired_replicas;
  replica_delta = s.replica_delta;
  reason = s.reason;
  attempts = 0;
  last_error = "";
  created_at = 0;
  updated_at = 0;
}

-- The suggestion that is sent again for a queued one.
unfoldable pub replayed_suggestion : QueuedSuggestion → AutomationSuggestion
replayed_suggestion q = record {
  suggestion_id = q.id;
  policy_id = q.policy_id;
  policy_name = q.policy_name;
  target_workload = q.target_workload;
  action_type = action_type_from_string q.action_type;
  desired_state = q.desired_state;
  desired_replicas = q.desired_replicas;
  replica_delta = q.replica_delta;
  reason = q.reason;
}

-- The text of a type is read as the type.
action_type_from_string-text :
    (t : AutomationActionType) → action_type_from_string (action_type_text t) ≡ t
unfolding action_type_from_string action_type_text trim_space
action_type_from_string-text unspecified = refl
action_type_from_string-text set_desired_state = refl
action_type_from_string-text retry_workload = refl
action_type_from_string-text delete_workload = refl
action_type_from_string-text scale_replicas = refl

-- A suggestion of the policy, whatever its action says.
abbrev IsOf : Policy → AutomationSuggestion → Type 0
IsOf p s =
    (s.policy_id ≡ p.id)
    × (s.policy_name ≡ p.name)
    × (s.target_workload ≡ trim_space p.target_workload)

module _ ⦃T : Formats⦄ where
  build_suggestion-IsOf :
      (p : Policy) (a : Action) (s : AutomationSuggestion)
      → build_suggestion_from_action p a ≡ ok s
      → IsOf p s
  unfolding build_suggestion_from_action blank_suggestion
  build_suggestion-IsOf p a s h = ground arith

  -- The queue keeps a suggestion: what is sent again for the queued one, under any id and whatever the
  -- store noted with it, is what was built from the policy and its action, but for the id.
  pub queued-replayed :
      (p : Policy) (a : Action) (s : AutomationSuggestion) (id : String) (tried : ℕ)
      (error : String) (created updated : ℕ)
      → build_suggestion_from_action p a ≡ ok s
      → replayed_suggestion (record (queued_suggestion p s) {
        id = id;
        attempts = tried;
        last_error = error;
        created_at = created;
        updated_at = updated;
      })
        ≡ record s { suggestion_id = id }
  unfolding replayed_suggestion queued_suggestion
  queued-replayed p a s id tried error created updated h =
      let (policy, name, target) = build_suggestion-IsOf p a s h in
      rw (action_type_from_string-text s.action_type, policy, name, target) refl
