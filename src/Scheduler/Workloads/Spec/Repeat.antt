-- ===== src/Scheduler/Workloads/Spec/Repeat.antt =====
-- workload_control.go: an update of a specification that is sent again.
use persys_cloud.Prelude.{
  ℕ, String, ◌≡◌, refl, ◌∙◌, Bool, true, false, not, ◌&&◌, List, [], ◌∷◌, Option, none, some,
  if◌then◌else◌, is_empty, Assoc, lookup, all, ◌==◌, eq_refl, arith, inl, inr, Bool-cases,
}
use persys_cloud.Text.{trim_space}
use persys_cloud.Scheduler.Models.{Workload, VmSpec, VmDisk, ManagedVolumeSpec}
use persys_cloud.Scheduler.Store.{normalize_desired_state, ensure_workload_revision}
use persys_cloud.Scheduler.Retry.{clear_reapply_metadata}
use persys_cloud.Scheduler.Workloads.Spec.{
  texts_eq, text_is, maps_eq, bool_eq, volume_eq, volumes_eq, disk_eq, disks_eq, vm_eq, given,
  nonempty, has_some, spec_changed, desired_changed, with_update, updated_workload,
}

texts_eq_refl : (l : List String) → texts_eq l l ≡ true
unfolding texts_eq
texts_eq_refl [] = refl
texts_eq_refl (s ∷ l) = rw (eq_refl s, texts_eq_refl l) refl

volume_eq_refl : (v : ManagedVolumeSpec) → volume_eq v v ≡ true
unfolding volume_eq bool_eq
volume_eq_refl v = ground (
  arith,
  eq_refl v.name,
  eq_refl v.driver,
  eq_refl v.access_mode,
  eq_refl v.fs_type,
  eq_refl v.mount_path,
  eq_refl v.retain_policy,
  Bool-cases v.read_only,
)

volumes_eq_refl : (l : List ManagedVolumeSpec) → volumes_eq l l ≡ true
unfolding volumes_eq
volumes_eq_refl [] = refl
volumes_eq_refl (v ∷ l) = rw (volume_eq_refl v, volumes_eq_refl l) refl

disk_eq_refl : (d : VmDisk) → disk_eq d d ≡ true
unfolding disk_eq bool_eq
disk_eq_refl d =
    ground
      (arith, eq_refl d.path, eq_refl d.device, eq_refl d.format, eq_refl d.kind, Bool-cases d.boot)

disks_eq_refl : (l : List VmDisk) → disks_eq l l ≡ true
unfolding disks_eq
disks_eq_refl [] = refl
disks_eq_refl (d ∷ l) = rw (disk_eq_refl d, disks_eq_refl l) refl

vm_eq_refl : (o : Option VmSpec) → vm_eq o o ≡ true
unfolding vm_eq
vm_eq_refl none = refl
vm_eq_refl (some v) =
    rw (eq_refl v.settings, disks_eq_refl v.disks, volumes_eq_refl v.managed_volumes) refl

-- A list of entries that is a map: each entry is what its key finds.
abbrev pub IsMap : Assoc String → Type 0
IsMap m = all (λ e. text_is e.1 (lookup e.0 m)) m ≡ true

maps_eq_refl : (m : Assoc String) → IsMap m → maps_eq m m ≡ true
unfolding maps_eq
maps_eq_refl m h = rw h (ground arith)

-- A field that was taken over where it was given does not differ any more.
taken_over {ℓ} :
    {A : Type ℓ} (eq : A → A → Bool) (b : Bool) (old new : A)
    → eq new new ≡ true
    → (b && not (eq (if b then new else old) new)) ≡ false
taken_over eq true old new h = rw h refl
taken_over eq false old new h = refl

kept_empty {ℓ} :
    {A : Type ℓ} (eq : A → A → Bool) (b : Bool) (old new : A)
    → eq new new ≡ true
    → (not b && not (eq (if b then old else new) new)) ≡ false
kept_empty eq true old new h = refl
kept_empty eq false old new h = rw h refl

module _ {F : Type 0} where
  with_update-spec_changed :
      (w u : Workload F)
      → IsMap u.env_vars
      → IsMap u.labels
      → spec_changed (with_update w u) u ≡ false
  unfolding spec_changed with_update
  with_update-spec_changed w u env labels =
      rw
        (
          taken_over (λ a b. a == b) (given u.name) w.name u.name (eq_refl u.name),
          taken_over (λ a b. a == b) (given u.kind) w.kind u.kind (eq_refl u.kind),
          taken_over (λ a b. a == b) (given u.image) w.image u.image (eq_refl u.image),
          taken_over (λ a b. a == b) (nonempty u.command) w.command u.command (eq_refl u.command),
          kept_empty texts_eq (is_empty u.command_list) w.command_list u.command_list
              (texts_eq_refl u.command_list),
          taken_over (λ a b. a == b) (nonempty u.compose) w.compose u.compose (eq_refl u.compose),
          taken_over (λ a b. a == b) (nonempty u.compose_yaml) w.compose_yaml u.compose_yaml
              (eq_refl u.compose_yaml),
          taken_over (λ a b. a == b) (nonempty u.project_name) w.project_name u.project_name
              (eq_refl u.project_name),
          kept_empty maps_eq (is_empty u.env_vars) w.env_vars u.env_vars
              (maps_eq_refl u.env_vars env),
          kept_empty maps_eq (is_empty u.labels) w.labels u.labels (maps_eq_refl u.labels labels),
          kept_empty texts_eq (is_empty u.ports) w.ports u.ports (texts_eq_refl u.ports),
          kept_empty texts_eq (is_empty u.volumes) w.volumes u.volumes (texts_eq_refl u.volumes),
          taken_over (λ a b. a == b) (nonempty u.restart_policy) w.restart_policy u.restart_policy
              (eq_refl u.restart_policy),
          taken_over vm_eq (has_some u.vm) w.vm u.vm (vm_eq_refl u.vm),
        )
        refl

  with_update-desired_changed : (w u : Workload F) → desired_changed (with_update w u) u ≡ false
  unfolding desired_changed with_update
  with_update-desired_changed w u =
      taken_over (λ a b. a == b) (given u.desired_state) w.desired_state
        (normalize_desired_state u.desired_state)
        (eq_refl (normalize_desired_state u.desired_state))

  -- The comparison reads none of the fields that an update sets besides those taken over.
  updated_workload-spec_changed :
      (digest : Workload F → String) (now : ℕ) (w u : Workload F)
      → spec_changed (updated_workload digest now w u) u ≡ spec_changed (with_update w u) u
  unfolding updated_workload ensure_workload_revision clear_reapply_metadata with_update trim_space
  updated_workload-spec_changed digest now w u = elim (Bool-cases (spec_changed w u)) [
    | inl e ↦ rw e (unfold spec_changed in refl)
    | inr e ↦ elim (Bool-cases (desired_changed w u)) [
      | inl d ↦ rw (e, d) (unfold spec_changed in refl)
      | inr d ↦ rw (e, d) (unfold spec_changed in refl)
    ]
  ]

  updated_workload-desired_changed :
      (digest : Workload F → String) (now : ℕ) (w u : Workload F)
      → desired_changed (updated_workload digest now w u) u ≡ desired_changed (with_update w u) u
  unfolding updated_workload ensure_workload_revision clear_reapply_metadata with_update trim_space
  updated_workload-desired_changed digest now w u = elim (Bool-cases (spec_changed w u)) [
    | inl e ↦ rw e (unfold desired_changed in refl)
    | inr e ↦ elim (Bool-cases (desired_changed w u)) [
      | inl d ↦ rw (e, d) (unfold desired_changed in refl)
      | inr d ↦ rw (e, d) (unfold desired_changed in refl)
    ]
  ]

  -- Where its environment and labels are maps, an update that was applied finds nothing to change when it
  -- is sent again: neither the specification nor the desired state differs.
  pub updated_workload-repeated :
      (digest : Workload F → String) (now : ℕ) (w u : Workload F)
      → IsMap u.env_vars
      → IsMap u.labels
      → (spec_changed (updated_workload digest now w u) u ≡ false)
        × (desired_changed (updated_workload digest now w u) u ≡ false)
  updated_workload-repeated digest now w u env labels = (
    updated_workload-spec_changed digest now w u ∙ with_update-spec_changed w u env labels,
    updated_workload-desired_changed digest now w u ∙ with_update-desired_changed w u,
  )
