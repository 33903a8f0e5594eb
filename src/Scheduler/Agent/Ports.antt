-- ===== src/Scheduler/Agent/Ports.antt =====
-- persys-scheduler/internal/scheduler/agent_grpc.go: port mappings, volume mounts, project names and
-- disks. An int32 is its 32-bit word.
pub mod Mapping
pub mod Project
use Prim.Native.Char.{Char, code}
use Prim.Native.String.{char_at}
use persys_cloud.Prelude.{
  ℕ, ◌%◌, ◌^◌, String, Bool, true, false, not, ◌&&◌, ◌||◌, List, [], ◌∷◌, Option, none, some,
  Result, ok, err, if◌then◌else◌, leb, nat_eq, ◌==◌,
}
use persys_cloud.Text.{concat, trim_space, to_lower, equal_fold}
use persys_cloud.Text.Split.{split_char, contains_char, before_char, after_char, atoi}
use persys_cloud.Scheduler.Models.{VmDisk}
use persys_cloud.Scheduler.Services.{Formats}

-- Go's `filepath.Join` of a folder and a name, the status code of a gRPC error (read off its text)
-- and the conversion of a float64 that is a number of nanoseconds to a Duration.
pub record Platform : Type 0 where
  pub join_path : String → String → String
  pub grpc_code : String → String
  pub float_duration : ℕ → ℕ

pub record PortMapping : Type 0 where
  pub host_port : ℕ
  pub container_port : ℕ
  pub protocol : String

pub record VolumeMount : Type 0 where
  pub host_path : String
  pub container_path : String
  pub read_only : Bool

-- The port and the protocol of a container's side.
unfoldable pub container_side : String → String × String
container_side spec =
    let after = after_char b'/' spec in
    if contains_char b'/' spec
    then (before_char b'/' spec, if after == "" then "tcp" else to_lower after)
    else (spec, "tcp")

abbrev invalid : String → String → String → String
invalid what quoted e = concat ("invalid " ∷ what ∷ " port in " ∷ quoted ∷ ": " ∷ e ∷ [])

-- The two conversions, the host's first.
unfoldable pub port_mapping : String → String → Result ℕ → Result ℕ → Result PortMapping
port_mapping quoted protocol_name (err e) c = err (invalid "host" quoted e)
port_mapping quoted protocol_name (ok h) (err e) = err (invalid "container" quoted e)
port_mapping quoted protocol_name (ok h) (ok c) =
    ok (record { host_port = h % 2 ^ 32; container_port = c % 2 ^ 32; protocol = protocol_name })

module _ ⦃T : Formats⦄ where
  -- The pieces around the colons.
  unfoldable pub mapped_pieces : String → List String → Result PortMapping
  unfolding container_side port_mapping
  mapped_pieces port (host ∷ spec ∷ []) =
      port_mapping (T.quote port) (container_side spec).1 (atoi T.quote host)
        (atoi T.quote (container_side spec).0)
  mapped_pieces port _ = err (concat ("invalid port mapping " ∷ T.quote port ∷ []))

  unfoldable pub parse_port_mapping : String → Result PortMapping
  unfolding mapped_pieces
  parse_port_mapping port =
      if trim_space port == ""
      then err "empty port mapping"
      else mapped_pieces port (split_char b':' port)

  mounted_pieces : String → List String → Result VolumeMount
  mounted_pieces volume (host ∷ container ∷ []) =
      ok (record { host_path = host; container_path = container; read_only = false })
  mounted_pieces volume (host ∷ container ∷ mode ∷ rest) =
      ok (record { host_path = host; container_path = container; read_only = equal_fold mode "ro" })
  mounted_pieces volume _ = err (concat ("invalid volume mapping " ∷ T.quote volume ∷ []))

  unfoldable pub parse_volume_mount : String → Result VolumeMount
  unfolding mounted_pieces
  parse_volume_mount volume =
      if trim_space volume == ""
      then err "empty volume mapping"
      else mounted_pieces volume (split_char b':' volume)

unfoldable pub project_char : Char → Bool
project_char c =
    leb b'a' (code c) && leb (code c) b'z'
    || leb b'0' (code c) && leb (code c) b'9'
    || nat_eq (code c) b'-'
    || nat_eq (code c) b'_'

unfoldable pub is_dash : Char → Bool
is_dash c = nat_eq (code c) b'-'

-- Each character that is not allowed becomes a dash.
unfoldable pub dashed : String → String
unfolding project_char
dashed String.[] = String.[]
dashed (String.◌∷◌ c s) =
    let rest = dashed s in String.◌∷◌ (if project_char c then c else char_at "-" 0) rest

-- strings.Trim(s, "-")
unfoldable pub trim_left_dash : String → String
unfolding is_dash
trim_left_dash String.[] = String.[]
trim_left_dash (String.◌∷◌ c s) =
    let rest = trim_left_dash s in if is_dash c then rest else String.◌∷◌ c s

unfoldable pub trim_right_dash : String → String
unfolding is_dash
trim_right_dash String.[] = String.[]
trim_right_dash (String.◌∷◌ c s) =
    let rest = trim_right_dash s in if is_dash c && rest == "" then String.[] else String.◌∷◌ c rest

unfoldable pub normalize_project_name : String → String
unfolding dashed trim_left_dash trim_right_dash
normalize_project_name s =
    let name = trim_space (to_lower s) in
    let out = trim_left_dash (trim_right_dash (dashed name)) in
    if name == "" then "workload" else if out == "" then "workload" else out

abbrev or_text : String → String → String
or_text s default = if trim_space s == "" then default else s

module _ ⦃P : Platform⦄ where
  unfoldable pub normalize_vm_disk_for_agent : String → VmDisk → VmDisk
  normalize_vm_disk_for_agent workload d =
      let device_name = or_text d.device "vda" in
      let format_name = or_text d.format "qcow2" in
      let extension = if equal_fold format_name "raw" then ".img" else ".qcow2" in
      let file =
        concat (trim_space workload ∷ "-" ∷ to_lower (trim_space device_name) ∷ extension ∷ []) in
      record {
        path =
            if trim_space d.path == "" then P.join_path "/var/lib/libvirt/images" file else d.path;
        device = device_name;
        format = format_name;
        size_gb = if nat_eq d.size_gb 0 then 20 else d.size_gb;
        kind = or_text d.kind "disk";
        boot = d.boot;
      }
