-- ===== src/Sandbox/Policy.antt =====
-- sandbox.py: `validate_sandbox_policy` and `validate_mount_policy`.
use notebook_launcher.Prelude.{
  String, Bool, true, false, not, ◌&&◌, ◌||◌, Option, none, some, [], any, ◌==◌, str_eq,
}
use notebook_launcher.Action.{Result, ok, err}
use notebook_launcher.SafePaths.{HostPaths, same_path}
use notebook_launcher.Sandbox.{
  SandboxPolicy, SandboxTexts, container_control_names, forbidden_parts, refuse, ◌⨟◌, each, mounts,
  check_destinations, check_commas, check_environment, check_ports,
}

abbrev pub with_path : Result String → (String → Result (Unit {0})) → Result (Unit {0})
with_path (ok path) f = f path
with_path (err e) f = err e

module _ {D : Type 0} (t : SandboxTexts D) (h : HostPaths D) where
  -- The tests of a resolved host path.
  unfoldable pub check_resolved : String → String → String → Result (Unit {0})
  check_resolved docker_socket home resolved =
      refuse (same_path h resolved docker_socket) "Docker socket must not be mounted"
      ⨟ refuse (any (str_eq (t.casefold (t.name resolved))) container_control_names)
          "container-control sockets must not be mounted"
      ⨟ refuse (same_path h resolved (h.anchor resolved)) "filesystem root must not be mounted"
      ⨟ refuse (same_path h resolved home || t.is_within home resolved)
          "whole home directory must not be mounted"
      ⨟ refuse (any (λ part. any (str_eq (t.lower part)) forbidden_parts) (t.parts resolved))
          "credential directory must not be mounted"
      ⨟ refuse (t.contains "/.config/gcloud" (t.lower (t.as_posix resolved)))
          "credential directory must not be mounted"

  abbrev pub check_mount : D → String → String → String × String → Result (Unit {0})
  check_mount d docker_socket home (host, _) =
      with_path (h.resolve false (h.expanduser host) d) (check_resolved docker_socket home)

  unfoldable pub validate_mount_policy : SandboxPolicy → String → D → Result (Unit {0})
  validate_mount_policy p home d =
      with_path (h.resolve false "/var/run/docker.sock" d) λ docker_socket.
        with_path (h.resolve false home d)
          λ resolved_home. each (check_mount d docker_socket resolved_home) (mounts p)

  abbrev pub check_network_name : Option String → Result (Unit {0})
  check_network_name none = ok tt
  check_network_name (some name) =
      refuse (t.is_blank name || t.contains "\0" name) "invalid launcher-managed network name"

  abbrev pub check_profile : D → Option String → Result (Unit {0})
  check_profile d none = ok tt
  check_profile d (some profile) =
      with_path (h.resolve true profile d)
        λ resolved. refuse (not (t.is_file resolved d)) "seccomp profile must be a file"

  -- `not policy.network_name`
  abbrev pub has_no_network : Option String → Bool
  has_no_network none = true
  has_no_network (some name) = str_eq name ""

  abbrev pub check_names : SandboxPolicy → Result (Unit {0})
  check_names p =
      refuse (t.is_blank p.image || t.contains "\0" p.image) "container image is required"
      ⨟ refuse (not (t.is_container_name p.container_name)) "invalid container name"

  abbrev pub check_limits : SandboxPolicy → Result (Unit {0})
  check_limits p =
      refuse (not (t.is_positive p.cpus) || p.pids_limit == 0 || p.nofile_limit == 0)
        "sandbox resource limits must be positive"

  abbrev pub check_required : SandboxPolicy → Bool → Result (Unit {0})
  check_required p require_network =
      refuse (t.is_blank p.memory || t.is_blank p.tmpfs_size)
        "sandbox memory and tmpfs limits are required"
      ⨟ refuse (require_network && has_no_network p.network_name)
          "a launcher-managed network is required"

  unfoldable pub validate_sandbox_policy : SandboxPolicy → String → Bool → D → Result (Unit {0})
  validate_sandbox_policy p home require_network d =
      check_names p
      ⨟ check_limits p
      ⨟ check_required p require_network
      ⨟ check_network_name p.network_name
      ⨟ check_profile d p.seccomp_profile
      ⨟ validate_mount_policy p home d
      ⨟ check_destinations t [] (mounts p)
      ⨟ each (check_commas t) (mounts p)
      ⨟ each (check_environment t) p.environment
      ⨟ each (check_ports t) p.published_ports
