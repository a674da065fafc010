-- ===== src/Sandbox/Allowed.antt =====
-- sandbox.py: the policies that are accepted.
use notebook_launcher.Prelude.{
  ℕ, ◌≤◌, ◌≡◌, String, Bool, true, false, not, ◌&&◌, ◌||◌, [], arith, any, All, ◌==◌, str_eq,
}
use notebook_launcher.Action.{ok}
use notebook_launcher.SafePaths.{HostPaths, same_path}
use notebook_launcher.Sandbox.{
  SandboxPolicy, SandboxTexts, container_control_names, forbidden_parts, has_secret_name, refuse,
  each, mounts, check_destinations, check_commas, check_environment, is_port, check_ports,
}
use notebook_launcher.Sandbox.Policy.{
  check_resolved, check_mount, validate_mount_policy, check_network_name, check_profile,
  check_names, check_limits, check_required, validate_sandbox_policy,
}
use notebook_launcher.Sandbox.Argv.{}
use notebook_launcher.Sandbox.Accepted.{
  All-map, AreDistinct, IsPort, check_destinations-AreDistinct, each_ok, is_port-IsPort, refuse_ok,
  with_path_ok, ⨟-ok,
}

module _ {D : Type 0} (t : SandboxTexts D) (h : HostPaths D) (home : String) (d : D) where
  -- A host path that may be mounted: it is not a socket that controls containers, not the root of the
  -- file system, not the home directory or one above it, and in no directory of credentials.
  abbrev pub IsMountable : String → Type 0
  IsMountable host =
      (socket : String) × (own : String) × (resolved : String) × (h.resolve false
          "/var/run/docker.sock" d
        ≡ ok socket)
      × (h.resolve false home d ≡ ok own)
      × (h.resolve false (h.expanduser host) d ≡ ok resolved)
      × (same_path h resolved socket ≡ false)
      × (any (str_eq (t.casefold (t.name resolved))) container_control_names ≡ false)
      × (same_path h resolved (h.anchor resolved) ≡ false)
      × ((same_path h resolved own || t.is_within own resolved) ≡ false)
      × (any (λ part. any (str_eq (t.lower part)) forbidden_parts) (t.parts resolved) ≡ false)
      × (t.contains "/.config/gcloud" (t.lower (t.as_posix resolved)) ≡ false)

  abbrev pub IsAccepted : SandboxPolicy → Type 0
  IsAccepted p =
      All (λ m. IsMountable m.0) (mounts p)
      × AreDistinct (mounts p)
      × All (λ e. has_secret_name t e.0 ≡ false) p.environment
      × All (λ q. IsPort q.0 × IsPort q.1) p.published_ports
      × (1 ≤ p.pids_limit)
      × (1 ≤ p.nofile_limit)
      × (t.is_positive p.cpus ≡ true)

  check_mount-IsMountable :
      (socket own : String)
      → h.resolve false "/var/run/docker.sock" d ≡ ok socket
      → h.resolve false home d ≡ ok own
      → (m : String × String) → check_mount t h d socket own m ≡ ok tt
      → IsMountable m.0
  unfolding check_resolved
  check_mount-IsMountable socket own is_socket is_own (host, container) done =
      let (resolved, is_resolved, checks) =
        with_path_ok (h.resolve false (h.expanduser host) d) (check_resolved t h socket own) done in
      let (r1, s1) = ⨟-ok (refuse _ _) _ checks in
      let (r2, s2) = ⨟-ok (refuse _ _) _ s1 in
      let (r3, s3) = ⨟-ok (refuse _ _) _ s2 in
      let (r4, s4) = ⨟-ok (refuse _ _) _ s3 in
      let (r5, r6) = ⨟-ok (refuse _ _) _ s4 in
      (
        socket,
        own,
        resolved,
        is_socket,
        is_own,
        is_resolved,
        refuse_ok _ _ r1,
        refuse_ok _ _ r2,
        refuse_ok _ _ r3,
        refuse_ok _ _ r4,
        refuse_ok _ _ r5,
        refuse_ok _ _ r6,
      )

  validate_mount_policy_ok :
      (p : SandboxPolicy)
      → validate_mount_policy t h p home d ≡ ok tt
      → All (λ m. IsMountable m.0) (mounts p)
  unfolding validate_mount_policy
  validate_mount_policy_ok p done =
      let (socket, is_socket, rest) =
        with_path_ok (h.resolve false "/var/run/docker.sock" d) _ done in
      let (own, is_own, checks) = with_path_ok (h.resolve false home d) _ rest in
      All-map (λ m. check_mount t h d socket own m ≡ ok tt) (λ m. IsMountable m.0)
        (check_mount-IsMountable socket own is_socket is_own) (mounts p)
        (each_ok (check_mount t h d socket own) (mounts p) checks)

  check_environment_ok :
      (e : String × String) → check_environment t e ≡ ok tt → has_secret_name t e.0 ≡ false
  check_environment_ok (key, value) done =
      let (r1, r2) = ⨟-ok (refuse _ _) _ done in refuse_ok _ _ r2

  check_ports_ok : (q : ℕ × ℕ) → check_ports t q ≡ ok tt → IsPort q.0 × IsPort q.1
  check_ports_ok (host_port, container_port) done =
      let inside : (not (is_port host_port && is_port container_port)) ≡ false =
        refuse_ok _ _ done in
      (
        is_port-IsPort host_port (ground (arith, inside)),
        is_port-IsPort container_port (ground (arith, inside)),
      )

  positive_limits :
      (cpus : Bool) (pids files : ℕ)
      → (not cpus || pids == 0 || files == 0) ≡ false
      → (1 ≤ pids) × (1 ≤ files) × (cpus ≡ true)
  positive_limits cpus pids files e = (ground (arith, e), ground (arith, e), ground (arith, e))

  pub validate_sandbox_policy-IsAccepted :
      (p : SandboxPolicy) (require_network : Bool)
      → validate_sandbox_policy t h p home require_network d ≡ ok tt
      → IsAccepted p
  unfolding validate_sandbox_policy
  validate_sandbox_policy-IsAccepted p require_network done =
      let (r1, s1) = ⨟-ok (check_names t h p) _ done in
      let (r3, s3) = ⨟-ok (check_limits t h p) _ s1 in
      let (r5, s5) = ⨟-ok (check_required t h p require_network) _ s3 in
      let (r6, s6) = ⨟-ok (check_network_name t h p.network_name) _ s5 in
      let (r7, s7) = ⨟-ok (check_profile t h d p.seccomp_profile) _ s6 in
      let (r8, s8) = ⨟-ok (validate_mount_policy t h p home d) _ s7 in
      let (r9, s9) = ⨟-ok (check_destinations t [] (mounts p)) _ s8 in
      let (r10, s10) = ⨟-ok (each (check_commas t) (mounts p)) _ s9 in
      let (r11, r12) = ⨟-ok (each (check_environment t) p.environment) _ s10 in
      let (pids, files, cpus) =
        positive_limits (t.is_positive p.cpus) p.pids_limit p.nofile_limit (refuse_ok _ _ r3) in
      (
        validate_mount_policy_ok p r8,
        (check_destinations-AreDistinct t [] (mounts p) r9).1,
        All-map (λ e. check_environment t e ≡ ok tt) (λ e. has_secret_name t e.0 ≡ false)
            check_environment_ok p.environment (each_ok (check_environment t) p.environment r11),
        All-map (λ q. check_ports t q ≡ ok tt) (λ q. IsPort q.0 × IsPort q.1) check_ports_ok
            p.published_ports (each_ok (check_ports t) p.published_ports r12),
        pids,
        files,
        cpus,
      )
