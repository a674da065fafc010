-- ===== src/SafePaths/Roots.antt =====
-- safe_paths.py: the state after the tests of a root.
use notebook_launcher.Prelude.{◌≡◌, refl, String, not, ◌||◌, true}
use notebook_launcher.Action.{host_path_escape, pure, asks, raise_if, bind_keeps, ◌>>=◌, ◌>>◌}
use notebook_launcher.Action.Parts.{after_reader}
use notebook_launcher.SafePaths.{
  HostPaths, RootIdentity, same_identity, checked_root, root_identity, validate_root_identity,
}

-- Reading the identity of a root changes nothing.
pub root_identity_keeps :
    {D : Type 0} (h : HostPaths D) (root : String) (d : D) → (root_identity h root d).1 ≡ d
unfolding root_identity
root_identity_keeps h root d =
    after_reader (λ p. p.1 ≡ d) (checked_root h root) d (asks (h.stat root)) refl (λ e q. refl)
      (λ info q.
        bind_keeps (λ s. s ≡ d)
          (raise_if (not info.is_directory || h.is_reparse_point root d) host_path_escape)
          (λ _. pure info.identity) d refl (λ _. refl))

pub validate_root_identity_keeps :
    {D : Type 0} (h : HostPaths D) (root : String) (expected : RootIdentity) (d : D)
    → (validate_root_identity h root expected d).1 ≡ d
unfolding validate_root_identity
validate_root_identity_keeps h root expected d =
    after_reader (λ p. p.1 ≡ d)
      (λ canonical. root_identity h canonical >>= λ current.
        raise_if (not (same_identity current expected)) host_path_escape >> pure canonical)
      d (asks (h.resolve true (h.expanduser root))) refl (λ e q. refl)
      (λ canonical q.
        after_reader (λ p. p.1 ≡ d)
          (λ current.
            raise_if (not (same_identity current expected)) host_path_escape >> pure canonical)
          d (root_identity h canonical) (root_identity_keeps h canonical d) (λ e q. refl)
          (λ current q.
            bind_keeps (λ s. s ≡ d)
              (raise_if (not (same_identity current expected)) host_path_escape)
              (λ _. pure canonical) d refl (λ _. refl)))
