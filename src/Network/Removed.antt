-- ===== src/Network/Removed.antt =====
-- network.py: what `remove` runs, by what the inspection and the removal of the network answer.
use notebook_launcher.Prelude.{
  ◌≡◌, ◌≢◌, ◌⊎◌, String, true, false, some, List, [], ◌∷◌, ◌++◌, ◌==◌, str_eq, arith, refl, ap, ◌∙◌,
  eq_iff, Bool-cases, Option-cases, inl, inr,
}
use notebook_launcher.Action.{is_ok, Result-cases}
use notebook_launcher.Network.Rules.{
  Command, Texts, FirewallPlan, docker_network_inspect_argv, network_plan_identity, removal_argv,
}
use notebook_launcher.Network.Applier.{
  CommandResult, Runner, run, remove, remove_each, remove_owned_network, remove_verified_network,
  inspect_network_identity, identity_of, cleanup_target_absent,
}
use notebook_launcher.Network.Checked.{append_assoc}
use notebook_launcher.Network.Removal.{is_gone, remove_each_runs}

module _ (texts : Texts) (runner : Runner) where
  -- The network is there and has the label of the plan.
  abbrev pub IsOurs : FirewallPlan → List Command → String → Type 0
  IsOurs plan log id =
      (r : CommandResult) × (runner log (docker_network_inspect_argv texts plan) ≡ some r)
      × (r.returncode ≡ 0)
      × (texts.tab_fields r.stdout ≡ id ∷ network_plan_identity texts plan ∷ [])
      × (texts.is_network_id id ≡ true)

  abbrev pub IsAbsent : FirewallPlan → List Command → Type 0
  IsAbsent plan log =
      let inspect = docker_network_inspect_argv texts plan in
      (r : CommandResult) × (runner log inspect ≡ some r)
      × (r.returncode ≢ 0)
      × (cleanup_target_absent texts runner inspect r ≡ true)

  abbrev pub rm : String → Command
  rm id = "docker" ∷ "network" ∷ "rm" ∷ id ∷ []

  -- The commands of a removal: the network, if it is the plan's, and then, unless that was refused,
  -- all that is on the two chains.
  abbrev pub IsRemoval : FirewallPlan → List Command → List Command → Type 0
  IsRemoval plan log tail =
      let inspect = docker_network_inspect_argv texts plan in
      let log' = log ++ inspect ∷ [] in
      (IsAbsent plan log × (tail ≡ inspect ∷ removal_argv texts plan))
      ⊎ (((id : String) × IsOurs plan log id
            × (is_gone texts runner (rm id) (runner log' (rm id)) ≡ true)
            × (tail ≡ inspect ∷ rm id ∷ removal_argv texts plan))
          ⊎ (((id : String) × IsOurs plan log id
                × (is_gone texts runner (rm id) (runner log' (rm id)) ≡ false)
                × (tail ≡ inspect ∷ rm id ∷ []))
              ⊎ ((¬ IsAbsent plan log)
                  × (¬ ((id : String) × IsOurs plan log id))
                  × (tail ≡ inspect ∷ []))))

  -- Two fields of a listing, of which the first is an id.
  identity-fields :
      (fields : List String) (id label : String)
      → identity_of texts runner fields ≡ some (id, label)
      → (fields ≡ id ∷ label ∷ []) × (texts.is_network_id id ≡ true)
  identity-fields [] id label h = cc
  identity-fields (a ∷ []) id label h = cc
  identity-fields (a ∷ b ∷ []) id label h = elim (Bool-cases (texts.is_network_id a)) [
    | inl e ↦ (ground arith, ground arith)
    | inr e ↦ absurd (ground arith)
  ]
  identity-fields (a ∷ b ∷ c ∷ l) id label h = cc

  fields-identity :
      (fields : List String) (id label : String)
      → fields ≡ id ∷ label ∷ []
      → texts.is_network_id id ≡ true
      → identity_of texts runner fields ≡ some (id, label)
  fields-identity fields id label e h = rw e (ground arith)

  module _ (plan : FirewallPlan) (log : List Command) where
    abbrev inspect : Command
    inspect = docker_network_inspect_argv texts plan

    abbrev pub Removed : List Command → Type 0
    Removed log' = (tail : List Command) × (log' ≡ log ++ tail) × IsRemoval plan log tail

    chains :
        (done : List Command)
        → (remove_each texts runner (removal_argv texts plan) (log ++ done)).1
          ≡ log ++ (done ++ removal_argv texts plan)
    chains done =
        remove_each_runs texts runner (removal_argv texts plan) (log ++ done)
        ∙ append_assoc log done (removal_argv texts plan)

    -- Where the removal of the network raises, and where it does not.
    remove-raised :
        is_ok (remove_owned_network texts runner plan log).0 ≡ false
        → (remove texts runner plan log).1 ≡ (remove_owned_network texts runner plan log).1
    unfolding remove
    remove-raised h = ground (arith, Result-cases (remove_owned_network texts runner plan log).0)

    remove-went_on :
        is_ok (remove_owned_network texts runner plan log).0 ≡ true
        → (remove texts runner plan log).1
          ≡ (remove_each texts runner
              (removal_argv texts plan)
              (remove_owned_network texts runner plan log).1).1
    unfolding remove
    remove-went_on h = ground (arith, Result-cases (remove_owned_network texts runner plan log).0)

    ours_removed :
        (id : String) (r : CommandResult)
        → runner log inspect ≡ some r
        → (r.returncode == 0) ≡ true
        → identity_of texts runner (texts.tab_fields r.stdout)
          ≡ some (id, network_plan_identity texts plan)
        → let log' = log ++ inspect ∷ [] in
          (is_ok (remove_owned_network texts runner plan log).0
            ≡ is_gone texts runner (rm id) (runner log' (rm id)))
          × ((remove_owned_network texts runner plan log).1 ≡ log' ++ rm id ∷ [])
    unfolding remove_owned_network remove_verified_network inspect_network_identity run
    ours_removed id r e z f =
        let label = network_plan_identity texts plan in
        let same : str_eq label label ≡ true = (eq_iff label label).1 refl in
        elim (Option-cases (runner (log ++ inspect ∷ []) (rm id))) [
          | inl g ↦ (ground arith, ground arith)
          | inr (q, g) ↦ (
            ground (
              arith,
              Bool-cases (q.returncode == 0),
              Bool-cases (cleanup_target_absent texts runner (rm id) q),
            ),
            ground (
              arith,
              Bool-cases (q.returncode == 0),
              Bool-cases (cleanup_target_absent texts runner (rm id) q),
            ),
          )
        ]

    refused-Removed :
        is_ok (remove_owned_network texts runner plan log).0 ≡ false
        → (remove_owned_network texts runner plan log).1 ≡ log ++ inspect ∷ []
        → ¬ IsAbsent plan log
        → ¬ ((id : String) × IsOurs plan log id)
        → Removed (remove texts runner plan log).1
    refused-Removed raised left absent ours =
        (inspect ∷ [], remove-raised raised ∙ left, inr (inr (inr (absent, ours, refl))))

    absent-Removed :
        (r : CommandResult)
        → runner log inspect ≡ some r
        → (r.returncode == 0) ≡ false
        → cleanup_target_absent texts runner inspect r ≡ true
        → Removed (remove texts runner plan log).1
    unfolding remove_owned_network inspect_network_identity run
    absent-Removed r e z g = (
      inspect ∷ removal_argv texts plan,
      remove-went_on (ground arith) ∙ ground (arith, chains (inspect ∷ [])),
      inl ((r, e, ground arith, g), refl),
    )

    ours-Removed :
        (id : String) (r : CommandResult)
        → runner log inspect ≡ some r
        → (r.returncode == 0) ≡ true
        → identity_of texts runner (texts.tab_fields r.stdout)
          ≡ some (id, network_plan_identity texts plan)
        → Removed (remove texts runner plan log).1
    ours-Removed id r e z f =
        let log' = log ++ inspect ∷ [] in
        let (went, left) = ours_removed id r e z f in
        let (fields, is_id) =
          identity-fields (texts.tab_fields r.stdout) id (network_plan_identity texts plan) f in
        let ours : IsOurs plan log id = (r, e, ground arith, fields, is_id) in
        let there : log' ++ rm id ∷ [] ≡ log ++ inspect ∷ rm id ∷ [] =
          append_assoc log (inspect ∷ []) (rm id ∷ []) in
        elim (Bool-cases (is_gone texts runner (rm id) (runner log' (rm id)))) [
          | inl g ↦ (
            inspect ∷ rm id ∷ removal_argv texts plan,
            remove-went_on (went ∙ g)
                ∙ ap (λ l. (remove_each texts runner (removal_argv texts plan) l).1) (left ∙ there)
                ∙ chains (inspect ∷ rm id ∷ []),
            inr (inl (id, ours, g, refl)),
          )
          | inr g ↦ (
            inspect ∷ rm id ∷ [],
            remove-raised (went ∙ g) ∙ left ∙ there,
            inr (inr (inl (id, ours, g, refl))),
          )
        ]

    pub remove-Removed : Removed (remove texts runner plan log).1
    unfolding remove_owned_network inspect_network_identity run
    remove-Removed = elim (Option-cases (runner log inspect)) [
      | inl e ↦
          refused-Removed (ground arith) (ground arith) (λ (r, f, n, h). cc)
            (λ (id, (r, f, n, h, k)). cc)
      | inr (r, e) ↦ elim (Bool-cases (r.returncode == 0)) [
        | inr z ↦ elim (Bool-cases (cleanup_target_absent texts runner inspect r)) [
          | inl g ↦ absent-Removed r e z g
          | inr g ↦
              refused-Removed (ground arith) (ground arith) (λ (q, f, n, h). ground arith)
                (λ (id, (q, f, n, h, k)). ground arith)
        ]
        | inl z ↦ elim (Option-cases (identity_of texts runner (texts.tab_fields r.stdout))) [
          | inl g ↦
              refused-Removed (ground arith) (ground arith) (λ (q, f, n, h). ground arith)
                (λ (id, (q, f, n, h, k)). ground (
                  arith,
                  fields-identity (texts.tab_fields q.stdout) id (network_plan_identity texts plan)
                      h k,
                ))
          | inr ((id, label), g) ↦
              elim (Bool-cases (str_eq label (network_plan_identity texts plan))) [
                | inl h ↦ ours-Removed id r e z (
                    g
                    ∙ ap (λ l. some (id, l))
                        ((eq_iff label (network_plan_identity texts plan)).0 h))
                | inr h ↦
                    refused-Removed (ground arith) (ground arith) (λ (q, f, n, k). ground arith)
                      (λ (id', (q, f, n, k, m)). ground (
                        arith,
                        eq_iff label (network_plan_identity texts plan),
                        fields-identity (texts.tab_fields q.stdout) id'
                            (network_plan_identity texts plan) k m,
                      ))
              ]
        ]
      ]
    ]
