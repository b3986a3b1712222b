-- ===== src/Update/Deploying.antt =====
-- Deploying an update (update.go): when it counts as deployed, and how often it is tried.
use p2p_update.Common.{
  ℕ, suc, ◌+◌, ◌≤◌, ◌≡◌, ◌≢◌, ◌↔◌, ◌⊎◌, refl, true, List, [], ◌∷◌, arith, Text, All, if◌then◌else◌,
  ltb, bytes_eq, bytes_equal_iff, length, ap, ◌∙◌, inl, inr, Bool-cases,
}
use p2p_update.Update.{
  System, Update, apk_deployer, shell_deployer, deploy_on, deploy_with, deploy_shell, deploy,
  uuid_apk, uuid_shell, shell_execution_timeout,
}
use Prim.Native.Nat.{min}

counts : (f n : ℕ) → f ≤ 6 → min 6 ((if ltb 5 f then f else f + 1) + n) ≡ min 6 (f + suc n)
counts f n h = elim (Bool-cases (ltb 5 f)) [
  | inl full ↦ rw full (ground arith)
  | inr more ↦ rw more (omega arith)
]

module _ (sys : System) (data_dir : Text) where
  abbrev pub ShellAccepts : Text → Type 0
  ShellAccepts f = deploy_shell sys (sys.join data_dir f) shell_execution_timeout ≡ true

  deploy_with-shell_iff :
      (files : List Text)
      → (deploy_with sys data_dir files shell_deployer ≡ true) ↔ All ShellAccepts files
  unfolding deploy_with deploy_on
  deploy_with-shell_iff [] = (λ h. tt, λ h. refl)
  deploy_with-shell_iff (f ∷ fs) = ground (arith, deploy_with-shell_iff fs)

  deploy_with-apk_iff :
      (files : List Text) → (deploy_with sys data_dir files apk_deployer ≡ true) ↔ (files ≡ [])
  unfolding deploy_with deploy_on
  deploy_with-apk_iff [] = (λ h. refl, λ h. refl)
  deploy_with-apk_iff (f ∷ fs) = ground arith

  -- At a time other than the recorded one, a deployment records that time exactly when no more
  -- than five attempts have failed and the update is a shell update all of whose files the shell
  -- deployer accepts, or an APK update with no file.
  pub deploy-deployed_iff :
      (files : List Text) (now : ℕ) (u : Update)
      → u.deployed ≢ now
      → ((deploy sys data_dir files now u).deployed ≡ now) ↔ (
          (u.deploy_fails ≤ 5)
          × (((u.notification.uuid ≡ uuid_shell) × All ShellAccepts files)
              ⊎ ((u.notification.uuid ≡ uuid_apk) × (files ≡ []))))
  unfolding deploy
  deploy-deployed_iff files now u fresh = ground (
    arith,
    bytes_equal_iff u.notification.uuid uuid_apk,
    bytes_equal_iff u.notification.uuid uuid_shell,
    deploy_with-shell_iff files,
    deploy_with-apk_iff files,
  )

  -- The deployments that a monitor tries at the given times.
  pub deploy_rounds : List Text → List ℕ → Update → Update
  deploy_rounds files [] u = u
  deploy_rounds files (now ∷ times) u = deploy_rounds files times (deploy sys data_dir files now u)

  deploy-unknown :
      (files : List Text) (now : ℕ) (u : Update)
      → u.notification.uuid ≢ uuid_apk
      → u.notification.uuid ≢ uuid_shell
      → deploy sys data_dir files now u ≡ record u {
        deploy_fails = if ltb 5 u.deploy_fails then u.deploy_fails else u.deploy_fails + 1;
      }
  unfolding deploy
  deploy-unknown files now u a s = ground (
    arith,
    bytes_equal_iff u.notification.uuid uuid_apk,
    bytes_equal_iff u.notification.uuid uuid_shell,
  )

  -- However often the deployment of an update with another UUID than the two known ones is tried,
  -- every try counts as a failure until there are six, and then no more are made: only the counter
  -- of failures changes, and it ends at the smaller of six and what it was and the tries together.
  pub deploy_rounds-unknown :
      (files : List Text) (times : List ℕ) (u : Update)
      → u.notification.uuid ≢ uuid_apk
      → u.notification.uuid ≢ uuid_shell
      → u.deploy_fails ≤ 6
      → deploy_rounds files times u
        ≡ record u { deploy_fails = min 6 (u.deploy_fails + length times) }
  unfolding deploy_rounds
  deploy_rounds-unknown files [] u a s h = ground arith
  deploy_rounds-unknown files (now ∷ times) u a s h =
      let fails = if ltb 5 u.deploy_fails then u.deploy_fails else u.deploy_fails + 1 in
      let u' = record u { deploy_fails = fails } in
      let few : fails ≤ 6 = ground arith in
      ap (deploy_rounds files times) (deploy-unknown files now u a s)
      ∙ (deploy_rounds-unknown files times u' a s few
          ∙ ap (λ (k : ℕ). record u { deploy_fails = k }) (counts u.deploy_fails (length times) h))

  -- A deployment leaves at most six failures on the counter, whatever it does, and changes nothing
  -- but the counter and the time.
  pub deploy_frame :
      (files : List Text) (now : ℕ) (u : Update)
      → u.deploy_fails ≤ 6
      → ((deploy sys data_dir files now u).deploy_fails ≤ 6)
        × (deploy sys data_dir files now u ≡ record u {
          deployed = (deploy sys data_dir files now u).deployed;
          deploy_fails = (deploy sys data_dir files now u).deploy_fails;
        })
  unfolding deploy
  deploy_frame files now u h = (ground arith, ground arith)
