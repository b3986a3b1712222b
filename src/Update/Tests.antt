-- ===== src/Update/Tests.antt =====
-- Tests of Update.antt.
use p2p_update.Common.{◌≤◌, ◌≡◌, ◌↔◌, ◌⊎◌, refl, List, [], ◌∷◌, arith, Text, codes, All}
use p2p_update.Update.{
  uuid_apk, uuid_shell, deploy, deploy_with, deploy_on, deploy_shell, deploy_file,
}
use p2p_update.Update.Deploying.{ShellAccepts, deploy-deployed_iff}
use p2p_update.Fixtures.{toy_system, shell_update}

abbrev files : List Text
files = codes "update.sh" ∷ []

deployed_test : (deploy toy_system (codes "update") files 9 (shell_update 3)).deployed ≡ 9
unfolding deploy deploy_with deploy_on deploy_shell deploy_file
deployed_test = refl

deploy-deployed_iff_example :
    ((deploy toy_system (codes "update") files 9 (shell_update 3)).deployed ≡ 9) ↔ (
      (0 ≤ 5)
      × (((uuid_shell ≡ uuid_shell) × All (ShellAccepts toy_system (codes "update")) files)
          ⊎ ((uuid_shell ≡ uuid_apk) × (files ≡ []))))
deploy-deployed_iff_example =
    deploy-deployed_iff toy_system (codes "update") files 9 (shell_update 3) (omega arith)
