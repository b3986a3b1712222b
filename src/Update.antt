-- ===== src/Update.antt =====
-- update.go: the data of an update and its deployment. The life cycle that involves the agent
-- (Start, Stop, Delete, monitor) is in Agent.antt.
use p2p_update.Common.{
  ℕ, ◌+◌, ◌≡◌, Bool, true, false, not, ◌&&◌, Option, none, some, List, [], ◌∷◌, ◌++◌, Text, codes,
  if◌then◌else◌, ltb, ◌==◌, bytes_eq,
}
use p2p_update.Notification.{Notification}
pub mod Deploying
pub mod Unzipping
mod Tests

abbrev pub uuid_apk : Text
uuid_apk = codes "5ee3a38d-a8dc-514e-9c74-42ab160648aa"

abbrev pub uuid_shell : Text
uuid_shell = codes "f5adf0cb-b0e1-5a22-97f1-09092f566438"

abbrev pub deploy_fails_limit : ℕ
deploy_fails_limit = 5

abbrev pub shell_execution_timeout : ℕ
shell_execution_timeout = 600

-- A torrent is the handle of an object of the torrent library. A time is in seconds, the zero time
-- being 0.
pub record Update : Type 0 where
  pub notification : Notification
  pub deployed : ℕ
  pub source : Text
  pub stopped : Bool
  pub sent : Bool
  pub deploy_fails : ℕ
  pub missing : ℕ
  pub torrent : Option ℕ

unfoldable pub new_update : Notification → Update
new_update n = record {
  notification = n;
  deployed = 0;
  source = [];
  stopped = true;
  sent = false;
  deploy_fails = 0;
  missing = 0;
  torrent = none;
}

-- An entry of an archive, with what the calls of the operating system for it return.
pub record ZipEntry : Type 0 where
  pub name : Text
  pub is_dir : Bool
  pub opens : Bool
  pub parent_made : Bool
  pub file_opened : Bool
  pub copied : Bool

-- The operating system, the path functions and the clock, as update.go calls them.
pub record System : Type 0 where
  pub join : Text → Text → Text
  pub lower_ext : Text → Text
  pub temp_dir : Text
  -- os.Stat: an error, or whether it is a directory
  pub stat : Text → Option Bool
  -- starting `/bin/sh script`, and waiting for it with a timer of so many seconds that kills it
  pub start_shell : Text → Bool
  pub wait_shell : Text → ℕ → Bool
  -- zip.OpenReader
  pub open_zip : Text → Option (List ZipEntry)
  -- the year of a time
  pub year : ℕ → ℕ

pub data Deployer : Type 0 where
  apk_deployer shell_deployer : Deployer

module _ (sys : System) where
  -- The loop of `Unzip`: the names so far, and whether it returned without an error.
  unfoldable pub unzip_entries : Text → List ZipEntry → List Text → List Text × Bool
  unzip_entries dest [] names = (names, true)
  unzip_entries dest (f ∷ fs) names =
      let names' = names ++ sys.join dest f.name ∷ [] in
      let rest = unzip_entries dest fs names' in
      if not f.opens
      then (names, false)
      else if f.is_dir
      then rest
      else if not f.parent_made
      then (names', false)
      else if not f.file_opened
      then (names', false)
      else if not f.copied
      then (names', false)
      else rest

  unfoldable pub unzip : Text → Text → List Text × Bool
  unzip src dest = elim (sys.open_zip src) [
    | none ↦ ([], false)
    | some fs ↦ unzip_entries dest fs []
  ]

  unfoldable pub deploy_file : Text → ℕ → Bool
  deploy_file filename d =
      if not (sys.start_shell filename) then false else sys.wait_shell filename d

  unfoldable pub deploy_dir : Text → ℕ → Bool
  deploy_dir filename d =
      let main = filename ++ codes "/main.sh" in
      elim (sys.stat main) [ none ↦ false | some _ ↦ deploy_file main d ]

  unfoldable pub deploy_zip : Text → ℕ → Bool
  deploy_zip filename d =
      let dir = sys.join sys.temp_dir filename in
      if not (unzip filename dir).1 then false else deploy_dir dir d

  unfoldable pub deploy_shell : Text → ℕ → Bool
  deploy_shell filename d = elim (sys.stat filename) [
    | none ↦ false
    | some is_dir ↦
        if is_dir
        then deploy_dir filename d
        else if sys.lower_ext filename == codes ".zip"
        then deploy_zip filename d
        else deploy_file filename d
  ]

  -- ApkDeployer.deploy is not implemented and returns an error.
  unfoldable pub deploy_on : Deployer → Text → ℕ → Bool
  deploy_on apk_deployer filename d = false
  deploy_on shell_deployer filename d = deploy_shell filename d

  -- deployWith: the files of the torrent in turn, up to the first that fails.
  unfoldable pub deploy_with : Text → List Text → Deployer → Bool
  deploy_with data_dir [] d = true
  deploy_with data_dir (f ∷ fs) d =
      if not (deploy_on d (sys.join data_dir f) shell_execution_timeout)
      then false
      else deploy_with data_dir fs d

  abbrev pub finish_deploy : ℕ → Update → Bool → Update
  finish_deploy now u false = record u { deploy_fails = u.deploy_fails + 1 }
  finish_deploy now u true = record u { deploy_fails = 0; deployed = now }

  unfoldable pub deploy : Text → List Text → ℕ → Update → Update
  deploy data_dir files now u =
      if ltb deploy_fails_limit u.deploy_fails
      then u
      else if u.notification.uuid == uuid_apk
      then finish_deploy now u (deploy_with data_dir files apk_deployer)
      else if u.notification.uuid == uuid_shell
      then finish_deploy now u (deploy_with data_dir files shell_deployer)
      else record u { deploy_fails = u.deploy_fails + 1 }
