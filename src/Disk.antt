-- ===== src/Disk.antt =====
-- src/config.rs: the files under the root of a deployment, and the locked writers of them. A call of
-- the system works or fails as `works` says for its number, so that each run of faults is possible.
pub mod Frames
pub mod Deployment
use singbox_sub_me.Prelude.{
  ℕ, suc, ◌≡◌, String, Bool, true, false, ◌&&◌, ◌||◌, not, Option, none, some, List, [], ◌∷◌, ◌==◌,
  str_eq, if◌then◌else◌, Result, ok, err,
}
use singbox_sub_me.Http.Texts.{split}
use singbox_sub_me.Config.{DeploymentConfig, ConfigError, starts_with}
use singbox_sub_me.Config.Validation.{LocalResult, validate}

-- The errors of `DeploymentStore`.
pub data StoreError : Type 0 where
  missing storage config_content unsafe_path : StoreError
  invalid : ConfigError → StoreError

pub record File (Bytes : Type 0) : Type 0 where
  pub contents : Bytes
  pub mode : ℕ

-- The files by their path under the root, the names of the rollback points, and the number of calls
-- of the system so far.
pub record Host (Bytes : Type 0) : Type 0 where
  pub files : String → Option (File Bytes)
  pub generations : List String
  pub calls : ℕ

-- What the program does not implement.
pub record System : Type 1 where
  pub Bytes : Type 0
  pub works : ℕ → Bool
  -- The same for the look-ups of `Path::exists`, which takes a failure for absence.
  pub looks : ℕ → Bool
  -- The root is `/`.
  pub live : Bool
  -- The account is in `etc/passwd`.
  pub user_exists : String → Bool
  pub sha256 : Bytes → String
  -- UTF-8 and `toml::from_str`
  pub parse_config : Bytes → Option DeploymentConfig
  pub is_ip : String → Bool
  pub is_zone : String → Bool
  pub resolve : String → String → Option LocalResult

abbrev pub Io : Type 0 → Type 0 → Type 0 → Type 0
Io Bytes E A = Host Bytes → Result E A × Host Bytes

abbrev pub rewrap : {E F A : Type 0} → (E → F) → Result E A → Result F A
rewrap f (ok a) = ok a
rewrap f (err e) = err (f e)

abbrev pub is_ok : {E A : Type 0} → Result E A → Bool
is_ok (ok a) = true
is_ok (err e) = false

module _ {Bytes : Type 0} where
  abbrev pub continue :
      {E A B : Type 0} → (A → Io Bytes E B) → Result E A × Host Bytes → Result E B × Host Bytes
  continue next (ok a, w) = next a w
  continue next (err e, w) = (err e, w)

  infixl 5 ◌>>=◌ ◌>>◌
  abbrev pub ◌>>=◌ : {E A B : Type 0} → Io Bytes E A → (A → Io Bytes E B) → Io Bytes E B
  ◌>>=◌ m next w = continue next (m w)

  abbrev pub ◌>>◌ : {E A B : Type 0} → Io Bytes E A → Io Bytes E B → Io Bytes E B
  ◌>>◌ m next w = continue (λ _. next) (m w)

  abbrev pub give : {E A : Type 0} → Result E A → Io Bytes E A
  give r w = (r, w)

  -- `map_err`, also where `?` converts
  abbrev pub map_err : {E F A : Type 0} → (E → F) → Io Bytes E A → Io Bytes F A
  map_err f m w = let (r, w') = m w in (rewrap f r, w')

  abbrev pub present : {E A : Type 0} → E → Option A → Io Bytes E A
  present e none = give (err e)
  present e (some a) = give (ok a)

  abbrev pub put : String → Option (File Bytes) → Host Bytes → Host Bytes
  put path file w = record w { files = λ other. if str_eq other path then file else w.files other }

abbrev pub contents_of : {Bytes : Type 0} → Option (File Bytes) → Option Bytes
contents_of none = none
contents_of (some file) = some file.contents

abbrev pub is_present : {Bytes : Type 0} → Option (File Bytes) → Bool
is_present none = false
is_present (some file) = true

abbrev pub private_mode : ℕ
private_mode = 0o600

abbrev pub program_mode : ℕ
program_mode = 0o755

abbrev pub is_parent : String → Bool
is_parent component = str_eq component ".."

abbrev pub any_parent : List String → Bool
any_parent [] = false
any_parent (component ∷ rest) = is_parent component || any_parent rest

-- The components of a Unix path: the root first if it starts with a slash.
unfoldable pub is_unsafe : String → Bool
is_unsafe relative = starts_with "/" relative || any_parent (split b'/' relative)

-- The account, and the mode, of `enforce_live_file_owner`.
unfoldable pub account_of : String → String × ℕ
account_of relative =
    if str_eq relative "etc/sing-box/config.json"
    then ("sing-box", 0o640)
    else if str_eq relative "usr/local/bin/sbctl" || str_eq relative "usr/local/bin/sing-box"
    then ("root", program_mode)
    else ("sbctl", private_mode)

module _ (system : System) where
  open system use {Bytes, works, looks, live, user_exists, parse_config, is_ip, is_zone, resolve}

  -- One call of the system, with what it does if it works.
  abbrev pub attempt : {E : Type 0} → E → (Host Bytes → Host Bytes) → Io Bytes E (Unit {0})
  attempt e effect w =
      let next = record w { calls = suc w.calls } in
      if works w.calls then (ok tt, effect next) else (err e, next)

  abbrev pub remode : ℕ → Option (File Bytes) → Option (File Bytes)
  remode mode none = none
  remode mode (some file) = some (record { contents = file.contents; mode = mode })

  -- `fs::set_permissions`
  unfoldable pub set_permissions : {E : Type 0} → E → String → ℕ → Io Bytes E (Unit {0})
  set_permissions e path mode = attempt e (λ w. put path (remode mode (w.files path)) w)

  -- Everything up to the rename, which is where a reader sees the new file.
  unfoldable pub atomic_write : String → Bytes → Io Bytes StoreError (Unit {0})
  atomic_write path contents =
      attempt storage (put path (some (record { contents = contents; mode = private_mode })))

  unfoldable pub set_owner : String → ℕ → Io Bytes StoreError (Unit {0})
  set_owner path mode = do attempt storage (λ w. w); set_permissions storage path mode

  unfoldable pub enforce_live_file_owner : String → Io Bytes StoreError (Unit {0})
  enforce_live_file_owner path =
      let (user, mode) = account_of path in
      if not live
      then give (ok tt)
      else if not (user_exists user)
      then give (ok tt)
      else set_owner path mode

  unfoldable pub safe_managed_path : String → Io Bytes StoreError (Unit {0})
  safe_managed_path relative = give (if is_unsafe relative then err unsafe_path else ok tt)

  unfoldable pub write_relative_locked : String → Bytes → Io Bytes StoreError (Unit {0})
  write_relative_locked relative contents = do
    safe_managed_path relative
    atomic_write relative contents
    enforce_live_file_owner relative

  unfoldable pub write_root_only_locked : String → Bytes → Io Bytes StoreError (Unit {0})
  write_root_only_locked relative contents = do
    safe_managed_path relative
    atomic_write relative contents
    if live then set_owner relative private_mode else give (ok tt)

  -- `fs::read`: none if there is no such file.
  unfoldable pub read : {E : Type 0} → E → String → Io Bytes E (Option Bytes)
  read e path w =
      let next = record w { calls = suc w.calls } in
      if works w.calls then (ok (contents_of (w.files path)), next) else (err e, next)

  -- `path.exists()`
  abbrev pub exists : {E : Type 0} → String → Io Bytes E Bool
  exists path w =
      (ok (looks w.calls && is_present (w.files path)), record w { calls = suc w.calls })

  unfoldable pub remove_file : String → Io Bytes StoreError (Unit {0})
  remove_file path = attempt storage (put path none)

  abbrev pub config_path : String
  config_path = "etc/sbctl/config.toml"

  abbrev pub checked_config : DeploymentConfig → Io Bytes StoreError DeploymentConfig
  checked_config config = do
    give (rewrap invalid (validate is_ip is_zone resolve config))
    give (ok config)

  abbrev pub decoded_config : Bytes → Io Bytes StoreError DeploymentConfig
  decoded_config contents = do
    config ← present config_content (parse_config contents)
    checked_config config

  -- `DeploymentStore::load`
  unfoldable pub load : Io Bytes StoreError DeploymentConfig
  load = do
    file ← read storage config_path
    contents ← present missing file
    decoded_config contents
