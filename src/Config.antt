-- ===== src/Config.antt =====
-- internal/config: the files of the data directory and what they hold. A file's text enters as
-- what decoding it gives; encoding and decoding one value is taken to give the value back.
pub mod Atomic
pub mod Updates
pub mod Migrate
pub mod Recovery
pub mod Idempotent
pub mod Unpair
mod Tests
use seawise_client.Prelude.{
  Bool, true, false, not, Option, none, some, List, [], if◌then◌else◌, ℤ, is_empty,
}
use seawise_client.Prelude.Bytes.{Bytes, lit}

pub data Error : Type 0 where
  read_failed write_failed generate_failed : Error
  machine_id_required server_id_required frp_token_required : Error
  duplicate_service_name unknown_local_id : Error
  remote_failed nil_client delete_failed : Error

pub record LocalService : Type 0 where
  pub local_id : Bytes
  pub name : Bytes
  pub host : Bytes
  pub port : ℤ
  pub icon_url : Bytes
  pub server_service_id : Bytes
  pub subdomain : Bytes
  pub disabled : Bool

pub record Machine : Type 0 where
  pub machine_id : Bytes
  pub machine_name : Bytes
  pub services : List LocalService

-- The fields that Config and Account share; the two types hold the same values.
pub record Account : Type 0 where
  pub server_id : Bytes
  pub server_name : Bytes
  pub frp_token : Bytes
  pub frp_server_addr : Bytes
  pub frp_server_port : ℤ
  pub frp_use_tls : Bool
  pub api_url : Bytes
  pub user_id : Bytes
  pub user_email : Bytes

-- `corrupt` is a file that is there and cannot be read or decoded.
pub data File (A : Type 0) : Type 0 where
  missing corrupt : File A
  holds : A → File A

unfoldable pub exists : {A : Type 0} → File A → Bool
exists missing = false
exists corrupt = true
exists (holds a) = true

unfoldable pub load : {A : Type 0} → File A → Option A
load missing = none
load corrupt = none
load (holds a) = some a

-- How an atomic write ends: done, failed with the old file in place, or failed after the rename.
pub data Write : Type 0 where
  written refused renamed : Write

unfoldable pub write_file : {A : Type 0} → Write → A → File A → Option Error × File A
write_file written a f = (none, holds a)
write_file refused a f = (some write_failed, f)
write_file renamed a f = (some write_failed, holds a)

unfoldable pub save_machine : Write → Machine → File Machine → Option Error × File Machine
unfolding write_file
save_machine w m f =
    if is_empty m.machine_id then (some machine_id_required, f) else write_file w m f

unfoldable pub save_account : Write → Account → File Account → Option Error × File Account
unfolding write_file
save_account w a f =
    if is_empty a.server_id
    then (some server_id_required, f)
    else if is_empty a.frp_token
    then (some frp_token_required, f)
    else write_file w a f

-- UpdateMachine: the change of the loaded machine may fail, and is saved if it does not.
pub data Change : Type 0 where
  changed : Machine → Change
  failed : Error → Change

unfoldable pub update_machine :
    Write → (Machine → Change) → File Machine → Option Error × File Machine
unfolding save_machine load
update_machine w change f = elim (load f) [
  | none ↦ (some read_failed, f)
  | some m ↦ elim (change m) [ failed e ↦ (some e, f) | changed m' ↦ save_machine w m' f ]
]

-- The three files.
pub record Disk : Type 0 where
  pub machine : File Machine
  pub account : File Account
  pub legacy : File Account

-- GetAPIURL; `env` is SEAWISE_API_URL.
unfoldable pub get_api_url : Option Account → Bytes → Bytes
get_api_url cfg env =
    let fallback = if not (is_empty env) then env else lit "https://api.seawise.io" in
    elim cfg [ none ↦ fallback | some c ↦ if not (is_empty c.api_url) then c.api_url else fallback ]

-- What Config.Save takes from outside: the fresh machine id, and how its two writes end.
pub record Saving : Type 0 where
  pub fresh_id : Option Bytes
  pub machine_write : Write
  pub account_write : Write

unfoldable pub save_config_account : Write → Account → Disk → Option Error × Disk
unfolding save_account
save_config_account w c d =
    let (e, account) = save_account w c d.account in (e, record d { account = account })

unfoldable pub save_config : Saving → Account → Disk → Option Error × Disk
unfolding save_config_account exists
save_config s c d =
    if exists d.machine then save_config_account s.account_write c d else elim s.fresh_id [
      | none ↦ (some generate_failed, d)
      | some id ↦
          let m : Machine = record {
            machine_id = id;
            machine_name = c.server_name;
            services = [];
          } in
          let (e, machine) = save_machine s.machine_write m d.machine in
          let d' : Disk = record d { machine = machine } in
          elim e [ some err ↦ (some err, d') | none ↦ save_config_account s.account_write c d' ]
    ]

-- DeleteAccount; the flag says whether os.Remove succeeds on a file that is there.
unfoldable pub delete_account : Bool → File Account → Option Error × File Account
delete_account ok missing = (none, missing)
delete_account ok f = if ok then (none, missing) else (some delete_failed, f)
