-- ===== src/Backup.antt =====
-- internal/backup/model.go: the records of the scheduled backups. The parts of the package are in the
-- children.
pub mod Validate
pub mod Path
pub mod Retention
pub mod Scheduler
use kwrt_net_manager.Prelude.{Bool, Option, Str, codes, is_empty, ℤ, if◌then◌else◌}
use kwrt_net_manager.Go.Strings.{trim_space}

pub record S3Config : Type 0 where
  pub endpoint : Str
  pub region : Str
  pub bucket : Str
  pub access_key_id : Str
  pub secret_access_key : Str
  pub prefix : Str
  pub use_ssl : Bool
  pub path_style : Bool

pub record WebDavConfig : Type 0 where
  pub base_url : Str
  pub username : Str
  pub password : Str
  pub prefix : Str

pub record Channel : Type 0 where
  pub id : Str
  pub name : Str
  pub kind : Str
  pub s3 : Option S3Config
  pub webdav : Option WebDavConfig
  pub created_at : ℤ
  pub updated_at : ℤ

pub record Schedule : Type 0 where
  pub id : Str
  pub name : Str
  pub enabled : Bool
  pub cron : Str
  pub channel_id : Str
  pub path_template : Str
  pub retention : ℤ
  pub created_at : ℤ
  pub updated_at : ℤ

pub record RunRecord : Type 0 where
  pub id : Str
  pub schedule_id : Str
  pub channel_id : Str
  pub trigger : Str
  pub status : Str
  pub started_at : ℤ
  pub finished_at : ℤ
  pub object_path : Str
  pub size_bytes : ℤ
  pub error : Str

abbrev pub kind_s3 : Str
kind_s3 = codes "s3"

abbrev pub kind_webdav : Str
kind_webdav = codes "webdav"

abbrev pub default_path_template : Str
default_path_template = codes "frpcmgr-backups/{schedule}/{year}/{month}/frpcmgr-{date}-{time}.zip"

unfoldable pub effective_template : Schedule → Str
effective_template s =
    if is_empty (trim_space s.path_template) then default_path_template else s.path_template
