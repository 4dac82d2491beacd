-- ===== src/Backup/Validate.antt =====
-- internal/backup/validate.go: the checks of channels and schedules, and what happens to their secrets.
use kwrt_net_manager.Prelude.{
  ◌≡◌, refl, Bool, false, ◌||◌, not, Option, none, some, [], Str, str_eq, is_empty, is_neg,
  if◌then◌else◌, arith,
}
use kwrt_net_manager.Go.Strings.{trim_space, trim_left, trim_right}
use kwrt_net_manager.Backup.{Channel, S3Config, WebDavConfig, Schedule, kind_s3, kind_webdav}

pub data BackupErr : Type 0 where
  no_name no_s3 no_endpoint no_bucket no_webdav no_base_url bad_kind no_channel bad_cron
        negative_retention :
      BackupErr

abbrev pub blank : Str → Bool
blank s = is_empty (trim_space s)

abbrev pub s3_error : Option S3Config → Option BackupErr
s3_error none = some no_s3
s3_error (some c) =
    if blank c.endpoint then some no_endpoint else if blank c.bucket then some no_bucket else none

abbrev pub webdav_error : Option WebDavConfig → Option BackupErr
webdav_error none = some no_webdav
webdav_error (some c) = if blank c.base_url then some no_base_url else none

-- `ValidateChannel`; `none` is nil.
unfoldable pub validate_channel : Channel → Option BackupErr
validate_channel ch =
    if blank ch.name
    then some no_name
    else if str_eq ch.kind kind_s3
    then s3_error ch.s3
    else if str_eq ch.kind kind_webdav
    then webdav_error ch.webdav
    else some bad_kind

-- `ValidateSchedule`; `parses` is whether the cron library reads the expression.
unfoldable pub validate_schedule : (Str → Bool) → Schedule → Option BackupErr
validate_schedule parses s =
    if blank s.name
    then some no_name
    else if blank s.channel_id
    then some no_channel
    else if blank s.cron || not (parses s.cron)
    then some bad_cron
    else if is_neg s.retention
    then some negative_retention
    else none

abbrev pub merge_s3 : Option S3Config → Option S3Config → Option S3Config
merge_s3 (some old) (some new) = some (
    if blank new.secret_access_key
    then record new { secret_access_key = old.secret_access_key }
    else new)
merge_s3 _ new = new

abbrev pub merge_webdav : Option WebDavConfig → Option WebDavConfig → Option WebDavConfig
merge_webdav (some old) (some new) =
    some (if blank new.password then record new { password = old.password } else new)
merge_webdav _ new = new

-- `MergeChannelSecrets`
unfoldable pub merge_channel_secrets : Channel → Channel → Channel
merge_channel_secrets old new = record new {
  s3 = merge_s3 old.s3 new.s3;
  webdav = merge_webdav old.webdav new.webdav;
}

-- `NormalizeChannel`
unfoldable pub normalize_channel : Channel → Channel
normalize_channel c =
    if str_eq c.kind kind_s3
    then record c { webdav = none }
    else if str_eq c.kind kind_webdav
    then record c { s3 = none }
    else c

abbrev pub redact_s3 : Option S3Config → Option S3Config
redact_s3 none = none
redact_s3 (some c) = some (record c { secret_access_key = [] })

abbrev pub redact_webdav : Option WebDavConfig → Option WebDavConfig
redact_webdav none = none
redact_webdav (some c) = some (record c { password = [] })

-- `RedactSecrets`
unfoldable pub redact_secrets : Channel → Channel
redact_secrets c = record c { s3 = redact_s3 c.s3; webdav = redact_webdav c.webdav }

abbrev pub s3_secret : Option S3Config → Bool
s3_secret none = false
s3_secret (some c) = not (blank c.secret_access_key)

abbrev pub webdav_secret : Option WebDavConfig → Bool
webdav_secret none = false
webdav_secret (some c) = not (blank c.password)

-- `HasSecret`
unfoldable pub has_secret : Channel → Bool
has_secret c =
    if str_eq c.kind kind_s3
    then s3_secret c.s3
    else if str_eq c.kind kind_webdav
    then webdav_secret c.webdav
    else false

merge-redact_s3 : (s : Option S3Config) → merge_s3 s (redact_s3 s) ≡ s
unfolding trim_space trim_left trim_right
merge-redact_s3 none = refl
merge-redact_s3 (some c) = refl

merge-redact_webdav : (w : Option WebDavConfig) → merge_webdav w (redact_webdav w) ≡ w
unfolding trim_space trim_left trim_right
merge-redact_webdav none = refl
merge-redact_webdav (some c) = refl

-- No configuration of either kind holds a secret.
pub record IsBare (c : Channel) : Type 0 where
  pub no_key : (s : S3Config) → c.s3 ≡ some s → s.secret_access_key ≡ []
  pub no_password : (w : WebDavConfig) → c.webdav ≡ some w → w.password ≡ []

redact_s3-bare :
    (o : Option S3Config) (s : S3Config) → redact_s3 o ≡ some s → s.secret_access_key ≡ []
redact_s3-bare none s e = absurd (ground arith)
redact_s3-bare (some c) s e = ground arith

redact_webdav-bare :
    (o : Option WebDavConfig) (w : WebDavConfig) → redact_webdav o ≡ some w → w.password ≡ []
redact_webdav-bare none w e = absurd (ground arith)
redact_webdav-bare (some c) w e = ground arith

redact_s3-secret : (s : Option S3Config) → s3_secret (redact_s3 s) ≡ false
unfolding trim_space trim_left trim_right
redact_s3-secret none = refl
redact_s3-secret (some c) = refl

redact_webdav-secret : (w : Option WebDavConfig) → webdav_secret (redact_webdav w) ≡ false
unfolding trim_space trim_left trim_right
redact_webdav-secret none = refl
redact_webdav-secret (some c) = refl

has_secret-redact_secrets : (c : Channel) → has_secret (redact_secrets c) ≡ false
unfolding has_secret redact_secrets
has_secret-redact_secrets c = ground (arith, redact_s3-secret c.s3, redact_webdav-secret c.webdav)

-- A redacted channel holds no secret in either of its configurations, whatever its kind, and none
-- by the test for one, and merging the redacted channel into the stored one gives the stored one
-- back.
pub merge_channel_secrets-redact_secrets :
    (c : Channel)
    → (merge_channel_secrets c (redact_secrets c) ≡ c)
      × IsBare (redact_secrets c)
      × (has_secret (redact_secrets c) ≡ false)
unfolding merge_channel_secrets redact_secrets
merge_channel_secrets-redact_secrets c =
    let bare : IsBare (redact_secrets c) = record {
      no_key = redact_s3-bare c.s3;
      no_password = redact_webdav-bare c.webdav;
    } in
    (
      rw (merge-redact_s3 c.s3, merge-redact_webdav c.webdav) refl,
      bare,
      has_secret-redact_secrets c,
    )
