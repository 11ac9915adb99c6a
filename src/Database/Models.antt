-- ===== src/Database/Models.antt =====
-- The models that the repository's modules keep in tables: their structs, `Fields`, `Values` and `Scan`
-- (modules/multitenancy/models.go, users.go and system_roles.go of modules/authentication,
-- modules/storage/blob.go and session/db/model.go). A time is a number, 0 where it is not set.
pub mod ReadBack
mod Tests
use tracks.Common.{
  ℕ, String, Bool, true, false, Option, none, some, List, [], ◌∷◌, map, nat_beq, if◌then◌else◌,
}
use mathlib.Core.Option
use tracks.Common.Int.{ℤ, pos, negsuc}
use tracks.Database.Repository.{ModelType, Model}

-- A value of a column. A column is read into a variable of its own type; a NULL only into a
-- `sql.NullString`.
pub data Column : Type 0 where
  text : String → Column
  number : ℤ → Column
  flag : Bool → Column
  time : ℕ → Column
  null : Column

pub record TenantRow : Type 0 where
  pub id : ℤ
  pub name : String
  pub subdomain : String
  pub custom_domain : String
  pub db_path : String
  pub plan_id : String
  pub active : Bool
  pub created_at : ℕ
  pub updated_at : ℕ

unfoldable pub tenant_type : ModelType
tenant_type = record {
  table_name = "tenants";
  fields =
      "name" ∷ "subdomain" ∷ "custom_domain" ∷ "db_path" ∷ "plan_id" ∷ "active" ∷ "created_at"
      ∷ "updated_at" ∷ [];
  has_auto_increment_id = true;
  domain_scoped = false;
}

unfoldable pub tenant_values : TenantRow → Model Column
tenant_values t = record {
  id = number t.id;
  values =
      text t.name
      ∷ text t.subdomain
      ∷ text t.custom_domain
      ∷ text t.db_path
      ∷ text t.plan_id
      ∷ flag t.active
      ∷ time t.created_at
      ∷ time t.updated_at
      ∷ [];
}

unfoldable pub scan_tenant : List Column → Option TenantRow
scan_tenant
      (number id
        ∷ text name
        ∷ text subdomain
        ∷ text custom_domain
        ∷ text db_path
        ∷ text plan_id
        ∷ flag active
        ∷ time created_at
        ∷ time updated_at
        ∷ []) =
    some (record {
      id = id;
      name = name;
      subdomain = subdomain;
      custom_domain = custom_domain;
      db_path = db_path;
      plan_id = plan_id;
      active = active;
      created_at = created_at;
      updated_at = updated_at;
    })
scan_tenant _ = none

pub record UserRoleRow : Type 0 where
  pub id : ℤ
  pub user_id : String
  pub tenant_id : ℤ
  pub role : String
  pub created_at : ℕ
  pub updated_at : ℕ

unfoldable pub user_role_type : ModelType
user_role_type = record {
  table_name = "user_roles";
  fields = "user_id" ∷ "tenant_id" ∷ "role" ∷ "created_at" ∷ "updated_at" ∷ [];
  has_auto_increment_id = true;
  domain_scoped = false;
}

unfoldable pub user_role_values : UserRoleRow → Model Column
user_role_values r = record {
  id = number r.id;
  values =
      text r.user_id
      ∷ number r.tenant_id
      ∷ text r.role
      ∷ time r.created_at
      ∷ time r.updated_at
      ∷ [];
}

unfoldable pub scan_user_role : List Column → Option UserRoleRow
scan_user_role
      (number id
        ∷ text user_id
        ∷ number tenant_id
        ∷ text role
        ∷ time created_at
        ∷ time updated_at
        ∷ []) =
    some (record {
      id = id;
      user_id = user_id;
      tenant_id = tenant_id;
      role = role;
      created_at = created_at;
      updated_at = updated_at;
    })
scan_user_role _ = none

-- `BeforeCreate` of both: the times that are not set are set to `now`.
unfoldable pub time_or_now : (now at : ℕ) → ℕ
time_or_now now at = if nat_beq at 0 then now else at

unfoldable pub before_create_tenant : ℕ → TenantRow → TenantRow
unfolding time_or_now
before_create_tenant now t = record t {
  created_at = time_or_now now t.created_at;
  updated_at = time_or_now now t.updated_at;
}

unfoldable pub before_create_user_role : ℕ → UserRoleRow → UserRoleRow
unfolding time_or_now
before_create_user_role now r = record r {
  created_at = time_or_now now r.created_at;
  updated_at = time_or_now now r.updated_at;
}

pub record SystemRoleRow : Type 0 where
  pub id : ℤ
  pub user_id : String
  pub role : String
  pub created_at : ℕ
  pub updated_at : ℕ

unfoldable pub system_role_type : ModelType
system_role_type = record {
  table_name = "system_roles";
  fields = "user_id" ∷ "role" ∷ "created_at" ∷ "updated_at" ∷ [];
  has_auto_increment_id = true;
  domain_scoped = false;
}

unfoldable pub system_role_values : SystemRoleRow → Model Column
system_role_values r = record {
  id = number r.id;
  values = text r.user_id ∷ text r.role ∷ time r.created_at ∷ time r.updated_at ∷ [];
}

unfoldable pub scan_system_role : List Column → Option SystemRoleRow
scan_system_role (number id ∷ text user_id ∷ text role ∷ time created_at ∷ time updated_at ∷ []) =
    some (record {
      id = id;
      user_id = user_id;
      role = role;
      created_at = created_at;
      updated_at = updated_at;
    })
scan_system_role _ = none

-- The text of a `sql.NullString`.
abbrev pub null_text : Column → Option String
null_text (text s) = some s
null_text null = some ""
null_text (number n) = none
null_text (flag b) = none
null_text (time t) = none

pub record UserRow : Type 0 where
  pub id : String
  pub email : String
  pub name : String
  pub password : String
  pub activation_token : String
  pub created_at : ℕ
  pub updated_at : ℕ

unfoldable pub user_type : ModelType
user_type = record {
  table_name = "users";
  fields = "email" ∷ "name" ∷ "password" ∷ "activation_token" ∷ "created_at" ∷ "updated_at" ∷ [];
  has_auto_increment_id = false;
  domain_scoped = false;
}

unfoldable pub user_values : UserRow → Model Column
user_values u = record {
  id = text u.id;
  values =
      text u.email
      ∷ text u.name
      ∷ text u.password
      ∷ text u.activation_token
      ∷ time u.created_at
      ∷ time u.updated_at
      ∷ [];
}

unfoldable pub scan_user : List Column → Option UserRow
scan_user
      (text id
        ∷ text email
        ∷ text name
        ∷ text password
        ∷ token
        ∷ time created_at
        ∷ time updated_at
        ∷ []) =
    Option.map
      (λ activation_token. record {
        id = id;
        email = email;
        name = name;
        password = password;
        activation_token = activation_token;
        created_at = created_at;
        updated_at = updated_at;
      })
      (null_text token)
scan_user _ = none

pub record BlobRow : Type 0 where
  pub id : ℤ
  pub key : String
  pub filename : String
  pub content_type : String
  pub byte_size : ℤ
  pub checksum : String
  pub status : String
  pub created_at : ℕ

unfoldable pub blob_type : ModelType
blob_type = record {
  table_name = "tracks_blobs";
  fields =
      "key" ∷ "filename" ∷ "content_type" ∷ "byte_size" ∷ "checksum" ∷ "status" ∷ "created_at" ∷ [];
  has_auto_increment_id = true;
  domain_scoped = false;
}

unfoldable pub blob_values : BlobRow → Model Column
blob_values b = record {
  id = number b.id;
  values =
      text b.key
      ∷ text b.filename
      ∷ text b.content_type
      ∷ number b.byte_size
      ∷ text b.checksum
      ∷ text b.status
      ∷ time b.created_at
      ∷ [];
}

unfoldable pub scan_blob : List Column → Option BlobRow
scan_blob
      (number id
        ∷ text key
        ∷ text filename
        ∷ kind
        ∷ number byte_size
        ∷ text checksum
        ∷ text status
        ∷ time created_at
        ∷ []) =
    Option.map
      (λ content_type. record {
        id = id;
        key = key;
        filename = filename;
        content_type = content_type;
        byte_size = byte_size;
        checksum = checksum;
        status = status;
        created_at = created_at;
      })
      (null_text kind)
scan_blob _ = none

pub record SessionRow : Type 0 where
  pub id : String
  pub data_text : String
  pub flash_text : String
  pub created_at : ℕ
  pub updated_at : ℕ

unfoldable pub session_type : ModelType
session_type = record {
  table_name = "sessions";
  fields = "data" ∷ "flash" ∷ "created_at" ∷ "updated_at" ∷ [];
  has_auto_increment_id = false;
  domain_scoped = false;
}

unfoldable pub session_values : SessionRow → Model Column
session_values s = record {
  id = text s.id;
  values = text s.data_text ∷ text s.flash_text ∷ time s.created_at ∷ time s.updated_at ∷ [];
}

unfoldable pub scan_session : List Column → Option SessionRow
scan_session (text id ∷ text data_text ∷ text flash_text ∷ time created_at ∷ time updated_at ∷ []) =
    some (record {
      id = id;
      data_text = data_text;
      flash_text = flash_text;
      created_at = created_at;
      updated_at = updated_at;
    })
scan_session _ = none
