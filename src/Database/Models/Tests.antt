-- ===== src/Database/Models/Tests.antt =====
-- Models with values, inserted and read back.
use tracks.Common.{◌≡◌, refl, true, none, some, [], ◌∷◌}
use tracks.Common.Int.{pos}
use tracks.Database.Models.{
  text, time, null, TenantRow, before_create_tenant, UserRoleRow, SystemRoleRow, UserRow, scan_user,
  BlobRow, SessionRow,
}

abbrev acme : TenantRow
acme = record {
  id = pos 0;
  name = "Acme";
  subdomain = "acme";
  custom_domain = "";
  db_path = "acme.sqlite";
  plan_id = "free";
  active = true;
  created_at = 0;
  updated_at = 5;
}

abbrev owner : UserRoleRow
owner = record {
  id = pos 0;
  user_id = "ann";
  tenant_id = pos 7;
  role = "owner";
  created_at = 1;
  updated_at = 1;
}

abbrev admin : SystemRoleRow
admin = record { id = pos 0; user_id = "ann"; role = "superadmin"; created_at = 1; updated_at = 1 }

abbrev ann : UserRow
ann = record {
  id = "ann";
  email = "ann@a.org";
  name = "Ann";
  password = "6a";
  activation_token = "";
  created_at = 1;
  updated_at = 1;
}

abbrev logo : BlobRow
logo = record {
  id = pos 0;
  key = "k";
  filename = "logo.png";
  content_type = "image/png";
  byte_size = pos 12;
  checksum = "c";
  status = "attached";
  created_at = 1;
}

abbrev visit : SessionRow
visit = record { id = "s"; data_text = "{}"; flash_text = "{}"; created_at = 1; updated_at = 1 }

-- A NULL is read into the token of a user, and not into its name.
no_token :
    scan_user (text "ann" ∷ text "ann@a.org" ∷ text "Ann" ∷ text "6a" ∷ null ∷ time 1 ∷ time 1 ∷ [])
    ≡ some ann
unfolding scan_user
no_token = refl

no_name :
    scan_user (text "ann" ∷ text "ann@a.org" ∷ null ∷ text "6a" ∷ null ∷ time 1 ∷ time 1 ∷ [])
    ≡ none
unfolding scan_user
no_name = refl

-- Only the times that are not set are set.
stamped : before_create_tenant 9 acme ≡ record acme { created_at = 9 }
unfolding before_create_tenant
stamped = refl
