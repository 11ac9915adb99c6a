-- ===== src/Application/Tests.antt =====
-- An application at concrete configurations.
use tracks.Common.{◌≡◌, refl, false, none, some, nat_eq, string_eq}
use Prim.Native.String.{◌++◌ as append}
use tracks.Common.Result.{ok, err, ◌>>=◌}
use tracks.Middleware
use tracks.Http.{blank}
use tracks.Session.Data.{SessionData, empty_session, put_value}
use tracks.Translations.Language.{detect_language}
use tracks.Application.{
  Context, Config, AppEnv, Handler, view_var, canonical, new_from_config, app_handler,
}
use tracks.Application.Language.{served, new_from_config-language}

abbrev conf : Config
conf = record { cache_driver = "memory"; jobs_driver = "memory"; workers = 0 }

-- Each session says French.
abbrev french : Context → SessionData
french _ = put_value (empty_session "s") "language" "fr"

abbrev env : AppEnv
env = record { database = ok tt; sessions = ok french; split_host_port = λ _. none }

abbrev visit : Context
visit = record {
  request = blank;
  host = "shop.test";
  queue = none;
  has_cache = false;
  domain = "";
  has_database = false;
  language = "";
  view_vars = none;
  session = none;
}

abbrev handler : Handler
handler = served env conf french

-- The page is in English all the same.
new_from_config-language_example :
    ((handler visit).language ≡ detect_language blank none "en")
    × (view_var (handler visit) "locale" ≡ some (detect_language blank none "en"))
    × (view_var (handler visit) "canonical_url"
        ≡ some (canonical (append "https://floralynx.com" "/") (detect_language blank none "en")))
unfolding new_from_config Middleware.apply Middleware.wrap Middleware.wrap_down app_handler
new_from_config-language_example =
    new_from_config-language env conf french handler visit refl refl refl refl

english_page : (handler visit).language ≡ "en"
unfolding detect_language tracks.Application.domain_layer tracks.Application.canonical_layer
english_page = refl

no_database :
    (new_from_config (record env { database = err "refused" }) conf >>= app_handler) ≡ err "refused"
unfolding new_from_config
no_database = refl
