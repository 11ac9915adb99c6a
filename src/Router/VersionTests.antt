-- ===== src/Router/VersionTests.antt =====
-- A version router of versioning.go and clones of routers, over handlers that are texts.
use tracks.Common.{
  ℕ, String, ◌≡◌, refl, true, none, some, List, [], ◌∷◌, ltb, if◌then◌else◌, ◌==◌, string_eq,
}
use Prim.Native.String.{◌++◌}
use tracks.Common.Text.{has_suffix}
use tracks.Common.Result.{ok, err}
use tracks.Middleware.{Middleware}
use tracks.Router.{Files, Env, RouterState}
use tracks.Router.Versions.{VersionRouter, version}
use tracks.Router.Cloning.{Slice, Arrays}

abbrev label : String → Middleware String String
label name h = ok (name ++ ("(" ++ (h ++ ")")))

abbrev files : Files String
files = record {
  is_file = λ dir. has_suffix dir ".txt";
  serve_file = λ dir. "file " ++ dir;
  file_server = λ dir. "files " ++ dir;
  strip_prefix = λ path h. "strip " ++ (path ++ (": " ++ h));
  set_cache_control = λ value h. value ++ (", " ++ h);
}

-- The template of "missing" is not there.
abbrev env : Env String String String String
env = record {
  to_lower = λ s. s;
  to_snake = λ s. s;
  path_join = λ root path. root ++ path;
  load =
      λ layout controller action. if action == "missing" then err "no template" else ok controller;
  handle = λ controller action f tpl. f;
  accepts = λ ps p. true;
  files = files;
}

-- Handlers write down the headers that they set.
abbrev set_headers : List (String × String) → String → String
set_headers [] h = h
set_headers ((key, value) ∷ hs) h = key ++ ("=" ++ (value ++ (";" ++ set_headers hs h)))

abbrev inner : RouterState String String
inner = record {
  mux = [];
  global_middlewares = record { l = [] };
  request_middlewares = record { l = label "log" ∷ [] };
}

abbrev v1 : VersionRouter String String
v1 = record {
  router = inner;
  prefix = "/v1";
  name = "v1";
  config = record { deprecated = true; sunset = some "Sun"; migration_guide = "" };
}

v1-version :
    version inner "v1"
      (some (record { deprecated = true; sunset = some "Sun"; migration_guide = "" }))
    ≡ v1
unfolding version
v1-version = refl

-- An array of four cells, of which three are used, by middlewares that are numbers.
abbrev three : Arrays ℕ
three = record { cells = λ a i. if ltb i 3 then some i else none; next = 1 }

abbrev used : Slice
used = record { array = 0; len = 3; cap = 4 }
