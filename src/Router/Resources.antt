-- ===== src/Router/Resources.antt =====
-- `Resource` and `ResourceAtPath` of router.go, with the subresources and subcontrollers. A resource is the
-- name of its Go type, its seven actions, and what the two optional interfaces give; its `Inject` is taken
-- not to register anything.
use tracks.Common.{String, Option, none, some, List, [], ◌∷◌}
use Prim.Native.String.{◌++◌}
use tracks.Common.Result.{ok, ◌>>=◌}
use tracks.Router.{
  Env, RouterState, Router, MiddlewareBuilder, default_layout, without_suffix, normalize, Call,
  serve_call, call_all,
}

pub record Functions (A : Type 0) : Type 0 where
  pub index : A
  pub new : A
  pub create : A
  pub show : A
  pub edit : A
  pub update : A
  pub destroy : A

-- `Register` of a controller, on a router that is no `errRouter`.
abbrev pub Controller : Type 0 → Type 0 → Type 0
Controller E H = RouterState E H → String → List (MiddlewareBuilder E H) → Router E H

mutual
  pub data Resource (E H A : Type 0) : Type 0 where
    resource :
        (type_name : String)
        → Functions A
        → Subresources E H A
        → Option (List (Controller E H))
        → Resource E H A

  -- `absent` is a resource without the method `Subresources`.
  pub data Subresources (E H A : Type 0) : Type 0 where
    absent : Subresources E H A
    subresources : Resources E H A → Subresources E H A

  pub data Resources (E H A : Type 0) : Type 0 where
    nil : Resources E H A
    cons : Resource E H A → Resources E H A → Resources E H A

-- `fmt.Sprintf("{%s_id}", name)`
abbrev pub path_param_name : String → String
path_param_name name = "{" ++ (name ++ "_id}")

-- `fmt.Sprintf("%s/{%s_id}/", basePath, name)`
abbrev pub below : String → String → String
below base_path name = base_path ++ ("/" ++ (path_param_name name ++ "/"))

abbrev pub after_subresources : {E H A : Type 0} → Subresources E H A → String → String → String
after_subresources absent base_path name = base_path
after_subresources (subresources _) base_path name = below base_path name

module _ {E H A T : Type 0} (env : Env E H A T) where
  abbrev pub resource_name : String → String
  resource_name type_name = without_suffix "_resource" (env.to_snake type_name)

  abbrev pub base_path_of : String → String → String
  base_path_of root_path name = env.path_join root_path (normalize env.to_lower name)

  abbrev pub func_call :
      (method path controller action : String) → A → List (MiddlewareBuilder E H) → Call E H A
  func_call method path controller action a mws = serve_call (record {
    method = method;
    path = path;
    controller = controller;
    name = action;
    func = a;
    layout = default_layout;
    middlewares = mws;
  })

  -- The eight calls for the actions of a resource.
  abbrev pub action_calls :
      (base_path name : String) → Functions A → List (MiddlewareBuilder E H) → List (Call E H A)
  action_calls base_path name fs mws =
      let one = base_path ++ ("/" ++ path_param_name name) in
      func_call "GET" (base_path ++ "/") name "index" fs.index mws
      ∷ func_call "GET" (base_path ++ "/new") name "new" fs.new mws
      ∷ func_call "POST" (base_path ++ "/") name "create" fs.create mws
      ∷ func_call "GET" one name "show" fs.show mws
      ∷ func_call "GET" (one ++ "/edit") name "edit" fs.edit mws
      ∷ func_call "PUT" one name "update" fs.update mws
      ∷ func_call "POST" one name "update" fs.update mws
      ∷ func_call "DELETE" one name "destroy" fs.destroy mws
      ∷ []

  unfoldable pub controllers_at : Router E H → String → List (Controller E H) → Router E H
  controllers_at nr base_path [] = nr
  controllers_at nr base_path (c ∷ cs) = controllers_at (nr >>= λ r. c r base_path []) base_path cs

  -- `basePath = fmt.Sprintf(...)`, then `for _, sr := range withSubcontrollers.Subcontrollers()`.
  unfoldable pub subcontrollers_at :
      Router E H → String → Option (List (Controller E H)) → Router E H
  unfolding controllers_at
  subcontrollers_at nr base_path none = nr
  subcontrollers_at nr base_path (some cs) = controllers_at nr base_path cs

unfoldable mutual
  unfolding call_all normalize subcontrollers_at

  pub resource_at_path :
      {E H A T : Type 0}
      → Env E H A T
      → RouterState E H
      → String
      → Resource E H A
      → List (MiddlewareBuilder E H)
      → Router E H
  resource_at_path env r root_path (resource type_name fs subs controllers) mws =
      let name = resource_name env type_name in
      let base_path = base_path_of env root_path name in
      let nr = call_all env (ok r) (action_calls env base_path name fs mws) in
      subcontrollers_at env (subresources_at env nr (below base_path name) subs)
        (below (after_subresources subs base_path name) name) controllers

  pub subresources_at :
      {E H A T : Type 0} → Env E H A T → Router E H → String → Subresources E H A → Router E H
  subresources_at env nr base_path absent = nr
  subresources_at env nr base_path (subresources rs) = resources_at env nr base_path rs

  pub resources_at :
      {E H A T : Type 0} → Env E H A T → Router E H → String → Resources E H A → Router E H
  resources_at env nr base_path nil = nr
  resources_at env nr base_path (cons rs rest) =
      resources_at env (nr >>= λ r. resource_at_path env r base_path rs []) base_path rest
