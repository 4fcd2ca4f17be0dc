-- ===== src/Configuration/Strict.antt =====
-- What a configuration that could be created gives to the SDK.
use hermes_claude_agent_sdk.Common.{
  and-true, String, ◌≡◌, refl, subst, true, ◌&&◌, List, [], Option, some, all,
}
use hermes_claude_agent_sdk.Python.{Value, Float, Interpreter}
use hermes_claude_agent_sdk.Configuration.{
  Arguments, Configuration, to_float, create, create_tooled, create_timed, configuration,
  option_fields,
}
use hermes_claude_agent_sdk.Configuration.Checks.{
  is_hermes_tool, is_distinct, is_hermes_server, is_timeout,
}
use hermes_claude_agent_sdk.Common.Options.{check-some, bind-some, some-inj}

-- No native tool; distinct Hermes tools on Hermes servers only; every timeout in its bounds.
pub record IsStrict (c : Configuration) : Type 0 where
  pub native : (option_fields c).tools ≡ []
  pub hermes_tools : all is_hermes_tool (option_fields c).allowed_tools ≡ true
  pub distinct : is_distinct (option_fields c).allowed_tools ≡ true
  pub hermes_servers : all is_hermes_server (option_fields c).mcp_servers ≡ true
  pub timed :
      (is_timeout c.turn_timeout ≡ true)
      × (is_timeout c.connect_timeout ≡ true)
      × (is_timeout c.close_timeout ≡ true)

module _ (py : Interpreter) (parse : String → Option Float) where
  timed-IsStrict :
      (a : Arguments) (cwd : String) (model : Option String) (prompt : String)
      (resume : Option String) (tools : List String) (mcp : List (Value × Value))
      (c : Configuration)
      → all is_hermes_tool tools ≡ true
      → is_distinct tools ≡ true
      → all is_hermes_server mcp ≡ true
      → create_timed py parse a cwd model prompt resume tools mcp ≡ some c
      → IsStrict c
  unfolding create_timed option_fields configuration
  timed-IsStrict a cwd model prompt resume tools mcp c t d m h =
      let (turn, _, h1) = bind-some (to_float py parse a.turn_timeout) _ c h in
      let (connect, _, h2) = bind-some _ _ c h1 in
      let (close, _, h3) = bind-some _ _ c h2 in
      let (in_bounds, e) = check-some _ _ c h3 in
      let (two, last) =
        and-true (is_timeout turn && is_timeout connect) (is_timeout close) in_bounds in
      let (first, second) = and-true (is_timeout turn) (is_timeout connect) two in
      subst IsStrict (some-inj _ c e) (record {
        native = refl;
        hermes_tools = t;
        distinct = d;
        hermes_servers = m;
        timed = (first, second, last);
      })

  tooled-IsStrict :
      (a : Arguments) (cwd : String) (model : Option String) (prompt : String)
      (resume : Option String) (c : Configuration)
      → create_tooled py parse a cwd model prompt resume ≡ some c
      → IsStrict c
  unfolding create_tooled
  tooled-IsStrict a cwd model prompt resume c h =
      let (tools, _, h1) = bind-some _ _ c h in
      let (hermes, h2) = check-some _ _ c h1 in
      let (distinct, h3) = check-some _ _ c h2 in
      let (mcp, _, h4) = bind-some _ _ c h3 in
      let (served, h5) = check-some _ _ c h4 in
      timed-IsStrict a cwd model prompt resume tools mcp c hermes distinct served h5

  -- A configuration that could be created gives the SDK no native tool, only distinct names of
  -- Hermes tools and only the Hermes server; each of its timeouts is above 0 and at most 86,400.
  pub create-IsStrict :
      (a : Arguments) (c : Configuration) → create py parse a ≡ some c → IsStrict c
  unfolding create
  create-IsStrict a c h =
      let (cwd, _, h1) = bind-some _ _ c h in
      let (model, _, h2) = bind-some _ _ c h1 in
      let (prompt, _, h3) = bind-some _ _ c h2 in
      let (resume, _, h4) = bind-some _ _ c h3 in
      let (_, h5) = check-some _ _ c h4 in
      let (_, h6) = check-some _ _ c h5 in
      let (_, h7) = check-some _ _ c h6 in tooled-IsStrict a cwd model prompt resume c h7
