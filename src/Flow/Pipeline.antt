-- ===== src/Flow/Pipeline.antt =====
-- delete_flows, provision_flows, clear_input_output_flows and setup_default_pipeline_on_all_suts
-- (resources/libraries/python/flowutils.py).
use cne_ovs_sit.Base.{
  ℕ, String, false, List, [], ◌∷◌, ◌++◌, fstr, show, contains, lift, Action, for_each, ◌>>=◌, ◌>>◌,
  if◌then◌else◌,
}
use cne_ovs_sit.Constants.{
  of_table_admiss, of_table_input, of_table_acl, of_table_core, of_table_fib, of_table_nat,
  of_table_l2_match, of_table_output,
}
use cne_ovs_sit.Ssh.{Env}
use cne_ovs_sit.Switch.State.{Method}
use cne_ovs_sit.Switch.Exec.{execute_}
use cne_ovs_sit.World.{World, on_switch, for_suts, view}
use cne_ovs_sit.Flow.Output.{generate_output_flows}
use cne_ovs_sit.Flow.Input.{generate_input_flows}

-- A flow that pushes a VLAN tag needs OpenFlow 1.3.
unfoldable pub add_flow_command : String → String → String
add_flow_command br_name flow = fstr (
    "ovs-ofctl "
    ∷ (if contains "push_vlan" flow then "-O OpenFlow13" else "")
    ∷ " add-flow "
    ∷ br_name
    ∷ " "
    ∷ flow
    ∷ [])

module _ (env : Env) where
  unfoldable pub delete_flows : String → Method (Unit {0})
  delete_flows br_name = execute_ env (fstr ("ovs-ofctl del-flows " ∷ br_name ∷ []))

  unfoldable pub provision_flows : String → List String → Method (Unit {0})
  unfolding add_flow_command
  provision_flows br_name flows = do
    for_each flows (λ flow. execute_ env (add_flow_command br_name flow))
    execute_ env (fstr ("ovs-ofctl dump-flows " ∷ br_name ∷ []))

  unfoldable pub clear_input_output_flows : String → Method (Unit {0})
  clear_input_output_flows br_name = do
    execute_ env (fstr ("ovs-ofctl del-flows " ∷ br_name ∷ " table=" ∷ show of_table_input ∷ []))
    execute_ env (fstr ("ovs-ofctl del-flows " ∷ br_name ∷ " table=" ∷ show of_table_output ∷ []))

  -- ACL lets everything pass; CORE learns the source into FIB and goes on to NAT; L2_MATCH looks the
  -- destination up in FIB.
  unfoldable pub core_flows : List String
  core_flows =
      fstr ("table=" ∷ show of_table_acl ∷ ",priority=1,action=drop" ∷ [])
      ∷ fstr (
          "table="
          ∷ show of_table_acl
          ∷ ",priority=100,action=goto_table:"
          ∷ show of_table_core
          ∷ [])
      ∷ fstr (
          "table="
          ∷ show of_table_core
          ∷ ",actions=learn\\(table="
          ∷ show of_table_fib
          ∷ ",NXM_NX_REG0[0..31],NXM_OF_ETH_DST[]=NXM_OF_ETH_SRC[],load:NXM_OF_IN_PORT[]-\\>NXM_NX_REG1[0..15]\\),goto_table:"
          ∷ show of_table_nat
          ∷ [])
      ∷ fstr ("table=" ∷ show of_table_nat ∷ ",action=goto_table:" ∷ show of_table_l2_match ∷ [])
      ∷ fstr (
          "table="
          ∷ show of_table_l2_match
          ∷ ",actions=resubmit\\(,"
          ∷ show of_table_fib
          ∷ "\\),resubmit\\(,"
          ∷ show of_table_output
          ∷ "\\)"
          ∷ [])
      ∷ []

  unfoldable pub setup_default_pipeline : String → ℕ → Action World (Unit {0})
  unfolding core_flows
  setup_default_pipeline br_name i = do
    on_switch i (delete_flows br_name)
    w ← view env i br_name
    inputs ← lift (generate_input_flows w "native")
    outputs ← lift (generate_output_flows w "native" false)
    on_switch i (
        provision_flows br_name (
          fstr (
            "table="
            ∷ show of_table_admiss
            ∷ ",priority=100,action=goto_table:"
            ∷ show of_table_input
            ∷ [])
          ∷ (inputs ++ (core_flows ++ outputs))))

  unfoldable pub setup_default_pipeline_on_all_suts : String → Action World (Unit {0})
  unfolding setup_default_pipeline
  setup_default_pipeline_on_all_suts br_name = for_suts (setup_default_pipeline br_name)
