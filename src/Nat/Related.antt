-- ===== src/Nat/Related.antt =====
-- _nat_execute_related (resources/libraries/python/nat.py): an ICMP error that belongs to a translated
-- connection. The texts of the addresses are given; `none` of a virtual address prints as "None".
use cne_ovs_sit.Base.{
  ℕ, ◌+◌, ◌&&◌, String, Bool, true, false, List, [], ◌∷◌, none, some, fstr, show_option, contains,
  readlines, pure, attribute_error, or_raise, Action, ◌>>=◌, ◌>>◌, if◌then◌else◌,
}
use cne_ovs_sit.Ssh.{Env}
use cne_ovs_sit.Vif.{InterfaceAddress, VirtualInterface}
use cne_ovs_sit.World.{World, VirtualMachine, on_switch}
use cne_ovs_sit.Guest.Exec.{Session, execute, execute_, kill_process}
use cne_ovs_sit.Guest.Configure.{device}
use cne_ovs_sit.Pal.Topology.{EndPoint}
use cne_ovs_sit.Pal.Traffic.{in_guest, end_point}
use cne_ovs_sit.Nat.{NatSpec, is_snat}

pub data Direction : Type 0 where
  orig reply : Direction

-- What depends on the IP version: addresses as texts, options and key words.
pub record Views : Type 0 where
  pub client_ip : String
  pub server_ip : String
  pub client_view_server_ip : String
  pub server_view_client_ip : String
  pub nc_option : String
  pub iptables_option : String
  pub iptables_reject_type : String
  pub related_expected_key : String
  pub tcpdump_option : String

unfoldable pub views : Env → NatSpec → InterfaceAddress → InterfaceAddress → Bool → Views
unfolding is_snat
views env spec client server true = record {
  client_ip = env.show_ipv4 client.ipv4;
  server_ip = env.show_ipv4 server.ipv4;
  client_view_server_ip =
      if is_snat spec then env.show_ipv4 server.ipv4 else show_option spec.vipv4;
  server_view_client_ip =
      if is_snat spec then env.show_ipv4 spec.ipv4_ia_start else env.show_ipv4 client.ipv4;
  nc_option = "";
  iptables_option = "";
  iptables_reject_type = "icmp-host-prohibited";
  related_expected_key = "unreachable - admin prohibited";
  tcpdump_option = "icmp";
}
views env spec client server false = record {
  client_ip = env.show_ipv6 client.ipv6;
  server_ip = env.show_ipv6 server.ipv6;
  client_view_server_ip =
      if is_snat spec then env.show_ipv6 server.ipv6 else show_option spec.vipv6;
  server_view_client_ip =
      if is_snat spec then env.show_ipv6 spec.ipv6_ia_start else env.show_ipv6 client.ipv6;
  nc_option = " -6 ";
  iptables_option = "6";
  iptables_reject_type = "icmp6-adm-prohibited";
  related_expected_key = "unreachable prohibited";
  tcpdump_option = "icmp6";
}

abbrev loop_command : String
loop_command =
    "sudo sh -c 'cat << EOF > ./loop\n#!/bin/sh\n\nwhile true; do \n    echo \"hello\"\n    sleep 1\ndone\n'"

-- All the texts stand in the line.
unfoldable pub has_all : List String → String → Bool
unfolding contains
has_all [] line = true
has_all (s ∷ ss) line = contains s line && has_all ss line

unfoldable pub count_related : List String → List String → ℕ
unfolding has_all
count_related texts [] = 0
count_related texts (line ∷ lines) =
    (if has_all texts line then 1 else 0) + count_related texts lines

-- A guest with the interface of the test on it.
abbrev Side : Type 0
Side = VirtualMachine × VirtualInterface

-- Where the packets are captured, where they are rejected, and the address that is rejected.
abbrev sides : Direction → Views → Side → Side → Side × Side × String
sides orig v client server = (server, client, v.client_ip)
sides reply v client server = (client, server, v.server_ip)

abbrev reject_rule : String → Views → Side → String → String
reject_rule change v side ip = fstr (
    "ip"
    ∷ v.iptables_option
    ∷ "tables -"
    ∷ change
    ∷ " INPUT -i "
    ∷ device side.1
    ∷ " -d "
    ∷ ip
    ∷ " -j REJECT  --reject-with "
    ∷ v.iptables_reject_type
    ∷ [])

abbrev expected_texts : Direction → Views → List String
expected_texts orig v =
    v.related_expected_key ∷ fstr (v.server_view_client_ip ∷ " > " ∷ v.server_ip ∷ []) ∷ []
expected_texts reply v =
    v.related_expected_key ∷ fstr (v.client_view_server_ip ∷ " > " ∷ v.client_ip ∷ []) ∷ []

module _ (env : Env) where
  -- A number of packets that is not the expected one is only logged, so the session returns it.
  unfoldable pub execute_related : Views → Direction → Side → Side → Session ℕ
  unfolding execute device count_related
  execute_related v direction client server =
      let (capture, reject, ip) = sides direction v client server in
      do
        execute_ env client.0 loop_command
        execute_ env server.0 loop_command
        execute_ env client.0 "chmod +x ./loop"
        execute_ env server.0 "chmod +x ./loop"
        execute_ env server.0 (
            fstr (
              "nohup sh -c \"./loop | nc " ∷ v.nc_option ∷ " -u -l -p 10000\" >/dev/null 2>&1 &"
              ∷ []))
        execute_ env client.0 (
            fstr (
              "nohup sh -c \"./loop | nc " ∷ v.nc_option ∷ " -u " ∷ v.client_view_server_ip
              ∷ " 10000\" >/dev/null 2>&1 &" ∷ []))
        execute_ env capture.0 "rm -rf ./cap"
        execute_ env capture.0 (
            fstr (
              "nohup tcpdump -U -i "
              ∷ device capture.1
              ∷ " "
              ∷ v.tcpdump_option
              ∷ " -w ./cap >/dev/null 2>&1 &"
              ∷ []))
        execute_ env reject.0 (reject_rule "I" v reject ip)
        answer ← execute env capture.0 "tcpdump -r ./cap" 30 true (some false)
        execute_ env reject.0 (reject_rule "D" v reject ip)
        kill_process env capture.0 "tcpdump"
        kill_process env server.0 "nc"
        kill_process env client.0 "nc"
        pure (
            count_related (expected_texts direction v)
              (readlines (elim answer.stdout [ none ↦ "" | some log ↦ log ])))

  -- `ipv4` says whether the version is 4.
  unfoldable pub nat_execute_related :
      NatSpec → EndPoint → EndPoint → Bool → Direction → Action World (Unit {0})
  unfolding views execute_related end_point in_guest
  nat_execute_related spec sep dep ipv4 direction = do
    client ← end_point sep
    server ← end_point dep
    client_addr ← or_raise (client.1).if_addr attribute_error
    server_addr ← or_raise (server.1).if_addr attribute_error
    on_switch sep.host (
        in_guest
          (execute_related (views env spec client_addr server_addr ipv4) direction client server))
    pure tt
