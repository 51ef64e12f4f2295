-- ===== src/Proto/Hardware.antt =====
-- The messages of protos/hardware/hardware.proto: a machine with its network interfaces.
use tink.Prelude.{String, Bool, Option, none, some, List, []}
use tink.Prelude.Int.{ℤ}

pub record Ip : Type 0 where
  pub address : String
  pub netmask : String
  pub gateway : String
  pub family : ℤ

pub record Dhcp : Type 0 where
  pub mac : String
  pub hostname : String
  pub lease_time : ℤ
  pub name_servers : List String
  pub time_servers : List String
  pub arch : String
  pub uefi : Bool
  pub iface_name : String
  pub ip : Option Ip

pub record Ipxe : Type 0 where
  pub url : String
  pub contents : String

pub record Osie : Type 0 where
  pub base_url : String
  pub kernel : String
  pub initrd : String

pub record Netboot : Type 0 where
  pub allow_pxe : Bool
  pub allow_workflow : Bool
  pub ipxe : Option Ipxe
  pub osie : Option Osie

pub record Interface : Type 0 where
  pub dhcp : Option Dhcp
  pub netboot : Option Netboot

pub record Network : Type 0 where
  pub interfaces : List Interface

pub record Hardware : Type 0 where
  pub network : Option Network
  pub id : String
  pub version : ℤ
  pub metadata : String

-- GetNetwork().GetInterfaces()
abbrev pub interfaces_of : Option Network → List Interface
interfaces_of none = []
interfaces_of (some n) = n.interfaces

-- GetDhcp().GetMac()
abbrev pub mac_of : Option Dhcp → String
mac_of none = ""
mac_of (some d) = d.mac
