-- ===== src/V1alpha1/Resources.antt =====
-- The custom resources Template and Hardware: template_types.go, template_methods.go, hardware_types.go
-- and hardware_methods.go. Of a hardware's specification the interfaces are kept.
use tink.Prelude.{String, Bool, Option, List}
use tink.Prelude.Int.{ℤ}
use tink.V1alpha1.Methods.{annotation, set_annotation}

pub record Template : Type 0 where
  pub name : String
  pub annotations : List (String × String)
  pub creation_timestamp : ℤ
  pub deletion_timestamp : Option ℤ
  -- Spec.Data
  pub content : Option String

abbrev pub template_annotation : String
template_annotation = "template.tinkerbell.org/id"

unfoldable pub template_id : Template → String
unfolding annotation
template_id t = annotation template_annotation t.annotations

unfoldable pub set_template_id : Template → String → Template
unfolding set_annotation
set_template_id t id = record t {
  annotations = set_annotation template_annotation id t.annotations;
}

pub record Ip : Type 0 where
  pub address : String
  pub netmask : String
  pub gateway : String
  pub family : ℤ

pub record Dhcp : Type 0 where
  pub mac : String
  pub hostname : String
  pub lease_time : ℤ
  pub name_servers : List String
  pub time_servers : List String
  pub arch : String
  pub uefi : Bool
  pub iface_name : String
  pub ip : Option Ip
  pub vlan_id : String

pub record Ipxe : Type 0 where
  pub url : String
  pub contents : String

pub record Osie : Type 0 where
  pub base_url : String
  pub kernel : String
  pub initrd : String

pub record Netboot : Type 0 where
  pub allow_pxe : Option Bool
  pub allow_workflow : Option Bool
  pub ipxe : Option Ipxe
  pub osie : Option Osie

pub record Interface : Type 0 where
  pub netboot : Option Netboot
  pub dhcp : Option Dhcp

pub record Hardware : Type 0 where
  pub annotations : List (String × String)
  pub interfaces : List Interface

abbrev pub hardware_annotation : String
hardware_annotation = "hardware.tinkerbell.org/id"

unfoldable pub hardware_id : Hardware → String
unfolding annotation
hardware_id h = annotation hardware_annotation h.annotations

unfoldable pub set_hardware_id : Hardware → String → Hardware
unfolding set_annotation
set_hardware_id h id = record h {
  annotations = set_annotation hardware_annotation id h.annotations;
}
