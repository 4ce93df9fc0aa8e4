-- ===== src/Mock/Descriptors.antt =====
-- The descriptors of qemu/9.2.4/mock.c.
use Prim.Native.String.{String}
use co_usb.Prelude.{ℕ, ◌+◌, List, [], ◌∷◌}

-- The constants of the USB specification that the descriptors use.
abbrev pub usb_dir_in : ℕ
usb_dir_in = 0x80

abbrev pub usb_dir_out : ℕ
usb_dir_out = 0

abbrev pub usb_endpoint_xfer_bulk : ℕ
usb_endpoint_xfer_bulk = 2

abbrev pub usb_cfg_att_one : ℕ
usb_cfg_att_one = 0x80

abbrev pub usb_cfg_att_wakeup : ℕ
usb_cfg_att_wakeup = 0x20

pub record EndpointDesc : Type 0 where
  pub endpoint_address : ℕ
  pub attributes : ℕ
  pub max_packet_size : ℕ
  pub max_burst : ℕ

pub record InterfaceDesc : Type 0 where
  pub interface_number : ℕ
  pub num_endpoints : ℕ
  pub interface_class : ℕ
  pub interface_sub_class : ℕ
  pub interface_protocol : ℕ
  pub eps : List EndpointDesc

pub record ConfigDesc : Type 0 where
  pub num_interfaces : ℕ
  pub configuration_value : ℕ
  pub config_attributes : ℕ
  pub max_power : ℕ
  pub nif : ℕ
  pub ifs : List InterfaceDesc

pub record DeviceDesc : Type 0 where
  pub bcd_usb : ℕ
  pub max_packet_size0 : ℕ
  pub num_configurations : ℕ
  pub confs : List ConfigDesc

pub record IdDesc : Type 0 where
  pub id_vendor : ℕ
  pub id_product : ℕ
  pub bcd_device : ℕ
  pub manufacturer : ℕ
  pub product : ℕ
  pub serial_number : ℕ

pub record UsbDesc : Type 0 where
  pub id : IdDesc
  pub super : DeviceDesc
  pub str : List (ℕ × String)

-- The indices of the strings, by the order of the `enum`.
abbrev pub str_manufacturer : ℕ
str_manufacturer = 1

abbrev pub str_product : ℕ
str_product = 2

abbrev pub str_serialnumber : ℕ
str_serialnumber = 3

abbrev pub str_config_super : ℕ
str_config_super = 6

abbrev pub desc_strings : List (ℕ × String)
desc_strings =
    (str_manufacturer, "nikgub")
    ∷ (str_product, "Virtual mock device")
    ∷ (str_serialnumber, "1")
    ∷ (str_config_super, "Super speed config (usb 3.0)")
    ∷ []

-- The operands of each `|` have no bit in common.
abbrev pub desc_iface_super : InterfaceDesc
desc_iface_super = record {
  interface_number = 0;
  num_endpoints = 2;
  interface_class = 0xff;
  interface_sub_class = 0xff;
  interface_protocol = 0xff;
  eps =
      record {
        endpoint_address = usb_dir_in + 0x01;
        attributes = usb_endpoint_xfer_bulk;
        max_packet_size = 1024;
        max_burst = 15;
      }
      ∷ record {
        endpoint_address = usb_dir_out + 0x02;
        attributes = usb_endpoint_xfer_bulk;
        max_packet_size = 1024;
        max_burst = 15;
      }
      ∷ [];
}

abbrev pub desc_device_super : DeviceDesc
desc_device_super = record {
  bcd_usb = 0x0310;
  max_packet_size0 = 8;
  num_configurations = 1;
  confs =
      record {
        num_interfaces = 1;
        configuration_value = 1;
        config_attributes = usb_cfg_att_one + usb_cfg_att_wakeup;
        max_power = 50;
        nif = 1;
        ifs = desc_iface_super ∷ [];
      }
      ∷ [];
}

abbrev pub desc_mock : UsbDesc
desc_mock = record {
  id = record {
    id_vendor = 0x9f9f;
    id_product = 0x9f9f;
    bcd_device = 0x9f9f;
    manufacturer = str_manufacturer;
    product = str_product;
    serial_number = str_serialnumber;
  };
  super = desc_device_super;
  str = desc_strings;
}
