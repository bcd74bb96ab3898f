-- ===== src/UseCases/Manufacturer.antt =====
-- The manufacturer data of a device: deviceClassificationDetails and what is done with it in
-- eebus-bridge/internal/usecases/classification.go.
use eebus_ha_bridge.Prelude.{Bool, not, ◌&&◌, Option, none, some, [], if◌then◌else◌}
use eebus_ha_bridge.Ski.{Text, text_key, is_empty}

pub record DeviceClassificationDetails : Type 0 where
  pub brand : Text
  pub model : Text
  pub serial : Text
  pub software_revision : Text
  pub hardware_revision : Text

abbrev pub no_details : DeviceClassificationDetails
no_details = record {
  brand = [];
  model = [];
  serial = [];
  software_revision = [];
  hardware_revision = [];
}

-- DeviceClassificationManufacturerDataType: every element is optional.
pub record ManufacturerData : Type 0 where
  pub brand_name : Option Text
  pub vendor_name : Option Text
  pub vendor_code : Option Text
  pub serial_number : Option Text
  pub device_code : Option Text
  pub device_name : Option Text
  pub software_revision : Option Text
  pub hardware_revision : Option Text

-- classificationString
abbrev pub classification_string : Option Text → Text
classification_string none = []
classification_string (some s) = s

-- `if a == "" { a = b }`
abbrev pub or_else : Text → Text → Text
or_else a b = if is_empty a then b else a

unfoldable pub classification_details : ManufacturerData → DeviceClassificationDetails
classification_details d = record {
  brand =
      or_else (or_else (classification_string d.brand_name) (classification_string d.vendor_name))
        (classification_string d.vendor_code);
  model = or_else (classification_string d.device_code) (classification_string d.device_name);
  serial = classification_string d.serial_number;
  software_revision = classification_string d.software_revision;
  hardware_revision = classification_string d.hardware_revision;
}

unfoldable pub merge_classification_details :
    DeviceClassificationDetails → DeviceClassificationDetails → DeviceClassificationDetails
merge_classification_details target source = record {
  brand = or_else target.brand source.brand;
  model = or_else target.model source.model;
  serial = or_else target.serial source.serial;
  software_revision = or_else target.software_revision source.software_revision;
  hardware_revision = or_else target.hardware_revision source.hardware_revision;
}

unfoldable pub is_complete : DeviceClassificationDetails → Bool
is_complete d =
    not (is_empty d.brand)
    && not (is_empty d.model)
    && not (is_empty d.serial)
    && not (is_empty d.software_revision)
    && not (is_empty d.hardware_revision)

unfoldable pub has_no_details : DeviceClassificationDetails → Bool
has_no_details d =
    is_empty d.brand
    && is_empty d.model
    && is_empty d.serial
    && is_empty d.software_revision
    && is_empty d.hardware_revision
