-- ===== src/Item.antt =====
-- skyhook/data.go, skyhook/dataset.go and skyhook/exec_op.go: data types, datasets, items and tasks.
use skyhookml.Prelude.{ℕ, Text, Dict, List, Option}

pub data DataType : Type 0 where
  image video detection shape int floats im_list text string array file table geo_image geo_json :
      DataType

pub record Dataset : Type 0 where
  pub id : ℕ
  pub name : Text
  pub kind : Text
  pub data_type : DataType
  pub metadata : Text
  pub hash : Option Text

pub record Item : Type 0 where
  pub dataset : Dataset
  pub key : Text
  pub ext : Text
  pub format : Text
  pub metadata : Text
  pub provider : Option Text
  pub provider_info : Option Text

-- `items` maps an input's name to the items in each of its datasets.
pub record ExecTask : Type 0 where
  pub key : Text
  pub items : Dict Text (List (List Item))
  pub metadata : Text
